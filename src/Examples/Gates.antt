-- ===== src/Examples/Gates.antt =====
-- Requests at the gates, and drivers with given answers.
use goalpaca.Prelude.{
  ℤ, pos, neg, ◌≤ℤ◌, ◌≡◌, ◌≢◌, ◌↔◌, refl, arith, true, false, [], ◌∷◌, none, some,
}
use goalpaca.Float.{Within, IsNan}
use goalpaca.Float.Exact.{exact, exact_ieee, nan, num}
use goalpaca.Alpaca.Errors.{error_number_for, err_num_parked, err_invalid_value}
use goalpaca.Server.Gates.{Sprintf, invalid_range, non_negative}
use goalpaca.Server.Gates.Devices.{
  gate_rotator_position, gate_observing_conditions_average_period, gate_switch_bounds,
}
use goalpaca.Alpaca.ImageBytes.Word.{i64_of}
use goalpaca.Server.Gates.Camera
use goalpaca.Server.Gates.Telescope
use goalpaca.Server.Gates.Telescope.{gate_telescope_move_axis, valid_ra_dec, valid_alt_az}
use goalpaca.Server.Gates.Parked.{
  slew_to_coordinates, find_home, gate_motion, gate_motion-parked, gate_motion-Parked_number,
  parked_as,
}
use goalpaca.Server.Gates.Ranges.{range_gates-nan, valid_ra_dec_lem}
use goalpaca.Server.Gates.Rates.{IsAdvertised, gate_telescope_move_axis_lem}
use goalpaca.Server.Gates.Exposure.{
  valid_subframe_lem, valid_subframe_wraps, IsOnSensor, max_w, max_h,
}

-- A Sprintf that prints the format.
abbrev pub plain_format : Sprintf exact
plain_format format a = format

-- A mount that can do everything and is parked.
abbrev mount : Telescope.Telescope exact
mount = record {
  can_find_home = true;
  can_move_axis = λ axis. true;
  can_park = true;
  can_pulse_guide = true;
  can_set_declination_rate = true;
  can_set_guide_rates = true;
  can_set_park = true;
  can_set_pier_side = true;
  can_set_right_ascension_rate = true;
  can_set_tracking = true;
  can_unpark = true;
  at_park = true;
  axis_rates = λ axis. (record { minimum = num (pos 0); maximum = num (pos 5) }) ∷ [];
  tracking_rate = pos 0;
  tracking_rates = pos 0 ∷ [];
  target_right_ascension = (num (pos 0), none);
  target_declination = (num (pos 0), none);
}

gate_motion-parked_example :
    gate_motion exact plain_format mount
      (slew_to_coordinates "SlewToCoordinates" true (num (pos 5)) (num (pos 20)))
    ≢ none
gate_motion-parked_example =
    gate_motion-parked exact plain_format mount
      (slew_to_coordinates "SlewToCoordinates" true (num (pos 5)) (num (pos 20))) refl

gate_motion-Parked_number_example :
    (error_number_for (gate_motion exact plain_format (parked_as exact true mount) find_home)).0
    ≡ err_num_parked
unfolding gate_motion Telescope.gate_telescope_find_home
gate_motion-Parked_number_example =
    gate_motion-Parked_number exact plain_format mount find_home refl

-- Axis 1 at 3 degrees per second.
gate_telescope_move_axis_lem_example :
    (gate_telescope_move_axis exact plain_format mount (pos 1) (num (pos 3)) ≡ none) ↔ (
      (pos 0 ≤ℤ pos 1)
      × (pos 1 ≤ℤ pos 2)
      × (true ≡ true)
      × IsAdvertised exact plain_format mount (pos 1) (num (pos 3))
      × (true ≡ false))
gate_telescope_move_axis_lem_example =
    gate_telescope_move_axis_lem exact plain_format mount (pos 1) (num (pos 3))

nan-IsNan : IsNan exact nan
nan-IsNan nan = (refl, refl, refl, refl)
nan-IsNan (num z) = (refl, refl, refl, refl)

range_gates-nan_example :
    (invalid_range exact plain_format "SiteLatitude" nan (num (neg 90)) (num (pos 90)) ≡ none)
    × (non_negative exact plain_format "SiteLatitude" nan ≡ none)
    × (gate_rotator_position exact plain_format nan ≡ none)
    × (gate_observing_conditions_average_period exact plain_format nan ≡ none)
    × (valid_ra_dec exact plain_format nan nan ≡ none)
    × (valid_alt_az exact plain_format nan nan ≡ none)
    × (gate_switch_bounds exact plain_format (num (neg 90), none) (num (pos 90), none) (pos 2) nan
        ≡ none)
range_gates-nan_example =
    range_gates-nan exact plain_format nan "SiteLatitude" (num (neg 90)) (num (pos 90)) (pos 2)
      nan-IsNan

valid_ra_dec_lem_example :
    (valid_ra_dec exact plain_format (num (pos 23)) (num (neg 90)) ≡ none) ↔ (
      (exact.le (num (pos 0)) (num (pos 23)) ≡ true)
      × (exact.le (num (pos 24)) (num (pos 23)) ≡ false)
      × Within exact (neg 90) (pos 90) (num (neg 90)))
valid_ra_dec_lem_example =
    valid_ra_dec_lem exact exact_ieee plain_format (num (pos 23)) (num (neg 90)) (refl, refl)

-- A camera of 100 × 80 pixels that is binned 2 × 2, with two gains and offsets from 0 to 50. The
-- rectangle starts at the given column and has the given width.
abbrev camera : ℤ → ℤ → Camera.Camera
camera start_x num_x = record {
  sensor_type = pos 2;
  can_gain = true;
  gains = ("low" ∷ "high" ∷ [], none);
  gain_min = pos 0;
  gain_max = pos 0;
  can_offset = true;
  offsets = ([], some err_invalid_value);
  offset_min = pos 0;
  offset_max = pos 50;
  can_get_cooler_power = false;
  can_fast_readout = false;
  can_set_ccd_temperature = true;
  can_stop_exposure = true;
  can_abort_exposure = true;
  can_pulse_guide = false;
  readout_modes = "normal" ∷ [];
  max_bin_x = pos 2;
  max_bin_y = pos 2;
  bin_x = pos 2;
  bin_y = pos 2;
  camera_x_size = pos 100;
  camera_y_size = pos 80;
  start_x = start_x;
  start_y = pos 0;
  num_x = num_x;
  num_y = pos 40;
}

valid_subframe_lem_example :
    (Camera.valid_subframe exact plain_format (camera (pos 10) (pos 40)) ≡ none)
    ↔ IsOnSensor
        (camera (pos 10) (pos 40))
        (max_w (camera (pos 10) (pos 40)))
        (max_h (camera (pos 10) (pos 40)))
valid_subframe_lem_example =
    valid_subframe_lem exact plain_format (camera (pos 10) (pos 40)) (omega arith) (omega arith)

-- The column 2^63 - 1.
valid_subframe_wraps_example :
    Camera.valid_subframe exact plain_format (camera (pos 9223372036854775807) (pos 50)) ≡ none
unfolding Camera.add_int Camera.div_int i64_of
valid_subframe_wraps_example =
    valid_subframe_wraps exact plain_format (camera (pos 9223372036854775807) (pos 50))
      9223372036854775807 50 100 refl refl (omega arith) (omega arith) (omega arith)
      (refl, omega arith, omega arith) (omega arith, omega arith) (omega arith)
