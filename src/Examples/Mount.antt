-- ===== src/Examples/Mount.antt =====
-- The simulated mount behind the gates.
use goalpaca.Prelude.{pos, ◌≡◌, refl, true, false, inl, inr, List, [], ◌∷◌, ◌*ℤ◌, ◌+ℤ◌, ◌-ℤ◌}
use goalpaca.Float.Exact.{exact, num}
use goalpaca.Alpaca.Errors.{error_number_for}
use goalpaca.Server.Gates.{Sprintf, parked_err}
use goalpaca.Server.Gates.Telescope.{gate_telescope_tracking, gate_telescope_park}
use goalpaca.Server.Gates.Parked.{gate_motion}
use goalpaca.Sim.Telescope
use goalpaca.Sim.Telescope.{new_telescope, ra_done, dec_done}
use goalpaca.Sim.Telescope.Calls
use goalpaca.Sim.Telescope.Stopping.{abort_slew_lem}
use goalpaca.Sim.Telescope.Parking
use goalpaca.Server.Transaction.{find, req_bool, required, get}
use goalpaca.Server.Handlers.{dispatch, gated, with_arg}
use goalpaca.Server.Handlers.Telescope.{
  telescope_put, put_case, moved, after_gate, asks_park, put_tracking,
}
use goalpaca.Sim.Telescope.Served.{Put, put_all}
use goalpaca.Sim.Telescope.Served.AtRest.{telescope_put-parked}
use goalpaca.Examples.Requests.{five_library, no_params}
use goalpaca.Sim.Telescope.Takeover.{slew_parks_at_target}
use goalpaca.Sim.Telescope.Waiting.{HasArrived, slew_to_coordinates_ends}

-- A Sprintf that prints the format.
abbrev format_only : Sprintf exact
format_only format a = format

-- A slew from the pole to 5 hours and 20 degrees.
abbrev slewing : Telescope.Telescope exact
slewing =
    Calls.slew_to_coordinates_async exact 1000000000 (num (pos 5)) (num (pos 20))
      (new_telescope exact)

abort_slew_lem_example :
    ((Calls.is_slewing exact 9000000000 (Calls.abort_slew exact 2000000000 slewing)).1 ≡ false)
    × ((Calls.is_at_park exact 9000000000 (Calls.abort_slew exact 2000000000 slewing)).1
        ≡ (Calls.is_at_park exact 2000000000 slewing).1)
abort_slew_lem_example = abort_slew_lem exact refl 2000000000 9000000000 slewing

-- A park at the pole, where the mount stands, and a request to track after it.
abbrev requests : List (Put exact)
requests =
    (record { now = 1000000000; polls = []; member = "park"; params = no_params })
    ∷ (record { now = 2000000000; polls = []; member = "tracking"; params = no_params })
    ∷ []

telescope_put-parked_example :
    ((Calls.is_at_park exact 20000000000
        (put_all exact five_library format_only requests (new_telescope exact))).0.tracking
      ≡ false)
    × ((Calls.is_slewing exact 20000000000
          (put_all exact five_library format_only requests (new_telescope exact))).1
        ≡ false)
unfolding put_all telescope_put dispatch find put_case gated with_arg moved after_gate asks_park
    put_tracking gate_telescope_park req_bool required get gate_motion gate_telescope_tracking
    parked_err Calls.is_at_park Calls.park Telescope.settle new_telescope Telescope.begin_slew
    Telescope.freeze Telescope.current_ra Telescope.current_dec Telescope.axis_moving
    Telescope.settle_rates Telescope.rate_drift_active Telescope.stop_axes Telescope.settle_axes
    Parking.view error_number_for
telescope_put-parked_example =
    telescope_put-parked exact five_library format_only refl requests 20000000000 refl

-- A mount at 5 hours and 20 degrees that has been told to park.
abbrev parking : Telescope.Telescope exact
parking = record (new_telescope exact) {
  start_ra = num (pos 5);
  start_dec = num (pos 20);
  slewing = true;
  slew_start = 1000000000;
  park_on_arrive = true;
}

slew_parks_at_target_example :
    let s =
      Calls.slew_to_coordinates_async exact 1000000000 (num (pos 11)) (num (pos 60)) parking in
    ((Calls.is_at_park exact 9000000000 s).1 ≡ true)
    × ((Calls.right_ascension exact 9000000000 s).1 ≡ num (pos 11))
    × ((Calls.declination exact 9000000000 s).1 ≡ num (pos 60))
unfolding Calls.slew_to_coordinates_async Telescope.begin_slew Telescope.freeze Telescope.current_ra
    Telescope.axis_moving Telescope.settle_rates Telescope.rate_drift_active Telescope.stop_axes
    Telescope.settle_axes new_telescope ra_done ◌-ℤ◌ ◌*ℤ◌ ◌+ℤ◌ dec_done Telescope.current_dec
slew_parks_at_target_example =
    slew_parks_at_target exact refl 1000000000 9000000000 (num (pos 11)) (num (pos 60)) parking refl
      (refl, refl, refl)

-- One look at the mount after a second, and one after nine.
slew_to_coordinates_ends_example :
    let arrived =
      Calls.slew_to_coordinates exact 1000000000
        (2000000000 ∷ 10000000000 ∷ [])
        (num (pos 5))
        (num (pos 20))
        (new_telescope exact) in
    HasArrived exact (num (pos 5)) (num (pos 20)) arrived
    × ((Calls.is_slewing exact 30000000000 arrived).1 ≡ false)
unfolding Calls.slew_to_coordinates_async Telescope.begin_slew Telescope.freeze Telescope.current_ra
    Telescope.axis_moving Telescope.settle_rates Telescope.rate_drift_active Telescope.stop_axes
    Telescope.settle_axes new_telescope ra_done ◌-ℤ◌ ◌*ℤ◌ ◌+ℤ◌ dec_done Telescope.current_dec
slew_to_coordinates_ends_example =
    slew_to_coordinates_ends exact refl 1000000000 30000000000 (2000000000 ∷ 10000000000 ∷ [])
      (num (pos 5)) (num (pos 20)) (new_telescope exact) refl (inr (inl (refl, refl)))
