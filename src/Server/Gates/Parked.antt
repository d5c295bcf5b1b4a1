-- ===== src/Server/Gates/Parked.antt =====
-- What the telescope's gates do on a parked mount.
use goalpaca.Prelude.{String, ℤ, ◌≡◌, ◌≢◌, Bool, true, false, none, arith}
use goalpaca.Alpaca.Errors.{Error, error_number_for, number_and_text, as_alpaca, err_num_parked}
use goalpaca.Float.{Float64}
use goalpaca.Server.Gates.{Sprintf, not_impl_err, parked_err, invalid_valuef}
use goalpaca.Server.Gates.Telescope.{
  Telescope, gate_telescope_tracking, gate_telescope_abort_slew, gate_telescope_find_home,
  gate_telescope_move_axis, gate_telescope_pulse_guide, gate_telescope_slew_to_coordinates,
  gate_telescope_slew_to_alt_az, gate_telescope_slew_to_target, gate_axis_rate, valid_axis_rate,
}

-- The requests that move the mount, or stop it.
pub data Motion (f : Float64) : Type 0 where
  tracking_on : Motion f
  abort_slew : Motion f
  find_home : Motion f
  move_axis : ℤ → f.F → Motion f
  pulse_guide : ℤ → ℤ → Motion f
  -- With the member's name, and the flag of the mount for it.
  slew_to_coordinates : String → Bool → f.F → f.F → Motion f
  slew_to_alt_az : String → Bool → f.F → f.F → Motion f
  slew_to_target : String → Bool → Motion f

-- The gate of each.
unfoldable pub gate_motion : (f : Float64) → Sprintf f → Telescope f → Motion f → Error
gate_motion f sprintf t tracking_on = gate_telescope_tracking f sprintf t true
gate_motion f sprintf t abort_slew = gate_telescope_abort_slew f sprintf t
gate_motion f sprintf t find_home = gate_telescope_find_home f sprintf t
gate_motion f sprintf t (move_axis axis rate) = gate_telescope_move_axis f sprintf t axis rate
gate_motion f sprintf t (pulse_guide dir duration) =
    gate_telescope_pulse_guide f sprintf t dir duration
gate_motion f sprintf t (slew_to_coordinates member can ra dec) =
    gate_telescope_slew_to_coordinates f sprintf t member can ra dec
gate_motion f sprintf t (slew_to_alt_az member can az alt) =
    gate_telescope_slew_to_alt_az f sprintf t member can az alt
gate_motion f sprintf t (slew_to_target member can) =
    gate_telescope_slew_to_target f sprintf t member can

-- On a parked mount every request that moves it, turns tracking on or aborts a slew is refused,
-- whatever its arguments and the capabilities of the mount.
pub gate_motion-parked :
    (f : Float64) (sprintf : Sprintf f) (t : Telescope f) (q : Motion f)
    → t.at_park ≡ true
    → gate_motion f sprintf t q ≢ none
unfolding gate_motion gate_telescope_tracking gate_telescope_abort_slew gate_telescope_find_home
    gate_telescope_move_axis gate_telescope_pulse_guide gate_telescope_slew_to_coordinates
    gate_telescope_slew_to_alt_az gate_telescope_slew_to_target not_impl_err parked_err
    invalid_valuef
gate_motion-parked f sprintf t tracking_on h = ground arith
gate_motion-parked f sprintf t abort_slew h = ground arith
gate_motion-parked f sprintf t find_home h = ground arith
gate_motion-parked f sprintf t (move_axis axis rate) h = ground arith
gate_motion-parked f sprintf t (pulse_guide dir duration) h = ground arith
gate_motion-parked f sprintf t (slew_to_coordinates member can ra dec) h = ground arith
gate_motion-parked f sprintf t (slew_to_alt_az member can az alt) h = ground arith
gate_motion-parked f sprintf t (slew_to_target member can) h = ground arith

-- The same mount, parked or not.
abbrev pub parked_as : (f : Float64) → Bool → Telescope f → Telescope f
parked_as f p t = record t { at_park = p }

-- A request that the gate lets through when the mount is not parked is answered, when the same
-- mount is parked, with the number of the Parked error and no other.
pub gate_motion-Parked_number :
    (f : Float64) (sprintf : Sprintf f) (t : Telescope f) (q : Motion f)
    → gate_motion f sprintf (parked_as f false t) q ≡ none
    → (error_number_for (gate_motion f sprintf (parked_as f true t) q)).0 ≡ err_num_parked
unfolding gate_motion gate_telescope_tracking gate_telescope_abort_slew gate_telescope_find_home
    gate_telescope_move_axis gate_telescope_pulse_guide gate_telescope_slew_to_coordinates
    gate_telescope_slew_to_alt_az gate_telescope_slew_to_target not_impl_err parked_err
    invalid_valuef error_number_for number_and_text as_alpaca gate_axis_rate valid_axis_rate
gate_motion-Parked_number f sprintf t tracking_on h = ground arith
gate_motion-Parked_number f sprintf t abort_slew h = ground arith
gate_motion-Parked_number f sprintf t find_home h = ground arith
gate_motion-Parked_number f sprintf t (move_axis axis rate) h = ground arith
gate_motion-Parked_number f sprintf t (pulse_guide dir duration) h = ground arith
gate_motion-Parked_number f sprintf t (slew_to_coordinates member can ra dec) h = ground arith
gate_motion-Parked_number f sprintf t (slew_to_alt_az member can az alt) h = ground arith
gate_motion-Parked_number f sprintf t (slew_to_target member can) h = ground arith
