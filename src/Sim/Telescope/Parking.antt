-- ===== src/Sim/Telescope/Parking.antt =====
-- The simulated mount behind the server's gates: what a client's requests can do to a parked mount.
use goalpaca.Prelude.{ℕ, ℤ, pos, eqb_ℤ, true, false, ◌||◌, Option, none, some, List, [], ◌∷◌}
use goalpaca.Alpaca.Errors.{Error}
use goalpaca.Float.{Float64}
use goalpaca.Server.Gates.{Sprintf}
use goalpaca.Server.Gates.Telescope
use goalpaca.Server.Gates.Parked.{Motion, gate_motion, gate_motion-parked}
use goalpaca.Server.Gates.Parked
use goalpaca.Sim.Telescope.{Telescope, settle}
use goalpaca.Sim.Telescope.Calls
use goalpaca.Sim.Telescope.Calls.{TelescopeAxis, primary, secondary, tertiary}

-- The number of an axis.
abbrev pub axis_number : TelescopeAxis → ℤ
axis_number primary = pos 0
axis_number secondary = pos 1
axis_number tertiary = pos 2

-- The requests of a client that reach the mount's state.
pub data Request (f : Float64) : Type 0 where
  read : Request f
  tracking_on : Request f
  tracking_off : Request f
  abort_slew : Request f
  find_home : Request f
  move_axis : TelescopeAxis → f.F → Request f
  pulse_guide : ℤ → ℤ → Request f
  slew_to_coordinates : f.F → f.F → Request f
  sync_to_coordinates : f.F → f.F → Request f
  slew_to_alt_az : f.F → f.F → Request f
  sync_to_alt_az : f.F → f.F → Request f
  slew_to_target : Request f
  sync_to_target : Request f
  park : Request f
  unpark : Request f

module _ (f : Float64) where
  open f use {F, eq, of_int}

  -- The simulator's answers to the gates, once its AtPark has settled it.
  unfoldable pub view : Telescope f → Telescope.Telescope f
  unfolding Calls.target_right_ascension
  view t = record {
    can_find_home = true;
    can_move_axis = λ axis. eqb_ℤ axis (pos 0) || eqb_ℤ axis (pos 1);
    can_park = true;
    can_pulse_guide = true;
    can_set_declination_rate = true;
    can_set_guide_rates = true;
    can_set_park = true;
    can_set_pier_side = true;
    can_set_right_ascension_rate = true;
    can_set_tracking = true;
    can_unpark = true;
    at_park = t.at_park;
    axis_rates = λ axis. (record { minimum = of_int (pos 0); maximum = of_int (pos 5) }) ∷ [];
    tracking_rate = t.tracking_rate;
    tracking_rates = pos 0 ∷ pos 1 ∷ pos 2 ∷ pos 3 ∷ [];
    target_right_ascension = Calls.target_right_ascension f t;
    target_declination = Calls.target_declination f t;
  }

  -- The gated motion of a request, where it is one.
  unfoldable pub motion_of : Request f → Option (Motion f)
  motion_of tracking_on = some Parked.tracking_on
  motion_of abort_slew = some Parked.abort_slew
  motion_of find_home = some Parked.find_home
  motion_of (move_axis axis rate) = some (Parked.move_axis (axis_number axis) rate)
  motion_of (pulse_guide direction duration) = some (Parked.pulse_guide direction duration)
  motion_of (slew_to_coordinates ra dec) =
      some (Parked.slew_to_coordinates "SlewToCoordinates" true ra dec)
  motion_of (sync_to_coordinates ra dec) =
      some (Parked.slew_to_coordinates "SyncToCoordinates" true ra dec)
  motion_of (slew_to_alt_az az alt) = some (Parked.slew_to_alt_az "SlewToAltAz" true az alt)
  motion_of (sync_to_alt_az az alt) = some (Parked.slew_to_alt_az "SyncToAltAz" true az alt)
  motion_of slew_to_target = some (Parked.slew_to_target "SlewToTarget" true)
  motion_of sync_to_target = some (Parked.slew_to_target "SyncToTarget" true)
  motion_of read = none
  motion_of tracking_off = none
  motion_of park = none
  motion_of unpark = none

  unfoldable pub apply : ℕ → Request f → Telescope f → Telescope f
  apply now read t = t
  apply now tracking_on t = Calls.set_tracking f now true t
  apply now tracking_off t = Calls.set_tracking f now false t
  apply now abort_slew t = Calls.abort_slew f now t
  apply now find_home t = Calls.find_home f now t
  apply now (move_axis axis rate) t = Calls.move_axis f now axis rate t
  apply now (pulse_guide direction duration) t = Calls.pulse_guide f now direction duration t
  apply now (slew_to_coordinates ra dec) t = Calls.slew_to_coordinates_async f now ra dec t
  apply now (sync_to_coordinates ra dec) t = Calls.sync_to_coordinates f now ra dec t
  apply now (slew_to_alt_az az alt) t = Calls.slew_to_alt_az_async f now az alt t
  apply now (sync_to_alt_az az alt) t = Calls.sync_to_alt_az f az alt t
  apply now slew_to_target t = Calls.slew_to_target_async f now t
  apply now sync_to_target t = Calls.sync_to_target f now t
  apply now park t = Calls.park f now t
  apply now unpark t = Calls.unpark f t

  -- The gate's answer.
  unfoldable pub answer_to : Sprintf f → Request f → Telescope f → Error
  answer_to sprintf q t = elim (motion_of q) [
    | none ↦ none
    | some m ↦ gate_motion f sprintf (view t) m
  ]

  -- The call, if the gate accepts.
  unfoldable pub serve : Sprintf f → ℕ → Request f → Telescope f → Telescope f
  serve sprintf now q t = elim (answer_to sprintf q (settle f now t)) [
    | none ↦ apply now q (settle f now t)
    | some err ↦ settle f now t
  ]

  unfoldable pub serve_all : Sprintf f → List (ℕ × Request f) → Telescope f → Telescope f
  serve_all sprintf [] t = t
  serve_all sprintf ((now, q) ∷ requests) t = serve_all sprintf requests (serve sprintf now q t)
