-- ===== src/Sim/Telescope/Served.antt =====
-- The simulated mount behind telescopePut: what a client's requests can do to a parked mount.
pub mod AtRest
use goalpaca.Prelude.{
  ℕ, ℤ, pos, negsuc, eqb_ℤ, ◌≡◌, refl, sym, ◌∙◌, Bool, true, false, ◌||◌, String, List, [], ◌∷◌,
  none, some, Option, arith, Bool-cases, inl, inr, if◌then◌else◌,
}
use goalpaca.Float.{Float64}
use goalpaca.Alpaca.Errors.{Error}
use goalpaca.Server.Gates.{Sprintf}
use goalpaca.Server.Gates.Telescope as Gated
use goalpaca.Server.Gates.Parked.{
  Motion, gate_motion, gate_motion-parked, gate_motion-Parked_number, parked_as,
}
use goalpaca.Server.Transaction.{Library, Params}
use goalpaca.Server.Handlers.Keeps.{Leaves, with_arg-keeps, gated-keeps, dispatch-keeps}
use goalpaca.Server.Handlers.Telescope as Handler
use goalpaca.Server.Handlers.Telescope.{
  TelescopeDriver, Member, put_case, put_cases, telescope_put, moved, asks_park, after_gate,
}
use goalpaca.Sim.Telescope.{Telescope, settle, axis_moving, new_telescope}
use goalpaca.Sim.Telescope.Stopping.{IsZeroEqual, settle_rates-IsKept}
use goalpaca.Sim.Telescope.Calls
use goalpaca.Sim.Telescope.Calls.{TelescopeAxis, primary, secondary, tertiary}
use goalpaca.Sim.Telescope.Settings
use goalpaca.Sim.Telescope.Parking
use goalpaca.Sim.Telescope.Quiet.{
  IsQuiet, abort-IsQuiet, move_axis-IsQuiet, alt_az-IsQuiet, home-IsQuiet, park-IsQuiet,
  kept-IsQuiet, tracking_off-IsQuiet, sync-IsQuiet, IsQuiet-of_eq, tracking-IsQuiet, pulse-IsQuiet,
  unparked-IsQuiet, settle-IsQuiet, slew-IsQuiet,
}

-- The axis of an index of the array of rates.
abbrev axis_of : ℤ → Option TelescopeAxis
axis_of n =
    if eqb_ℤ n (pos 0)
    then some primary
    else if eqb_ℤ n (pos 1)
    then some secondary
    else if eqb_ℤ n (pos 2)
    then some tertiary
    else none

module _ (f : Float64) where
  -- What the gates read; AtPark settles the mount before it answers.
  abbrev pub answers : ℕ → Telescope f → Gated.Telescope f
  answers now t = record (Parking.view f t) { at_park = (settle f now t).at_park }

  -- An index outside the array panics; the gate refuses it.
  unfoldable pub move_axis_at : ℕ → ℤ → f.F → Telescope f → Telescope f
  move_axis_at now axis rate t = elim (axis_of axis) [
    | none ↦ t
    | some a ↦ Calls.move_axis f now a rate t
  ]

  -- The driver at a time, and at the times of the polls of a method that waits for its slew.
  abbrev pub telescope_driver : ℕ → List ℕ → TelescopeDriver f
  telescope_driver now polls = record {
    Device = Telescope f;
    answers = answers now;
    can_slew = λ t. true;
    can_slew_async = λ t. true;
    can_slew_alt_az = λ t. true;
    can_slew_alt_az_async = λ t. true;
    can_sync = λ t. true;
    can_sync_alt_az = λ t. true;
    ask_park = λ t. (Calls.is_at_park f now t).0;
    set_declination_rate = λ x t. (Calls.set_declination_rate f now x t, none);
    set_does_refraction = λ b t. (Settings.set_does_refraction f b t, none);
    set_guide_rate_declination = λ x t. (Settings.set_guide_rate_declination f x t, none);
    set_guide_rate_right_ascension = λ x t. (Settings.set_guide_rate_right_ascension f x t, none);
    set_right_ascension_rate = λ x t. (Calls.set_right_ascension_rate f now x t, none);
    set_side_of_pier = λ n t. (Settings.set_side_of_pier f n t, none);
    set_site_elevation = λ x t. (Settings.set_site_elevation f x t, none);
    set_site_latitude = λ x t. (Settings.set_site_latitude f x t, none);
    set_site_longitude = λ x t. (Settings.set_site_longitude f x t, none);
    set_slew_settle_time = λ n t. (Settings.set_slew_settle_time f n t, none);
    set_target_declination = λ x t. (Calls.set_target_declination f x t, none);
    set_target_right_ascension = λ x t. (Calls.set_target_right_ascension f x t, none);
    set_tracking = λ b t. (Calls.set_tracking f now b t, none);
    set_tracking_rate = λ n t. (Calls.set_tracking_rate f now n t, none);
    set_utc_date = λ s t. (t, none);
    abort_slew = λ t. (Calls.abort_slew f now t, none);
    find_home = λ t. (Calls.find_home f now t, none);
    move_axis = λ axis rate t. (move_axis_at now axis rate t, none);
    park = λ t. (Calls.park f now t, none);
    pulse_guide = λ dir dur t. (Calls.pulse_guide f now dir dur t, none);
    set_park = λ t. (t, none);
    slew_to_alt_az = λ az alt t. (Settings.slew_to_alt_az f now polls az alt t, none);
    slew_to_alt_az_async = λ az alt t. (Calls.slew_to_alt_az_async f now az alt t, none);
    slew_to_coordinates = λ ra dec t. (Calls.slew_to_coordinates f now polls ra dec t, none);
    slew_to_coordinates_async = λ ra dec t. (Calls.slew_to_coordinates_async f now ra dec t, none);
    slew_to_target = λ t. (Settings.slew_to_target f now polls t, none);
    slew_to_target_async = λ t. (Calls.slew_to_target_async f now t, none);
    sync_to_alt_az = λ az alt t. (Calls.sync_to_alt_az f az alt t, none);
    sync_to_coordinates = λ ra dec t. (Calls.sync_to_coordinates f now ra dec t, none);
    sync_to_target = λ t. (Calls.sync_to_target f now t, none);
    unpark = λ t. (Calls.unpark f t, none);
  }

  -- A PUT request, with the time at which it is served and those of its polls.
  pub record Put : Type 0 where
    pub now : ℕ
    pub polls : List ℕ
    pub member : String
    pub params : Params

  module _ (lib : Library f) (sprintf : Sprintf f) where
    unfoldable pub put_all : List Put → Telescope f → Telescope f
    put_all [] t = t
    put_all (q ∷ requests) t =
        put_all requests
          (telescope_put f lib sprintf (telescope_driver q.now q.polls) q.member q.params t).0
