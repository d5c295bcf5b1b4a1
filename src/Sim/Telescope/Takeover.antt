-- ===== src/Sim/Telescope/Takeover.antt =====
-- What a slew does to a park that is under way.
use goalpaca.Prelude.{ℕ, ◌≡◌, refl, ◌∙◌, true, false}
use goalpaca.Float.{Float64}
use goalpaca.Sim.Angles.{wrap24, clamp_dec}
use goalpaca.Sim.Telescope.{
  Telescope, settle, ra_done, dec_done, axis_moving, rate_drift_active, settle_axes, freeze,
  stop_axes, begin_slew, current_ra, current_dec, moved_ra, moved_dec,
}
use goalpaca.Sim.Telescope.Stopping.{
  settle_rates-IsKept, settle_axes-IsKept, IsZeroEqual, begin_slew-axes,
}
use goalpaca.Sim.Telescope.Calls

module _ (f : Float64) where
  open f use {F}

  begin_slew-parking :
      (now : ℕ) (ra dec : F) (t : Telescope f)
      → (begin_slew f now ra dec t).park_on_arrive ≡ t.park_on_arrive
  unfolding begin_slew freeze stop_axes
  begin_slew-parking now ra dec t =
      (settle_rates-IsKept f now (stop_axes f (settle_axes f now t))).same_parking
      ∙ (settle_axes-IsKept f now t).same_parking

  pub begin_slew-targets :
      (now : ℕ) (ra dec : F) (t : Telescope f)
      → ((begin_slew f now ra dec t).target_ra ≡ ra)
        × ((begin_slew f now ra dec t).target_dec ≡ dec)
  unfolding begin_slew
  begin_slew-targets now ra dec t = (refl, refl)

  -- A mount that a settling slew parks points at the slew's target.
  settle-arrived :
      (later : ℕ) (s : Telescope f)
      → (s.slewing ≡ true) × (ra_done f later s ≡ true) × (dec_done f later s ≡ true)
      → s.park_on_arrive ≡ true
      → axis_moving f s ≡ false
      → ((settle f later s).at_park ≡ true)
        × (current_ra f later (settle f later s) ≡ s.target_ra)
        × (current_dec f later (settle f later s) ≡ s.target_dec)
  unfolding settle current_ra current_dec rate_drift_active axis_moving ra_done dec_done moved_ra
      moved_dec wrap24 clamp_dec
  settle-arrived later s (going, hr, hd) parks axes =
      rw (going, hr, hd, parks, axes) (refl, refl, refl)

  -- A park under way is not called off by a slew. Once a slew to any coordinates, which starts while
  -- the mount is to park on arrival, has had the time to arrive, the mount reads as parked, and it
  -- points at the coordinates of the slew and not at the place of the park. The 0 of float64 equals
  -- itself.
  pub slew_parks_at_target :
      (zero_equal : IsZeroEqual f) (now later : ℕ) (ra dec : F) (t : Telescope f)
      → let s = Calls.slew_to_coordinates_async f now ra dec t in
        t.park_on_arrive ≡ true
        → (s.slewing ≡ true) × (ra_done f later s ≡ true) × (dec_done f later s ≡ true)
        → ((Calls.is_at_park f later s).1 ≡ true)
          × ((Calls.right_ascension f later s).1 ≡ ra)
          × ((Calls.declination f later s).1 ≡ dec)
  unfolding Calls.slew_to_coordinates_async Calls.is_at_park Calls.right_ascension Calls.declination
  slew_parks_at_target zero_equal now later ra dec t parks arrived =
      let want = record t {
        want_ra = ra;
        want_ra_set = true;
        want_dec = dec;
        want_dec_set = true;
      } in
      let (parked, at_ra, at_dec) =
        settle-arrived later (begin_slew f now ra dec want) arrived
          (begin_slew-parking now ra dec want ∙ parks)
          (begin_slew-axes f zero_equal now ra dec want) in
      (
        parked,
        at_ra ∙ (begin_slew-targets now ra dec want).0,
        at_dec ∙ (begin_slew-targets now ra dec want).1,
      )
