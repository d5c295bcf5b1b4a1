-- ===== src/Sim/Telescope/Stopping.antt =====
-- What settling, freezing and stopping keep of the simulated mount, and what a stop promises.
use goalpaca.Prelude.{ℕ, ◌≡◌, refl, ◌∙◌, Bool-cases, true, false, inl, inr, pos}
use goalpaca.Float.{Float64}
use goalpaca.Sim.Telescope.{
  Telescope, settle, axis_moving, rate_drift_active, settle_rates, settle_axes, freeze, stop_axes,
  begin_slew,
}
use goalpaca.Sim.Telescope.Calls

-- The fields that folding a drift leaves as they are.
pub record IsKept (f : Float64) (s t : Telescope f) : Type 0 where
  pub same_0 : s.axis_rate_0 ≡ t.axis_rate_0
  pub same_1 : s.axis_rate_1 ≡ t.axis_rate_1
  pub same_park : s.at_park ≡ t.at_park
  pub same_tracking : s.tracking ≡ t.tracking
  pub same_slewing : s.slewing ≡ t.slewing
  pub same_parking : s.park_on_arrive ≡ t.park_on_arrive

module _ (f : Float64) where
  open f use {F, eq, of_int}

  pub settle_rates-IsKept : (now : ℕ) (t : Telescope f) → IsKept f (settle_rates f now t) t
  unfolding settle_rates
  settle_rates-IsKept now t = elim (Bool-cases (rate_drift_active f t)) [
    | inl on ↦ rw on (record {
      same_0 = refl;
      same_1 = refl;
      same_park = refl;
      same_tracking = refl;
      same_slewing = refl;
      same_parking = refl;
    })
    | inr off ↦ rw off (record {
      same_0 = refl;
      same_1 = refl;
      same_park = refl;
      same_tracking = refl;
      same_slewing = refl;
      same_parking = refl;
    })
  ]

  pub settle_axes-IsKept : (now : ℕ) (t : Telescope f) → IsKept f (settle_axes f now t) t
  unfolding settle_axes
  settle_axes-IsKept now t = elim (Bool-cases (axis_moving f t)) [
    | inl on ↦ rw on (record {
      same_0 = refl;
      same_1 = refl;
      same_park = refl;
      same_tracking = refl;
      same_slewing = refl;
      same_parking = refl;
    })
    | inr off ↦ rw off (record {
      same_0 = refl;
      same_1 = refl;
      same_park = refl;
      same_tracking = refl;
      same_slewing = refl;
      same_parking = refl;
    })
  ]

  -- The equation of float64 that the rates of a stopped axis need.
  abbrev pub IsZeroEqual : Type 0
  IsZeroEqual = eq (of_int (pos 0)) (of_int (pos 0)) ≡ true

  pub begin_slew-axes :
      (zero_equal : IsZeroEqual) (now : ℕ) (ra dec : F) (t : Telescope f)
      → axis_moving f (begin_slew f now ra dec t) ≡ false
  unfolding begin_slew freeze stop_axes axis_moving
  begin_slew-axes zero_equal now ra dec t =
      let kept = settle_rates-IsKept now (stop_axes f (settle_axes f now t)) in
      rw (kept.same_0, kept.same_1, zero_equal) refl

  -- After an abort the mount does not slew, at any time, until another call, and it is parked only
  -- if it was parked when the abort came. The 0 of float64 equals itself.
  pub abort_slew_lem :
      (zero_equal : IsZeroEqual) (now later : ℕ) (t : Telescope f)
      → ((Calls.is_slewing f later (Calls.abort_slew f now t)).1 ≡ false)
        × ((Calls.is_at_park f later (Calls.abort_slew f now t)).1 ≡ (Calls.is_at_park f now t).1)
  unfolding Calls.is_slewing Calls.is_at_park Calls.abort_slew freeze stop_axes axis_moving settle
  abort_slew_lem zero_equal now later t =
      let settled = settle f now t in
      let kept = settle_rates-IsKept now (stop_axes f (settle_axes f now settled)) in
      (
        rw (kept.same_0, kept.same_1, zero_equal) refl,
        kept.same_park ∙ (settle_axes-IsKept now settled).same_park,
      )
