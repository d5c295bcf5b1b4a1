-- ===== src/Sim/Telescope/Quiet.antt =====
-- The calls that leave a parked mount at rest.
use goalpaca.Prelude.{
  ℕ, ℤ, pos, ◌≡◌, refl, sym, ◌∙◌, Bool-cases, true, false, ◌&&◌, inl, inr, none, arith, ◌⊎◌,
}
use goalpaca.Float.{Float64}
use goalpaca.Server.Gates.{Sprintf}
use goalpaca.Server.Gates.Parked.{Motion, gate_motion, gate_motion-parked}
use goalpaca.Sim.Telescope.{
  Telescope, settle, ra_done, dec_done, axis_moving, settle_rates, settle_axes, freeze, stop_axes,
  begin_slew,
}
use goalpaca.Sim.Telescope.Stopping.{
  IsKept, settle_rates-IsKept, settle_axes-IsKept, IsZeroEqual, begin_slew-axes,
}
use goalpaca.Sim.Telescope.Calls
use goalpaca.Sim.Telescope.Calls.{TelescopeAxis, primary, secondary, tertiary}
use goalpaca.Sim.Telescope.Parking

module _ (f : Float64) where
  open f use {F, eq, of_int}

  -- A parked mount does not track, does not slew and moves no axis; a mount that is to park when its
  -- slew arrives moves no axis.
  pub record IsQuiet (t : Telescope f) : Type 0 where
    pub parked :
        t.at_park ≡ true → (t.tracking ≡ false) × (t.slewing ≡ false) × (axis_moving f t ≡ false)
    pub parking : t.park_on_arrive ≡ true → axis_moving f t ≡ false

  pub settle-IsQuiet : (now : ℕ) (t : Telescope f) → IsQuiet t → IsQuiet (settle f now t)
  unfolding settle axis_moving
  settle-IsQuiet now t quiet =
      elim (Bool-cases (t.slewing && (ra_done f now t && dec_done f now t))) [
        | inr going ↦ rw going quiet
        | inl done ↦ rw done (elim (Bool-cases t.park_on_arrive) [
          | inl arrives ↦ rw arrives (record {
            parked = λ _. (refl, refl, quiet.parking arrives);
            parking = λ h. ground arith;
          })
          | inr passes ↦ rw passes (record {
            parked = λ h. let (still, _, axes) = quiet.parked h in (still, refl, axes);
            parking = λ h. ground arith;
          })
        ])
      ]

  -- What an accepted call does to a mount that is not parked.
  pub unparked-IsQuiet :
      (t : Telescope f)
      → t.at_park ≡ false
      → (t.park_on_arrive ≡ true → axis_moving f t ≡ false)
      → IsQuiet t
  unparked-IsQuiet t off parking = record { parked = λ h. ground arith; parking = parking }

  -- The axes of two mounts with the same rates.
  axis_moving_eq :
      (s t : Telescope f)
      → s.axis_rate_0 ≡ t.axis_rate_0
      → s.axis_rate_1 ≡ t.axis_rate_1
      → axis_moving f t ≡ false
      → axis_moving f s ≡ false
  unfolding axis_moving
  axis_moving_eq s t e0 e1 h = rw (e0, e1) h

  pub kept-IsQuiet : (s t : Telescope f) → IsKept f s t → IsQuiet t → IsQuiet s
  kept-IsQuiet s t kept quiet = record {
    parked = λ h.
        let (off, rest, axes) = quiet.parked (sym kept.same_park ∙ h) in
        (
          kept.same_tracking ∙ off,
          kept.same_slewing ∙ rest,
          axis_moving_eq s t kept.same_0 kept.same_1 axes,
        );
    parking =
        λ h. axis_moving_eq s t kept.same_0 kept.same_1 (quiet.parking (sym kept.same_parking ∙ h));
  }

  -- A gate of a motion that answers nothing is asked of a mount that is not parked.
  pub unparked :
      (sprintf : Sprintf f) (m : Motion f) (t : Telescope f)
      → gate_motion f sprintf (Parking.view f t) m ≡ none
      → t.at_park ≡ false
  unfolding Parking.view
  unparked sprintf m t h = elim (Bool-cases t.at_park) [
    | inl on ↦ elim (gate_motion-parked f sprintf (Parking.view f t) m on h) [ ]
    | inr off ↦ off
  ]

  pub slew-IsQuiet :
      (zero_equal : IsZeroEqual f) (now : ℕ) (ra dec : F) (t : Telescope f)
      → IsQuiet (begin_slew f now ra dec t)
  unfolding begin_slew
  slew-IsQuiet zero_equal now ra dec t =
      unparked-IsQuiet (begin_slew f now ra dec t) refl
        (λ _. begin_slew-axes f zero_equal now ra dec t)

  pub sync-IsQuiet :
      (now : ℕ) (ra dec : F) (t : Telescope f)
      → t.at_park ≡ false
      → IsQuiet t
      → IsQuiet (Calls.sync_to_coordinates f now ra dec t)
  unfolding Calls.sync_to_coordinates axis_moving
  sync-IsQuiet now ra dec t off quiet = unparked-IsQuiet _ off quiet.parking

  pub IsQuiet-of_eq : (s t : Telescope f) → s ≡ t → IsQuiet t → IsQuiet s
  IsQuiet-of_eq s t e quiet = rw e quiet

  park_cases :
      (now : ℕ) (t : Telescope f)
      → let moved = begin_slew f now (of_int (pos 0)) (of_int (pos 90)) t in
        (Calls.park f now t ≡ t)
        ⊎ (Calls.park f now t ≡ record moved { park_on_arrive = true })
        ⊎ ((moved.slewing ≡ false)
            × (Calls.park f now t
                ≡ record moved { park_on_arrive = true; at_park = true; tracking = false }))
  unfolding Calls.park
  park_cases now t = ground arith

  pub park-IsQuiet :
      (zero_equal : IsZeroEqual f) (now : ℕ) (t : Telescope f)
      → IsQuiet t
      → IsQuiet (Calls.park f now t)
  unfolding begin_slew
  park-IsQuiet zero_equal now t quiet =
      let axes = begin_slew-axes f zero_equal now (of_int (pos 0)) (of_int (pos 90)) t in
      let moved = begin_slew f now (of_int (pos 0)) (of_int (pos 90)) t in
      elim (park_cases now t) [
        | inl e ↦ IsQuiet-of_eq _ t e quiet
        | inr (inl e) ↦
            IsQuiet-of_eq _ _ e
              (unparked-IsQuiet _ refl (λ _. axis_moving_eq _ moved refl refl axes))
        | inr (inr (near, e)) ↦ IsQuiet-of_eq _ _ e (record {
          parked = λ _. (refl, near, axis_moving_eq _ moved refl refl axes);
          parking = λ _. axis_moving_eq _ moved refl refl axes;
        })
      ]

  pub tracking-IsQuiet :
      (now : ℕ) (t : Telescope f)
      → t.at_park ≡ false
      → IsQuiet t
      → IsQuiet (Calls.set_tracking f now true t)
  unfolding Calls.set_tracking
  tracking-IsQuiet now t off quiet =
      let kept = settle_rates-IsKept f now t in
      unparked-IsQuiet _ (kept.same_park ∙ off) (λ h.
        axis_moving_eq _ t kept.same_0 kept.same_1 (quiet.parking (sym kept.same_parking ∙ h)))

  pub tracking_off-IsQuiet :
      (now : ℕ) (t : Telescope f) → IsQuiet t → IsQuiet (Calls.set_tracking f now false t)
  unfolding Calls.set_tracking
  tracking_off-IsQuiet now t quiet =
      let kept = settle_rates-IsKept f now t in
      record {
        parked = λ h.
            let (_, rest, axes) = quiet.parked (sym kept.same_park ∙ h) in
            (refl, kept.same_slewing ∙ rest, axis_moving_eq _ t kept.same_0 kept.same_1 axes);
        parking = λ h.
            axis_moving_eq _ t kept.same_0 kept.same_1 (quiet.parking (sym kept.same_parking ∙ h));
      }

  pub abort-IsQuiet :
      (zero_equal : IsZeroEqual f) (now : ℕ) (t : Telescope f)
      → IsQuiet t
      → IsQuiet (Calls.abort_slew f now t)
  unfolding Calls.abort_slew freeze stop_axes axis_moving
  abort-IsQuiet zero_equal now t quiet =
      let settled = settle f now t in
      let k1 = settle_axes-IsKept f now settled in
      let k2 = settle_rates-IsKept f now (stop_axes f (settle_axes f now settled)) in
      record {
        parked = λ h.
            let (off, _, _) =
              (settle-IsQuiet now t quiet).parked (sym k1.same_park ∙ (sym k2.same_park ∙ h)) in
            (
              k2.same_tracking ∙ (k1.same_tracking ∙ off),
              refl,
              rw (k2.same_0, k2.same_1, zero_equal) refl,
            );
        parking = λ h. ground arith;
      }

  absurd_bool : true ≡ false → ⊥
  absurd_bool e = ground arith

  set_axis_rate_eq :
      (axis : TelescopeAxis) (rate : F) (t : Telescope f)
      → ((Calls.set_axis_rate f axis rate t).at_park ≡ t.at_park)
        × ((Calls.set_axis_rate f axis rate t).park_on_arrive ≡ t.park_on_arrive)
  unfolding Calls.set_axis_rate
  set_axis_rate_eq primary rate t = (refl, refl)
  set_axis_rate_eq secondary rate t = (refl, refl)
  set_axis_rate_eq tertiary rate t = (refl, refl)

  pub move_axis-IsQuiet :
      (now : ℕ) (axis : TelescopeAxis) (rate : F) (t : Telescope f)
      → t.at_park ≡ false
      → IsQuiet (Calls.move_axis f now axis rate t)
  unfolding Calls.move_axis freeze
  move_axis-IsQuiet now axis rate t off =
      let frozen = freeze f now (settle_rates f now t) in
      let taken =
        settle_axes f now
          (record frozen { slewing = false; park_on_arrive = false; home_on_arrive = false }) in
      let k2 =
        settle_axes-IsKept f now
          (record frozen { slewing = false; park_on_arrive = false; home_on_arrive = false }) in
      let (same_park, same_parking) = set_axis_rate_eq axis rate taken in
      record {
        parked = λ h.
            elim (absurd_bool (
              sym h
              ∙ (same_park
                  ∙ (k2.same_park ∙ ((settle_rates-IsKept f now t).same_park ∙ off))))) [ ];
        parking = λ h. elim (absurd_bool (sym h ∙ (same_parking ∙ k2.same_parking))) [ ];
      }

  displaced-IsKept :
      (direction : ℤ) (dur : F) (t : Telescope f) → IsKept f (Calls.displaced f direction dur t) t
  unfolding Calls.displaced
  displaced-IsKept direction dur t = record {
    same_0 = ground arith;
    same_1 = ground arith;
    same_park = ground arith;
    same_tracking = ground arith;
    same_slewing = ground arith;
    same_parking = ground arith;
  }

  pub pulse-IsQuiet :
      (now : ℕ) (direction duration : ℤ) (t : Telescope f)
      → IsQuiet t
      → IsQuiet (Calls.pulse_guide f now direction duration t)
  unfolding Calls.pulse_guide axis_moving
  pulse-IsQuiet now direction duration t quiet =
      let settled = settle_rates f now t in
      let before = kept-IsQuiet settled t (settle_rates-IsKept f now t) quiet in
      let after =
        kept-IsQuiet _ settled
          (displaced-IsKept direction (f.div (of_int duration) (of_int (pos 1000))) settled)
          before in
      record { parked = after.parked; parking = after.parking }

  pub home-IsQuiet :
      (zero_equal : IsZeroEqual f) (now : ℕ) (t : Telescope f) → IsQuiet (Calls.find_home f now t)
  unfolding Calls.find_home begin_slew
  home-IsQuiet zero_equal now t = unparked-IsQuiet _ refl (λ _.
      axis_moving_eq _ (begin_slew f now (of_int (pos 0)) (of_int (pos 90)) t) refl refl
        (begin_slew-axes f zero_equal now (of_int (pos 0)) (of_int (pos 90)) t))

  pub alt_az-IsQuiet :
      (now : ℕ) (az alt : F) (t : Telescope f)
      → IsQuiet t
      → IsQuiet (Calls.slew_to_alt_az_async f now az alt t)
  unfolding Calls.slew_to_alt_az_async
  alt_az-IsQuiet now az alt t quiet =
      unparked-IsQuiet _ refl (λ h. axis_moving_eq _ t refl refl (quiet.parking h))
