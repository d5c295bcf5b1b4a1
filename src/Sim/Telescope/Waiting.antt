-- ===== src/Sim/Telescope/Waiting.antt =====
-- The end of a slew that its method waits for.
use goalpaca.Prelude.{
  ℕ, ◌≡◌, refl, ◌∙◌, ap, ◌⊎◌, inl, inr, Bool-cases, true, false, ◌&&◌, List, [], ◌∷◌, arith,
}
use goalpaca.Float.{Float64}
use goalpaca.Sim.Telescope.{Telescope, settle, ra_done, dec_done, axis_moving, begin_slew}
use goalpaca.Sim.Telescope.Stopping.{IsZeroEqual, begin_slew-axes}
use goalpaca.Sim.Telescope.Calls
use goalpaca.Sim.Telescope.Takeover.{begin_slew-targets}

module _ (f : Float64) where
  open f use {F}

  -- The mount has had the time for its slew.
  abbrev pub IsThere : ℕ → Telescope f → Type 0
  IsThere now t = (ra_done f now t ≡ true) × (dec_done f now t ≡ true)

  -- One of the polls comes when the mount is there.
  abbrev pub SomeThere : List ℕ → Telescope f → Type 0
  SomeThere [] t = ⊥
  SomeThere (now ∷ polls) t = IsThere now t ⊎ SomeThere polls t

  -- What a settled slew leaves.
  abbrev pub HasArrived : F → F → Telescope f → Type 0
  HasArrived ra dec t =
      (t.slewing ≡ false) × (t.start_ra ≡ ra) × (t.start_dec ≡ dec) × (axis_moving f t ≡ false)

  settle-HasArrived :
      (now : ℕ) (t : Telescope f)
      → t.slewing ≡ true
      → axis_moving f t ≡ false
      → (ra_done f now t && dec_done f now t) ≡ true
      → HasArrived t.target_ra t.target_dec (settle f now t)
  unfolding settle axis_moving ra_done dec_done
  settle-HasArrived now t going still there =
      let due : t.slewing && (ra_done f now t && dec_done f now t) ≡ true =
        rw (going, there) refl in
      rw (settle, due) (refl, refl, refl, still)

  settle_under_way :
      (now : ℕ) (t : Telescope f)
      → (ra_done f now t && dec_done f now t) ≡ false
      → settle f now t ≡ t
  unfolding settle
  settle_under_way now t away = ground arith

  -- A poll that finds the mount busy, and one that does not.
  wait_busy :
      (now : ℕ) (polls : List ℕ) (t : Telescope f)
      → (Calls.is_slewing f now t).1 ≡ true
      → Calls.wait_slew_done f (now ∷ polls) t ≡ Calls.wait_slew_done f polls (settle f now t)
  unfolding Calls.wait_slew_done Calls.is_slewing
  wait_busy now polls t busy = rw busy refl

  wait_done :
      (now : ℕ) (polls : List ℕ) (t : Telescope f)
      → (Calls.is_slewing f now t).1 ≡ false
      → Calls.wait_slew_done f (now ∷ polls) t ≡ settle f now t
  unfolding Calls.wait_slew_done Calls.is_slewing
  wait_done now polls t done = rw done refl

  HasArrived-of_eq :
      (ra dec : F) (s t : Telescope f) → s ≡ t → HasArrived ra dec t → HasArrived ra dec s
  HasArrived-of_eq ra dec s t e h = rw e h

  wait-HasArrived :
      (polls : List ℕ) (t : Telescope f)
      → t.slewing ≡ true
      → axis_moving f t ≡ false
      → SomeThere polls t
      → HasArrived t.target_ra t.target_dec (Calls.wait_slew_done f polls t)
  unfolding Calls.is_slewing axis_moving
  wait-HasArrived [] t going still there = elim there [ ]
  wait-HasArrived (now ∷ polls) t going still there =
      elim (Bool-cases (ra_done f now t && dec_done f now t)) [
        | inl done ↦
            let arrived = settle-HasArrived now t going still done in
            let (stopped, _, _, quiet) = arrived in
            HasArrived-of_eq _ _ _ _ (wait_done now polls t (rw (stopped, quiet) refl)) arrived
        | inr away ↦
            let same = settle_under_way now t away in
            let later : SomeThere polls t = elim there [
              | inl (hr, hd) ↦ absurd (ground arith)
              | inr h ↦ h
            ] in
            let busy : (settle f now t).slewing ≡ true =
              ap (λ (s : Telescope f). s.slewing) same ∙ going in
            HasArrived-of_eq _ _ _ _
              (wait_busy now polls t (rw busy refl)
                ∙ ap (λ (s : Telescope f). Calls.wait_slew_done f polls s) same)
              (wait-HasArrived polls t going still later)
      ]

  -- SlewToCoordinates ends its wait with the mount at the coordinates: it has stopped there, and it
  -- does not read as slewing at any later time until another call. The coordinates are not those
  -- where the mount already is, one of the polls comes after the time that the slew takes, and the 0
  -- of float64 equals itself.
  pub slew_to_coordinates_ends :
      (zero_equal : IsZeroEqual f) (now later : ℕ) (polls : List ℕ) (ra dec : F) (t : Telescope f)
      → (Calls.slew_to_coordinates_async f now ra dec t).slewing ≡ true
      → SomeThere polls (Calls.slew_to_coordinates_async f now ra dec t)
      → HasArrived ra dec (Calls.slew_to_coordinates f now polls ra dec t)
        × ((Calls.is_slewing f later (Calls.slew_to_coordinates f now polls ra dec t)).1 ≡ false)
  unfolding Calls.slew_to_coordinates_async Calls.slew_to_coordinates Calls.is_slewing settle
      axis_moving
  slew_to_coordinates_ends zero_equal now later polls ra dec t going there =
      let want = record t {
        want_ra = ra;
        want_ra_set = true;
        want_dec = dec;
        want_dec_set = true;
      } in
      let (stopped, at_ra, at_dec, quiet) =
        wait-HasArrived polls (begin_slew f now ra dec want) going
          (begin_slew-axes f zero_equal now ra dec want) there in
      let (to_ra, to_dec) = begin_slew-targets f now ra dec want in
      ((stopped, at_ra ∙ to_ra, at_dec ∙ to_dec, quiet), rw (stopped, quiet) refl)
