-- ===== src/Server/Gates/Rates.antt =====
-- Which rates of an axis the telescope's gate accepts.
use goalpaca.Prelude.{
  ℤ, pos, ◌≤ℤ◌, ◌≡◌, refl, ◌↔◌, ◌⊎◌, inl, inr, Bool-cases, true, false, none, ◌&&◌, List, [], ◌∷◌,
  arith,
}
use mathlib.Core.List.{Memᴰ}
use goalpaca.Float.{Float64}
use goalpaca.Server.Gates.{Sprintf, not_impl_err, parked_err, invalid_valuef}
use goalpaca.Server.Gates.Telescope.{
  Telescope, AxisRate, in_a_range, valid_axis_rate, gate_axis_rate, gate_telescope_move_axis,
}

module _ (f : Float64) (sprintf : Sprintf f) where
  open f use {F, le, eq, abs, of_int}

  -- One of the ranges holds the magnitude.
  abbrev pub IsInRange : List (AxisRate f) → F → Type 0
  IsInRange ranges r =
      (ar : AxisRate f) × Memᴰ ar ranges × (le ar.minimum r ≡ true) × (le r ar.maximum ≡ true)

  -- A rate that the mount advertises for an axis: to stop, or a magnitude in one of its ranges.
  abbrev pub IsAdvertised : Telescope f → ℤ → F → Type 0
  IsAdvertised t axis rate =
      (eq rate (of_int (pos 0)) ≡ true) ⊎ IsInRange (t.axis_rates axis) (abs rate)

  in_a_range-found :
      (ranges : List (AxisRate f)) (r : F)
      → in_a_range f sprintf ranges r ≡ true
      → IsInRange ranges r
  unfolding in_a_range
  in_a_range-found [] r h = ground arith
  in_a_range-found (ar ∷ ranges) r h = elim (Bool-cases (le ar.minimum r && le r ar.maximum)) [
    | inl inside ↦ (ar, Memᴰ.head refl, ground arith, ground arith)
    | inr outside ↦
        let (found, m, lo, hi) = in_a_range-found ranges r (ground arith) in
        (found, Memᴰ.tail m, lo, hi)
  ]

  in_a_range-finds :
      (ranges : List (AxisRate f)) (ar : AxisRate f) (r : F)
      → Memᴰ ar ranges
      → le ar.minimum r ≡ true
      → le r ar.maximum ≡ true
      → in_a_range f sprintf ranges r ≡ true
  unfolding in_a_range
  in_a_range-finds [] ar r m lo hi = elim m [ ]
  in_a_range-finds (a ∷ ranges) ar r (Memᴰ.head e) lo hi = rw (← e, lo, hi) refl
  in_a_range-finds (a ∷ ranges) ar r (Memᴰ.tail m) lo hi =
      let rest = in_a_range-finds ranges ar r m lo hi in ground arith

  gate_axis_rate_lem :
      (t : Telescope f) (axis : ℤ) (rate : F)
      → (gate_axis_rate f sprintf t axis rate ≡ none) ↔ IsAdvertised t axis rate
  unfolding gate_axis_rate valid_axis_rate invalid_valuef
  gate_axis_rate_lem t axis rate = (
    (λ h. elim (Bool-cases (eq rate (of_int (pos 0)))) [
      | inl stop ↦ inl stop
      | inr go ↦ inr (in_a_range-found (t.axis_rates axis) (abs rate) (ground arith))
    ]),
    λ a. elim a [
      | inl stop ↦ ground arith
      | inr (ar, m, lo, hi) ↦
          let found = in_a_range-finds (t.axis_rates axis) ar (abs rate) m lo hi in ground arith
    ],
  )

  -- MoveAxis passes its gate exactly when the axis is one of the three, the mount moves it, the rate
  -- is one that the mount advertises for it, and the mount is not parked.
  pub gate_telescope_move_axis_lem :
      (t : Telescope f) (axis : ℤ) (rate : F)
      → (gate_telescope_move_axis f sprintf t axis rate ≡ none) ↔ (
          (pos 0 ≤ℤ axis)
          × (axis ≤ℤ pos 2)
          × (t.can_move_axis axis ≡ true)
          × IsAdvertised t axis rate
          × (t.at_park ≡ false))
  unfolding gate_telescope_move_axis not_impl_err parked_err invalid_valuef
  gate_telescope_move_axis_lem t axis rate = (
    (λ h. (
      ground arith,
      ground arith,
      ground arith,
      (gate_axis_rate_lem t axis rate).0 (ground arith),
      ground arith,
    )),
    λ (lo, hi, can, a, unparked). let rated = (gate_axis_rate_lem t axis rate).1 a in ground arith,
  )
