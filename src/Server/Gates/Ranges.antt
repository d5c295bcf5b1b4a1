-- ===== src/Server/Gates/Ranges.antt =====
-- Which numbers the range gates accept.
use goalpaca.Prelude.{
  String, ℤ, pos, neg, ◌≡◌, refl, ◌↔◌, Bool-cases, inl, inr, true, false, none, ◌||◌, or_false,
  arith,
}
use goalpaca.Float.{Float64, Ieee, Within, IsNan}
use goalpaca.Server.Gates.{Sprintf, invalid_valuef, invalid_range, non_negative}
use goalpaca.Server.Gates.Devices.{
  gate_rotator_position, gate_observing_conditions_average_period, gate_switch_bounds,
}
use goalpaca.Server.Gates.Telescope.{valid_ra_dec, valid_alt_az}

-- A number is at most itself; a NaN is not.
abbrev pub IsNumber : (f : Float64) → f.F → Type 0
IsNumber f x = f.le x x ≡ true

module _ (f : Float64) (sprintf : Sprintf f) where
  open f use {F, lt, le, of_int}

  -- A NaN passes these range checks: the range of GateRange, the sign, the angle of a rotator, the
  -- averaging window, the pairs of coordinates, and the bounds of a switch's value.
  pub range_gates-nan :
      (v : F) (name : String) (lo hi : F) (id : ℤ)
      → IsNan f v
      → (invalid_range f sprintf name v lo hi ≡ none)
        × (non_negative f sprintf name v ≡ none)
        × (gate_rotator_position f sprintf v ≡ none)
        × (gate_observing_conditions_average_period f sprintf v ≡ none)
        × (valid_ra_dec f sprintf v v ≡ none)
        × (valid_alt_az f sprintf v v ≡ none)
        × (gate_switch_bounds f sprintf (lo, none) (hi, none) id v ≡ none)
  unfolding invalid_range non_negative gate_rotator_position
      gate_observing_conditions_average_period valid_ra_dec valid_alt_az gate_switch_bounds
  range_gates-nan v name lo hi id nan = (
    rw ((nan lo).0, (nan hi).1) refl,
    rw ((nan (of_int (pos 0))).0) refl,
    rw ((nan (of_int (pos 0))).0, (nan (of_int (pos 360))).3) refl,
    rw ((nan (of_int (pos 0))).0) refl,
    rw
        (
          (nan (of_int (pos 0))).0,
          (nan (of_int (pos 24))).3,
          (nan (of_int (neg 90))).0,
          (nan (of_int (pos 90))).1,
        )
        refl,
    rw
        (
          (nan (of_int (pos 0))).0,
          (nan (of_int (pos 360))).1,
          (nan (of_int (neg 90))).0,
          (nan (of_int (pos 90))).1,
        )
        refl,
    rw ((nan lo).0, (nan hi).1) refl,
  )

module _ (f : Float64) (ieee : Ieee f) (sprintf : Sprintf f) where
  open f use {F, lt, le, of_int}

  number : (z : ℤ) → le (of_int z) (of_int z) ≡ true
  number z = ieee.of_int_le z z (omega arith)

  -- A number passes GateRange exactly when it lies between the bounds, which are numbers.
  pub invalid_range_lem :
      (name : String) (v lo hi : F)
      → IsNumber f v × IsNumber f lo × IsNumber f hi
      → (invalid_range f sprintf name v lo hi ≡ none) ↔ ((le lo v ≡ true) × (le v hi ≡ true))
  unfolding invalid_range invalid_valuef
  invalid_range_lem name v lo hi (nv, nlo, nhi) = (
    (λ h. elim (Bool-cases (lt v lo || lt hi v)) [
      | inl out ↦ ground arith
      | inr inside ↦
          let (a, b) = or_false _ _ inside in
          (ieee.le_of_not_lt v lo v lo nv nlo a, ieee.le_of_not_lt hi v hi v nhi nv b)
    ]),
    λ (a, b). rw (ieee.not_lt_of_le lo v a, ieee.not_lt_of_le v hi b) refl,
  )

  -- A number passes the rotator's gate exactly when it lies in [0, 360).
  pub gate_rotator_position_lem :
      (v : F)
      → IsNumber f v × IsNumber f (of_int (pos 0))
      → (gate_rotator_position f sprintf v ≡ none)
        ↔ ((le (of_int (pos 0)) v ≡ true) × (le (of_int (pos 360)) v ≡ false))
  unfolding gate_rotator_position invalid_valuef
  gate_rotator_position_lem v (nv, n0) = (
    (λ h. elim (Bool-cases (lt v (of_int (pos 0)) || le (of_int (pos 360)) v)) [
      | inl out ↦ ground arith
      | inr inside ↦
          let (a, b) = or_false _ _ inside in
          (ieee.le_of_not_lt v (of_int (pos 0)) v (of_int (pos 0)) nv n0 a, b)
    ]),
    λ (a, b). rw (ieee.not_lt_of_le (of_int (pos 0)) v a, b) refl,
  )

  -- A pair of numbers passes the gate of the equatorial coordinates exactly when the right
  -- ascension lies in [0, 24) and the declination between -90 and 90.
  pub valid_ra_dec_lem :
      (ra dec : F)
      → IsNumber f ra × IsNumber f dec
      → (valid_ra_dec f sprintf ra dec ≡ none) ↔ (
          (le (of_int (pos 0)) ra ≡ true)
          × (le (of_int (pos 24)) ra ≡ false)
          × Within f (neg 90) (pos 90) dec)
  unfolding valid_ra_dec invalid_valuef
  valid_ra_dec_lem ra dec (nr, nd) = (
    (λ h. elim (Bool-cases (lt ra (of_int (pos 0)) || le (of_int (pos 24)) ra)) [
      | inl out ↦ ground arith
      | inr inside ↦
          let (a, b) = or_false _ _ inside in
          (
            ieee.le_of_not_lt ra (of_int (pos 0)) ra (of_int (pos 0)) nr (number (pos 0)) a,
            b,
            (invalid_range_lem "Declination" dec _ _ (nd, number (neg 90), number (pos 90))).0
                (ground arith),
          )
    ]),
    λ (a, b, w).
        rw (ieee.not_lt_of_le (of_int (pos 0)) ra a, b)
          ((invalid_range_lem "Declination" dec _ _ (nd, number (neg 90), number (pos 90))).1 w),
  )
