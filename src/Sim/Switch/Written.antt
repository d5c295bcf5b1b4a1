-- ===== src/Sim/Switch/Written.antt =====
-- What a write to the simulated switches does, behind its gate.
use goalpaca.Prelude.{
  ℕ, ◌<◌, ◌≡◌, ◌≢◌, refl, ap, sym, ◌∙◌, ltb, lt→ltb, ltb→lt, Bool-cases, ℤ, pos, negsuc, none, some,
  false, inl, inr, arith, length, length-set, get_or-set_self, get_or-set_ne, set,
}
use goalpaca.Float.{Float64}
use goalpaca.Server.Gates.{Sprintf, invalid_valuef}
use goalpaca.Server.Gates.Devices
use goalpaca.Sim.Switch

module _ (f : Float64) (sprintf : Sprintf f) where
  open f use {F, of_int}

  -- An id that the gate lets through is an index of the values.
  gated-in_range :
      (s : Switch.Switch f) (id : ℤ) (value : F)
      → length s.values ≡ s.n
      → Devices.gate_switch_value f sprintf (Switch.switch_driver f s) id value ≡ none
      → (i : ℕ) × (id ≡ pos i)
        × (i < length s.values)
        × (Switch.in_range (length s.values) id ≡ some i)
  unfolding Devices.gate_switch_value Devices.valid_switch_id Switch.in_range invalid_valuef
  gated-in_range s (pos i) value same h = (i, refl, ground arith, ground arith)
  gated-in_range s (negsuc i) value same h = ground arith

  in_range-inside : (i len : ℕ) → i < len → Switch.in_range len (pos i) ≡ some i
  unfolding Switch.in_range
  in_range-inside i len inside = ground (arith, lt→ltb i len inside)

  in_range-negative : (j len : ℕ) → Switch.in_range len (negsuc j) ≡ none
  unfolding Switch.in_range
  in_range-negative j len = refl

  in_range-outside : (i len : ℕ) → ltb i len ≡ false → Switch.in_range len (pos i) ≡ none
  unfolding Switch.in_range
  in_range-outside i len outside = ground arith

  write_at :
      (s : Switch.Switch f) (i : ℕ) (value : F)
      → i < length s.values
      → Switch.set_switch_value f (pos i) value s
        ≡ some (record s { values = set s.values i value })
  unfolding Switch.set_switch_value
  write_at s i value inside =
      rw (Switch.set_switch_value, in_range-inside i (length s.values) inside) refl

  read_written :
      (s : Switch.Switch f) (i : ℕ) (value : F)
      → i < length s.values
      → Switch.get_switch_value f (pos i) (record s { values = set s.values i value }) ≡ some value
  unfolding Switch.get_switch_value
  read_written s i value inside =
      rw
        (
          Switch.get_switch_value,
          length-set s.values i value,
          in_range-inside i (length s.values) inside,
        )
        (ap (λ (v : F). some v) (get_or-set_self s.values i value (of_int (pos 0)) inside))

  read_other :
      (s : Switch.Switch f) (i : ℕ) (other : ℤ) (value : F)
      → other ≢ pos i
      → Switch.get_switch_value f other (record s { values = set s.values i value })
        ≡ Switch.get_switch_value f other s
  unfolding Switch.get_switch_value
  read_other s i (negsuc j) value apart =
      rw
        (
          Switch.get_switch_value,
          in_range-negative j (length (set s.values i value)),
          in_range-negative j (length s.values),
        )
        refl
  read_other s i (pos j) value apart = elim (Bool-cases (ltb j (length s.values))) [
    | inl inside ↦
        rw
          (
            Switch.get_switch_value,
            length-set s.values i value,
            in_range-inside j (length s.values) (ltb→lt j (length s.values) inside),
          )
          (ap (λ (v : F). some v)
            (get_or-set_ne s.values i j value (of_int (pos 0)) (λ e. apart (ap pos (sym e)))))
    | inr outside ↦
        rw
          (
            Switch.get_switch_value,
            length-set s.values i value,
            in_range-outside j (length s.values) outside,
          )
          refl
  ]

  -- A write that the gate lets through does not panic. The switch then reads the value written,
  -- every other switch reads what it read before, and there are as many switches as before.
  pub set_switch_value_lem :
      (s : Switch.Switch f) (id other : ℤ) (value : F)
      → length s.values ≡ s.n
      → Devices.gate_switch_value f sprintf (Switch.switch_driver f s) id value ≡ none
      → other ≢ id
      → (s' : Switch.Switch f) × (Switch.set_switch_value f id value s ≡ some s')
        × (Switch.get_switch_value f id s' ≡ some value)
        × (Switch.get_switch_value f other s' ≡ Switch.get_switch_value f other s)
        × (length s'.values ≡ s'.n)
  set_switch_value_lem s id other value same gated apart =
      let (i, e, inside, found) = gated-in_range s id value same gated in
      (
        record s { values = set s.values i value },
        rw e (write_at s i value inside),
        rw e (read_written s i value inside),
        read_other s i other value (λ x. apart (x ∙ sym e)),
        length-set s.values i value ∙ same,
      )
