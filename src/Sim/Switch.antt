-- ===== src/Sim/Switch.antt =====
-- sim/switch.go: analog switches whose values a client writes. An index out of range panics, which
-- is `none` here.
pub mod Written
use goalpaca.Prelude.{
  ℕ, ℤ, pos, negsuc, Bool, true, false, Option, none, some, ltb, if◌then◌else◌, List, length,
  get_or, set, replicate,
}
use goalpaca.Float.{Float64}
use goalpaca.Server.Gates.Devices

pub record Switch (f : Float64) : Type 0 where
  pub n : ℕ
  pub values : List f.F

-- The index, where it lies within the length.
unfoldable pub in_range : ℕ → ℤ → Option ℕ
in_range len (pos i) = if ltb i len then some i else none
in_range len (negsuc i) = none

module _ (f : Float64) where
  open f use {F, lt, of_int}

  unfoldable pub with_switches : ℕ → Switch f → Switch f
  with_switches n s = record s { n = n; values = replicate n (of_int (pos 0)) }

  unfoldable pub new_switch : Switch f
  new_switch = record { n = 4; values = replicate 4 (of_int (pos 0)) }

  unfoldable pub get_switch_value : ℤ → Switch f → Option F
  get_switch_value id s = elim (in_range (length s.values) id) [
    | none ↦ none
    | some i ↦ some (get_or s.values i (of_int (pos 0)))
  ]

  unfoldable pub get_switch : ℤ → Switch f → Option Bool
  get_switch id s = elim (in_range (length s.values) id) [
    | none ↦ none
    | some i ↦ some (lt (of_int (pos 0)) (get_or s.values i (of_int (pos 0))))
  ]

  unfoldable pub set_switch_value : ℤ → F → Switch f → Option (Switch f)
  set_switch_value id value s = elim (in_range (length s.values) id) [
    | none ↦ none
    | some i ↦ some (record s { values = set s.values i value })
  ]

  unfoldable pub set_switch : ℤ → Bool → Switch f → Option (Switch f)
  set_switch id state s = set_switch_value id (if state then of_int (pos 100) else of_int (pos 0)) s

  -- MaxSwitch, MinSwitchValue, MaxSwitchValue and CanAsync, as the gates ask for them.
  abbrev pub switch_driver : Switch f → Devices.Switch f
  switch_driver s = record {
    max_switch = pos s.n;
    min_switch_value = λ id. (of_int (pos 0), none);
    max_switch_value = λ id. (of_int (pos 100), none);
    can_async = λ id. (false, none);
  }
