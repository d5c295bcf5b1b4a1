-- ===== src/Sim/FilterWheel.antt =====
-- sim/filterwheel.go: a wheel that takes 300 ms for a move.
pub mod Moves
pub mod Served
use goalpaca.Prelude.{ℕ, ◌+◌, ltb, if◌then◌else◌, List, [], ◌∷◌, String, ℤ, pos, neg}

pub record FilterWheel : Type 0 where
  pub names : List String
  pub offsets : List ℤ
  pub position : ℤ
  pub move_until : ℕ

-- 300 ms
abbrev pub move_time : ℕ
move_time = 300000000

unfoldable pub with_filters : List String → List ℤ → FilterWheel → FilterWheel
with_filters names offsets fw = record fw { names = names; offsets = offsets }

unfoldable pub new_filter_wheel : FilterWheel
new_filter_wheel = record {
  names = "Red" ∷ "Green" ∷ "Blue" ∷ "Luminance" ∷ [];
  offsets = pos 0 ∷ pos 0 ∷ pos 0 ∷ pos 0 ∷ [];
  position = pos 0;
  move_until = 0;
}

-- Position: -1 while the wheel moves.
unfoldable pub read_position : ℕ → FilterWheel → ℤ
read_position now fw = if ltb now fw.move_until then neg 1 else fw.position

unfoldable pub set_position : ℕ → ℤ → FilterWheel → FilterWheel
set_position now slot fw = record fw { position = slot; move_until = now + move_time }
