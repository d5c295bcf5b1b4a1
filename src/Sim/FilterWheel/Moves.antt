-- ===== src/Sim/FilterWheel/Moves.antt =====
-- A move of the filter wheel, under the server's gate.
use goalpaca.Prelude.{if◌then◌else◌, ltb, ℕ, ◌+◌, ◌≤◌, ◌≡◌, arith, length, ℤ, pos, neg, ◌≤ℤ◌, ◌<ℤ◌}
use goalpaca.Sim.FilterWheel.{FilterWheel, move_time, read_position, set_position}

-- The wheel stands at one of its slots, or moves to one.
abbrev pub HasSlot : FilterWheel → Type 0
HasSlot fw = (pos 0 ≤ℤ fw.position) × (fw.position <ℤ pos (length fw.names))

-- A slot that the gate lets through keeps the wheel at its slots: from then on it reads -1 for 300
-- ms, and the slot afterwards.
pub set_position_lem :
    (now t : ℕ) (slot : ℤ) (fw : FilterWheel)
    → now ≤ t
    → (pos 0 ≤ℤ slot) × (slot <ℤ pos (length fw.names))
    → HasSlot (set_position now slot fw)
      × (read_position t (set_position now slot fw)
          ≡ (if ltb t (now + move_time) then neg 1 else slot))
unfolding set_position read_position
set_position_lem now t slot fw after gated = ground arith
