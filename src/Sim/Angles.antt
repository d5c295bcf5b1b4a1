-- ===== src/Sim/Angles.antt =====
-- Angles and durations: wrap360 and shortestDelta of sim/rotator.go, wrap24 and clampDec of
-- sim/telescope.go, and the distance that a motor has covered since it started.
pub mod Bounds
use goalpaca.Prelude.{ℕ, ◌-◌, Bool, if◌then◌else◌, ℤ, pos, neg}
use goalpaca.Float.{Float64}

module _ (f : Float64) where
  open f use {F, lt, add, sub, mul, mod_of, of_int, seconds}

  unfoldable pub wrap360 : F → F
  wrap360 a =
      let r = mod_of a (of_int (pos 360)) in
      if lt r (of_int (pos 0)) then add r (of_int (pos 360)) else r

  unfoldable pub wrap24 : F → F
  wrap24 h =
      let r = mod_of h (of_int (pos 24)) in
      if lt r (of_int (pos 0)) then add r (of_int (pos 24)) else r

  -- The two tests run one after the other, on what the first has left.
  unfoldable pub shortest_delta : F → F → F
  shortest_delta from to =
      let d = mod_of (sub to from) (of_int (pos 360)) in
      let d' = if lt d (of_int (neg 180)) then add d (of_int (pos 360)) else d in
      if lt (of_int (pos 180)) d' then sub d' (of_int (pos 360)) else d'

  unfoldable pub clamp_dec : F → F
  clamp_dec d =
      if lt (of_int (pos 90)) d
      then of_int (pos 90)
      else if lt d (of_int (neg 90))
      then of_int (neg 90)
      else d

  -- time.Since(start).Seconds() * rate
  unfoldable pub traveled : ℕ → ℕ → F → F
  traveled now start rate = mul (seconds (now - start)) rate
