-- ===== src/Prelude/Loop.antt =====
-- Counted loops with a stride, `for i := lo; i < hi; i += step { s = body(i, s) }`.
use Prim.Native.Nat.{ℕ, zero, suc, ◌+◌, ◌≤◌, ◌<◌}
use mathlib.Core.Logic.{inl, inr}
use native.Mathlib.Omega.{arith}
use goalpaca.Prelude.Tests.{ltb, if◌then◌else◌, Bool-cases, ltb→lt, ltb→le}

-- Fuel: `hi` rounds are enough for any `lo` and a positive stride.
unfoldable pub for_from {ℓ} : {S : Type ℓ} → ℕ → ℕ → ℕ → ℕ → (ℕ → S → S) → S → S
for_from zero i hi step body s = s
for_from (suc fuel) i hi step body s =
    let rest = for_from fuel (i + step) hi step body (body i s) in if ltb i hi then rest else s

unfoldable pub for_loop {ℓ} : {S : Type ℓ} → ℕ → ℕ → ℕ → (ℕ → S → S) → S → S
unfolding for_from
for_loop lo hi step body s = for_from hi lo hi step body s

module _ {ℓ κ} {S : Type ℓ} (P : S → Type κ) (hi step : ℕ) (body : ℕ → S → S) where
  for_from_keeps :
      (fuel i : ℕ) (s : S)
      → ((t : ℕ) (u : S) → t < hi → P u → P (body t u))
      → P s
      → P (for_from fuel i hi step body s)
  unfolding for_from
  for_from_keeps zero i s keep p = p
  for_from_keeps (suc fuel) i s keep p = elim (Bool-cases (ltb i hi)) [
    | inl more ↦
        rw more (for_from_keeps fuel (i + step) (body i s) keep (keep i s (ltb→lt i hi more) p))
    | inr done ↦ rw done p
  ]

  -- What every round keeps, the loop keeps.
  pub for_loop_keeps :
      (lo : ℕ) (s : S)
      → ((t : ℕ) (u : S) → t < hi → P u → P (body t u))
      → P s
      → P (for_loop lo hi step body s)
  unfolding for_loop
  for_loop_keeps lo s keep p = for_from_keeps hi lo s keep p

module _ {ℓ κ ι} {S : Type ℓ} (I : S → Type κ) (Q : ℕ → S → Type ι) (hi step : ℕ) (body : ℕ → S → S)
    (keep : (t : ℕ) (u : S) → t < hi → I u → I (body t u))
    (hits : (t j : ℕ) (u : S) → t < hi → I u → t ≤ j → j < t + step → j < hi → Q j (body t u))
    (stay : (t j : ℕ) (u : S) → t < hi → I u → Q j u → Q j (body t u)) where
  for_from_stays : (fuel i j : ℕ) (s : S) → I s → Q j s → Q j (for_from fuel i hi step body s)
  unfolding for_from
  for_from_stays zero i j s inv q = q
  for_from_stays (suc fuel) i j s inv q = elim (Bool-cases (ltb i hi)) [
    | inl more ↦
        let lt = ltb→lt i hi more in
        rw more
          (for_from_stays fuel (i + step) j (body i s) (keep i s lt inv) (stay i j s lt inv q))
    | inr done ↦ rw done q
  ]

  for_from_reaches :
      (fuel i j : ℕ) (s : S)
      → I s
      → 0 < step
      → hi ≤ i + fuel
      → i ≤ j
      → j < hi
      → Q j (for_from fuel i hi step body s)
  unfolding for_from
  for_from_reaches zero i j s inv pos enough low high = absurd (omega arith)
  for_from_reaches (suc fuel) i j s inv pos enough low high = elim (Bool-cases (ltb i hi)) [
    | inl more ↦
        let lt = ltb→lt i hi more in
        rw more (elim (Bool-cases (ltb j (i + step))) [
          | inl here ↦
              for_from_stays fuel (i + step) j (body i s) (keep i s lt inv)
                (hits i j s lt inv low (ltb→lt j (i + step) here) high)
          | inr later ↦
              for_from_reaches fuel (i + step) j (body i s) (keep i s lt inv) pos (omega arith)
                (ltb→le j (i + step) later) high
        ])
    | inr done ↦ absurd (omega (arith, ltb→le i hi done))
  ]

  -- A loop reaches every index of its range: what the round of an index establishes, and every
  -- round keeps, holds at the end.
  pub for_loop_reaches :
      (lo j : ℕ) (s : S) → I s → 0 < step → lo ≤ j → j < hi → Q j (for_loop lo hi step body s)
  unfolding for_loop
  for_loop_reaches lo j s inv pos low high =
      for_from_reaches hi lo j s inv pos (omega arith) low high

  -- What held before the loop at an index still holds.
  pub for_loop_stays : (lo j : ℕ) (s : S) → I s → Q j s → Q j (for_loop lo hi step body s)
  unfolding for_loop
  for_loop_stays lo j s inv q = for_from_stays hi lo j s inv q
