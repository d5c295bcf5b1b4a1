-- ===== src/Float.antt =====
-- Go's float64. Its values and operations are a parameter of the modules that compute with
-- coordinates, rates and durations; Ieee names the rules of IEEE 754 that the proofs rest on.
pub mod Exact
use goalpaca.Prelude.{
  ℕ, ◌≤◌, ◌<◌, ◌≡◌, Bool, true, false, ℤ, pos, negsuc, neg, pos_part, neg_part, ◌+ℤ◌, ◌-ℤ◌, ◌≤ℤ◌,
}

pub record Float64 : Type 1 where
  pub F : Type 0
  -- The comparisons `<`, `<=` and `==`: each is false at a NaN.
  pub lt : F → F → Bool
  pub le : F → F → Bool
  pub eq : F → F → Bool
  pub add : F → F → F
  pub sub : F → F → F
  pub mul : F → F → F
  pub div : F → F → F
  -- math.Mod, math.Abs and math.Copysign.
  pub mod_of : F → F → F
  pub abs : F → F
  pub copysign : F → F → F
  -- float64(n) of an int, a constant m / 10^k, and int(x).
  pub of_int : ℤ → F
  pub decimal : ℤ → ℕ → F
  pub trunc : F → ℤ
  -- Duration.Seconds of a number of nanoseconds, or of the longest duration.
  pub seconds : ℕ → F

module _ (f : Float64) where
  open f use {F, lt, le, eq, add, sub, mul, mod_of, abs, copysign, of_int, seconds}

  -- A number between two integers, and so not a NaN.
  abbrev pub Within : ℤ → ℤ → F → Type 0
  Within lo hi x = (le (of_int lo) x ≡ true) × (le x (of_int hi) ≡ true)

  -- A number of the range of the ints: no NaN, and no infinity.
  abbrev pub IsBounded : F → Type 0
  IsBounded x =
      (lo : ℤ) × (hi : ℤ) × (neg 9223372036854775808 ≤ℤ lo)
      × (hi ≤ℤ pos 9223372036854775807)
      × Within lo hi x

  -- Every comparison with a NaN is false.
  abbrev pub IsNan : F → Type 0
  IsNan x = (y : F) → (lt x y ≡ false) × (lt y x ≡ false) × (le x y ≡ false) × (le y x ≡ false)

  -- An integer that a float64 holds with room for a sum.
  abbrev pub IsSmall : ℤ → Type 0
  IsSmall z = (neg 1000000 ≤ℤ z) × (z ≤ℤ pos 1000000)

  pub record Ieee : Type 0 where
    pub le_trans : (x y z : F) → le x y ≡ true → le y z ≡ true → le x z ≡ true
    pub le_of_lt : (x y : F) → lt x y ≡ true → le x y ≡ true
    pub not_lt_of_le : (x y : F) → le x y ≡ true → lt y x ≡ false
    -- Two numbers, each at least some number, are ordered one way or the other.
    pub le_of_not_lt :
        (v w x y : F) → le v x ≡ true → le w y ≡ true → lt x y ≡ false → le y x ≡ true
    pub le_of_not_le :
        (v w x y : F) → le v x ≡ true → le w y ≡ true → le x y ≡ false → le y x ≡ true
    pub of_int_le : (a b : ℤ) → a ≤ℤ b → le (of_int a) (of_int b) ≡ true
    -- Rounding keeps the order, and small integers are exact.
    pub add_within :
        (a b c d : ℤ) (x y : F)
        → IsSmall a × IsSmall b × IsSmall c × IsSmall d
        → Within a b x
        → Within c d y
        → Within (a +ℤ c) (b +ℤ d) (add x y)
    pub sub_within :
        (a b c d : ℤ) (x y : F)
        → IsSmall a × IsSmall b × IsSmall c × IsSmall d
        → Within a b x
        → Within c d y
        → Within (a -ℤ d) (b -ℤ c) (sub x y)
    -- math.Mod of a bounded number is smaller than its divisor.
    pub mod_within :
        (n : ℕ) (x : F)
        → 0 < n
        → n ≤ 1000000
        → IsBounded x
        → Within (neg n) (pos n) (mod_of x (of_int (pos n)))
    pub abs_within : (n : ℕ) (x : F) → Within (neg n) (pos n) x → Within (pos 0) (pos n) (abs x)
    pub copysign_within :
        (n : ℕ) (x y : F) → Within (pos 0) (pos n) x → Within (neg n) (pos n) (copysign x y)
    pub seconds_nonneg : (n : ℕ) → le (of_int (pos 0)) (seconds n) ≡ true
    pub mul_nonneg :
        (x y : F)
        → IsBounded x
        → IsBounded y
        → le (of_int (pos 0)) x ≡ true
        → le (of_int (pos 0)) y ≡ true
        → le (of_int (pos 0)) (mul x y) ≡ true
    pub seconds_bounded : (n : ℕ) → IsBounded (seconds n)
    -- math.Mod of a number smaller than its divisor is that number.
    pub mod_small :
        (n : ℕ) (x : F)
        → lt (of_int (neg n)) x ≡ true
        → lt x (of_int (pos n)) ≡ true
        → mod_of x (of_int (pos n)) ≡ x
    -- The sum of two numbers rounds to 0 only where it is 0.
    pub add_positive :
        (n : ℕ) (x : F)
        → n ≤ 1000000
        → lt (of_int (neg n)) x ≡ true
        → lt (of_int (pos 0)) (add x (of_int (pos n))) ≡ true
    pub sub_negative :
        (n : ℕ) (x : F)
        → n ≤ 1000000
        → lt x (of_int (pos n)) ≡ true
        → lt (sub x (of_int (pos n))) (of_int (pos 0)) ≡ true
    pub not_eq_of_lt : (x y : F) → lt x y ≡ true → (eq x y ≡ false) × (eq y x ≡ false)
