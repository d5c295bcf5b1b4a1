-- ===== src/Float/Exact.antt =====
-- A value of the parameter Float64 at which the rules of IEEE 754 hold: the integers, and a NaN.
-- Constants and quotients are cut to integers. It is used by tests and examples.
use native.Mathlib.Nat.{mod-lt, mod-eq_of_lt}
use goalpaca.Prelude.{
  ℕ, suc, ◌+◌, ◌/◌, ◌%◌, ◌^◌, ◌<◌, ◌≡◌, Bool, true, false, ℤ, pos, negsuc, neg, pos_part, neg_part,
  ◌+ℤ◌, ◌-ℤ◌, ◌*ℤ◌, ◌≤ℤ◌, ltb_ℤ, leb_ℤ, eqb_ℤ, if◌then◌else◌, arith, +ℤ_parts, -ℤ_parts,
}
use mathlib.Core.Bool.{xor}
use goalpaca.Float.{Float64, Ieee, Within, IsBounded}

pub data Num : Type 0 where
  nan : Num
  num : ℤ → Num

abbrev test : (ℤ → ℤ → Bool) → Num → Num → Bool
test p nan y = false
test p (num a) nan = false
test p (num a) (num b) = p a b

abbrev combine : (ℤ → ℤ → ℤ) → Num → Num → Num
combine g nan y = nan
combine g (num a) nan = nan
combine g (num a) (num b) = num (g a b)

abbrev magnitude : ℤ → ℕ
magnitude z = pos_part z + neg_part z

-- The number with this magnitude and the sign of z.
abbrev with_sign : ℤ → ℕ → ℤ
with_sign (pos _) n = pos n
with_sign (negsuc _) n = neg n

abbrev rem : ℤ → ℤ → ℤ
rem a b = with_sign a (magnitude a % magnitude b)

abbrev is_negative : ℤ → Bool
is_negative (pos _) = false
is_negative (negsuc _) = true

abbrev quot : ℤ → ℤ → ℤ
quot a b =
    if xor (is_negative a) (is_negative b)
    then neg (magnitude a / magnitude b)
    else pos (magnitude a / magnitude b)

abbrev abs_num : Num → Num
abs_num nan = nan
abs_num (num z) = num (pos (magnitude z))

-- math.Copysign takes the sign of a NaN too; this NaN has none.
abbrev copysign_of : Num → Num → Num
copysign_of nan y = nan
copysign_of (num a) nan = num (pos (magnitude a))
copysign_of (num a) (num b) = num (with_sign b (magnitude a))

abbrev trunc_num : Num → ℤ
trunc_num nan = pos 0
trunc_num (num z) = z

abbrev pub exact : Float64
exact = record {
  F = Num;
  lt = test ltb_ℤ;
  le = test leb_ℤ;
  eq = test eqb_ℤ;
  add = combine ◌+ℤ◌;
  sub = combine ◌-ℤ◌;
  mul = combine ◌*ℤ◌;
  div = combine quot;
  mod_of = combine rem;
  abs = abs_num;
  copysign = copysign_of;
  of_int = num;
  decimal = λ m k. num (with_sign m (magnitude m / 10 ^ k));
  trunc = trunc_num;
  seconds = λ n. num (pos (n / 1000000000 % 9223372036));
}

le_trans_num : (x y z : Num) → test leb_ℤ x y ≡ true → test leb_ℤ y z ≡ true → test leb_ℤ x z ≡ true
le_trans_num x y z p q = ground arith

le_of_not_num :
    (v w x y : Num)
    → test leb_ℤ v x ≡ true
    → test leb_ℤ w y ≡ true
    → test ltb_ℤ x y ≡ false
    → test leb_ℤ y x ≡ true
le_of_not_num v w x y p q r = ground arith

add_num :
    (a b c d : ℤ) (x y : Num)
    → Within exact a b x
    → Within exact c d y
    → Within exact (a +ℤ c) (b +ℤ d) (exact.add x y)
add_num a b c d nan y p q = cc
add_num a b c d (num x) nan p q = cc
add_num a b c d (num x) (num y) p q = ground (arith, +ℤ_parts a c, +ℤ_parts b d, +ℤ_parts x y)

sub_num :
    (a b c d : ℤ) (x y : Num)
    → Within exact a b x
    → Within exact c d y
    → Within exact (a -ℤ d) (b -ℤ c) (exact.sub x y)
sub_num a b c d nan y p q = cc
sub_num a b c d (num x) nan p q = cc
sub_num a b c d (num x) (num y) p q = ground (arith, -ℤ_parts a d, -ℤ_parts b c, -ℤ_parts x y)

mod_num :
    (n : ℕ) (x : Num)
    → 0 < n
    → IsBounded exact x
    → Within exact (neg n) (pos n) (exact.mod_of x (num (pos n)))
mod_num n nan p q = ground arith
mod_num n (num (pos a)) p q = ground (arith, mod-lt a {m = n + 0})
mod_num n (num (negsuc a)) p q = ground (arith, mod-lt (suc a) {m = n + 0})

mul_num :
    (x y : Num)
    → test leb_ℤ (num (pos 0)) x ≡ true
    → test leb_ℤ (num (pos 0)) y ≡ true
    → test leb_ℤ (num (pos 0)) (exact.mul x y) ≡ true
unfolding ◌*ℤ◌
mul_num nan y p q = cc
mul_num (num x) nan p q = cc
mul_num (num (pos a)) (num (pos b)) p q = ground arith
mul_num (num (pos a)) (num (negsuc b)) p q = ground arith
mul_num (num (negsuc a)) (num y) p q = ground arith

le_of_lt_num : (x y : Num) → test ltb_ℤ x y ≡ true → test leb_ℤ x y ≡ true
le_of_lt_num x y p = ground arith

not_lt_num : (x y : Num) → test leb_ℤ x y ≡ true → test ltb_ℤ y x ≡ false
not_lt_num x y p = ground arith

le_of_not_le_num :
    (v w x y : Num)
    → test leb_ℤ v x ≡ true
    → test leb_ℤ w y ≡ true
    → test leb_ℤ x y ≡ false
    → test leb_ℤ y x ≡ true
le_of_not_le_num v w x y p q r = ground arith

le_num : (a b : ℤ) → a ≤ℤ b → leb_ℤ a b ≡ true
le_num a b p = ground arith

abs_num-Within :
    (n : ℕ) (x : Num) → Within exact (neg n) (pos n) x → Within exact (pos 0) (pos n) (abs_num x)
abs_num-Within n nan p = cc
abs_num-Within n (num (pos a)) p = ground arith
abs_num-Within n (num (negsuc a)) p = ground arith

copysign_num :
    (n : ℕ) (x y : Num)
    → Within exact (pos 0) (pos n) x
    → Within exact (neg n) (pos n) (exact.copysign x y)
copysign_num n nan y p = cc
copysign_num n (num x) nan p = ground arith
copysign_num n (num x) (num (pos b)) p = ground arith
copysign_num n (num x) (num (negsuc b)) p = ground arith

small_num :
    (n : ℕ) (x : Num)
    → test ltb_ℤ (num (neg n)) x ≡ true
    → test ltb_ℤ x (num (pos n)) ≡ true
    → exact.mod_of x (num (pos n)) ≡ x
small_num n nan p q = λ i. nan
small_num n (num (pos a)) p q =
    let below : a < n = ground arith in ground (arith, mod-eq_of_lt below)
small_num n (num (negsuc a)) p q =
    let below : suc a < n = ground arith in ground (arith, mod-eq_of_lt below)

positive_num :
    (n : ℕ) (x : Num)
    → test ltb_ℤ (num (neg n)) x ≡ true
    → test ltb_ℤ (num (pos 0)) (exact.add x (num (pos n))) ≡ true
positive_num n nan p = cc
positive_num n (num x) p = ground (arith, +ℤ_parts x (pos n))

negative_num :
    (n : ℕ) (x : Num)
    → test ltb_ℤ x (num (pos n)) ≡ true
    → test ltb_ℤ (exact.sub x (num (pos n))) (num (pos 0)) ≡ true
negative_num n nan p = cc
negative_num n (num x) p = ground (arith, -ℤ_parts x (pos n))

apart_num :
    (x y : Num) → test ltb_ℤ x y ≡ true → (test eqb_ℤ x y ≡ false) × (test eqb_ℤ y x ≡ false)
apart_num x y p = (ground arith, ground arith)

pub exact_ieee : Ieee exact
exact_ieee = record {
  le_trans = le_trans_num;
  le_of_lt = le_of_lt_num;
  not_lt_of_le = not_lt_num;
  le_of_not_lt = le_of_not_num;
  le_of_not_le = le_of_not_le_num;
  of_int_le = le_num;
  add_within = λ a b c d x y s p q. add_num a b c d x y p q;
  sub_within = λ a b c d x y s p q. sub_num a b c d x y p q;
  mod_within = λ n x p q h. mod_num n x p h;
  abs_within = abs_num-Within;
  copysign_within = copysign_num;
  seconds_nonneg = λ n. le_num (pos 0) (pos (n / 1000000000 % 9223372036)) (omega arith);
  mul_nonneg = λ x y p q. mul_num x y;
  seconds_bounded = λ n. (
    pos 0,
    pos 9223372036854775807,
    omega arith,
    omega arith,
    (
      le_num (pos 0) (pos (n / 1000000000 % 9223372036)) (omega arith),
      le_num (pos (n / 1000000000 % 9223372036)) (pos 9223372036854775807) (omega arith),
    ),
  );
  mod_small = small_num;
  add_positive = λ n x small. positive_num n x;
  sub_negative = λ n x small. negative_num n x;
  not_eq_of_lt = apart_num;
}
