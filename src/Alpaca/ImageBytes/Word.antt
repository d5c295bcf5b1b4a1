-- ===== src/Alpaca/ImageBytes/Word.antt =====
-- encoding/binary's little-endian words, and Go's conversions between int, int32 and uint32.
use goalpaca.Prelude.{
  ℕ, ◌+◌, ◌-◌, ◌*◌, ◌/◌, ◌%◌, ◌^◌, ◌<◌, ◌≡◌, List, arith, ltb, if◌then◌else◌, get_or, set, ℤ, pos,
  negsuc, ◌≤ℤ◌, ◌<ℤ◌, neg,
}

-- byte(v), byte(v >> 8), byte(v >> 16) and byte(v >> 24) of a uint32.
abbrev pub byte0 : ℕ → ℕ
byte0 v = v % 256

abbrev pub byte1 : ℕ → ℕ
byte1 v = v / 256 % 256

abbrev pub byte2 : ℕ → ℕ
byte2 v = v / 65536 % 256

abbrev pub byte3 : ℕ → ℕ
byte3 v = v / 16777216 % 256

-- binary.LittleEndian.PutUint32(buf[off:], v)
unfoldable pub put_u32 : ℕ → ℕ → List ℕ → List ℕ
put_u32 off v buf =
    set (set (set (set buf off (byte0 v)) (off + 1) (byte1 v)) (off + 2) (byte2 v)) (off + 3)
      (byte3 v)

-- binary.LittleEndian.Uint32(data[off:])
unfoldable pub get_u32 : ℕ → List ℕ → ℕ
get_u32 off bytes =
    get_or bytes off 0
    + 256 * get_or bytes (off + 1) 0
    + 65536 * get_or bytes (off + 2) 0
    + 16777216 * get_or bytes (off + 3) 0

-- uint32(n) of an int.
unfoldable pub u32_of : ℤ → ℕ
u32_of (pos n) = n % 4294967296
u32_of (negsuc n) = 4294967295 - n % 4294967296

-- int32(v) of a uint32.
unfoldable pub i32_of : ℕ → ℤ
i32_of v = if ltb v 2147483648 then pos v else negsuc (4294967295 - v)

-- The int that a product of ints stores, for a product n of non-negative factors.
unfoldable pub i64_of : ℕ → ℤ
i64_of n = let r = n % 2 ^ 64 in if ltb r (2 ^ 63) then pos r else negsuc (2 ^ 64 - 1 - r)

abbrev pub IsInt32 : ℤ → Type 0
IsInt32 z = (neg 2147483648 ≤ℤ z) × (z <ℤ pos 2147483648)

-- An int32 survives the conversion to uint32 and back.
pub i32_of-u32_of : (z : ℤ) → IsInt32 z → i32_of (u32_of z) ≡ z
unfolding i32_of u32_of
i32_of-u32_of (pos n) h = ground arith
i32_of-u32_of (negsuc n) h = ground arith

pub u32_of-lt : (z : ℤ) → u32_of z < 4294967296
unfolding u32_of
u32_of-lt (pos n) = omega arith
u32_of-lt (negsuc n) = omega arith

-- The four bytes of a uint32 add up to it.
pub word_of_bytes :
    (v : ℕ) → v < 4294967296 → byte0 v + 256 * byte1 v + 65536 * byte2 v + 16777216 * byte3 v ≡ v
word_of_bytes v h = omega arith

-- A product below 2^63 is stored as it is.
pub i64_of_small : (n : ℕ) → n < 9223372036854775808 → i64_of n ≡ pos n
unfolding i64_of
i64_of_small n h = ground arith

-- A product that is a multiple of 2^64 is stored as 0.
pub i64_of_multiple : (m : ℕ) → i64_of (m * 2 ^ 64) ≡ pos 0
unfolding i64_of
i64_of_multiple m = ground arith
