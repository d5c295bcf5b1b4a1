-- ===== src/Alpaca/ImageBytes/Transpose/Cells.antt =====
-- Where a byte of the transposed image comes from, and what moving one element does.
use goalpaca.Prelude.{
  ℕ, zero, suc, ◌+◌, ◌*◌, ◌/◌, ◌%◌, ◌≤◌, ◌<◌, ◌≡◌, refl, sym, ap, ◌∙◌, ◌⊎◌, inl, inr, List, arith,
  get_or, set, length, length-set, get_or-set_self, get_or-set_ne,
}
use goalpaca.Alpaca.ImageBytes.Transpose.{copy_bytes, move_element}
use native.Mathlib.Decide.{ℕ_discrete}
use native.Mathlib.Nat.{
  mul-add-div_right, mul-add-mod_self_right, div-eq_of_lt, mod-eq_of_lt, add-zero,
}

-- The index in the source (rows × cols, row-major) of byte i of the transposed image.
abbrev pub source_of : ℕ → ℕ → ℕ → ℕ → ℕ
source_of rows cols es i = (i / es % rows * cols + i / es / rows) * es + i % es

-- Byte i of dst is the one that belongs there.
abbrev pub Placed : List ℕ → ℕ → ℕ → ℕ → ℕ → List ℕ → Type 0
Placed src rows cols es i dst = get_or dst i 0 ≡ get_or src (source_of rows cols es i) 0

pub divide_index : (a b n : ℕ) → b < n → ((a * n + b) / n ≡ a) × ((a * n + b) % n ≡ b)
divide_index a b n h =
    let quotient : (a * n + b) / n ≡ a =
      mul-add-div_right {m = n} (omega arith) a b ∙ rw (div-eq_of_lt h) (omega arith) in
    (quotient, mul-add-mod_self_right a n b ∙ mod-eq_of_lt h)

-- Element (r, c) of the source stands at (c, r) in the transposed image.
pub source_of-element :
    (rows cols es r c k : ℕ)
    → r < rows
    → k < es
    → source_of rows cols es ((c * rows + r) * es + k) ≡ (r * cols + c) * es + k
source_of-element rows cols es r c k hr hk =
    let (q, m) = divide_index (c * rows + r) k es hk in
    let (q', m') = divide_index c r rows hr in rw (q, m, q', m')

set-Placed :
    (src : List ℕ) (rows cols es i d v : ℕ) (dst : List ℕ)
    → v ≡ get_or src (source_of rows cols es d) 0
    → d < length dst
    → (i ≡ d) ⊎ Placed src rows cols es i dst
    → Placed src rows cols es i (set dst d v)
set-Placed src rows cols es i d v dst hv hd h = elim (ℕ_discrete d i) [
  | yes e ↦ rw (← e) (get_or-set_self dst d v 0 hd ∙ hv)
  | no ne ↦ elim h [ inl e ↦ absurd (ne (sym e)) | inr p ↦ get_or-set_ne dst d i v 0 ne ∙ p ]
]

pub length-copy_bytes :
    (n : ℕ) (dst src : List ℕ) (d s : ℕ) → length (copy_bytes n dst src d s) ≡ length dst
unfolding copy_bytes
length-copy_bytes zero dst src d s = refl
length-copy_bytes (suc n) dst src d s =
    length-copy_bytes n (set dst d (get_or src s 0)) src (d + 1) (s + 1) ∙ length-set dst d _

-- A run of bytes copied from where they belong places each of them, and displaces none.
copy_bytes-Placed :
    (src : List ℕ) (rows cols es i n d s : ℕ) (dst : List ℕ)
    → ((k : ℕ) → k < n → s + k ≡ source_of rows cols es (d + k))
    → d + n ≤ length dst
    → ((d ≤ i) × (i < d + n)) ⊎ Placed src rows cols es i dst
    → Placed src rows cols es i (copy_bytes n dst src d s)
unfolding copy_bytes
copy_bytes-Placed src rows cols es i zero d s dst from fits h = elim h [
  | inl (low, high) ↦ absurd (omega arith)
  | inr p ↦ p
]
copy_bytes-Placed src rows cols es i (suc n) d s dst from fits h =
    copy_bytes-Placed src rows cols es i n (d + 1) (s + 1) (set dst d v)
      (λ k lt.
        let step : s + 1 + k ≡ s + (1 + k) = omega arith in
        let step' : d + 1 + k ≡ d + (1 + k) = omega arith in
        rw (step, step') (from (1 + k) (omega arith)))
      (omega (arith, length-set dst d v))
      (elim (ℕ_discrete i d) [
        | yes e ↦ inr (set-Placed src rows cols es i d v dst right (omega arith) (inl e))
        | no ne ↦ elim h [
          | inl (low, high) ↦ inl (omega arith, omega arith)
          | inr p ↦ inr (set-Placed src rows cols es i d v dst right (omega arith) (inr p))
        ]
      ])
  where
    v : ℕ
    v = get_or src s 0

    right : v ≡ get_or src (source_of rows cols es d) 0
    right =
        let here = from 0 (omega arith) in
        ap (λ (j : ℕ). get_or src j 0) (rw (add-zero, add-zero) at here)

move_element_general :
    (src : List ℕ) (rows cols es r c : ℕ) (dst : List ℕ)
    → 2 < es
    → move_element src rows cols es r c dst
      ≡ copy_bytes es dst src ((c * rows + r) * es) ((r * cols + c) * es)
unfolding move_element
move_element_general src rows cols es r c dst h = ground arith

-- The one-byte and two-byte cases of the switch are the general copy, unrolled.
pub move_element-copy_bytes :
    (src : List ℕ) (rows cols es r c : ℕ) (dst : List ℕ)
    → move_element src rows cols es r c dst
      ≡ copy_bytes es dst src ((c * rows + r) * es) ((r * cols + c) * es)
unfolding move_element copy_bytes
move_element-copy_bytes src rows cols zero r c dst = refl
move_element-copy_bytes src rows cols (suc zero) r c dst =
    let e : (c * rows + r) * 1 ≡ c * rows + r = omega arith in
    let e' : (r * cols + c) * 1 ≡ r * cols + c = omega arith in rw (e, e')
move_element-copy_bytes src rows cols (suc (suc zero)) r c dst =
    let e : (r * cols + c) * 2 ≡ r * cols * 2 + c * 2 = omega arith in rw e
move_element-copy_bytes src rows cols (suc (suc (suc n))) r c dst =
    move_element_general src rows cols (suc (suc (suc n))) r c dst (omega arith)

-- The last element of a rows × cols grid ends within it.
element_fits :
    (rows cols es r c : ℕ) → r < rows → c < cols → (c * rows + r) * es + es ≤ rows * cols * es
element_fits rows cols es r c hr hc = grind arith

module _ (src : List ℕ) (rows cols es r c : ℕ) (dst : List ℕ) where
  pub length-move_element : length (move_element src rows cols es r c dst) ≡ length dst
  length-move_element =
      rw (move_element-copy_bytes src rows cols es r c dst) (length-copy_bytes es dst src _ _)

  move_element-Placed :
      (i : ℕ)
      → r < rows
      → c < cols
      → rows * cols * es ≤ length dst
      → (((c * rows + r) * es ≤ i) × (i < (c * rows + r) * es + es)) ⊎ Placed src rows cols es i dst
      → Placed src rows cols es i (move_element src rows cols es r c dst)
  move_element-Placed i hr hc fits h = rw (move_element-copy_bytes src rows cols es r c dst) (
      copy_bytes-Placed src rows cols es i es ((c * rows + r) * es) ((r * cols + c) * es) dst
        (λ k lt. sym (source_of-element rows cols es r c k hr lt))
        (omega (arith, element_fits rows cols es r c hr hc)) h)

  -- Moving an element places its bytes.
  pub move_element-places :
      (k : ℕ)
      → r < rows
      → c < cols
      → k < es
      → rows * cols * es ≤ length dst
      → Placed src rows cols es ((c * rows + r) * es + k) (move_element src rows cols es r c dst)
  move_element-places k hr hc hk fits =
      move_element-Placed ((c * rows + r) * es + k) hr hc fits (inl (omega arith, omega arith))

  -- Moving an element displaces no byte.
  pub move_element-stays :
      (i : ℕ)
      → r < rows
      → c < cols
      → rows * cols * es ≤ length dst
      → Placed src rows cols es i dst
      → Placed src rows cols es i (move_element src rows cols es r c dst)
  move_element-stays i hr hc fits p = move_element-Placed i hr hc fits (inr p)
