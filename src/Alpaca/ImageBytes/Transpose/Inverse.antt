-- ===== src/Alpaca/ImageBytes/Transpose/Inverse.antt =====
-- The transpose against its specification, and the transpose of the transpose.
use goalpaca.Prelude.{
  ℕ, ◌+◌, ◌*◌, ◌/◌, ◌%◌, ◌≤◌, ◌<◌, ◌≡◌, sym, ap, ◌∙◌, List, arith, length, get_or, replicate,
  length-replicate, list_ext,
}
use goalpaca.Alpaca.ImageBytes.Transpose.{Runtime, RunsAll, transpose_into, transpose_elems}
use goalpaca.Alpaca.ImageBytes.Transpose.Cells.{source_of-element}
use goalpaca.Alpaca.ImageBytes.Transpose.Bands.{transpose_into-IsSafe, transpose_into-Covers}
use native.Mathlib.Nat.{div-lt_iff_lt-mul, mod-lt, div-add-mod'}

-- An index below a * b * n is (x * b + y) * n + k, with x < a, y < b and k < n.
index_split :
    (a b n i : ℕ)
    → i < a * b * n
    → (x y k : ℕ) × (x < a) × (y < b) × (k < n) × (i ≡ (x * b + y) * n + k)
index_split a b n i h =
    let n_pos : 0 < n = grind arith in
    let b_pos : 0 < b = grind arith in
    let below : i / n < a * b = (div-lt_iff_lt-mul n_pos).1 h in
    (
      i / n / b,
      i / n % b,
      i % n,
      (div-lt_iff_lt-mul b_pos).1 below,
      mod-lt (i / n) b_pos,
      mod-lt i n_pos,
      rw (div-add-mod' (i / n) b) (sym (div-add-mod' i n)),
    )

-- Whatever the number of cores and the order of the goroutines, element (r, c) of a rows × cols
-- image lands at (c, r), and the destination keeps its length.
pub transpose_into_lem :
    (rt : Runtime) (dst src : List ℕ) (rows cols es r c k : ℕ)
    → RunsAll rt
    → rows * cols * es ≤ length dst
    → r < rows
    → c < cols
    → k < es
    → (get_or (transpose_into rt dst src rows cols es) ((c * rows + r) * es + k) 0
        ≡ get_or src ((r * cols + c) * es + k) 0)
      × (length (transpose_into rt dst src rows cols es) ≡ length dst)
transpose_into_lem rt dst src rows cols es r c k runs fits hr hc hk = (
  transpose_into-Covers src rows cols es rt r c runs hr hc dst fits k hk
      ∙ ap (λ (j : ℕ). get_or src j 0) (source_of-element rows cols es r c k hr hk),
  (transpose_into-IsSafe src rows cols es rt dst fits).0,
)

pub length-transpose_elems :
    (rt : Runtime) (src : List ℕ) (rows cols es : ℕ)
    → rows * cols * es ≡ length src
    → length (transpose_elems rt src rows cols es) ≡ length src
unfolding transpose_elems
length-transpose_elems rt src rows cols es e =
    let zeros : length (replicate {A = ℕ} (length src) 0) ≡ length src =
      length-replicate (length src) 0 in
    (transpose_into-IsSafe src rows cols es rt (replicate (length src) 0) (omega arith)).0 ∙ zeros

-- Transposing a rows × cols image and transposing the result as cols × rows gives the image
-- back, on any two machines.
pub transpose_elems-transpose_elems :
    (rt rt' : Runtime) (src dst : List ℕ) (rows cols es : ℕ)
    → RunsAll rt
    → RunsAll rt'
    → rows * cols * es ≡ length src
    → length dst ≡ length src
    → transpose_elems rt' (transpose_into rt dst src rows cols es) cols rows es ≡ src
unfolding transpose_elems
transpose_elems-transpose_elems rt rt' src dst rows cols es runs runs' e same =
    list_ext (transpose_into rt' zeros image cols rows es) src 0 (back ∙ whole)
      (λ i lt. at_index i (omega (arith, back, whole)))
  where
    image : List ℕ
    image = transpose_into rt dst src rows cols es

    zeros : List ℕ
    zeros = replicate (length image) 0

    whole : length image ≡ length src
    whole = (transpose_into-IsSafe src rows cols es rt dst (omega arith)).0 ∙ same

    blank : length zeros ≡ length image
    blank = length-replicate (length image) 0

    room : cols * rows * es ≤ length zeros
    room = omega (arith, blank, whole)

    back : length (transpose_into rt' zeros image cols rows es) ≡ length image
    back = (transpose_into-IsSafe image cols rows es rt' zeros room).0 ∙ blank

    at_index :
        (i : ℕ)
        → i < length src
        → get_or (transpose_into rt' zeros image cols rows es) i 0 ≡ get_or src i 0
    at_index i lt =
        let (r, c, k, hr, hc, hk, split) = index_split rows cols es i (omega arith) in
        rw split (
          (transpose_into_lem rt' zeros image cols rows es c r k runs' room hc hr hk).0
          ∙ (transpose_into_lem rt dst src rows cols es r c k runs (omega arith) hr hc hk).0)
