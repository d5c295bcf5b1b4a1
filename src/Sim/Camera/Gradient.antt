-- ===== src/Sim/Camera/Gradient.antt =====
-- The frame's pixels: the two loops of ImageFrame of sim/camera.go.
use native.Mathlib.Decide.{ℕ_discrete}
use native.Mathlib.Nat.{div-lt_iff_lt-mul}
use goalpaca.Prelude.{
  ℕ, ◌+◌, ◌*◌, ◌/◌, ◌%◌, ◌^◌, ◌≤◌, ◌<◌, ◌≡◌, ◌≢◌, refl, sym, ◌∙◌, arith, List, length, get_or, set,
  replicate, length-set, length-replicate, get_or-set_self, get_or-set_ne, some, pos, ◌*ℤ◌, ◌⊎◌,
  inl, inr,
}
use goalpaca.Prelude.Loop.{for_loop_keeps, for_loop_reaches}
use goalpaca.Alpaca.ImageBytes.Word.{byte0, byte1, i64_of, i64_of_small}
use goalpaca.Alpaca.ImageBytes.Transpose.Cells.{divide_index}
use goalpaca.Sim.Camera.{put_u16, shade, put_column, put_columns, gradient, wrap_int}

product_pos : (w h : ℕ) → pos w *ℤ pos h *ℤ pos 2 ≡ pos (w * h * 2)
unfolding ◌*ℤ◌
product_pos w h = ground arith

wrap_int_small : (n : ℕ) → n < 2 ^ 63 → wrap_int (pos n) ≡ pos n
unfolding wrap_int i64_of
wrap_int_small n h = ground arith

word_of_two_bytes : (q : ℕ) → q < 65536 → byte0 (q % 65536) + 256 * byte1 (q % 65536) ≡ q
word_of_two_bytes q h = omega arith

-- The little-endian word of pixel c is v.
abbrev pub HasPixel : ℕ → ℕ → List ℕ → Type 0
HasPixel c v buf = (get_or buf (c * 2) 0 ≡ byte0 v) × (get_or buf (c * 2 + 1) 0 ≡ byte1 v)

length-put_u16 : (off v : ℕ) (buf : List ℕ) → length (put_u16 off v buf) ≡ length buf
unfolding put_u16
length-put_u16 off v buf =
    length-set (set buf off (byte0 v)) (off + 1) (byte1 v) ∙ length-set buf off (byte0 v)

put_u16-HasPixel :
    (c v : ℕ) (buf : List ℕ) → c * 2 + 2 ≤ length buf → HasPixel c v (put_u16 (c * 2) v buf)
unfolding put_u16
put_u16-HasPixel c v buf fits = (
  get_or-set_ne (set buf (c * 2) (byte0 v)) (c * 2 + 1) (c * 2) (byte1 v) 0 (λ e. omega arith)
      ∙ get_or-set_self buf (c * 2) (byte0 v) 0 (omega arith),
  get_or-set_self (set buf (c * 2) (byte0 v)) (c * 2 + 1) (byte1 v) 0
      (omega (arith, length-set buf (c * 2) (byte0 v))),
)

put_u16-stays :
    (c c' v v' : ℕ) (buf : List ℕ)
    → c ≢ c'
    → HasPixel c' v' buf
    → HasPixel c' v' (put_u16 (c * 2) v buf)
unfolding put_u16
put_u16-stays c c' v v' buf ne (low, high) =
    let apart : (i : ℕ)
        → i ≢ c * 2
        → i ≢ c * 2 + 1
        → get_or (put_u16 (c * 2) v buf) i 0 ≡ get_or buf i 0 =
      λ i n n'.
        get_or-set_ne (set buf (c * 2) (byte0 v)) (c * 2 + 1) i (byte1 v) 0 (λ e. n' (sym e))
        ∙ get_or-set_ne buf (c * 2) i (byte0 v) 0 (λ e. n (sym e)) in
    (
      apart (c' * 2) (λ e. ne (omega arith)) (λ e. omega arith) ∙ low,
      apart (c' * 2 + 1) (λ e. omega arith) (λ e. ne (omega arith)) ∙ high,
    )

module _ (w h : ℕ) where
  abbrev Fits : List ℕ → Type 0
  Fits buf = w * h * 2 ≤ length buf

  -- Pixel c has the shade of its column.
  abbrev Shaded : ℕ → List ℕ → Type 0
  Shaded c buf = HasPixel c (shade w (c % w)) buf

  pixel_fits : (x y : ℕ) → x < w → y < h → (y * w + x) * 2 + 2 ≤ w * h * 2
  pixel_fits x y hx hy = grind arith

  put_u16-Shaded :
      (x y c : ℕ) (buf : List ℕ)
      → x < w
      → y < h
      → Fits buf
      → (c ≡ y * w + x) ⊎ Shaded c buf
      → Shaded c (put_u16 ((y * w + x) * 2) (shade w x) buf)
  put_u16-Shaded x y c buf hx hy fits s =
      let column : (y * w + x) % w ≡ x = (divide_index y x w hx).1 in
      elim (ℕ_discrete (y * w + x) c) [
        | yes e ↦
            rw (← e, column)
              (put_u16-HasPixel (y * w + x) (shade w x) buf (omega (arith, pixel_fits x y hx hy)))
        | no ne ↦ elim s [
          | inl e ↦ absurd (ne (sym e))
          | inr p ↦ put_u16-stays (y * w + x) c (shade w x) (shade w (c % w)) buf ne p
        ]
      ]

  length-put_column : (x : ℕ) (buf : List ℕ) → length (put_column w h x buf) ≡ length buf
  unfolding put_column
  length-put_column x buf =
      for_loop_keeps (λ u. length u ≡ length buf) h 1
        (λ y b. put_u16 ((y * w + x) * 2) (shade w x) b) 0 buf
        (λ y u lt e. length-put_u16 ((y * w + x) * 2) (shade w x) u ∙ e) refl

  put_column-stays :
      (x c : ℕ) (buf : List ℕ) → x < w → Fits buf → Shaded c buf → Shaded c (put_column w h x buf)
  unfolding put_column
  put_column-stays x c buf hx fits s =
      (for_loop_keeps (λ u. Fits u × Shaded c u) h 1
        (λ y b. put_u16 ((y * w + x) * 2) (shade w x) b) 0 buf
        (λ y u lt q. (
          omega (arith, q.0, length-put_u16 ((y * w + x) * 2) (shade w x) u),
          put_u16-Shaded x y c u hx lt q.0 (inr q.1),
        ))
        (fits, s)).1

  put_column-Shaded :
      (x y : ℕ) (buf : List ℕ)
      → x < w
      → y < h
      → Fits buf
      → Shaded (y * w + x) (put_column w h x buf)
  unfolding put_column
  put_column-Shaded x y buf hx hy fits =
      for_loop_reaches Fits (λ j u. Shaded (j * w + x) u) h 1
        (λ j b. put_u16 ((j * w + x) * 2) (shade w x) b)
        (λ t u lt q. omega (arith, q, length-put_u16 ((t * w + x) * 2) (shade w x) u))
        (λ t j u lt q ge near high.
          let e : j ≡ t = omega arith in put_u16-Shaded x t (j * w + x) u hx lt q (inl (rw e refl)))
        (λ t j u lt q s. put_u16-Shaded x t (j * w + x) u hx lt q (inr s)) 0 y buf fits
        (omega arith) (omega arith) hy

  length-put_columns : (buf : List ℕ) → length (put_columns w h buf) ≡ length buf
  unfolding put_columns
  length-put_columns buf =
      for_loop_keeps (λ u. length u ≡ length buf) w 1 (λ x b. put_column w h x b) 0 buf
        (λ x u lt e. length-put_column x u ∙ e) refl

  put_columns-Shaded :
      (x y : ℕ) (buf : List ℕ) → x < w → y < h → Fits buf → Shaded (y * w + x) (put_columns w h buf)
  unfolding put_columns
  put_columns-Shaded x y buf hx hy fits =
      for_loop_reaches Fits (λ j u. Shaded (y * w + j) u) w 1 (λ j b. put_column w h j b)
        (λ t u lt q. omega (arith, q, length-put_column t u))
        (λ t j u lt q ge near high.
          let e : j ≡ t = omega arith in rw e (put_column-Shaded t y u lt hy q))
        (λ t j u lt q s. put_column-stays t (y * w + j) u lt q s) 0 x buf fits (omega arith)
        (omega arith) hx

  gradient-put_columns :
      w * h * 2 ≤ 2 ^ 48
      → gradient (pos w) (pos h) ≡ some (put_columns w h (replicate (w * h * 2) 0))
  unfolding gradient
  gradient-put_columns small =
      rw (gradient, product_pos w h, wrap_int_small (w * h * 2) (omega arith)) (ground arith)

  -- A row is no longer than the frame.
  row_small : (y : ℕ) → y < h → w * h * 2 ≤ 2 ^ 48 → w ≤ 2 ^ 47
  row_small y hy small = grind arith

  word_of_shade :
      (x : ℕ) → x < w → w ≤ 2 ^ 47 → byte0 (shade w x) + 256 * byte1 (shade w x) ≡ x * 65535 / w
  unfolding shade
  word_of_shade x hx narrow = rw (i64_of_small (x * 65535) (omega arith)) (
      word_of_two_bytes (x * 65535 / w)
        ((div-lt_iff_lt-mul {k = w} {x = x * 65535} {y = 65536} (omega arith)).1 (omega arith)))

  -- A frame of at most 2^48 bytes, the most that Go allocates, is made: it has two bytes for each
  -- pixel, and the pixel of column x, in every row, is the little-endian word x * 65535 / w.
  pub gradient_lem :
      (x y : ℕ)
      → w * h * 2 ≤ 2 ^ 48
      → x < w
      → y < h
      → (buf : List ℕ) × (gradient (pos w) (pos h) ≡ some buf)
        × (length buf ≡ w * h * 2)
        × (get_or buf ((y * w + x) * 2) 0 + 256 * get_or buf ((y * w + x) * 2 + 1) 0
            ≡ x * 65535 / w)
  gradient_lem x y small hx hy =
      let blank : length (replicate {A = ℕ} (w * h * 2) 0) ≡ w * h * 2 =
        length-replicate (w * h * 2) 0 in
      let buf = put_columns w h (replicate (w * h * 2) 0) in
      let size = length-put_columns (replicate (w * h * 2) 0) ∙ blank in
      let (low, high) =
        put_columns-Shaded x y (replicate (w * h * 2) 0) hx hy (omega (arith, blank)) in
      let column : (y * w + x) % w ≡ x = (divide_index y x w hx).1 in
      (
        buf,
        gradient-put_columns small,
        size,
        rw (low, high, column) (word_of_shade x hx (row_small y hy small)),
      )
