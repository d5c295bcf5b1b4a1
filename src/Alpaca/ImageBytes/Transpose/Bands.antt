-- ===== src/Alpaca/ImageBytes/Transpose/Bands.antt =====
-- The tiles and the bands: every byte of the transposed image is placed, in whatever order the
-- goroutines run.
use Prim.Native.Nat.{min}
use goalpaca.Alpaca.ImageBytes.Word.{i64_of}
use goalpaca.Prelude.{
  pos, ltb_ℤ, ℕ, ◌+◌, ◌-◌, ◌*◌, ◌/◌, ◌≤◌, ◌<◌, ◌≡◌, refl, ◌∙◌, List, [], ◌∷◌, arith, ltb, length,
  Bool-cases, inl, inr, ltb→lt,
}
use goalpaca.Prelude.Loop.{for_loop, for_loop_keeps, for_loop_reaches}
use goalpaca.Alpaca.ImageBytes.Transpose.{
  move_element, transpose_block, transpose_band, transpose_tile, band_starts, run_band, run_bands,
  workers_for, transpose_into, Runtime, RunsAll, parallel_min_elems,
}
use goalpaca.Alpaca.ImageBytes.Transpose.Cells.{
  Placed, length-move_element, move_element-places, move_element-stays,
}
use mathlib.Core.List.{Memᴰ}
use native.Mathlib.Nat.{le-div_iff_mul-le}

module _ (src : List ℕ) (rows cols es : ℕ) where
  -- The destination has room for the transposed image.
  abbrev pub Fits : List ℕ → Type 0
  Fits dst = rows * cols * es ≤ length dst

  -- The bytes of the source's element (r, c) are in place.
  abbrev pub Moved : ℕ → ℕ → List ℕ → Type 0
  Moved r c dst = (k : ℕ) → k < es → Placed src rows cols es ((c * rows + r) * es + k) dst

  -- A pass that displaces no byte, and keeps the length.
  abbrev pub IsSafe : (List ℕ → List ℕ) → Type 0
  IsSafe pass =
      (dst : List ℕ)
      → Fits dst
      → (length (pass dst) ≡ length dst)
        × ((i : ℕ) → Placed src rows cols es i dst → Placed src rows cols es i (pass dst))

  -- A pass that moves element (r, c).
  abbrev pub Covers : ℕ → ℕ → (List ℕ → List ℕ) → Type 0
  Covers r c pass = (dst : List ℕ) → Fits dst → Moved r c (pass dst)

  module _ (hi step : ℕ) (body : ℕ → List ℕ → List ℕ)
      (safe : (t : ℕ) → t < hi → IsSafe (body t)) where
    for_loop-IsSafe : (lo : ℕ) → IsSafe (for_loop lo hi step body)
    for_loop-IsSafe lo dst fits = (
      for_loop_keeps (λ u. length u ≡ length dst) hi step body lo dst
          (λ t u lt e. (safe t lt u (omega arith)).0 ∙ e) refl,
      λ i p.
          (for_loop_keeps (λ u. (length u ≡ length dst) × Placed src rows cols es i u) hi step body
            lo dst
            (λ t u lt q.
              let (same, stay) = safe t lt u (omega (arith, q.0)) in (same ∙ q.0, stay i q.1))
            (refl, p)).1,
    )

    for_loop-Covers :
        (lo j r c : ℕ)
        → ((t : ℕ) → t < hi → t ≤ j → j < t + step → Covers r c (body t))
        → 0 < step
        → lo ≤ j
        → j < hi
        → Covers r c (for_loop lo hi step body)
    for_loop-Covers lo j r c covers positive low high dst fits =
        for_loop_reaches Fits (λ j' u. j' ≡ j → Moved r c u) hi step body
          (λ t u lt h. omega (arith, (safe t lt u h).0))
          (λ t j' u lt h ge near in_range e. covers t lt (omega arith) (omega arith) u h)
          (λ t j' u lt h q e k hk. (safe t lt u h).1 _ (q e k hk)) lo j dst fits positive low high
          refl

  row : ℕ → ℕ → ℕ → List ℕ → List ℕ
  row ct c_end r = for_loop ct c_end 1 (move_element src rows cols es r)

  move_element-IsSafe : (r c : ℕ) → r < rows → c < cols → IsSafe (move_element src rows cols es r c)
  move_element-IsSafe r c hr hc dst fits = (
    length-move_element src rows cols es r c dst,
    λ i p. move_element-stays src rows cols es r c dst i hr hc fits p,
  )

  row-IsSafe : (ct c_end r : ℕ) → c_end ≤ cols → r < rows → IsSafe (row ct c_end r)
  unfolding row
  row-IsSafe ct c_end r hc hr =
      for_loop-IsSafe c_end 1 (move_element src rows cols es r)
        (λ c lt. move_element-IsSafe r c hr (omega arith)) ct

  row-Covers :
      (ct c_end r c : ℕ)
      → c_end ≤ cols
      → r < rows
      → ct ≤ c
      → c < c_end
      → Covers r c (row ct c_end r)
  unfolding row
  row-Covers ct c_end r c hc hr low high =
      for_loop-Covers c_end 1 (move_element src rows cols es r)
        (λ t lt. move_element-IsSafe r t hr (omega arith)) ct c r c
        (λ t lt ge near dst fits k hk.
          let e : c ≡ t = omega arith in
          rw e (move_element-places src rows cols es r t dst k hr (omega arith) hk fits))
        (omega arith) low high

  module _ (r_end c_end : ℕ) (hr : r_end ≤ rows) (hc : c_end ≤ cols) where
    transpose_block-IsSafe :
        (r0 c0 : ℕ) → IsSafe (transpose_block src rows cols es r0 r_end c0 c_end)
    unfolding transpose_block row
    transpose_block-IsSafe r0 c0 =
        for_loop-IsSafe r_end 1 (row c0 c_end) (λ r lt. row-IsSafe c0 c_end r hc (omega arith)) r0

    transpose_block-Covers :
        (r0 c0 r c : ℕ)
        → r0 ≤ r
        → r < r_end
        → c0 ≤ c
        → c < c_end
        → Covers r c (transpose_block src rows cols es r0 r_end c0 c_end)
    unfolding transpose_block row
    transpose_block-Covers r0 c0 r c lr hr' lc hc' =
        for_loop-Covers r_end 1 (row c0 c_end) (λ t lt. row-IsSafe c0 c_end t hc (omega arith)) r0 r
          r c
          (λ t lt ge near.
            let e : r ≡ t = omega arith in rw e (row-Covers c0 c_end t c hc (omega arith) lc hc'))
          (omega arith) lr hr'

  -- The tiles of one strip of 64 rows.
  strip : ℕ → ℕ → List ℕ → List ℕ
  strip r1 r0 = for_loop 0 cols transpose_tile (λ c0.
      transpose_block src rows cols es r0 (min (r0 + transpose_tile) r1) c0
        (min (c0 + transpose_tile) cols))

  strip-IsSafe : (r1 r0 : ℕ) → r1 ≤ rows → IsSafe (strip r1 r0)
  unfolding strip
  strip-IsSafe r1 r0 h =
      for_loop-IsSafe cols transpose_tile _
        (λ c0 lt. transpose_block-IsSafe _ _ (omega arith) (omega arith) r0 c0) 0

  strip-Covers :
      (r1 r0 r c : ℕ)
      → r1 ≤ rows
      → r0 ≤ r
      → r < r0 + transpose_tile
      → r < r1
      → c < cols
      → Covers r c (strip r1 r0)
  unfolding strip
  strip-Covers r1 r0 r c h low near high hc =
      for_loop-Covers cols transpose_tile _
        (λ c0 lt. transpose_block-IsSafe _ _ (omega arith) (omega arith) r0 c0) 0 c r c
        (λ c0 lt ge close.
          transpose_block-Covers _ _ (omega arith) (omega arith) r0 c0 r c low (omega arith) ge
            (omega arith))
        (omega arith) (omega arith) hc

  pub transpose_band-IsSafe :
      (r0 r1 : ℕ) → r1 ≤ rows → IsSafe (transpose_band src rows cols es r0 r1)
  unfolding transpose_band strip
  transpose_band-IsSafe r0 r1 h =
      for_loop-IsSafe r1 transpose_tile (strip r1) (λ t lt. strip-IsSafe r1 t h) r0

  pub transpose_band-Covers :
      (r0 r1 r c : ℕ)
      → r1 ≤ rows
      → r0 ≤ r
      → r < r1
      → c < cols
      → Covers r c (transpose_band src rows cols es r0 r1)
  unfolding transpose_band strip
  transpose_band-Covers r0 r1 r c h low high hc =
      for_loop-Covers r1 transpose_tile (strip r1) (λ t lt. strip-IsSafe r1 t h) r0 r r c
        (λ t lt ge near. strip-Covers r1 t r c h ge near high hc) (omega arith) low high

  run_band-IsSafe : (band r0 : ℕ) → IsSafe (run_band src rows cols es band r0)
  unfolding run_band
  run_band-IsSafe band r0 = transpose_band-IsSafe r0 _ (ground arith)

  run_bands-IsSafe : (band : ℕ) (starts : List ℕ) → IsSafe (run_bands src rows cols es band starts)
  unfolding run_bands
  run_bands-IsSafe band [] dst fits = (refl, λ i p. p)
  run_bands-IsSafe band (r0 ∷ starts) dst fits =
      let (same, stay) = run_band-IsSafe band r0 dst fits in
      let (same', stay') = run_bands-IsSafe band starts _ (omega arith) in
      (same' ∙ same, λ i p. stay' i (stay i p))

  run_bands-Covers :
      (band start r c : ℕ) (starts : List ℕ)
      → Memᴰ start starts
      → start ≤ r
      → r < start + band
      → r < rows
      → c < cols
      → Covers r c (run_bands src rows cols es band starts)
  unfolding run_bands
  run_bands-Covers band start r c [] m low near hr hc dst fits k hk = elim m [ ]
  run_bands-Covers band start r c (r0 ∷ starts) (Memᴰ.head e) low near hr hc dst fits k hk =
      let (same, stay) = run_band-IsSafe band r0 dst fits in
      (run_bands-IsSafe band starts _ (omega arith)).1 _ (
        unfold run_band in
        transpose_band-Covers r0 _ r c (ground arith) (omega (arith, e)) (ground (arith, e)) hc dst
          fits k hk)
  run_bands-Covers band start r c (r0 ∷ starts) (Memᴰ.tail m) low near hr hc dst fits k hk =
      let (same, stay) = run_band-IsSafe band r0 dst fits in
      run_bands-Covers band start r c starts m low near hr hc _ (omega arith) k hk

  -- Some started band holds the row.
  band_starts-covers :
      (band r : ℕ)
      → 0 < band
      → r < rows
      → (start : ℕ) × Memᴰ start (band_starts rows band) × (start ≤ r) × (r < start + band)
  unfolding band_starts
  band_starts-covers band r positive hr =
      for_loop_reaches (λ starts. Unit {0})
        (λ j starts. (start : ℕ) × Memᴰ start starts × (start ≤ j) × (j < start + band)) rows band
        (λ r0 starts. r0 ∷ starts) (λ t u lt h. tt)
        (λ t j u lt h low near in_range. (t, Memᴰ.head refl, low, near))
        (λ t j u lt h q. (q.0, Memᴰ.tail q.1, q.2, q.3)) 0 r [] tt positive (omega arith) hr

  band_pos : (workers : ℕ) → 1 < workers → workers ≤ rows → 0 < (rows + workers - 1) / workers
  band_pos workers h hr = div_pos (rows + workers - 1) workers (omega arith) (omega arith)
    where
      div_pos : (a b : ℕ) → 0 < b → b ≤ a → 0 < a / b
      div_pos a b hb hab = (le-div_iff_mul-le hb).1 (omega arith)

  workers_for-le : (rt : Runtime) → workers_for rt rows ≤ rows
  unfolding workers_for
  workers_for-le rt = ground arith

  pub transpose_into-IsSafe :
      (rt : Runtime) → IsSafe (λ dst. transpose_into rt dst src rows cols es)
  unfolding transpose_into
  transpose_into-IsSafe rt dst fits =
      elim (Bool-cases (ltb_ℤ (i64_of (rows * cols)) (pos parallel_min_elems))) [
        | inl small ↦ rw small (transpose_band-IsSafe 0 rows (omega arith) dst fits)
        | inr large ↦ elim (Bool-cases (ltb 1 (workers_for rt rows))) [
          | inl many ↦ rw (large, many) (run_bands-IsSafe _ _ dst fits)
          | inr one ↦ rw (large, one) (transpose_band-IsSafe 0 rows (omega arith) dst fits)
        ]
      ]

  pub transpose_into-Covers :
      (rt : Runtime) (r c : ℕ)
      → RunsAll rt
      → r < rows
      → c < cols
      → Covers r c (λ dst. transpose_into rt dst src rows cols es)
  unfolding transpose_into
  transpose_into-Covers rt r c runs hr hc dst fits =
      elim (Bool-cases (ltb_ℤ (i64_of (rows * cols)) (pos parallel_min_elems))) [
        | inl small ↦
            rw small (transpose_band-Covers 0 rows r c (omega arith) (omega arith) hr hc dst fits)
        | inr large ↦ elim (Bool-cases (ltb 1 (workers_for rt rows))) [
          | inl many ↦
              let positive = band_pos (workers_for rt rows) (ltb→lt 1 _ many) (workers_for-le rt) in
              let (start, started, low, near) = band_starts-covers _ r positive hr in
              rw (large, many)
                (run_bands-Covers _ start r c _ (runs _ start started) low near hr hc dst fits)
          | inr one ↦
              rw (large, one)
                (transpose_band-Covers 0 rows r c (omega arith) (omega arith) hr hc dst fits)
        ]
      ]
