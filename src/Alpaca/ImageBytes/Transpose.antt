-- ===== src/Alpaca/ImageBytes/Transpose.antt =====
-- The cache-blocked transpose of alpaca/imagebytes.go (transposeElems, transposeInto,
-- transposeBand). The goroutines of the bands are run one whole band after another, in an order
-- that the runtime chooses. The product that decides on the goroutines wraps as an int does.
pub mod Cells
pub mod Bands
pub mod Inverse
use Prim.Native.Nat.{min}
use goalpaca.Prelude.{
  ℕ, zero, suc, ◌+◌, ◌-◌, ◌*◌, ◌/◌, ◌%◌, ◌<◌, ◌≡◌, List, [], ◌∷◌, ltb, ◌==◌, if◌then◌else◌, get_or,
  set, length, replicate, pos, ltb_ℤ,
}
use goalpaca.Alpaca.ImageBytes.Word.{i64_of}
use goalpaca.Prelude.Loop.{for_loop}
use mathlib.Core.List.{Memᴰ}

abbrev pub transpose_tile : ℕ
transpose_tile = 64

abbrev pub parallel_min_elems : ℕ
parallel_min_elems = 1048576

-- runtime.GOMAXPROCS(0), and the order in which the started goroutines run.
pub record Runtime : Type 0 where
  pub cores : ℕ
  pub order : List ℕ → List ℕ

-- Every goroutine that is started has run when WaitGroup.Wait returns.
abbrev pub RunsAll : Runtime → Type 0
RunsAll rt = (starts : List ℕ) (r : ℕ) → Memᴰ r starts → Memᴰ r (rt.order starts)

-- copy(dst[d:d+n], src[s:s+n])
unfoldable pub copy_bytes : ℕ → List ℕ → List ℕ → ℕ → ℕ → List ℕ
copy_bytes zero dst src d s = dst
copy_bytes (suc n) dst src d s = copy_bytes n (set dst d (get_or src s 0)) src (d + 1) (s + 1)

-- The body of the innermost loop, for each case of `switch es`.
unfoldable pub move_element : List ℕ → ℕ → ℕ → ℕ → ℕ → ℕ → List ℕ → List ℕ
move_element src rows cols es r c dst =
    if es == 1
    then set dst (c * rows + r) (get_or src (r * cols + c) 0)
    else if es == 2
    then (let d = (c * rows + r) * 2 in
        let s = r * cols * 2 + c * 2 in
        set (set dst d (get_or src s 0)) (d + 1) (get_or src (s + 1) 0))
    else copy_bytes es dst src ((c * rows + r) * es) ((r * cols + c) * es)

-- One tile: rows [rt, r_end) and columns [ct, c_end).
unfoldable pub transpose_block : List ℕ → ℕ → ℕ → ℕ → ℕ → ℕ → ℕ → ℕ → List ℕ → List ℕ
transpose_block src rows cols es rt r_end ct c_end dst =
    for_loop rt r_end 1 (λ r. for_loop ct c_end 1 (move_element src rows cols es r)) dst

unfoldable pub transpose_band : List ℕ → ℕ → ℕ → ℕ → ℕ → ℕ → List ℕ → List ℕ
transpose_band src rows cols es r0 r1 dst =
    for_loop r0 r1 transpose_tile
      (λ rt. for_loop 0 cols transpose_tile (λ ct.
        transpose_block src rows cols es rt (min (rt + transpose_tile) r1) ct
          (min (ct + transpose_tile) cols)))
      dst

-- The first rows of the bands, `for r0 := 0; r0 < rows; r0 += band`, the last started first.
unfoldable pub band_starts : ℕ → ℕ → List ℕ
band_starts rows band = for_loop 0 rows band (λ r0 starts. r0 ∷ starts) []

-- One goroutine: its band ends at `r1 := r0 + band`, cut to `rows`.
unfoldable pub run_band : List ℕ → ℕ → ℕ → ℕ → ℕ → ℕ → List ℕ → List ℕ
run_band src rows cols es band r0 dst =
    let r1 = r0 + band in transpose_band src rows cols es r0 (if ltb rows r1 then rows else r1) dst

unfoldable pub run_bands : List ℕ → ℕ → ℕ → ℕ → ℕ → List ℕ → List ℕ → List ℕ
run_bands src rows cols es band [] dst = dst
run_bands src rows cols es band (r0 ∷ starts) dst =
    run_bands src rows cols es band starts (run_band src rows cols es band r0 dst)

-- GOMAXPROCS, cut to the number of rows.
unfoldable pub workers_for : Runtime → ℕ → ℕ
workers_for rt rows = if ltb rows rt.cores then rows else rt.cores

unfoldable pub transpose_into : Runtime → List ℕ → List ℕ → ℕ → ℕ → ℕ → List ℕ
transpose_into rt dst src rows cols es =
    let workers = workers_for rt rows in
    let band = (rows + workers - 1) / workers in
    let banded = run_bands src rows cols es band (rt.order (band_starts rows band)) dst in
    let whole = transpose_band src rows cols es 0 rows dst in
    if ltb_ℤ (i64_of (rows * cols)) (pos parallel_min_elems)
    then whole
    else if ltb 1 workers
    then banded
    else whole

unfoldable pub transpose_elems : Runtime → List ℕ → ℕ → ℕ → ℕ → List ℕ
transpose_elems rt src rows cols es = transpose_into rt (replicate (length src) 0) src rows cols es
