-- ===== src/Alpaca/ImageBytes/Header/Layout.antt =====
-- The header as eleven words in a row, and the buffer that it is written over.
use goalpaca.Prelude.{ℕ, zero, suc, ◌+◌, ◌*◌, ◌≤◌, ◌≡◌, refl, List, [], ◌∷◌, arith, length, ℤ}
use goalpaca.Alpaca.ImageBytes.Word.{byte0, byte1, byte2, byte3, u32_of}
use goalpaca.Alpaca.ImageBytes.Header.{put_image_bytes_header}

-- A uint32 before the bytes that follow it.
abbrev pub word : ℕ → List ℕ → List ℕ
word v rest = byte0 v ∷ byte1 v ∷ byte2 v ∷ byte3 v ∷ rest

abbrev pub header_words : ℤ → ℕ → ℕ → ℤ → ℤ → ℤ → ℤ → ℤ → ℤ → List ℕ → List ℕ
header_words err_num client_tx server_tx elem_type transmit rank dim1 dim2 dim3 rest = word 1 (
    word (u32_of err_num) (
      word client_tx (
        word server_tx (
          word 44 (
            word (u32_of elem_type) (
              word (u32_of transmit) (
                word (u32_of rank)
                  (word (u32_of dim1) (word (u32_of dim2) (word (u32_of dim3) rest))))))))))

-- The buffer is n words, to be written over, and the rest.
data Words : ℕ → List ℕ → List ℕ → Type 0 where
  done : {rest : List ℕ} → Words zero rest rest
  more :
      {n : ℕ} {buf rest : List ℕ} (a b c d : ℕ)
      → Words n buf rest
      → Words (suc n) (a ∷ b ∷ c ∷ d ∷ buf) rest

Words-of :
    (n : ℕ) (buf : List ℕ)
    → 4 * n ≤ length buf
    → (rest : List ℕ) × Words n buf rest × (length buf ≡ 4 * n + length rest)
Words-of zero buf h = (buf, done, omega arith)
Words-of (suc n) [] h = absurd (omega arith)
Words-of (suc n) (a ∷ []) h = absurd (omega arith)
Words-of (suc n) (a ∷ b ∷ []) h = absurd (omega arith)
Words-of (suc n) (a ∷ b ∷ c ∷ []) h = absurd (omega arith)
Words-of (suc n) (a ∷ b ∷ c ∷ d ∷ buf) h =
    let (rest, w, e) = Words-of n buf (omega arith) in (rest, more a b c d w, omega arith)

module _ (err_num : ℤ) (client_tx server_tx : ℕ) (elem_type transmit rank dim1 dim2 dim3 : ℤ) where
  over-Words :
      {buf rest : List ℕ}
      → Words 11 buf rest
      → put_image_bytes_header err_num client_tx server_tx elem_type transmit rank dim1 dim2 dim3
          buf
        ≡ header_words err_num client_tx server_tx elem_type transmit rank dim1 dim2 dim3 rest
  unfolding put_image_bytes_header
  over-Words
        (more _ _ _ _ (
          more _ _ _ _ (
            more _ _ _ _ (
              more _ _ _ _ (
                more _ _ _ _ (
                  more _ _ _ _ (
                    more _ _ _ _
                      (more _ _ _ _ (more _ _ _ _ (more _ _ _ _ (more _ _ _ _ done))))))))))) =
      refl

  -- Over any buffer of at least 44 bytes: eleven words, and the bytes from 44 on as they were.
  pub put_image_bytes_header_lem :
      (buf : List ℕ)
      → 44 ≤ length buf
      → (rest : List ℕ) × (put_image_bytes_header err_num client_tx server_tx elem_type transmit
            rank dim1 dim2 dim3 buf
          ≡ header_words err_num client_tx server_tx elem_type transmit rank dim1 dim2 dim3 rest)
        × (length buf ≡ 44 + length rest)
  put_image_bytes_header_lem buf h = let (rest, w, e) = Words-of 11 buf h in (rest, over-Words w, e)
