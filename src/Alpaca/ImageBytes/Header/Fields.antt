-- ===== src/Alpaca/ImageBytes/Header/Fields.antt =====
-- Reading the header back.
use goalpaca.Prelude.{ℕ, ◌≡◌, refl, List, arith, ℤ, pos, negsuc, ◌≤ℤ◌, ◌<ℤ◌}
use goalpaca.Alpaca.ImageBytes.Word.{get_u32, u32_of, u32_of-lt, word_of_bytes}
use goalpaca.Alpaca.ImageBytes.Header.Layout.{header_words}

-- An int that a uint32 holds.
abbrev pub IsUint32 : ℤ → Type 0
IsUint32 z = (pos 0 ≤ℤ z) × (z <ℤ pos 4294967296)

pub pos-u32_of : (z : ℤ) → IsUint32 z → pos (u32_of z) ≡ z
unfolding u32_of
pos-u32_of (pos n) h = ground arith
pos-u32_of (negsuc n) h = absurd (omega arith)

module _ (err_num : ℤ) (client_tx server_tx : ℕ) (elem_type transmit rank dim1 dim2 dim3 : ℤ)
    (rest : List ℕ) where
  abbrev bytes : List ℕ
  bytes = header_words err_num client_tx server_tx elem_type transmit rank dim1 dim2 dim3 rest

  pub header_fields :
      (get_u32 4 bytes ≡ u32_of err_num)
      × (get_u32 16 bytes ≡ 44)
      × (get_u32 20 bytes ≡ u32_of elem_type)
      × (get_u32 24 bytes ≡ u32_of transmit)
      × (get_u32 28 bytes ≡ u32_of rank)
      × (get_u32 32 bytes ≡ u32_of dim1)
      × (get_u32 36 bytes ≡ u32_of dim2)
      × (get_u32 40 bytes ≡ u32_of dim3)
  unfolding get_u32
  header_fields = (
    word_of_bytes (u32_of err_num) (u32_of-lt err_num),
    refl,
    word_of_bytes (u32_of elem_type) (u32_of-lt elem_type),
    word_of_bytes (u32_of transmit) (u32_of-lt transmit),
    word_of_bytes (u32_of rank) (u32_of-lt rank),
    word_of_bytes (u32_of dim1) (u32_of-lt dim1),
    word_of_bytes (u32_of dim2) (u32_of-lt dim2),
    word_of_bytes (u32_of dim3) (u32_of-lt dim3),
  )
