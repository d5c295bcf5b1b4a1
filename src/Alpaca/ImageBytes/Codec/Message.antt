-- ===== src/Alpaca/ImageBytes/Codec/Message.antt =====
-- The message of a frame: the header's words and the pixels, which can be taken out again.
use goalpaca.Prelude.{
  ℕ, ◌+◌, ◌*◌, ◌≤◌, ◌<◌, ◌≡◌, refl, ap, ◌∙◌, List, [], ◌∷◌, arith, length, ℤ, pos, pos_part,
  Bool-cases, some, inl, inr, true, le→ltb,
}
use goalpaca.Alpaca.ImageBytes.Word.{IsInt32, i64_of_small}
use goalpaca.Alpaca.ImageBytes.Header.{ImageFrame, element_size}
use goalpaca.Alpaca.ImageBytes.Header.Layout.{header_words, put_image_bytes_header_lem}
use goalpaca.Alpaca.ImageBytes.Header.Fields.{IsUint32}
use goalpaca.Alpaca.ImageBytes.Transpose.{Runtime, RunsAll, transpose_into}
use goalpaca.Alpaca.ImageBytes.Transpose.Inverse.{transpose_elems-transpose_elems}
use goalpaca.Alpaca.ImageBytes.Transpose.Bands.{transpose_into-IsSafe}
use goalpaca.Alpaca.ImageBytes.Codec.{
  transmit_type, is_grid, grid_size, copy_over, put_pixels, encode_image_bytes_into, take_pixels,
}

-- The frame's numbers fit the header: its dimensions are uint32s and its types int32s.
pub record IsWireFrame (frame : ImageFrame) : Type 0 where
  pub rank_fits : IsUint32 frame.rank
  pub width_fits : IsUint32 frame.width
  pub height_fits : IsUint32 frame.height
  pub planes_fits : IsUint32 frame.planes
  pub type_fits : IsInt32 frame.element_type
  pub transmit_fits : IsInt32 frame.transmission_element_type
  -- So width * height * 8 is an int.
  pub area_fits : pos_part frame.width * pos_part frame.height < 1152921504606846976

pub copy_over_all : (dst src : List ℕ) → length dst ≡ length src → copy_over dst src ≡ src
unfolding copy_over
copy_over_all [] [] h = refl
copy_over_all [] (s ∷ src) h = absurd (omega arith)
copy_over_all (d ∷ dst) [] h = absurd (omega arith)
copy_over_all (d ∷ dst) (s ∷ src) h =
    ap (λ (t : List ℕ). s ∷ t) (copy_over_all dst src (omega arith))

pub element_size-le : (t : ℤ) → element_size t ≤ 8
unfolding element_size
element_size-le t = ground arith

pub transmit_type-IsInt32 : (frame : ImageFrame) → IsWireFrame frame → IsInt32 (transmit_type frame)
unfolding transmit_type
transmit_type-IsInt32 frame fits = ground arith

pub area_bytes-lt : (a e : ℕ) → a < 1152921504606846976 → e ≤ 8 → a * e < 9223372036854775808
area_bytes-lt a e ha he = grind arith

-- Where the pixels are transposed, the dimensions account for every byte.
pub is_grid-size :
    (frame : ImageFrame) (n : ℕ)
    → pos_part frame.width * pos_part frame.height < 1152921504606846976
    → is_grid frame n ≡ true
    → pos_part frame.width * pos_part frame.height * element_size (transmit_type frame) ≡ n
unfolding is_grid
is_grid-size frame n area h =
    ground (arith, i64_of_small (pos_part frame.width * pos_part frame.height * es) fits)
  where
    es : ℕ
    es = element_size (transmit_type frame)

    fits : pos_part frame.width * pos_part frame.height * es < 9223372036854775808
    fits = area_bytes-lt (pos_part frame.width * pos_part frame.height) es area (element_size-le _)

-- The frame as the client reads it: the type on the wire is written out.
abbrev pub sent_frame : ImageFrame → ImageFrame
sent_frame frame = record frame { transmission_element_type = transmit_type frame }

transmit_type-sent_frame :
    (frame : ImageFrame) (pixels : List ℕ)
    → transmit_type (record (sent_frame frame) { pixels = pixels }) ≡ transmit_type frame
unfolding transmit_type
transmit_type-sent_frame frame pixels = ground arith

is_grid-sent_frame :
    (frame : ImageFrame) (pixels : List ℕ) (n : ℕ)
    → is_grid (record (sent_frame frame) { pixels = pixels }) n ≡ is_grid frame n
unfolding is_grid
is_grid-sent_frame frame pixels n = rw (transmit_type-sent_frame frame pixels)

-- What is put into the message is taken out of it again.
put_pixels_lem :
    (rt rt' : Runtime) (rest : List ℕ) (frame : ImageFrame)
    → RunsAll rt
    → RunsAll rt'
    → length rest ≡ length frame.pixels
    → pos_part frame.width * pos_part frame.height < 1152921504606846976
    → (out : List ℕ) × (put_pixels rt rest frame ≡ some out)
      × (length out ≡ length frame.pixels)
      × (take_pixels rt' (record (sent_frame frame) { pixels = out }) ≡ some (sent_frame frame))
unfolding put_pixels take_pixels grid_size
put_pixels_lem rt rt' rest frame runs runs' same area =
    elim (Bool-cases (is_grid frame (length frame.pixels))) [
      | inl grid ↦
          let e = is_grid-size frame (length frame.pixels) area grid in
          let size : h * w * es ≡ length frame.pixels = omega arith in
          let len = (transpose_into-IsSafe frame.pixels h w es rt rest (omega arith)).0 ∙ same in
          let back =
            transpose_elems-transpose_elems rt rt' frame.pixels rest h w es runs runs' size same in
          let out : List ℕ = transpose_into rt rest frame.pixels h w es in
          (
            out,
            rw (
              grid,
              le→ltb (length frame.pixels) (w * h * es) (omega arith),
              le→ltb (length rest) (w * h * es) (omega arith),
            ),
            len,
            rw (is_grid-sent_frame frame out (length out), len, grid)
                (rw (
                  transmit_type-sent_frame frame out,
                  le→ltb (length frame.pixels) (w * h * es) (omega arith),
                  back,
                )),
          )
      | inr other ↦
          let len : length rest ≡ length frame.pixels = same in
          (
            frame.pixels,
            rw other (ap some (copy_over_all rest frame.pixels len)),
            refl,
            rw (is_grid-sent_frame frame frame.pixels (length frame.pixels), other),
          )
    ]
  where
    w : ℕ
    w = pos_part frame.width

    h : ℕ
    h = pos_part frame.height

    es : ℕ
    es = element_size (transmit_type frame)

module _ (rt : Runtime) (dst : List ℕ) (frame : ImageFrame) (client_tx server_tx : ℕ)
    (exact : length dst ≡ 44 + length frame.pixels) where
  -- The message is the eleven words and the pixels.
  pub encode_image_bytes_into_lem :
      (rt' : Runtime)
      → RunsAll rt
      → RunsAll rt'
      → pos_part frame.width * pos_part frame.height < 1152921504606846976
      → (out : List ℕ) × (encode_image_bytes_into rt dst frame client_tx server_tx
          ≡ some (
              header_words
                (pos 0)
                client_tx
                server_tx
                frame.element_type
                (transmit_type frame)
                frame.rank
                frame.width
                frame.height
                frame.planes
                out))
        × (length out ≡ length frame.pixels)
        × (take_pixels rt' (record (sent_frame frame) { pixels = out }) ≡ some (sent_frame frame))
  unfolding encode_image_bytes_into
  encode_image_bytes_into_lem rt' runs runs' area =
      let (rest, over, total) =
        put_image_bytes_header_lem (pos 0) client_tx server_tx frame.element_type
          (transmit_type frame) frame.rank frame.width frame.height frame.planes dst
          (omega arith) in
      let (out, put, len, taken) = put_pixels_lem rt rt' rest frame runs runs' (omega arith) area in
      (out, rw (le→ltb (length dst) 44 (omega arith), over, put, over), len, taken)
