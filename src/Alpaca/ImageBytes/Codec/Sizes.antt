-- ===== src/Alpaca/ImageBytes/Codec/Sizes.antt =====
-- What a header says of the pixels that follow it.
use goalpaca.Prelude.{
  lt→ltb, [], ap, refl, ◌∙◌, none, ℕ, ◌+◌, ◌*◌, ◌^◌, ◌<◌, ◌≡◌, arith, length, List, pos, pos_part,
  true, false, ltb, le→ltb, some, replicate, length-replicate, ◌<ℤ◌,
}
use goalpaca.Alpaca.ImageBytes.Word.{i32_of-u32_of, i64_of, i64_of_small, i64_of_multiple}
use goalpaca.Alpaca.ImageBytes.Header.{
  ImageFrame, ImageBytesHeader, header_transmit, header_pixel_bytes, parsed,
  parse_image_bytes_header, element_size,
}
use goalpaca.Alpaca.ImageBytes.Header.Layout.{header_words}
use goalpaca.Alpaca.ImageBytes.Header.Fields.{pos-u32_of, header_fields}
use goalpaca.Alpaca.ImageBytes.Codec.{
  transmit_type, is_grid, grid_size, encode_image_bytes, encode_image_bytes_into, put_pixels,
  take_pixels,
}
use goalpaca.Alpaca.ImageBytes.Transpose.{Runtime, RunsAll}
use goalpaca.Alpaca.ImageBytes.Codec.Message.{
  IsWireFrame, is_grid-size, transmit_type-IsInt32, area_bytes-lt, element_size-le,
  encode_image_bytes_into_lem,
}

-- The header that a client of the message of this frame reads.
abbrev pub header_of : ImageFrame → ImageBytesHeader
header_of frame = record {
  error_number = pos 0;
  data_start = pos 44;
  element_type = frame.element_type;
  transmission_element_type = transmit_type frame;
  rank = frame.rank;
  width = frame.width;
  height = frame.height;
  planes = frame.planes;
}

parse_words :
    (frame : ImageFrame) (client_tx server_tx : ℕ) (out : List ℕ)
    → IsWireFrame frame
    → parse_image_bytes_header (
        header_words
          (pos 0)
          client_tx
          server_tx
          frame.element_type
          (transmit_type frame)
          frame.rank
          frame.width
          frame.height
          frame.planes
          out)
      ≡ parsed (header_of frame)
unfolding parse_image_bytes_header
parse_words frame client_tx server_tx out fits =
    let (f4, f16, f20, f24, f28, f32, f36, f40) =
      header_fields (pos 0) client_tx server_tx frame.element_type (transmit_type frame) frame.rank
        frame.width frame.height frame.planes out in
    rw (
      long,
      f4,
      f16,
      f20,
      f24,
      f28,
      f32,
      f36,
      f40,
      i32_of-u32_of (pos 0) (omega arith),
      i32_of-u32_of frame.element_type fits.type_fits,
      i32_of-u32_of (transmit_type frame) (transmit_type-IsInt32 frame fits),
      pos-u32_of frame.rank fits.rank_fits,
      pos-u32_of frame.width fits.width_fits,
      pos-u32_of frame.height fits.height_fits,
      pos-u32_of frame.planes fits.planes_fits,
    )
  where
    bytes : List ℕ
    bytes =
        header_words (pos 0) client_tx server_tx frame.element_type (transmit_type frame) frame.rank
          frame.width frame.height frame.planes out

    long : ltb (length bytes) 44 ≡ false
    long = le→ltb (length bytes) 44 (omega arith)

transmit-header_of : (frame : ImageFrame) → header_transmit (header_of frame) ≡ transmit_type frame
unfolding header_transmit transmit_type
transmit-header_of frame = ground arith

is_grid-facts :
    (frame : ImageFrame) (n : ℕ)
    → is_grid frame n ≡ true
    → (frame.rank ≡ pos 2)
      × (0 < element_size (transmit_type frame))
      × (pos 0 <ℤ frame.width)
      × (pos 0 <ℤ frame.height)
unfolding is_grid
is_grid-facts frame n grid = ground arith

header_pixel_bytes-grid :
    (frame : ImageFrame) (n : ℕ)
    → IsWireFrame frame
    → is_grid frame n ≡ true
    → header_pixel_bytes (header_of frame) ≡ pos n
unfolding header_pixel_bytes
header_pixel_bytes-grid frame n fits grid =
    let (rank, some_bytes, w, h) = is_grid-facts frame n grid in
    rw (transmit-header_of frame) (ground (arith, stored))
  where
    es : ℕ
    es = element_size (transmit_type frame)

    size : pos_part frame.width * pos_part frame.height * es ≡ n
    size = is_grid-size frame n fits.area_fits grid

    small : pos_part frame.width * pos_part frame.height * es < 9223372036854775808
    small =
        area_bytes-lt (pos_part frame.width * pos_part frame.height) es fits.area_fits
          (element_size-le (transmit_type frame))

    stored : i64_of (pos_part frame.width * pos_part frame.height * 1 * es) ≡ pos n
    stored =
        let same : pos_part frame.width * pos_part frame.height * 1 * es ≡ n =
          omega (arith, size) in
        rw same (i64_of_small n (omega (arith, size, small)))

-- A client that reads the header of an encoded frame finds the frame's numbers in it and, where the
-- frame is one that is transposed, the number of pixel bytes that follow. The numbers of the frame
-- fit the header, and its width times its height is below 2^60.
pub parse_image_bytes_header-encode_image_bytes :
    (rt : Runtime) (frame : ImageFrame) (client_tx server_tx : ℕ)
    → RunsAll rt
    → IsWireFrame frame
    → (message : List ℕ) × (encode_image_bytes rt frame client_tx server_tx ≡ some message)
      × (parse_image_bytes_header message ≡ parsed (header_of frame))
      × (is_grid frame (length frame.pixels) ≡ true
          → header_pixel_bytes (header_of frame) ≡ pos (length frame.pixels))
unfolding encode_image_bytes
parse_image_bytes_header-encode_image_bytes rt frame client_tx server_tx runs fits =
    let zeros : length (replicate {A = ℕ} (44 + length frame.pixels) 0) ≡ 44 + length frame.pixels =
      length-replicate (44 + length frame.pixels) 0 in
    let (out, sent, len, taken) =
      encode_image_bytes_into_lem rt (replicate (44 + length frame.pixels) 0) frame client_tx
        server_tx zeros rt runs runs fits.area_fits in
    (
      header_words (pos 0) client_tx server_tx frame.element_type (transmit_type frame) frame.rank
          frame.width frame.height frame.planes out,
      sent,
      parse_words frame client_tx server_tx out fits,
      header_pixel_bytes-grid frame (length frame.pixels) fits,
    )

is_grid_empty :
    (frame : ImageFrame) (m : ℕ)
    → frame.rank ≡ pos 2
    → pos 0 <ℤ frame.width
    → pos 0 <ℤ frame.height
    → grid_size frame ≡ m * 2 ^ 64
    → 0 < m
    → is_grid frame 0 ≡ true
unfolding is_grid grid_size
is_grid_empty frame m rank w h e positive = ground (arith, wraps, some_bytes)
  where
    wraps :
        i64_of (pos_part frame.width * pos_part frame.height * element_size (transmit_type frame))
        ≡ pos 0
    wraps = rw e (i64_of_multiple m)

    some_bytes : 0 < element_size (transmit_type frame)
    some_bytes = grind arith

put_pixels_past :
    (rt : Runtime) (out : List ℕ) (frame : ImageFrame)
    → is_grid frame (length frame.pixels) ≡ true
    → ltb (length frame.pixels) (grid_size frame) ≡ true
    → put_pixels rt out frame ≡ none
unfolding put_pixels grid_size
put_pixels_past rt out frame grid past = rw (grid, past) refl

encode_image_bytes_past :
    (rt : Runtime) (frame : ImageFrame) (client_tx server_tx : ℕ)
    → is_grid frame (length frame.pixels) ≡ true
    → ltb (length frame.pixels) (grid_size frame) ≡ true
    → encode_image_bytes rt frame client_tx server_tx ≡ none
unfolding encode_image_bytes encode_image_bytes_into
encode_image_bytes_past rt frame client_tx server_tx grid past =
    let zeros : length (replicate {A = ℕ} (44 + length frame.pixels) 0) ≡ 44 + length frame.pixels =
      length-replicate (44 + length frame.pixels) 0 in
    let long : ltb (length (replicate {A = ℕ} (44 + length frame.pixels) 0)) 44 ≡ false =
      le→ltb (length (replicate {A = ℕ} (44 + length frame.pixels) 0)) 44 (omega (arith, zeros)) in
    rw (long, put_pixels_past rt _ frame grid past) refl

-- The product that the checks compare with the number of pixel bytes wraps around. Where the width
-- times the height times the size of an element of a rank 2 frame is a multiple of 2^64 other than
-- 0, a frame with no pixel bytes passes for a complete one: EncodeImageBytes panics on it, and so
-- does what DecodeImageBytes does with a message of these numbers.
pub is_grid_overflow :
    (rt : Runtime) (frame : ImageFrame) (m client_tx server_tx : ℕ)
    → frame.rank ≡ pos 2
    → pos 0 <ℤ frame.width
    → pos 0 <ℤ frame.height
    → grid_size frame ≡ m * 2 ^ 64
    → 0 < m
    → frame.pixels ≡ []
    → (is_grid frame (length frame.pixels) ≡ true)
      × (encode_image_bytes rt frame client_tx server_tx ≡ none)
      × (take_pixels rt frame ≡ none)
unfolding take_pixels grid_size
is_grid_overflow rt frame m client_tx server_tx rank w h e positive empty =
    let none_left : length frame.pixels ≡ 0 = ap (λ (ps : List ℕ). length ps) empty in
    let grid : is_grid frame (length frame.pixels) ≡ true =
      ap (λ n. is_grid frame n) none_left ∙ is_grid_empty frame m rank w h e positive in
    let past : ltb (length frame.pixels) (grid_size frame) ≡ true =
      lt→ltb _ _ (omega (arith, e, none_left)) in
    (grid, encode_image_bytes_past rt frame client_tx server_tx grid past, rw (grid, past) refl)
