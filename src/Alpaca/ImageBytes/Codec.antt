-- ===== src/Alpaca/ImageBytes/Codec.antt =====
-- EncodeImageBytes, EncodeImageBytesInto, EncodeImageBytesError and DecodeImageBytes of
-- alpaca/imagebytes.go.
pub mod Message
pub mod RoundTrip
pub mod Sizes
use goalpaca.Prelude.{
  ℕ, ◌+◌, ◌-◌, ◌*◌, List, [], ◌∷◌, ◌++◌, ltb, ◌==◌, if◌then◌else◌, length, take, drop, replicate, ℤ,
  pos, ltb_ℤ, eqb_ℤ, pos_part, Bool, true, false, ◌&&◌, ◌||◌, not, Option, none, some,
}
use goalpaca.Alpaca.ImageBytes.Word.{get_u32, i32_of, i64_of}
use goalpaca.Alpaca.ImageBytes.Header.{
  ImageFrame, put_image_bytes_header, element_size, image_bytes_header_len, img_unknown,
}
use goalpaca.Alpaca.ImageBytes.Transpose.{Runtime, transpose_into, transpose_elems}
use goalpaca.Alpaca.Errors.{AlpacaError, new_error, err_num_unspecified}

-- `transmit`: the type on the wire, or the logical type where none is given.
unfoldable pub transmit_type : ImageFrame → ℤ
transmit_type frame =
    if eqb_ℤ frame.transmission_element_type (pos 0)
    then frame.element_type
    else frame.transmission_element_type

-- The condition under which the pixels are transposed, for n pixel bytes.
unfoldable pub is_grid : ImageFrame → ℕ → Bool
is_grid frame n =
    let es = element_size (transmit_type frame) in
    eqb_ℤ frame.rank (pos 2)
    && ltb 0 es
    && ltb_ℤ (pos 0) frame.width
    && ltb_ℤ (pos 0) frame.height
    && eqb_ℤ (pos n) (i64_of (pos_part frame.width * pos_part frame.height * es))

-- copy(dst, src)
unfoldable pub copy_over : List ℕ → List ℕ → List ℕ
copy_over [] src = []
copy_over (d ∷ dst) [] = d ∷ dst
copy_over (d ∷ dst) (s ∷ src) = s ∷ copy_over dst src

-- The bytes that the transpose of a frame reads and writes, a product that does not wrap.
unfoldable pub grid_size : ImageFrame → ℕ
grid_size frame = pos_part frame.width * pos_part frame.height * element_size (transmit_type frame)

-- The pixel region: none where the transpose reads past the end of the pixels, or writes past the
-- end of dst, which panics.
unfoldable pub put_pixels : Runtime → List ℕ → ImageFrame → Option (List ℕ)
unfolding copy_over grid_size
put_pixels rt out frame =
    if is_grid frame (length frame.pixels)
    then (if ltb (length frame.pixels) (grid_size frame) || ltb (length out) (grid_size frame)
        then none
        else some (
            transpose_into rt out frame.pixels (pos_part frame.height) (pos_part frame.width)
              (element_size (transmit_type frame))))
    else some (copy_over out frame.pixels)

-- none is a panic: dst shorter than the header, or than the header and a transposed frame.
unfoldable pub encode_image_bytes_into : Runtime → List ℕ → ImageFrame → ℕ → ℕ → Option (List ℕ)
encode_image_bytes_into rt dst frame client_tx server_tx =
    if ltb (length dst) image_bytes_header_len
    then none
    else elim (put_pixels rt (drop image_bytes_header_len buf) frame) [
      | none ↦ none
      | some out ↦ some (take image_bytes_header_len buf ++ out)
    ]
  where
    buf : List ℕ
    buf =
        put_image_bytes_header (pos 0) client_tx server_tx frame.element_type (transmit_type frame)
          frame.rank frame.width frame.height frame.planes dst

unfoldable pub encode_image_bytes : Runtime → ImageFrame → ℕ → ℕ → Option (List ℕ)
encode_image_bytes rt frame client_tx server_tx =
    encode_image_bytes_into rt (replicate (image_bytes_header_len + length frame.pixels) 0) frame
      client_tx server_tx

-- The message is its UTF-8 bytes.
unfoldable pub encode_image_bytes_error : ℤ → List ℕ → ℕ → ℕ → List ℕ
unfolding copy_over
encode_image_bytes_error err_num payload client_tx server_tx =
    let buf =
      put_image_bytes_header err_num client_tx server_tx img_unknown img_unknown (pos 0) (pos 0)
        (pos 0) (pos 0) (replicate (image_bytes_header_len + length payload) 0) in
    take image_bytes_header_len buf ++ copy_over (drop image_bytes_header_len buf) payload

-- What DecodeImageBytes returns; the text of a device error is its bytes.
pub data Decoded : Type 0 where
  decoded : ImageFrame → Decoded
  device_error : ℤ → List ℕ → Decoded
  too_short : AlpacaError → Decoded

-- `dataStart`, cut to the length of the data.
unfoldable pub payload_start : List ℕ → ℕ
payload_start bytes =
    let start = get_u32 16 bytes in if ltb (length bytes) start then length bytes else start

unfoldable pub decoded_fields : List ℕ → List ℕ → ImageFrame
decoded_fields bytes pixels = record {
  rank = pos (get_u32 28 bytes);
  width = pos (get_u32 32 bytes);
  height = pos (get_u32 36 bytes);
  planes = pos (get_u32 40 bytes);
  element_type = i32_of (get_u32 20 bytes);
  transmission_element_type = i32_of (get_u32 24 bytes);
  pixels = pixels;
}

-- The pixels are transposed back: Width rows of Height elements are on the wire. none where the
-- transpose reads past their end, which panics.
unfoldable pub take_pixels : Runtime → ImageFrame → Option ImageFrame
unfolding grid_size
take_pixels rt frame =
    if is_grid frame (length frame.pixels)
    then (if ltb (length frame.pixels) (grid_size frame)
        then none
        else some (record frame {
          pixels =
              transpose_elems rt frame.pixels (pos_part frame.width) (pos_part frame.height)
                (element_size (transmit_type frame));
        }))
    else some frame

-- none is a panic.
unfoldable pub decode_image_bytes : Runtime → List ℕ → Option Decoded
decode_image_bytes rt bytes =
    if ltb (length bytes) image_bytes_header_len
    then some (
        too_short
          (new_error err_num_unspecified "imagebytes response shorter than metadata header"))
    else if eqb_ℤ err_num (pos 0)
    then elim (take_pixels rt (decoded_fields bytes payload)) [
      | none ↦ none
      | some frame ↦ some (decoded frame)
    ]
    else some (device_error err_num payload)
  where
    err_num : ℤ
    err_num = i32_of (get_u32 4 bytes)

    payload : List ℕ
    payload = drop (payload_start bytes) bytes
