-- ===== src/Alpaca/ImageBytes/Codec/RoundTrip.antt =====
-- Decoding what was encoded.
use goalpaca.Prelude.{
  ℕ, ◌+◌, ◌≡◌, ◌∙◌, List, arith, length, replicate, length-replicate, ℤ, pos, refl, none, some,
  false, ltb, le→ltb, ◌≢◌, eqb_ℤ, eq_of_parts,
}
use goalpaca.Alpaca.ImageBytes.Word.{i32_of-u32_of, IsInt32}
use goalpaca.Alpaca.ImageBytes.Header.{ImageFrame}
use goalpaca.Alpaca.ImageBytes.Header.Layout.{header_words, put_image_bytes_header_lem}
use goalpaca.Alpaca.ImageBytes.Header.Fields.{pos-u32_of, header_fields}
use goalpaca.Alpaca.ImageBytes.Transpose.{Runtime, RunsAll}
use goalpaca.Alpaca.ImageBytes.Codec.{
  transmit_type, encode_image_bytes, encode_image_bytes_error, decoded, device_error, payload_start,
  decoded_fields, take_pixels, decode_image_bytes,
}
use goalpaca.Alpaca.ImageBytes.Codec.Message.{
  IsWireFrame, sent_frame, copy_over_all, transmit_type-IsInt32, encode_image_bytes_into_lem,
}

-- Reading the words of a frame gives the frame's numbers, with the pixels that follow.
decode_words :
    (rt' : Runtime) (frame : ImageFrame) (client_tx server_tx : ℕ) (out : List ℕ)
    → IsWireFrame frame
    → decode_image_bytes rt' (
        header_words
          (pos 0)
          client_tx
          server_tx
          frame.element_type
          (transmit_type frame)
          frame.rank
          frame.width
          frame.height
          frame.planes
          out)
      ≡ elim (take_pixels rt' (record (sent_frame frame) { pixels = out })) [
        | none ↦ none
        | some fr ↦ some (decoded fr)
      ]
unfolding decode_image_bytes payload_start decoded_fields
decode_words rt' frame client_tx server_tx out fits =
    let (f4, f16, f20, f24, f28, f32, f36, f40) =
      header_fields (pos 0) client_tx server_tx frame.element_type (transmit_type frame) frame.rank
        frame.width frame.height frame.planes out in
    rw (
      long,
      f4,
      f16,
      f20,
      f24,
      f28,
      f32,
      f36,
      f40,
      i32_of-u32_of (pos 0) (omega arith),
      i32_of-u32_of frame.element_type fits.type_fits,
      i32_of-u32_of (transmit_type frame) (transmit_type-IsInt32 frame fits),
      pos-u32_of frame.rank fits.rank_fits,
      pos-u32_of frame.width fits.width_fits,
      pos-u32_of frame.height fits.height_fits,
      pos-u32_of frame.planes fits.planes_fits,
      long,
    )
  where
    bytes : List ℕ
    bytes =
        header_words (pos 0) client_tx server_tx frame.element_type (transmit_type frame) frame.rank
          frame.width frame.height frame.planes out

    long : ltb (length bytes) 44 ≡ false
    long = le→ltb (length bytes) 44 (omega arith)

-- Decoding an encoded frame gives the frame back, pixels in the driver's order, with the type on
-- the wire written out where the frame left it to be its logical type. Neither panics.
-- The numbers of the frame fit the header, and its width times its height is below 2^60; the two
-- machines run their goroutines in any order.
pub decode_image_bytes-encode_image_bytes :
    (rt rt' : Runtime) (frame : ImageFrame) (client_tx server_tx : ℕ)
    → RunsAll rt
    → RunsAll rt'
    → IsWireFrame frame
    → (message : List ℕ) × (encode_image_bytes rt frame client_tx server_tx ≡ some message)
      × (decode_image_bytes rt' message ≡ some (decoded (sent_frame frame)))
      × (length message ≡ 44 + length frame.pixels)
unfolding encode_image_bytes
decode_image_bytes-encode_image_bytes rt rt' frame client_tx server_tx runs runs' fits =
    let zeros : length (replicate {A = ℕ} (44 + length frame.pixels) 0) ≡ 44 + length frame.pixels =
      length-replicate (44 + length frame.pixels) 0 in
    let (out, sent, len, taken) =
      encode_image_bytes_into_lem rt (replicate (44 + length frame.pixels) 0) frame client_tx
        server_tx zeros rt' runs runs' fits.area_fits in
    (
      header_words (pos 0) client_tx server_tx frame.element_type (transmit_type frame) frame.rank
          frame.width frame.height frame.planes out,
      sent,
      decode_words rt' frame client_tx server_tx out fits ∙ rw taken refl,
      omega (arith, len),
    )

-- An error that the server puts into an ImageBytes message arrives with its number and text, where
-- the number is an int32 other than 0.
pub decode_image_bytes-encode_image_bytes_error :
    (rt : Runtime) (err_num : ℤ) (payload : List ℕ) (client_tx server_tx : ℕ)
    → IsInt32 err_num
    → err_num ≢ pos 0
    → decode_image_bytes rt (encode_image_bytes_error err_num payload client_tx server_tx)
      ≡ some (device_error err_num payload)
unfolding decode_image_bytes encode_image_bytes_error payload_start
decode_image_bytes-encode_image_bytes_error rt err_num payload client_tx server_tx fits nonzero =
    let (rest, over, total) =
      put_image_bytes_header_lem err_num client_tx server_tx (pos 0) (pos 0) (pos 0) (pos 0) (pos 0)
        (pos 0) (replicate (44 + length payload) 0) (omega (arith, zeros)) in
    let same : length rest ≡ length payload = omega (arith, zeros) in
    let (f4, f16, _, _, _, _, _, _) =
      header_fields err_num client_tx server_tx (pos 0) (pos 0) (pos 0) (pos 0) (pos 0) (pos 0)
        payload in
    rw (
      over,
      copy_over_all rest payload same,
      long,
      f4,
      f16,
      i32_of-u32_of err_num fits,
      eqb-ne err_num (pos 0) nonzero,
      long,
    )
  where
    long :
        ltb
          (length (
            header_words err_num client_tx server_tx
              (pos 0)
              (pos 0)
              (pos 0)
              (pos 0)
              (pos 0)
              (pos 0)
              payload))
          44
        ≡ false
    long =
        le→ltb
          (length (
            header_words err_num client_tx server_tx (pos 0) (pos 0) (pos 0) (pos 0) (pos 0) (pos 0)
              payload))
          44 (omega arith)

    zeros : length (replicate {A = ℕ} (44 + length payload) 0) ≡ 44 + length payload
    zeros = length-replicate (44 + length payload) 0

    eqb-ne : (a b : ℤ) → a ≢ b → eqb_ℤ a b ≡ false
    eqb-ne a b h = ground (arith, eq_of_parts a b)
