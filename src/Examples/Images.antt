-- ===== src/Examples/Images.antt =====
-- A 2 × 3 image of 16-bit pixels, on machines with one and with four cores.
use goalpaca.Prelude.{
  none, ℕ, ◌+◌, ◌*◌, pos, ◌≡◌, refl, arith, List, [], ◌∷◌, length, get_or, some, true,
}
use goalpaca.Alpaca.ImageBytes.Transpose.{Runtime, RunsAll, transpose_into, transpose_elems}
use goalpaca.Alpaca.ImageBytes.Transpose.Inverse.{
  transpose_into_lem, transpose_elems-transpose_elems,
}
use goalpaca.Alpaca.ImageBytes.Header.{
  ImageFrame, img_uint16, img_int32, parse_image_bytes_header, parsed, header_pixel_bytes,
  element_size,
}
use goalpaca.Alpaca.ImageBytes.Codec.{
  encode_image_bytes, encode_image_bytes_error, decode_image_bytes, decoded, device_error, is_grid,
  grid_size, take_pixels, transmit_type,
}
use goalpaca.Alpaca.ImageBytes.Codec.Message.{IsWireFrame, sent_frame}
use goalpaca.Alpaca.ImageBytes.Codec.RoundTrip.{
  decode_image_bytes-encode_image_bytes, decode_image_bytes-encode_image_bytes_error,
}
use goalpaca.Alpaca.ImageBytes.Codec.Sizes.{
  parse_image_bytes_header-encode_image_bytes, header_of, is_grid_overflow,
}

abbrev pub one_core : Runtime
one_core = record { cores = 1; order = λ starts. starts }

abbrev pub four_cores : Runtime
four_cores = record { cores = 4; order = λ starts. starts }

pub one_core-RunsAll : RunsAll one_core
one_core-RunsAll starts r m = m

pub four_cores-RunsAll : RunsAll four_cores
four_cores-RunsAll starts r m = m

abbrev pixels : List ℕ
pixels = 1 ∷ 0 ∷ 2 ∷ 0 ∷ 3 ∷ 0 ∷ 4 ∷ 0 ∷ 5 ∷ 0 ∷ 6 ∷ 1 ∷ []

abbrev zeros : List ℕ
zeros = 0 ∷ 0 ∷ 0 ∷ 0 ∷ 0 ∷ 0 ∷ 0 ∷ 0 ∷ 0 ∷ 0 ∷ 0 ∷ 0 ∷ []

abbrev frame : ImageFrame
frame = record {
  rank = pos 2;
  width = pos 3;
  height = pos 2;
  planes = pos 0;
  element_type = img_int32;
  transmission_element_type = img_uint16;
  pixels = pixels;
}

frame-IsWireFrame : IsWireFrame frame
frame-IsWireFrame = record {
  rank_fits = omega arith;
  width_fits = omega arith;
  height_fits = omega arith;
  planes_fits = omega arith;
  type_fits = omega arith;
  transmit_fits = omega arith;
  area_fits = omega arith;
}

transpose_into_lem_example :
    (get_or (transpose_into four_cores zeros pixels 2 3 2) ((2 * 2 + 1) * 2 + 1) 0
      ≡ get_or pixels ((1 * 3 + 2) * 2 + 1) 0)
    × (length (transpose_into four_cores zeros pixels 2 3 2) ≡ length zeros)
transpose_into_lem_example =
    transpose_into_lem four_cores zeros pixels 2 3 2 1 2 1 four_cores-RunsAll (omega arith)
      (omega arith) (omega arith) (omega arith)

transpose_elems-transpose_elems_example :
    transpose_elems one_core (transpose_into four_cores zeros pixels 2 3 2) 3 2 2 ≡ pixels
transpose_elems-transpose_elems_example =
    transpose_elems-transpose_elems four_cores one_core pixels zeros 2 3 2 four_cores-RunsAll
      one_core-RunsAll refl refl

decode_image_bytes-encode_image_bytes_example :
    (message : List ℕ) × (encode_image_bytes four_cores frame 12 7 ≡ some message)
    × (decode_image_bytes one_core message ≡ some (decoded (sent_frame frame)))
    × (length message ≡ 44 + length frame.pixels)
decode_image_bytes-encode_image_bytes_example =
    decode_image_bytes-encode_image_bytes four_cores one_core frame 12 7 four_cores-RunsAll
      one_core-RunsAll frame-IsWireFrame

decode_image_bytes-encode_image_bytes_error_example :
    decode_image_bytes one_core
      (encode_image_bytes_error (pos 1032) (112 ∷ 97 ∷ 114 ∷ 107 ∷ []) 12 7)
    ≡ some (device_error (pos 1032) (112 ∷ 97 ∷ 114 ∷ 107 ∷ []))
decode_image_bytes-encode_image_bytes_error_example =
    decode_image_bytes-encode_image_bytes_error one_core (pos 1032) (112 ∷ 97 ∷ 114 ∷ 107 ∷ []) 12 7
      (omega arith) (λ e. ground arith)

parse_image_bytes_header-encode_image_bytes_example :
    (message : List ℕ) × (encode_image_bytes one_core frame 12 7 ≡ some message)
    × (parse_image_bytes_header message ≡ parsed (header_of frame))
    × (is_grid frame (length frame.pixels) ≡ true
        → header_pixel_bytes (header_of frame) ≡ pos (length frame.pixels))
parse_image_bytes_header-encode_image_bytes_example =
    parse_image_bytes_header-encode_image_bytes one_core frame 12 7 one_core-RunsAll
      frame-IsWireFrame

-- 2^31 × 2^31 pixels of 8 bytes, of which none came.
abbrev huge : ImageFrame
huge = record {
  rank = pos 2;
  width = pos 2147483648;
  height = pos 2147483648;
  planes = pos 0;
  element_type = pos 3;
  transmission_element_type = pos 3;
  pixels = [];
}

is_grid_overflow_example :
    (is_grid huge (length huge.pixels) ≡ true)
    × (encode_image_bytes one_core huge 12 7 ≡ none)
    × (take_pixels one_core huge ≡ none)
unfolding element_size transmit_type grid_size
is_grid_overflow_example =
    is_grid_overflow one_core huge 2 12 7 refl (omega arith) (omega arith) refl (omega arith) refl
