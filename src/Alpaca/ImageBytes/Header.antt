-- ===== src/Alpaca/ImageBytes/Header.antt =====
-- The 44 bytes of metadata: putImageBytesHeader, ImageBytesHeader and ParseImageBytesHeader of
-- alpaca/imagebytes.go, and the element types of alpaca/camera.go.
pub mod Layout
pub mod Fields
use goalpaca.Prelude.{
  ℕ, ◌+◌, ◌*◌, ◌%◌, List, String, ltb, ◌==◌, if◌then◌else◌, length, ℤ, pos, negsuc, ltb_ℤ, eqb_ℤ,
  pos_part, Bool, true, false, ◌||◌,
}
use goalpaca.Alpaca.ImageBytes.Word.{put_u32, get_u32, u32_of, i32_of, i64_of}
use goalpaca.Alpaca.Errors.{AlpacaError, new_error, err_num_unspecified}

abbrev pub image_bytes_header_len : ℕ
image_bytes_header_len = 44

abbrev pub image_bytes_version : ℕ
image_bytes_version = 1

-- ImageElementType is an int32; these are its named values.
abbrev pub img_unknown : ℤ
img_unknown = pos 0

abbrev pub img_int16 : ℤ
img_int16 = pos 1

abbrev pub img_int32 : ℤ
img_int32 = pos 2

abbrev pub img_double : ℤ
img_double = pos 3

abbrev pub img_single : ℤ
img_single = pos 4

abbrev pub img_uint64 : ℤ
img_uint64 = pos 5

abbrev pub img_byte : ℤ
img_byte = pos 6

abbrev pub img_int64 : ℤ
img_int64 = pos 7

abbrev pub img_uint16 : ℤ
img_uint16 = pos 8

abbrev pub img_uint32 : ℤ
img_uint32 = pos 9

unfoldable pub element_size : ℤ → ℕ
element_size t =
    if eqb_ℤ t img_byte
    then 1
    else if eqb_ℤ t img_int16 || eqb_ℤ t img_uint16
    then 2
    else if eqb_ℤ t img_int32 || eqb_ℤ t img_uint32 || eqb_ℤ t img_single
    then 4
    else if eqb_ℤ t img_int64 || eqb_ℤ t img_uint64 || eqb_ℤ t img_double
    then 8
    else 0

pub record ImageFrame : Type 0 where
  pub rank : ℤ
  pub width : ℤ
  pub height : ℤ
  pub planes : ℤ
  pub element_type : ℤ
  pub transmission_element_type : ℤ
  pub pixels : List ℕ

-- Eleven PutUint32 calls, in the source's order.
unfoldable pub put_image_bytes_header : ℤ → ℕ → ℕ → ℤ → ℤ → ℤ → ℤ → ℤ → ℤ → List ℕ → List ℕ
unfolding put_u32
put_image_bytes_header err_num client_tx server_tx elem_type transmit rank dim1 dim2 dim3 buf =
    let b0 = put_u32 0 image_bytes_version buf in
    let b1 = put_u32 4 (u32_of err_num) b0 in
    let b2 = put_u32 8 client_tx b1 in
    let b3 = put_u32 12 server_tx b2 in
    let b4 = put_u32 16 image_bytes_header_len b3 in
    let b5 = put_u32 20 (u32_of elem_type) b4 in
    let b6 = put_u32 24 (u32_of transmit) b5 in
    let b7 = put_u32 28 (u32_of rank) b6 in
    let b8 = put_u32 32 (u32_of dim1) b7 in
    let b9 = put_u32 36 (u32_of dim2) b8 in put_u32 40 (u32_of dim3) b9

pub record ImageBytesHeader : Type 0 where
  pub error_number : ℤ
  pub data_start : ℤ
  pub element_type : ℤ
  pub transmission_element_type : ℤ
  pub rank : ℤ
  pub width : ℤ
  pub height : ℤ
  pub planes : ℤ

unfoldable pub header_transmit : ImageBytesHeader → ℤ
header_transmit h =
    if eqb_ℤ h.transmission_element_type (pos 0)
    then h.element_type
    else h.transmission_element_type

-- The product of the three dimensions and the element size is an int.
unfoldable pub header_pixel_bytes : ImageBytesHeader → ℤ
header_pixel_bytes h =
    let es = element_size (header_transmit h) in
    let planes = if not_three || ltb_ℤ h.planes (pos 1) then 1 else pos_part h.planes in
    if es == 0 || ltb_ℤ h.width (pos 1) || ltb_ℤ h.height (pos 1)
    then pos 0
    else i64_of (pos_part h.width * pos_part h.height * planes * es)
  where
    not_three : Bool
    not_three = if eqb_ℤ h.rank (pos 3) then false else true

-- The parse, or the error of a response that is too short.
pub data Parsed {ℓ} (A : Type ℓ) : Type ℓ where
  parsed : A → Parsed A
  failed : AlpacaError → Parsed A

unfoldable pub parse_image_bytes_header : List ℕ → Parsed ImageBytesHeader
unfolding get_u32
parse_image_bytes_header bytes =
    if ltb (length bytes) image_bytes_header_len
    then failed (new_error err_num_unspecified "imagebytes response shorter than metadata header")
    else parsed (record {
      error_number = i32_of (get_u32 4 bytes);
      data_start = pos (get_u32 16 bytes);
      element_type = i32_of (get_u32 20 bytes);
      transmission_element_type = i32_of (get_u32 24 bytes);
      rank = pos (get_u32 28 bytes);
      width = pos (get_u32 32 bytes);
      height = pos (get_u32 36 bytes);
      planes = pos (get_u32 40 bytes);
    })
