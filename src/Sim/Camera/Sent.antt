-- ===== src/Sim/Camera/Sent.antt =====
-- From StartExposure to the client: the server's check of the rectangle, the frame of
-- sim/camera.go, and the message of alpaca/imagebytes.go.
use native.Mathlib.Nat.{div-le_self}
use goalpaca.Prelude.{
  ℕ, ◌+◌, ◌*◌, ◌^◌, ◌≤◌, ◌<◌, ◌≡◌, refl, ap, ◌∙◌, arith, String, Bool, true, List, length, none,
  some, ℤ, pos, negsuc, pos_part, ◌≤ℤ◌, Bool-cases, inl, inr, ◌||◌,
}
use goalpaca.Float.{Float64}
use goalpaca.Server.Gates.{Sprintf}
use goalpaca.Server.Gates.Camera as Gated
use goalpaca.Server.Gates.Exposure.{valid_subframe_lem, max_w, max_h}
use goalpaca.Alpaca.ImageBytes.Transpose.{Runtime, RunsAll}
use goalpaca.Alpaca.ImageBytes.Header.{ImageFrame}
use goalpaca.Alpaca.ImageBytes.Codec.{
  encode_image_bytes, decode_image_bytes, decoded, transmit_type,
}
use goalpaca.Alpaca.ImageBytes.Codec.Message.{IsWireFrame}
use goalpaca.Alpaca.ImageBytes.Codec.RoundTrip.{decode_image_bytes-encode_image_bytes}
use goalpaca.Sim.Camera.{
  Camera, camera_answers, start_exposure, image_ready, image_frame, gradient, frame_of, is_before,
  exposure_min, exposure_max,
}
use goalpaca.Sim.Camera.Gradient.{gradient_lem}

-- A size of at least 1 and at most n.
abbrev pub IsSize : ℕ → ℤ → Type 0
IsSize n z = (k : ℕ) × (z ≡ pos k) × (0 < k) × (k ≤ n)

IsSize_le : (n : ℕ) (z m : ℤ) → pos 1 ≤ℤ z → z ≤ℤ m → m ≤ℤ pos n → IsSize n z
IsSize_le n (pos k) m low high top = (k, refl, omega arith, omega arith)
IsSize_le n (negsuc k) m low high top = absurd (omega arith)

ends_le :
    (start n m : ℤ) → pos 0 ≤ℤ start → pos 1 ≤ℤ n → pos (pos_part start + pos_part n) ≤ℤ m → n ≤ℤ m
ends_le start n m hs hn h = omega arith

pub none-some : {A : Type 0} {a : A} → some a ≡ none → ⊥
none-some e = ground arith

module _ (f : Float64) (sprintf : Sprintf f) (format_utc : ℕ → String) where
  binned_le : (n b : ℕ) → Gated.div_int (pos n) b ≤ℤ pos n
  unfolding Gated.div_int
  binned_le n b = omega (arith, div-le_self n b)

  -- The check leaves a rectangle no larger than the sensor.
  pub checked_size :
      (c : Camera f)
      → pos_part c.start_x + pos_part c.num_x < 2 ^ 63
      → pos_part c.start_y + pos_part c.num_y < 2 ^ 63
      → Gated.valid_subframe f sprintf (camera_answers f format_utc c) ≡ none
      → IsSize 1936 c.num_x × IsSize 1096 c.num_y
  unfolding camera_answers
  checked_size c hx hy ok =
      let on = (valid_subframe_lem f sprintf (camera_answers f format_utc c) hx hy).0 ok in
      (
        IsSize_le 1936 c.num_x (max_w (camera_answers f format_utc c)) on.sized.0
            (ends_le _ _ _ on.placed.0 on.sized.0 on.ends_x) (binned_le 1936 (pos_part c.bin_x)),
        IsSize_le 1096 c.num_y (max_h (camera_answers f format_utc c)) on.sized.1
            (ends_le _ _ _ on.placed.1 on.sized.1 on.ends_y) (binned_le 1096 (pos_part c.bin_y)),
      )

  pub exposed :
      (now : ℕ) (duration : f.F) (light : Bool) (c : Camera f)
      → (start_exposure f format_utc now duration light c).1 ≡ none
      → ((start_exposure f format_utc now duration light c).0.exp_w ≡ c.num_x)
        × ((start_exposure f format_utc now duration light c).0.exp_h ≡ c.num_y)
  unfolding start_exposure
  exposed now duration light c ok =
      elim (Bool-cases
        (f.lt duration (exposure_min f format_utc) || f.lt (exposure_max f format_utc) duration)) [
          | inl e ↦ absurd (none-some (rw e at ok))
          | inr e ↦ rw e (refl, refl)
        ]

  image_frame_ready :
      (now : ℕ) (c : Camera f) (buf : List ℕ)
      → image_ready f format_utc now c ≡ true
      → gradient c.exp_w c.exp_h ≡ some buf
      → image_frame f format_utc now c ≡ some (frame_of c.exp_w c.exp_h buf, none)
  unfolding image_ready image_frame
  image_frame_ready now c buf ready e = elim (Bool-cases c.has_exposure) [
    | inr h ↦ absurd (ground arith)
    | inl h ↦ elim (Bool-cases (is_before now c.ready_at)) [
      | inl w ↦ absurd (ground arith)
      | inr w ↦ rw (image_frame, h, w, e) refl
    ]
  ]

  -- The frame of a rectangle on the sensor fits the header of a message.
  frame_of-IsWireFrame :
      (w h : ℕ) (buf : List ℕ) → w ≤ 1936 → h ≤ 1096 → IsWireFrame (frame_of (pos w) (pos h) buf)
  frame_of-IsWireFrame w h buf hw hh = record {
    rank_fits = omega arith;
    width_fits = omega arith;
    height_fits = omega arith;
    planes_fits = omega arith;
    type_fits = omega arith;
    transmit_fits = omega arith;
    area_fits = grind arith;
  }

  -- A ready camera whose exposed rectangle fits the sensor sends its frame.
  sent_frame_lem :
      (c : Camera f) (later w h : ℕ) (rt rt' : Runtime) (client_tx server_tx : ℕ)
      → RunsAll rt
      → RunsAll rt'
      → (c.exp_w ≡ pos w) × (0 < w) × (w ≤ 1936)
      → (c.exp_h ≡ pos h) × (0 < h) × (h ≤ 1096)
      → image_ready f format_utc later c ≡ true
      → (frame : ImageFrame) × (message : List ℕ) × (image_frame f format_utc later c
          ≡ some (frame, none))
        × (encode_image_bytes rt frame client_tx server_tx ≡ some message)
        × (decode_image_bytes rt' message ≡ some (decoded frame))
        × (length message ≡ 44 + w * h * 2)
  unfolding transmit_type
  sent_frame_lem c later w h rt rt' client_tx server_tx runs runs' (ew, w0, w1) (eh, h0, h1) ready =
      let (buf, made, size, _) = gradient_lem w h 0 0 (grind arith) w0 h0 in
      let frame = frame_of (pos w) (pos h) buf in
      let (message, sent, back, long) =
        decode_image_bytes-encode_image_bytes rt rt' frame client_tx server_tx runs runs'
          (frame_of-IsWireFrame w h buf w1 h1) in
      let shown : image_frame f format_utc later c ≡ some (frame_of c.exp_w c.exp_h buf, none) =
        image_frame_ready later c buf ready (rw (ew, eh) made) in
      let same : frame_of c.exp_w c.exp_h buf ≡ frame = rw (ew, eh) refl in
      (
        frame,
        message,
        shown ∙ ap (λ (fr : ImageFrame). some (fr, none)) same,
        sent,
        back,
        rw size at long,
      )

  -- An exposure of a rectangle that the server's check lets through has an image once it is ready,
  -- and encoding it does not panic. A client that decodes the message gets the camera's frame, with
  -- two bytes for each pixel of the rectangle. The rectangle is the one of StartExposure, and on each
  -- axis its corner and its size add up to less than 2^63.
  pub decode_image_bytes-image_frame :
      (c : Camera f) (now later : ℕ) (duration : f.F) (light : Bool) (rt rt' : Runtime)
      (client_tx server_tx : ℕ)
      → RunsAll rt
      → RunsAll rt'
      → pos_part c.start_x + pos_part c.num_x < 2 ^ 63
      → pos_part c.start_y + pos_part c.num_y < 2 ^ 63
      → Gated.valid_subframe f sprintf (camera_answers f format_utc c) ≡ none
      → (start_exposure f format_utc now duration light c).1 ≡ none
      → image_ready f format_utc later (start_exposure f format_utc now duration light c).0 ≡ true
      → (frame : ImageFrame) × (message : List ℕ) × (image_frame f format_utc later
            (start_exposure f format_utc now duration light c).0
          ≡ some (frame, none))
        × (encode_image_bytes rt frame client_tx server_tx ≡ some message)
        × (decode_image_bytes rt' message ≡ some (decoded frame))
        × (length message ≡ 44 + pos_part c.num_x * pos_part c.num_y * 2)
  decode_image_bytes-image_frame c now later duration light rt rt' client_tx server_tx runs runs' hx
        hy ok started ready =
      let ((w, ew, w0, w1), (h, eh, h0, h1)) = checked_size c hx hy ok in
      let (fw, fh) = exposed now duration light c started in
      let (frame, message, shown, sent, back, long) =
        sent_frame_lem (start_exposure f format_utc now duration light c).0 later w h rt rt'
          client_tx server_tx runs runs' (fw ∙ ew, w0, w1) (fh ∙ eh, h0, h1) ready in
      let same : 44 + w * h * 2 ≡ 44 + pos_part c.num_x * pos_part c.num_y * 2 = rw (ew, eh) refl in
      (frame, message, shown, sent, back, long ∙ same)
