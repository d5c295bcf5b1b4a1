-- ===== src/Sim/Camera/Served.antt =====
-- The simulated camera behind cameraPut: what a client's requests can do to it.
use goalpaca.Prelude.{
  ℕ, ◌+◌, ◌^◌, ◌<◌, ◌≤ℤ◌, ◌<ℤ◌, ◌≡◌, ◌≢◌, arith, String, Bool, true, List, [], ◌∷◌, none, some, ℤ,
  pos, negsuc, pos_part, neg, ◌&&◌, ◌||◌, Bool-cases, inl, inr,
}
use goalpaca.Float.{Float64}
use goalpaca.Alpaca.Errors.{err_not_implemented}
use goalpaca.Server.Gates.{Sprintf, invalid_valuef}
use goalpaca.Server.Gates.Camera as Gated
use goalpaca.Server.Transaction.{Library, Params, req_int, got}
use goalpaca.Server.Handlers.Keeps.{Leaves, with_arg-keeps, gated-keeps, dispatch-keeps}
use goalpaca.Server.Handlers.Camera.{
  CameraDriver, Member, put_case, put_cases, camera_put, bin_x, bin_y, start_x, start_y, num_x,
  num_y, gain, offset, readout_mode, fast_readout, cooler_on, set_ccd_temperature, start_exposure,
  stop_exposure, abort_exposure, sub_exposure_duration, pulse_guide,
}
use goalpaca.Sim.Camera
use goalpaca.Sim.Camera.Sent.{IsSize, checked_size, none-some}
use goalpaca.Sim.Camera.Gradient.{gradient_lem}

abbrev pub InRange : ℤ → ℤ → ℤ → Type 0
InRange lo hi z = (lo ≤ℤ z) × (z ≤ℤ hi)

-- A number of a rectangle, below 2^62: two of them add up to an int.
abbrev IsExtent : ℤ → Type 0
IsExtent z = (pos 0 ≤ℤ z) × (z <ℤ pos (2 ^ 62))

extents_fit : (a b : ℤ) → IsExtent a → IsExtent b → pos_part a + pos_part b < 2 ^ 63
extents_fit (pos a) (pos b) (a0, a1) (b0, b1) = omega arith
extents_fit (pos a) (negsuc b) (a0, a1) (b0, b1) = absurd (omega arith)
extents_fit (negsuc a) b (a0, a1) (b0, b1) = absurd (omega arith)

module _ (f : Float64) (format_utc : ℕ → String) where
  -- The driver at a time; FastReadout, SubExposureDuration and PulseGuide are the base's refusals.
  abbrev pub camera_driver : ℕ → CameraDriver f
  camera_driver now = record {
    Device = Camera.Camera f;
    answers = Camera.camera_answers f format_utc;
    set_bin_x = λ n c. (Camera.set_bin_x f format_utc n c, none);
    set_bin_y = λ n c. (Camera.set_bin_y f format_utc n c, none);
    set_start_x = λ n c. (Camera.set_start_x f format_utc n c, none);
    set_start_y = λ n c. (Camera.set_start_y f format_utc n c, none);
    set_num_x = λ n c. (Camera.set_num_x f format_utc n c, none);
    set_num_y = λ n c. (Camera.set_num_y f format_utc n c, none);
    set_gain = λ n c. (Camera.set_gain f format_utc n c, none);
    set_offset = λ n c. (Camera.set_offset f format_utc n c, none);
    set_readout_mode = λ n c. (c, none);
    set_fast_readout = λ b c. (c, some err_not_implemented);
    set_cooler_on = λ b c. (Camera.set_cooler_on f format_utc b c, none);
    set_set_ccd_temperature = λ x c. Camera.set_set_ccd_temperature f format_utc x c;
    start_exposure = λ dur light c. Camera.start_exposure f format_utc now dur light c;
    stop_exposure = λ c. (Camera.stop_exposure f format_utc now c, none);
    abort_exposure = λ c. (Camera.abort_exposure f format_utc now c, none);
    set_sub_exposure_duration = λ x c. (c, some err_not_implemented);
    pulse_guide = λ dir dur c. (c, some err_not_implemented);
  }

  module _ (lib : Library f) (sprintf : Sprintf f) where
    -- The PUT requests of a client, each with the time at which it is served.
    unfoldable pub serve_all : List (ℕ × String × Params) → Camera.Camera f → Camera.Camera f
    unfolding camera_put
    serve_all [] c = c
    serve_all ((now, member, p) ∷ requests) c =
        serve_all requests (camera_put f lib sprintf (camera_driver now) member p c).0

    -- The settings are within the camera's limits, and an exposed rectangle fits the sensor.
    record IsServed (c : Camera.Camera f) : Type 0 where
      bins : InRange (pos 1) (pos 4) c.bin_x × InRange (pos 1) (pos 4) c.bin_y
      rect : IsExtent c.start_x × IsExtent c.start_y × IsExtent c.num_x × IsExtent c.num_y
      gains : InRange (pos 0) (pos 300) c.gain × InRange (pos 0) (pos 100) c.offset
      frame : c.has_exposure ≡ true → IsSize 1936 c.exp_w × IsSize 1096 c.exp_h

    -- No integer of the request is 2^62 or more.
    abbrev pub IsModest : Params → Type 0
    IsModest p = (name : String) (n : ℤ) → req_int f lib p name ≡ got n → n <ℤ pos (2 ^ 62)

    bin_x_ok :
        (c : Camera.Camera f) (n : ℤ)
        → Gated.gate_camera_set_bin_x f sprintf (Camera.camera_answers f format_utc c) n ≡ none
        → InRange (pos 1) (pos 4) n
    unfolding Gated.gate_camera_set_bin_x invalid_valuef Camera.camera_answers
    bin_x_ok c n h = ground arith

    bin_y_ok :
        (c : Camera.Camera f) (n : ℤ)
        → Gated.gate_camera_set_bin_y f sprintf (Camera.camera_answers f format_utc c) n ≡ none
        → InRange (pos 1) (pos 4) n
    unfolding Gated.gate_camera_set_bin_y invalid_valuef Camera.camera_answers
    bin_y_ok c n h = ground arith

    origin_ok :
        (member : String) (n : ℤ)
        → Gated.gate_camera_subframe_origin f sprintf member n ≡ none
        → pos 0 ≤ℤ n
    unfolding Gated.gate_camera_subframe_origin invalid_valuef
    origin_ok member n h = ground arith

    size_ok :
        (member : String) (n : ℤ)
        → Gated.gate_camera_subframe_size f sprintf member n ≡ none
        → pos 0 ≤ℤ n
    unfolding Gated.gate_camera_subframe_size invalid_valuef
    size_ok member n h = ground arith

    gain_ok :
        (c : Camera.Camera f) (n : ℤ)
        → Gated.gate_camera_set_gain f sprintf (Camera.camera_answers f format_utc c) n ≡ none
        → InRange (pos 0) (pos 300) n
    unfolding Gated.gate_camera_set_gain Gated.gate_camera_gain invalid_valuef Camera.camera_answers
    gain_ok c n h = ground arith

    offset_ok :
        (c : Camera.Camera f) (n : ℤ)
        → Gated.gate_camera_set_offset f sprintf (Camera.camera_answers f format_utc c) n ≡ none
        → InRange (pos 0) (pos 100) n
    unfolding Gated.gate_camera_set_offset Gated.gate_camera_offset invalid_valuef
        Camera.camera_answers
    offset_ok c n h = ground arith

    stop-IsServed :
        (now : ℕ) (c : Camera.Camera f)
        → IsServed c
        → IsServed (Camera.stop_exposure f format_utc now c)
    unfolding Camera.stop_exposure
    stop-IsServed now c s = elim (Bool-cases (c.exposing && Camera.is_before now c.ready_at)) [
      | inl e ↦
          rw (Camera.stop_exposure, e)
            (record { bins = s.bins; rect = s.rect; gains = s.gains; frame = s.frame })
      | inr e ↦
          rw (Camera.stop_exposure, e)
            (record { bins = s.bins; rect = s.rect; gains = s.gains; frame = s.frame })
    ]

    abort-IsServed :
        (now : ℕ) (c : Camera.Camera f)
        → IsServed c
        → IsServed (Camera.abort_exposure f format_utc now c)
    unfolding Camera.abort_exposure
    abort-IsServed now c s = elim (Bool-cases (c.exposing && Camera.is_before now c.ready_at)) [
      | inl e ↦
          rw (Camera.abort_exposure, e)
            (record {
              bins = s.bins;
              rect = s.rect;
              gains = s.gains;
              frame = λ h. absurd (ground arith);
            })
      | inr e ↦
          rw (Camera.abort_exposure, e)
            (record { bins = s.bins; rect = s.rect; gains = s.gains; frame = s.frame })
    ]

    setpoint-IsServed :
        (x : f.F) (c : Camera.Camera f)
        → IsServed c
        → IsServed (Camera.set_set_ccd_temperature f format_utc x c).0
    unfolding Camera.set_set_ccd_temperature
    setpoint-IsServed x c s =
        elim (Bool-cases (f.lt x (f.decimal (neg 27315) 2) || f.lt (f.of_int (pos 30)) x)) [
          | inl e ↦
              rw (Camera.set_set_ccd_temperature, e)
                (record { bins = s.bins; rect = s.rect; gains = s.gains; frame = s.frame })
          | inr e ↦
              rw (Camera.set_set_ccd_temperature, e)
                (record { bins = s.bins; rect = s.rect; gains = s.gains; frame = s.frame })
        ]

    start-IsServed :
        (now : ℕ) (duration : f.F) (light : Bool) (c : Camera.Camera f)
        → Gated.valid_subframe f sprintf (Camera.camera_answers f format_utc c) ≡ none
        → IsServed c
        → IsServed (Camera.start_exposure f format_utc now duration light c).0
    unfolding Camera.start_exposure
    start-IsServed now duration light c ok s =
        elim (Bool-cases (
          f.lt duration (Camera.exposure_min f format_utc)
          || f.lt (Camera.exposure_max f format_utc) duration)) [
            | inl e ↦
                rw (Camera.start_exposure, e)
                  (record { bins = s.bins; rect = s.rect; gains = s.gains; frame = s.frame })
            | inr e ↦
                let (left, top, wide, high) = s.rect in
                rw (Camera.start_exposure, e)
                  (record {
                    bins = s.bins;
                    rect = s.rect;
                    gains = s.gains;
                    frame = λ h.
                        checked_size f sprintf format_utc c (extents_fit _ _ left wide)
                          (extents_fit _ _ top high) ok;
                  })
          ]

    put_case-IsServed :
        (now : ℕ) (p : Params) (m : Member) (c : Camera.Camera f)
        → IsModest p
        → IsServed c
        → Leaves IsServed (put_case f lib sprintf (camera_driver now) p m c)
    unfolding put_case Camera.set_bin_x Camera.set_bin_y Camera.set_start_x Camera.set_start_y
        Camera.set_num_x Camera.set_num_y Camera.set_gain Camera.set_offset Camera.set_cooler_on
    put_case-IsServed now p bin_x c modest s =
        with_arg-keeps IsServed _ _ c
          (λ n e.
            gated-keeps IsServed _ _ c
              (λ ok. record {
                kept = record {
                  bins = (bin_x_ok c n ok, s.bins.1);
                  rect = s.rect;
                  gains = s.gains;
                  frame = s.frame;
                };
              })
              s)
          s
    put_case-IsServed now p bin_y c modest s =
        with_arg-keeps IsServed _ _ c
          (λ n e.
            gated-keeps IsServed _ _ c
              (λ ok. record {
                kept = record {
                  bins = (s.bins.0, bin_y_ok c n ok);
                  rect = s.rect;
                  gains = s.gains;
                  frame = s.frame;
                };
              })
              s)
          s
    put_case-IsServed now p start_x c modest s =
        with_arg-keeps IsServed _ _ c
          (λ n e.
            gated-keeps IsServed _ _ c
              (λ ok. record {
                kept = record {
                  bins = s.bins;
                  rect = ((origin_ok _ n ok, modest _ n e), s.rect.1, s.rect.2, s.rect.3);
                  gains = s.gains;
                  frame = s.frame;
                };
              })
              s)
          s
    put_case-IsServed now p start_y c modest s =
        with_arg-keeps IsServed _ _ c
          (λ n e.
            gated-keeps IsServed _ _ c
              (λ ok. record {
                kept = record {
                  bins = s.bins;
                  rect = (s.rect.0, (origin_ok _ n ok, modest _ n e), s.rect.2, s.rect.3);
                  gains = s.gains;
                  frame = s.frame;
                };
              })
              s)
          s
    put_case-IsServed now p num_x c modest s =
        with_arg-keeps IsServed _ _ c
          (λ n e.
            gated-keeps IsServed _ _ c
              (λ ok. record {
                kept = record {
                  bins = s.bins;
                  rect = (s.rect.0, s.rect.1, (size_ok _ n ok, modest _ n e), s.rect.3);
                  gains = s.gains;
                  frame = s.frame;
                };
              })
              s)
          s
    put_case-IsServed now p num_y c modest s =
        with_arg-keeps IsServed _ _ c
          (λ n e.
            gated-keeps IsServed _ _ c
              (λ ok. record {
                kept = record {
                  bins = s.bins;
                  rect = (s.rect.0, s.rect.1, s.rect.2, (size_ok _ n ok, modest _ n e));
                  gains = s.gains;
                  frame = s.frame;
                };
              })
              s)
          s
    put_case-IsServed now p gain c modest s =
        with_arg-keeps IsServed _ _ c
          (λ n e.
            gated-keeps IsServed _ _ c
              (λ ok. record {
                kept = record {
                  bins = s.bins;
                  rect = s.rect;
                  gains = (gain_ok c n ok, s.gains.1);
                  frame = s.frame;
                };
              })
              s)
          s
    put_case-IsServed now p offset c modest s =
        with_arg-keeps IsServed _ _ c
          (λ n e.
            gated-keeps IsServed _ _ c
              (λ ok. record {
                kept = record {
                  bins = s.bins;
                  rect = s.rect;
                  gains = (s.gains.0, offset_ok c n ok);
                  frame = s.frame;
                };
              })
              s)
          s
    put_case-IsServed now p readout_mode c modest s =
        with_arg-keeps IsServed _ _ c
          (λ n e. gated-keeps IsServed _ _ c (λ ok. record { kept = s }) s) s
    put_case-IsServed now p fast_readout c modest s =
        with_arg-keeps IsServed _ _ c
          (λ n e. gated-keeps IsServed _ _ c (λ ok. record { kept = s }) s) s
    put_case-IsServed now p cooler_on c modest s =
        with_arg-keeps IsServed _ _ c
          (λ b e. record {
            kept = record { bins = s.bins; rect = s.rect; gains = s.gains; frame = s.frame };
          })
          s
    put_case-IsServed now p set_ccd_temperature c modest s =
        with_arg-keeps IsServed _ _ c
          (λ x e. gated-keeps IsServed _ _ c (λ ok. record { kept = setpoint-IsServed x c s }) s) s
    put_case-IsServed now p start_exposure c modest s =
        with_arg-keeps IsServed _ _ c
          (λ x e.
            with_arg-keeps IsServed _ _ c
              (λ light e'.
                gated-keeps IsServed _ _ c
                  (λ ok.
                    gated-keeps IsServed _ _ c
                      (λ valid. record { kept = start-IsServed now x light c valid s }) s)
                  s)
              s)
          s
    put_case-IsServed now p stop_exposure c modest s =
        gated-keeps IsServed _ _ c (λ ok. record { kept = stop-IsServed now c s }) s
    put_case-IsServed now p abort_exposure c modest s =
        gated-keeps IsServed _ _ c (λ ok. record { kept = abort-IsServed now c s }) s
    put_case-IsServed now p sub_exposure_duration c modest s =
        with_arg-keeps IsServed _ _ c
          (λ n e. gated-keeps IsServed _ _ c (λ ok. record { kept = s }) s) s
    put_case-IsServed now p pulse_guide c modest s =
        with_arg-keeps IsServed _ _ c
          (λ dir e.
            with_arg-keeps IsServed _ _ c
              (λ dur e'. gated-keeps IsServed _ _ c (λ ok. record { kept = s }) s) s)
          s

    -- The requests of a list are modest.
    abbrev pub AllModest : List (ℕ × String × Params) → Type 0
    AllModest [] = Unit
    AllModest ((now, member, p) ∷ requests) = IsModest p × AllModest requests

    serve_all-IsServed :
        (requests : List (ℕ × String × Params)) (c : Camera.Camera f)
        → AllModest requests
        → IsServed c
        → IsServed (serve_all requests c)
    unfolding serve_all camera_put
    serve_all-IsServed [] c modest s = s
    serve_all-IsServed ((now, member, p) ∷ requests) c (first, rest) s =
        serve_all-IsServed requests (camera_put f lib sprintf (camera_driver now) member p c).0 rest
          (dispatch-keeps IsServed put_cases (put_case f lib sprintf (camera_driver now) p) member c
            (λ m. put_case-IsServed now p m c first s) s)

    image_frame_made :
        (now : ℕ) (c : Camera.Camera f) → IsServed c → Camera.image_frame f format_utc now c ≢ none
    unfolding Camera.image_frame
    image_frame_made now c s e = elim (Bool-cases c.has_exposure) [
      | inr h ↦ none-some (rw (Camera.image_frame, h) at e)
      | inl h ↦ elim (Bool-cases (Camera.is_before now c.ready_at)) [
        | inl w ↦ none-some (rw (Camera.image_frame, h, w) at e)
        | inr w ↦
            let ((n, en, n0, n1), (m, em, m0, m1)) = s.frame h in
            let (buf, made, _, _) = gradient_lem n m 0 0 (grind arith) n0 m0 in
            none-some (rw (Camera.image_frame, h, w, en, em, made) at e)
      ]
    ]

    -- Whatever PUT requests the clients of a new simulated camera send, in whatever order and at
    -- whatever times: the settings stay within the limits that the camera reports, and ImageFrame
    -- does not panic, at any time. No integer of a request is 2^62 or more.
    pub camera_put-InRange :
        (requests : List (ℕ × String × Params)) (now : ℕ)
        → AllModest requests
        → let c = serve_all requests (Camera.new_camera f format_utc) in
          InRange (pos 1) Camera.max_bin c.bin_x
          × InRange (pos 1) Camera.max_bin c.bin_y
          × InRange (pos 0) (pos 300) c.gain
          × InRange (pos 0) (pos 100) c.offset
          × (pos 0 ≤ℤ c.start_x)
          × (pos 0 ≤ℤ c.start_y)
          × (pos 0 ≤ℤ c.num_x)
          × (pos 0 ≤ℤ c.num_y)
          × (Camera.image_frame f format_utc now c ≢ none)
    unfolding Camera.new_camera
    camera_put-InRange requests now modest =
        let fresh : IsServed (Camera.new_camera f format_utc) = record {
          bins = ((omega arith, omega arith), (omega arith, omega arith));
          rect = (
            (omega arith, omega arith),
            (omega arith, omega arith),
            (omega arith, omega arith),
            (omega arith, omega arith),
          );
          gains = ((omega arith, omega arith), (omega arith, omega arith));
          frame = λ h. absurd (ground arith);
        } in
        let served = serve_all-IsServed requests (Camera.new_camera f format_utc) modest fresh in
        let rect = served.rect in
        (
          served.bins.0,
          served.bins.1,
          served.gains.0,
          served.gains.1,
          rect.0.0,
          rect.1.0,
          rect.2.0,
          rect.3.0,
          image_frame_made now _ served,
        )
