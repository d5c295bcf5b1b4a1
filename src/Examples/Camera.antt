-- ===== src/Examples/Camera.antt =====
-- The simulated camera: an exposure that is stopped, its image, and a client's requests.
use goalpaca.Prelude.{
  ℕ, ◌+◌, ◌*◌, ◌/◌, ◌≤ℤ◌, pos, ◌≡◌, ◌≢◌, refl, arith, String, true, List, [], ◌∷◌, length, get_or,
  none, some, Option-cases, inl, inr, ◌+ℤ◌, ◌*ℤ◌,
}
use goalpaca.Float.Exact.{exact, num}
use goalpaca.Alpaca.ImageBytes.Header.{ImageFrame}
use goalpaca.Alpaca.ImageBytes.Codec.{encode_image_bytes, decode_image_bytes, decoded}
use goalpaca.Alpaca.ImageBytes.Word.{i64_of}
use goalpaca.Server.Gates.Camera as Gated
use goalpaca.Server.Transaction.{Params, req_int, required, get, got, refused}
use goalpaca.Alpaca.Errors.{GoError}
use goalpaca.Sim.Camera
use goalpaca.Sim.Camera.Shot.{
  Call, expose, stop, adjust, to_num_x, run, reads, shot_reads, settle, run_view, new_view,
}
use goalpaca.Sim.Camera.Shot.Refines.{reads-run}
use goalpaca.Sim.Camera.Gradient.{gradient_lem}
use goalpaca.Sim.Camera.Sent.{decode_image_bytes-image_frame}
use goalpaca.Sim.Camera.Served.{InRange, serve_all, camera_put-InRange, IsModest}
use goalpaca.Examples.Images.{four_cores, one_core, four_cores-RunsAll, one_core-RunsAll}
use goalpaca.Examples.Gates.{plain_format}
use goalpaca.Examples.Requests.{five_library, no_params}

abbrev any_time : ℕ → String
any_time t = "2026-01-01T00:00:00"

-- Two seconds of exposure, stopped after one.
abbrev calls : List (ℕ × Call exact)
calls =
    (1000000000, expose (num (pos 2)) true)
    ∷ (1500000000, adjust (to_num_x (pos 7)))
    ∷ (2000000000, stop)
    ∷ []

reads-run_example :
    reads exact any_time 3000000000 (run exact any_time calls (Camera.new_camera exact any_time))
    ≡ shot_reads exact any_time
        (settle exact any_time 3000000000
          (run_view exact any_time calls (new_view exact any_time))).shot
reads-run_example =
    reads-run exact any_time calls 3000000000
      (omega arith, (omega arith, (omega arith, omega arith)))

gradient_lem_example :
    (buf : List ℕ) × (Camera.gradient (pos 4) (pos 2) ≡ some buf)
    × (length buf ≡ 4 * 2 * 2)
    × (get_or buf ((1 * 4 + 3) * 2) 0 + 256 * get_or buf ((1 * 4 + 3) * 2 + 1) 0 ≡ 3 * 65535 / 4)
gradient_lem_example = gradient_lem 4 2 3 1 (omega arith) (omega arith) (omega arith)

abbrev exposed : Camera.Camera exact
exposed =
    (Camera.start_exposure exact any_time 1000000000 (num (pos 2)) true
      (Camera.new_camera exact any_time)).0

decode_image_bytes-image_frame_example :
    (frame : ImageFrame) × (message : List ℕ) × (Camera.image_frame exact any_time 4000000000
        exposed
      ≡ some (frame, none))
    × (encode_image_bytes four_cores frame 12 7 ≡ some message)
    × (decode_image_bytes one_core message ≡ some (decoded frame))
    × (length message ≡ 44 + 1936 * 1096 * 2)
unfolding Camera.new_camera Camera.camera_answers Gated.valid_subframe Gated.div_int Gated.add_int
    i64_of Camera.start_exposure Camera.image_ready ◌+ℤ◌ ◌*ℤ◌
decode_image_bytes-image_frame_example =
    decode_image_bytes-image_frame exact plain_format any_time (Camera.new_camera exact any_time)
      1000000000 4000000000 (num (pos 2)) true four_cores one_core 12 7 four_cores-RunsAll
      one_core-RunsAll (omega arith) (omega arith) refl refl refl

abbrev requests : List (ℕ × String × Params)
requests = (1000000000, "gain", no_params) ∷ (2000000000, "startexposure", no_params) ∷ []

refused-got : {A : Type 0} {err : GoError} {a : A} → refused err ≡ got a → ⊥
refused-got e = ground arith

got_injective : {A : Type 0} {a b : A} → got a ≡ got b → a ≡ b
got_injective e = ground arith

no_params-IsModest : IsModest exact any_time five_library plain_format no_params
unfolding req_int required
no_params-IsModest name n e = elim (Option-cases (get exact five_library no_params name)) [
  | inl none_there ↦ absurd (refused-got (rw (req_int, required, none_there) at e))
  | inr (v, there) ↦
      let five : pos 5 ≡ n = got_injective (rw (req_int, required, there) at e) in
      rw (← five) (omega arith)
]

camera_put-InRange_example :
    let c =
      serve_all exact any_time five_library plain_format requests
        (Camera.new_camera exact any_time) in
    InRange (pos 1) (pos 4) c.bin_x
    × InRange (pos 1) (pos 4) c.bin_y
    × InRange (pos 0) (pos 300) c.gain
    × InRange (pos 0) (pos 100) c.offset
    × (pos 0 ≤ℤ c.start_x)
    × (pos 0 ≤ℤ c.start_y)
    × (pos 0 ≤ℤ c.num_x)
    × (pos 0 ≤ℤ c.num_y)
    × (Camera.image_frame exact any_time 9000000000 c ≢ none)
camera_put-InRange_example =
    camera_put-InRange exact any_time five_library plain_format requests 9000000000
      (no_params-IsModest, (no_params-IsModest, tt))
