-- ===== src/Sim/Camera/Shot.antt =====
-- What a client sees of the camera's exposures, as a machine of three states that sim/camera.go
-- implements with its flags and times.
pub mod Refines
use goalpaca.Prelude.{
  ℕ, ◌-◌, ◌≤◌, ◌≡◌, refl, sym, ◌∙◌, ap, arith, String, List, [], ◌∷◌, Bool, true, false, not, ◌||◌,
  ltb_ℤ, if◌then◌else◌, Option, none, some, ℤ, pos, ◌+ℤ◌, inl, inr, Bool-cases,
}
use goalpaca.Float.{Float64}
use goalpaca.Alpaca.Errors.{Error, err_value_not_set, err_invalid_operation}
use goalpaca.Alpaca.ImageBytes.Header.{ImageFrame}
use goalpaca.Server.Gates.{Answer}
use goalpaca.Sim.Camera

pub data Setting (f : Float64) : Type 0 where
  to_bin_x to_bin_y to_start_x to_start_y to_num_x to_num_y to_gain to_offset : ℤ → Setting f
  to_cooler_on : Bool → Setting f
  to_set_ccd_temperature : f.F → Setting f

pub data Call (f : Float64) : Type 0 where
  expose : f.F → Bool → Call f
  stop abort : Call f
  adjust : Setting f → Call f

-- An exposure: its rectangle, its recorded duration, and when it began.
pub record Exposure (f : Float64) : Type 0 where
  pub width : ℤ
  pub height : ℤ
  pub duration : f.F
  pub started : ℕ

pub data Shot (f : Float64) : Type 0 where
  no_shot : Shot f
  running : Exposure f → ℤ → Shot f
  taken : Exposure f → Shot f

-- The abstract camera: its exposure, and the size of the next one.
pub record View (f : Float64) : Type 0 where
  pub shot : Shot f
  pub num_x : ℤ
  pub num_y : ℤ

-- The answers of the camera about its exposure.
pub record Reads (f : Float64) : Type 0 where
  pub ready : Bool
  pub state : ℤ
  pub duration : f.F × Error
  pub start_text : Answer String
  pub frame : Option (Answer ImageFrame)

module _ (f : Float64) (format_utc : ℕ → String) where
  open f use {F, lt, of_int, seconds}

  unfoldable pub apply : Setting f → Camera.Camera f → Camera.Camera f
  unfolding Camera.set_bin_x Camera.set_bin_y Camera.set_start_x Camera.set_start_y Camera.set_num_x
      Camera.set_num_y Camera.set_gain Camera.set_offset Camera.set_cooler_on
      Camera.set_set_ccd_temperature
  apply (to_bin_x v) c = Camera.set_bin_x f format_utc v c
  apply (to_bin_y v) c = Camera.set_bin_y f format_utc v c
  apply (to_start_x v) c = Camera.set_start_x f format_utc v c
  apply (to_start_y v) c = Camera.set_start_y f format_utc v c
  apply (to_num_x v) c = Camera.set_num_x f format_utc v c
  apply (to_num_y v) c = Camera.set_num_y f format_utc v c
  apply (to_gain v) c = Camera.set_gain f format_utc v c
  apply (to_offset v) c = Camera.set_offset f format_utc v c
  apply (to_cooler_on v) c = Camera.set_cooler_on f format_utc v c
  apply (to_set_ccd_temperature v) c = (Camera.set_set_ccd_temperature f format_utc v c).0

  unfoldable pub step : ℕ → Call f → Camera.Camera f → Camera.Camera f
  unfolding Camera.start_exposure Camera.stop_exposure Camera.abort_exposure apply
  step now (expose duration light) c = (Camera.start_exposure f format_utc now duration light c).0
  step now stop c = Camera.stop_exposure f format_utc now c
  step now abort c = Camera.abort_exposure f format_utc now c
  step now (adjust s) c = apply s c

  -- The calls, each with the time at which it is made.
  unfoldable pub run : List (ℕ × Call f) → Camera.Camera f → Camera.Camera f
  run [] c = c
  run ((now, call) ∷ calls) c = run calls (step now call c)

  unfoldable pub reads : ℕ → Camera.Camera f → Reads f
  reads now c = record {
    ready = Camera.image_ready f format_utc now c;
    state = Camera.camera_state f format_utc now c;
    duration = Camera.last_exposure_duration f format_utc c;
    start_text = Camera.last_exposure_start_time f format_utc c;
    frame = Camera.image_frame f format_utc now c;
  }

  -- An exposure is taken when its time has come.
  unfoldable pub settle_shot : ℕ → Shot f → Shot f
  settle_shot now no_shot = no_shot
  settle_shot now (running e end) = if ltb_ℤ (pos now) end then running e end else taken e
  settle_shot now (taken e) = taken e

  unfoldable pub settle : ℕ → View f → View f
  unfolding settle_shot
  settle now v = record v { shot = settle_shot now v.shot }

  unfoldable pub stop_shot : ℕ → Shot f → Shot f
  stop_shot now no_shot = no_shot
  stop_shot now (running e end) = taken (record e { duration = seconds (now - e.started) })
  stop_shot now (taken e) = taken e

  unfoldable pub abort_shot : Shot f → Shot f
  abort_shot no_shot = no_shot
  abort_shot (running e end) = no_shot
  abort_shot (taken e) = taken e

  unfoldable pub adjust_view : Setting f → View f → View f
  adjust_view (to_num_x n) v = record v { num_x = n }
  adjust_view (to_num_y n) v = record v { num_y = n }
  adjust_view (to_bin_x n) v = v
  adjust_view (to_bin_y n) v = v
  adjust_view (to_start_x n) v = v
  adjust_view (to_start_y n) v = v
  adjust_view (to_gain n) v = v
  adjust_view (to_offset n) v = v
  adjust_view (to_cooler_on b) v = v
  adjust_view (to_set_ccd_temperature t) v = v

  -- A call on a settled view.
  unfoldable pub act : ℕ → Call f → View f → View f
  unfolding settle_shot stop_shot abort_shot adjust_view
  act now (expose duration light) v =
      let e : Exposure f = record {
        width = v.num_x;
        height = v.num_y;
        duration = duration;
        started = now;
      } in
      let end = pos now +ℤ Camera.exposure_time f format_utc duration in
      if lt duration (Camera.exposure_min f format_utc)
        || lt (Camera.exposure_max f format_utc) duration
      then v
      else record v { shot = settle_shot now (running e end) }
  act now stop v = record v { shot = stop_shot now v.shot }
  act now abort v = record v { shot = abort_shot v.shot }
  act now (adjust s) v = adjust_view s v

  unfoldable pub run_view : List (ℕ × Call f) → View f → View f
  unfolding act settle
  run_view [] v = v
  run_view ((now, call) ∷ calls) v = run_view calls (act now call (settle now v))

  unfoldable pub shot_reads : Shot f → Reads f
  shot_reads no_shot = record {
    ready = false;
    state = Camera.camera_idle;
    duration = (of_int (pos 0), some err_value_not_set);
    start_text = ("", some err_value_not_set);
    frame = some (Camera.zero_frame, some err_invalid_operation);
  }
  shot_reads (running e end) = record {
    ready = false;
    state = Camera.camera_exposing;
    duration = (e.duration, none);
    start_text = (format_utc e.started, none);
    frame = some (Camera.zero_frame, some err_invalid_operation);
  }
  shot_reads (taken e) = record {
    ready = true;
    state = Camera.camera_idle;
    duration = (e.duration, none);
    start_text = (format_utc e.started, none);
    frame = elim (Camera.gradient e.width e.height) [
      | none ↦ none
      | some buf ↦ some (Camera.frame_of e.width e.height buf, none)
    ];
  }

  unfoldable pub new_view : View f
  new_view = record { shot = no_shot; num_x = Camera.camera_x_size; num_y = Camera.camera_y_size }
