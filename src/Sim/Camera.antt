-- ===== src/Sim/Camera.antt =====
-- sim/camera.go: a monochrome camera, whose exposure runs by the clock. A time is a number of
-- nanoseconds.
pub mod Shot
pub mod Gradient
pub mod Sent
pub mod Served
use goalpaca.Prelude.{
  ℕ, ◌+◌, ◌-◌, ◌*◌, ◌/◌, ◌%◌, ◌^◌, String, List, [], ◌∷◌, Bool, true, false, not, ◌&&◌, ◌||◌, ltb,
  ◌==◌, if◌then◌else◌, Option, none, some, ℤ, pos, negsuc, neg, pos_part, neg_part, ◌+ℤ◌, ◌-ℤ◌,
  ◌*ℤ◌, ltb_ℤ, eqb_ℤ, set, replicate,
}
use goalpaca.Prelude.Loop.{for_loop}
use goalpaca.Float.{Float64}
use goalpaca.Alpaca.Errors.{
  GoError, Error, err_invalid_value, err_value_not_set, err_invalid_operation, err_not_implemented,
}
use goalpaca.Alpaca.ImageBytes.Word.{byte0, byte1, i64_of}
use goalpaca.Alpaca.ImageBytes.Header.{ImageFrame, img_int32, img_uint16}
use goalpaca.Server.Gates.{Answer}
use goalpaca.Server.Gates.Camera as Gated

pub record Camera (f : Float64) : Type 0 where
  pub bin_x : ℤ
  pub bin_y : ℤ
  pub start_x : ℤ
  pub start_y : ℤ
  pub num_x : ℤ
  pub num_y : ℤ
  pub gain : ℤ
  pub offset : ℤ
  pub cooler_on : Bool
  pub setpoint : f.F
  -- The zero time, before the first exposure, is none.
  pub start_time : Option ℕ
  pub ready_at : ℤ
  pub last_duration : f.F
  pub last_start_time : String
  pub has_exposure : Bool
  pub exposing : Bool
  pub exp_w : ℤ
  pub exp_h : ℤ

abbrev pub camera_x_size : ℤ
camera_x_size = pos 1936

abbrev pub camera_y_size : ℤ
camera_y_size = pos 1096

abbrev pub max_bin : ℤ
max_bin = pos 4

abbrev pub camera_idle : ℤ
camera_idle = pos 0

abbrev pub camera_exposing : ℤ
camera_exposing = pos 2

-- The int that the exact result of a product of ints becomes.
unfoldable pub wrap_int : ℤ → ℤ
wrap_int z = i64_of (pos_part z + (2 ^ 64 - neg_part z % 2 ^ 64))

-- binary.LittleEndian.PutUint16(buf[off:], v)
unfoldable pub put_u16 : ℕ → ℕ → List ℕ → List ℕ
put_u16 off v buf = set (set buf off (byte0 v)) (off + 1) (byte1 v)

-- uint16(z / w) of an int, whose division cuts off.
unfoldable pub low_word : ℕ → ℤ → ℕ
low_word w (pos a) = a / w % 65536
low_word w (negsuc a) = (65536 - (a + 1) / w % 65536) % 65536

-- `v`: the brightness of a column. The product wraps as an int does.
unfoldable pub shade : ℕ → ℕ → ℕ
unfolding low_word
shade w x = low_word w (i64_of (x * 65535))

-- The loop over the rows of a column.
unfoldable pub put_column : ℕ → ℕ → ℕ → List ℕ → List ℕ
unfolding put_u16 shade
put_column w h x buf = for_loop 0 h 1 (λ y b. put_u16 ((y * w + x) * 2) (shade w x) b) buf

unfoldable pub put_columns : ℕ → ℕ → List ℕ → List ℕ
unfolding put_column
put_columns w h buf = for_loop 0 w 1 (λ x b. put_column w h x b) buf

-- maxAlloc of the Go runtime on a 64-bit machine: make panics beyond it.
abbrev pub max_alloc : ℕ
max_alloc = 2 ^ 48

-- none is a panic: of make, where the size is negative or above maxAlloc, and of a write past the
-- end, where the size has wrapped.
unfoldable pub gradient : ℤ → ℤ → Option (List ℕ)
unfolding wrap_int put_columns
gradient w h =
    let size = wrap_int (w *ℤ h *ℤ pos 2) in
    if ltb_ℤ size (pos 0) || ltb_ℤ (pos max_alloc) size
    then none
    else if ltb_ℤ (pos 0) w && ltb_ℤ (pos 0) h && not (eqb_ℤ size (w *ℤ h *ℤ pos 2))
    then none
    else some (put_columns (pos_part w) (pos_part h) (replicate (pos_part size) 0))

abbrev pub zero_frame : ImageFrame
zero_frame = record {
  rank = pos 0;
  width = pos 0;
  height = pos 0;
  planes = pos 0;
  element_type = pos 0;
  transmission_element_type = pos 0;
  pixels = [];
}

abbrev pub frame_of : ℤ → ℤ → List ℕ → ImageFrame
frame_of w h buf = record {
  rank = pos 2;
  width = w;
  height = h;
  planes = pos 0;
  element_type = img_int32;
  transmission_element_type = img_uint16;
  pixels = buf;
}

-- time.Now().Before(readyAt)
abbrev pub is_before : ℕ → ℤ → Bool
is_before now t = ltb_ℤ (pos now) t

-- The text of a time: now.UTC().Format.
module _ (f : Float64) (format_utc : ℕ → String) where
  open f use {F, lt, le, add, sub, mul, div, of_int, decimal, trunc, seconds}

  -- exposureMin and exposureMax
  abbrev pub exposure_min : F
  exposure_min = decimal (pos 1) 3

  abbrev pub exposure_max : F
  exposure_max = of_int (pos 3600)

  unfoldable pub new_camera : Camera f
  new_camera = record {
    bin_x = pos 1;
    bin_y = pos 1;
    start_x = pos 0;
    start_y = pos 0;
    num_x = camera_x_size;
    num_y = camera_y_size;
    gain = pos 100;
    offset = pos 10;
    cooler_on = false;
    setpoint = of_int (pos 0);
    start_time = none;
    ready_at = pos 0;
    last_duration = of_int (pos 0);
    last_start_time = "";
    has_exposure = false;
    exposing = false;
    exp_w = pos 0;
    exp_h = pos 0;
  }

  -- now.Sub(startTime).Seconds(). From the zero time it is the longest duration.
  abbrev pub seconds_from : Option ℕ → ℕ → F
  seconds_from none now = seconds 9223372036854775807
  seconds_from (some t) now = seconds (now - t)

  unfoldable pub set_bin_x : ℤ → Camera f → Camera f
  set_bin_x v c = record c { bin_x = v }

  unfoldable pub set_bin_y : ℤ → Camera f → Camera f
  set_bin_y v c = record c { bin_y = v }

  unfoldable pub set_start_x : ℤ → Camera f → Camera f
  set_start_x v c = record c { start_x = v }

  unfoldable pub set_start_y : ℤ → Camera f → Camera f
  set_start_y v c = record c { start_y = v }

  unfoldable pub set_num_x : ℤ → Camera f → Camera f
  set_num_x v c = record c { num_x = v }

  unfoldable pub set_num_y : ℤ → Camera f → Camera f
  set_num_y v c = record c { num_y = v }

  unfoldable pub set_gain : ℤ → Camera f → Camera f
  set_gain v c = record c { gain = v }

  unfoldable pub set_offset : ℤ → Camera f → Camera f
  set_offset v c = record c { offset = v }

  unfoldable pub set_cooler_on : Bool → Camera f → Camera f
  set_cooler_on v c = record c { cooler_on = v }

  unfoldable pub set_set_ccd_temperature : F → Camera f → Camera f × Error
  set_set_ccd_temperature v c =
      if lt v (decimal (neg 27315) 2) || lt (of_int (pos 30)) v
      then (c, some err_invalid_value)
      else (record c { setpoint = v }, none)

  -- time.Duration(duration * float64(time.Second))
  abbrev pub exposure_time : F → ℤ
  exposure_time duration = trunc (mul duration (of_int (pos 1000000000)))

  unfoldable pub start_exposure : ℕ → F → Bool → Camera f → Camera f × Error
  start_exposure now duration light c =
      if lt duration exposure_min || lt exposure_max duration
      then (c, some err_invalid_value)
      else (
        record c {
          start_time = some now;
          ready_at = pos now +ℤ exposure_time duration;
          last_duration = duration;
          last_start_time = format_utc now;
          has_exposure = true;
          exposing = true;
          exp_w = c.num_x;
          exp_h = c.num_y;
        },
        none,
      )

  unfoldable pub stop_exposure : ℕ → Camera f → Camera f
  stop_exposure now c =
      if c.exposing && is_before now c.ready_at
      then record c {
        ready_at = pos now;
        last_duration = seconds_from c.start_time now;
        exposing = false;
      }
      else record c { exposing = false }

  unfoldable pub abort_exposure : ℕ → Camera f → Camera f
  abort_exposure now c =
      if c.exposing && is_before now c.ready_at
      then record c { has_exposure = false; exposing = false }
      else record c { exposing = false }

  unfoldable pub image_ready : ℕ → Camera f → Bool
  image_ready now c = c.has_exposure && not (is_before now c.ready_at)

  unfoldable pub camera_state : ℕ → Camera f → ℤ
  camera_state now c =
      if c.exposing && is_before now c.ready_at then camera_exposing else camera_idle

  unfoldable pub percent_completed : ℕ → Camera f → ℤ
  percent_completed now c =
      let pct =
        trunc (mul (div (seconds_from c.start_time now) c.last_duration) (of_int (pos 100))) in
      let pct' = if ltb_ℤ pct (pos 0) then pos 0 else pct in
      if not c.has_exposure || le c.last_duration (of_int (pos 0))
      then pos 0
      else if not (is_before now c.ready_at)
      then pos 100
      else if ltb_ℤ (pos 100) pct'
      then pos 100
      else pct'

  unfoldable pub last_exposure_duration : Camera f → F × Error
  last_exposure_duration c =
      if not c.has_exposure
      then (of_int (pos 0), some err_value_not_set)
      else (c.last_duration, none)

  unfoldable pub last_exposure_start_time : Camera f → Answer String
  last_exposure_start_time c =
      if not c.has_exposure then ("", some err_value_not_set) else (c.last_start_time, none)

  unfoldable pub image_frame : ℕ → Camera f → Option (Answer ImageFrame)
  image_frame now c =
      if not c.has_exposure || is_before now c.ready_at
      then some (zero_frame, some err_invalid_operation)
      else elim (gradient c.exp_w c.exp_h) [
        | none ↦ none
        | some buf ↦ some (frame_of c.exp_w c.exp_h buf, none)
      ]

  unfoldable pub ccd_temperature : ℕ → Camera f → F
  ccd_temperature now c =
      let ambient = of_int (pos 20) in
      let tau = of_int (pos 5) in
      let target = if c.cooler_on then c.setpoint else ambient in
      let elapsed : F = elim c.start_time [ none ↦ tau | some t ↦ seconds (now - t) ] in
      let frac = div elapsed tau in
      let frac' = if lt frac (of_int (pos 0)) then of_int (pos 0) else frac in
      let frac'' = if lt (of_int (pos 1)) frac' then of_int (pos 1) else frac' in
      add ambient (mul (sub target ambient) frac'')

  unfoldable pub cooler_power : Camera f → F
  cooler_power c = if c.cooler_on then of_int (pos 50) else of_int (pos 0)

  -- What the server's gates ask of this camera; Gains and Offsets are the base's refusals.
  unfoldable pub camera_answers : Camera f → Gated.Camera
  camera_answers c = record {
    sensor_type = Gated.sensor_monochrome;
    can_gain = true;
    gains = ([], some err_not_implemented);
    gain_min = pos 0;
    gain_max = pos 300;
    can_offset = true;
    offsets = ([], some err_not_implemented);
    offset_min = pos 0;
    offset_max = pos 100;
    can_get_cooler_power = true;
    can_fast_readout = false;
    can_set_ccd_temperature = true;
    can_stop_exposure = true;
    can_abort_exposure = true;
    can_pulse_guide = false;
    readout_modes = "Default" ∷ [];
    max_bin_x = max_bin;
    max_bin_y = max_bin;
    bin_x = c.bin_x;
    bin_y = c.bin_y;
    camera_x_size = camera_x_size;
    camera_y_size = camera_y_size;
    start_x = c.start_x;
    start_y = c.start_y;
    num_x = c.num_x;
    num_y = c.num_y;
  }
