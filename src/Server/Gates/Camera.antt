-- ===== src/Server/Gates/Camera.antt =====
-- server/gates.go: the gates of the camera, with validSubframe of server/camera_http.go.
-- A driver is a record of its answers to the methods that the gates call.
use goalpaca.Prelude.{
  ℕ, ◌+◌, ◌-◌, ◌/◌, ◌^◌, String, ℤ, pos, negsuc, pos_part, neg_part, ◌-ℤ◌, ltb_ℤ, leb_ℤ, eqb_ℤ,
  Bool, not, none, some, ◌&&◌, ◌||◌, if◌then◌else◌, List, [], ◌∷◌, length,
}
use goalpaca.Alpaca.Errors.{Error}
use goalpaca.Alpaca.ImageBytes.Word.{i64_of}
use goalpaca.Float.{Float64}
use goalpaca.Server.Gates.{
  Sprintf, int, float, text, Answer, check_first, not_impl_err, invalid_valuef, non_negative,
}

pub record Camera : Type 0 where
  pub sensor_type : ℤ
  pub can_gain : Bool
  pub gains : Answer (List String)
  pub gain_min : ℤ
  pub gain_max : ℤ
  pub can_offset : Bool
  pub offsets : Answer (List String)
  pub offset_min : ℤ
  pub offset_max : ℤ
  pub can_get_cooler_power : Bool
  pub can_fast_readout : Bool
  pub can_set_ccd_temperature : Bool
  pub can_stop_exposure : Bool
  pub can_abort_exposure : Bool
  pub can_pulse_guide : Bool
  pub readout_modes : List String
  pub max_bin_x : ℤ
  pub max_bin_y : ℤ
  pub bin_x : ℤ
  pub bin_y : ℤ
  pub camera_x_size : ℤ
  pub camera_y_size : ℤ
  pub start_x : ℤ
  pub start_y : ℤ
  pub num_x : ℤ
  pub num_y : ℤ

abbrev pub sensor_monochrome : ℤ
sensor_monochrome = pos 0

abbrev pub guide_north : ℤ
guide_north = pos 0

abbrev pub guide_south : ℤ
guide_south = pos 1

abbrev pub guide_east : ℤ
guide_east = pos 2

abbrev pub guide_west : ℤ
guide_west = pos 3

unfoldable pub valid_guide_direction : ℤ → Bool
valid_guide_direction dir = leb_ℤ guide_north dir && leb_ℤ dir guide_west

-- A sum of two ints, which wraps at 2^63.
unfoldable pub add_int : ℤ → ℤ → ℤ
add_int a b = i64_of (pos_part a + pos_part b + (2 ^ 65 - (neg_part a + neg_part b)))

-- A quotient of two ints with a divisor of at least 1: it is cut toward zero.
unfoldable pub div_int : ℤ → ℕ → ℤ
div_int (pos a) b = pos (a / b)
div_int (negsuc a) b = pos 0 -ℤ pos ((a + 1) / b)

module _ (f : Float64) (sprintf : Sprintf f) where
  open f use {F, lt, le, of_int, decimal}

  unfoldable pub gate_camera_bayer_offset : Camera → String → Error
  gate_camera_bayer_offset c member =
      if eqb_ℤ c.sensor_type sensor_monochrome then not_impl_err member else none

  unfoldable pub gate_camera_gain : Camera → String → Error
  gate_camera_gain c member = if not c.can_gain then not_impl_err member else none

  unfoldable pub gate_camera_offset : Camera → String → Error
  gate_camera_offset c member = if not c.can_offset then not_impl_err member else none

  unfoldable pub gate_camera_cooler_power : Camera → Error
  gate_camera_cooler_power c =
      if not c.can_get_cooler_power then not_impl_err "CoolerPower" else none

  unfoldable pub gate_camera_fast_readout : Camera → String → Error
  gate_camera_fast_readout c member = if not c.can_fast_readout then not_impl_err member else none

  unfoldable pub gate_camera_set_gain : Camera → ℤ → Error
  gate_camera_set_gain c n = check_first (gate_camera_gain c "Gain") (elim c.gains.1 [
    | none ↦
        if ltb_ℤ n (pos 0) || leb_ℤ (pos (length c.gains.0)) n
        then invalid_valuef f sprintf "Gain index %d is outside the Gains list (0 to %d)"
            (int n ∷ int (pos (length c.gains.0) -ℤ pos 1) ∷ [])
        else none
    | some err ↦
        if ltb_ℤ n c.gain_min || ltb_ℤ c.gain_max n
        then invalid_valuef f sprintf "Gain %d is outside the valid range %d to %d"
            (int n ∷ int c.gain_min ∷ int c.gain_max ∷ [])
        else none
  ])

  unfoldable pub gate_camera_set_offset : Camera → ℤ → Error
  gate_camera_set_offset c n = check_first (gate_camera_offset c "Offset") (elim c.offsets.1 [
    | none ↦
        if ltb_ℤ n (pos 0) || leb_ℤ (pos (length c.offsets.0)) n
        then invalid_valuef f sprintf "Offset index %d is outside the Offsets list (0 to %d)"
            (int n ∷ int (pos (length c.offsets.0) -ℤ pos 1) ∷ [])
        else none
    | some err ↦
        if ltb_ℤ n c.offset_min || ltb_ℤ c.offset_max n
        then invalid_valuef f sprintf "Offset %d is outside the valid range %d to %d"
            (int n ∷ int c.offset_min ∷ int c.offset_max ∷ [])
        else none
  ])

  unfoldable pub gate_camera_set_readout_mode : Camera → ℤ → Error
  gate_camera_set_readout_mode c n =
      if ltb_ℤ n (pos 0) || leb_ℤ (pos (length c.readout_modes)) n
      then invalid_valuef f sprintf "ReadoutMode %d is outside the ReadoutModes list (0 to %d)"
          (int n ∷ int (pos (length c.readout_modes) -ℤ pos 1) ∷ [])
      else none

  unfoldable pub gate_camera_set_bin_x : Camera → ℤ → Error
  gate_camera_set_bin_x c n =
      if ltb_ℤ n (pos 1) || ltb_ℤ c.max_bin_x n
      then invalid_valuef f sprintf "BinX %d is outside the valid range 1 to %d"
          (int n ∷ int c.max_bin_x ∷ [])
      else none

  unfoldable pub gate_camera_set_bin_y : Camera → ℤ → Error
  gate_camera_set_bin_y c n =
      if ltb_ℤ n (pos 1) || ltb_ℤ c.max_bin_y n
      then invalid_valuef f sprintf "BinY %d is outside the valid range 1 to %d"
          (int n ∷ int c.max_bin_y ∷ [])
      else none

  unfoldable pub gate_camera_subframe_origin : String → ℤ → Error
  gate_camera_subframe_origin member n =
      if ltb_ℤ n (pos 0)
      then invalid_valuef f sprintf "%s %d is negative" (text member ∷ int n ∷ [])
      else none

  unfoldable pub gate_camera_subframe_size : String → ℤ → Error
  gate_camera_subframe_size member n =
      if ltb_ℤ n (pos 0)
      then invalid_valuef f sprintf "%s %d is negative" (text member ∷ int n ∷ [])
      else none

  unfoldable pub gate_camera_set_ccd_temperature : Camera → F → Error
  gate_camera_set_ccd_temperature c celsius =
      if not c.can_set_ccd_temperature
      then not_impl_err "SetCCDTemperature"
      else if lt celsius (decimal (pos 0 -ℤ pos 27315) 2) || le (of_int (pos 100)) celsius
      then invalid_valuef f sprintf
          "SetCCDTemperature %g is outside the physically plausible range -273.15 to 100"
          (float celsius ∷ [])
      else none

  unfoldable pub valid_subframe : Camera → Error
  valid_subframe c =
      let max_w = div_int c.camera_x_size (pos_part c.bin_x) in
      let max_h = div_int c.camera_y_size (pos_part c.bin_y) in
      if ltb_ℤ c.bin_x (pos 1) || ltb_ℤ c.bin_y (pos 1)
      then invalid_valuef f sprintf "BinX/BinY %dx%d is not a valid binning"
          (int c.bin_x ∷ int c.bin_y ∷ [])
      else if ltb_ℤ c.num_x (pos 1) || ltb_ℤ c.num_y (pos 1)
      then invalid_valuef f sprintf "NumX/NumY %dx%d is not a valid subframe size"
          (int c.num_x ∷ int c.num_y ∷ [])
      else if ltb_ℤ c.start_x (pos 0) || ltb_ℤ c.start_y (pos 0)
      then invalid_valuef f sprintf "StartX/StartY %d,%d is not a valid subframe origin"
          (int c.start_x ∷ int c.start_y ∷ [])
      else if ltb_ℤ max_w (add_int c.start_x c.num_x)
      then invalid_valuef f sprintf "subframe X extent %d exceeds the binned sensor width %d"
          (int (add_int c.start_x c.num_x) ∷ int max_w ∷ [])
      else if ltb_ℤ max_h (add_int c.start_y c.num_y)
      then invalid_valuef f sprintf "subframe Y extent %d exceeds the binned sensor height %d"
          (int (add_int c.start_y c.num_y) ∷ int max_h ∷ [])
      else none

  unfoldable pub gate_camera_start_exposure : F → Error
  gate_camera_start_exposure duration = non_negative f sprintf "Duration" duration

  unfoldable pub gate_camera_stop_exposure : Camera → Error
  gate_camera_stop_exposure c =
      if not c.can_stop_exposure then not_impl_err "StopExposure" else none

  unfoldable pub gate_camera_abort_exposure : Camera → Error
  gate_camera_abort_exposure c =
      if not c.can_abort_exposure then not_impl_err "AbortExposure" else none

  unfoldable pub gate_camera_sub_exposure_duration : F → Error
  gate_camera_sub_exposure_duration seconds = non_negative f sprintf "SubExposureDuration" seconds

  unfoldable pub gate_camera_pulse_guide : Camera → ℤ → ℤ → Error
  gate_camera_pulse_guide c dir duration =
      if not c.can_pulse_guide
      then not_impl_err "PulseGuide"
      else if not (valid_guide_direction dir)
      then invalid_valuef f sprintf "Direction %d is not a valid guide direction" (int dir ∷ [])
      else if ltb_ℤ duration (pos 0)
      then invalid_valuef f sprintf "Duration %d is negative" (int duration ∷ [])
      else none
