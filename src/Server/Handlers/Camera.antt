-- ===== src/Server/Handlers/Camera.antt =====
-- cameraPut of server/camera_http.go.
use goalpaca.Prelude.{String, ℤ, Bool, [], ◌∷◌}
use goalpaca.Alpaca.Errors.{Error}
use goalpaca.Float.{Float64}
use goalpaca.Server.Gates.{Sprintf}
use goalpaca.Server.Gates.Camera as Gated
use goalpaca.Server.Transaction.{Library, Params, req_int, req_float, req_bool}
use goalpaca.Server.Handlers.{Outcome, Cases, with_arg, gated, dispatch}

pub record CameraDriver (f : Float64) : Type 1 where
  pub Device : Type 0
  pub answers : Device → Gated.Camera
  pub set_bin_x : ℤ → Device → Device × Error
  pub set_bin_y : ℤ → Device → Device × Error
  pub set_start_x : ℤ → Device → Device × Error
  pub set_start_y : ℤ → Device → Device × Error
  pub set_num_x : ℤ → Device → Device × Error
  pub set_num_y : ℤ → Device → Device × Error
  pub set_gain : ℤ → Device → Device × Error
  pub set_offset : ℤ → Device → Device × Error
  pub set_readout_mode : ℤ → Device → Device × Error
  pub set_fast_readout : Bool → Device → Device × Error
  pub set_cooler_on : Bool → Device → Device × Error
  pub set_set_ccd_temperature : f.F → Device → Device × Error
  pub start_exposure : f.F → Bool → Device → Device × Error
  pub stop_exposure : Device → Device × Error
  pub abort_exposure : Device → Device × Error
  pub set_sub_exposure_duration : f.F → Device → Device × Error
  pub pulse_guide : ℤ → ℤ → Device → Device × Error

pub data Member : Type 0 where
  bin_x bin_y start_x start_y num_x num_y gain offset readout_mode fast_readout : Member
  cooler_on set_ccd_temperature start_exposure stop_exposure abort_exposure : Member
  sub_exposure_duration pulse_guide : Member

abbrev pub put_cases : Cases Member
put_cases =
    ("binx", bin_x)
    ∷ ("biny", bin_y)
    ∷ ("startx", start_x)
    ∷ ("starty", start_y)
    ∷ ("numx", num_x)
    ∷ ("numy", num_y)
    ∷ ("gain", gain)
    ∷ ("offset", offset)
    ∷ ("readoutmode", readout_mode)
    ∷ ("fastreadout", fast_readout)
    ∷ ("cooleron", cooler_on)
    ∷ ("setccdtemperature", set_ccd_temperature)
    ∷ ("startexposure", start_exposure)
    ∷ ("stopexposure", stop_exposure)
    ∷ ("abortexposure", abort_exposure)
    ∷ ("subexposureduration", sub_exposure_duration)
    ∷ ("pulseguide", pulse_guide)
    ∷ []

module _ (f : Float64) (lib : Library f) (sprintf : Sprintf f) (driver : CameraDriver f) where
  open driver use {Device, answers}

  unfoldable pub put_case : Params → Member → Device → Device × Error
  put_case p bin_x c =
      with_arg (req_int f lib p "BinX")
        (λ n. gated (Gated.gate_camera_set_bin_x f sprintf (answers c) n) (driver.set_bin_x n)) c
  put_case p bin_y c =
      with_arg (req_int f lib p "BinY")
        (λ n. gated (Gated.gate_camera_set_bin_y f sprintf (answers c) n) (driver.set_bin_y n)) c
  put_case p start_x c =
      with_arg (req_int f lib p "StartX")
        (λ n. gated (Gated.gate_camera_subframe_origin f sprintf "StartX" n) (driver.set_start_x n))
        c
  put_case p start_y c =
      with_arg (req_int f lib p "StartY")
        (λ n. gated (Gated.gate_camera_subframe_origin f sprintf "StartY" n) (driver.set_start_y n))
        c
  put_case p num_x c =
      with_arg (req_int f lib p "NumX")
        (λ n. gated (Gated.gate_camera_subframe_size f sprintf "NumX" n) (driver.set_num_x n)) c
  put_case p num_y c =
      with_arg (req_int f lib p "NumY")
        (λ n. gated (Gated.gate_camera_subframe_size f sprintf "NumY" n) (driver.set_num_y n)) c
  put_case p gain c =
      with_arg (req_int f lib p "Gain")
        (λ n. gated (Gated.gate_camera_set_gain f sprintf (answers c) n) (driver.set_gain n)) c
  put_case p offset c =
      with_arg (req_int f lib p "Offset")
        (λ n. gated (Gated.gate_camera_set_offset f sprintf (answers c) n) (driver.set_offset n)) c
  put_case p readout_mode c =
      with_arg (req_int f lib p "ReadoutMode")
        (λ n.
          gated (Gated.gate_camera_set_readout_mode f sprintf (answers c) n)
            (driver.set_readout_mode n))
        c
  put_case p fast_readout c =
      with_arg (req_bool f lib p "FastReadout")
        (λ b.
          gated (Gated.gate_camera_fast_readout f sprintf (answers c) "FastReadout")
            (driver.set_fast_readout b))
        c
  put_case p cooler_on c = with_arg (req_bool f lib p "CoolerOn") (λ b. driver.set_cooler_on b) c
  put_case p set_ccd_temperature c =
      with_arg (req_float f lib p "SetCCDTemperature")
        (λ x.
          gated (Gated.gate_camera_set_ccd_temperature f sprintf (answers c) x)
            (driver.set_set_ccd_temperature x))
        c
  put_case p start_exposure c =
      with_arg (req_float f lib p "Duration")
        (λ dur. with_arg (req_bool f lib p "Light") (λ light.
          gated (Gated.gate_camera_start_exposure f sprintf dur)
            (gated (Gated.valid_subframe f sprintf (answers c)) (driver.start_exposure dur light))))
        c
  put_case p stop_exposure c =
      gated (Gated.gate_camera_stop_exposure f sprintf (answers c)) driver.stop_exposure c
  put_case p abort_exposure c =
      gated (Gated.gate_camera_abort_exposure f sprintf (answers c)) driver.abort_exposure c
  put_case p sub_exposure_duration c =
      with_arg (req_float f lib p "SubExposureDuration")
        (λ x.
          gated (Gated.gate_camera_sub_exposure_duration f sprintf x)
            (driver.set_sub_exposure_duration x))
        c
  put_case p pulse_guide c =
      with_arg (req_int f lib p "Direction")
        (λ dir. with_arg (req_int f lib p "Duration") (λ dur.
          gated (Gated.gate_camera_pulse_guide f sprintf (answers c) dir dur)
            (driver.pulse_guide dir dur)))
        c

  unfoldable pub camera_put : String → Params → Device → Device × Outcome
  camera_put member p c = dispatch put_cases (put_case p) member c
