-- ===== src/Server/Handlers/CoverCalibrator.antt =====
-- coverCalibratorPut of server/covercalibrator.go.
use goalpaca.Prelude.{String, ℤ, [], ◌∷◌}
use goalpaca.Alpaca.Errors.{Error}
use goalpaca.Float.{Float64}
use goalpaca.Server.Gates.{Sprintf}
use goalpaca.Server.Gates.Devices as Gated
use goalpaca.Server.Transaction.{Library, Params, req_int}
use goalpaca.Server.Handlers.{Outcome, Cases, with_arg, gated, dispatch}

-- CalibratorState and CoverState, which the gates call, may settle the device.
pub record CoverCalibratorDriver : Type 1 where
  pub Device : Type 0
  pub answers : Device → Gated.CoverCalibrator
  pub ask_calibrator : Device → Device
  pub ask_cover : Device → Device
  pub calibrator_off : Device → Device × Error
  pub calibrator_on : ℤ → Device → Device × Error
  pub close_cover : Device → Device × Error
  pub halt_cover : Device → Device × Error
  pub open_cover : Device → Device × Error

pub data Member : Type 0 where
  calibrator_off calibrator_on close_cover halt_cover open_cover : Member

abbrev pub put_cases : Cases Member
put_cases =
    ("calibratoroff", calibrator_off)
    ∷ ("calibratoron", calibrator_on)
    ∷ ("closecover", close_cover)
    ∷ ("haltcover", halt_cover)
    ∷ ("opencover", open_cover)
    ∷ []

module _ (f : Float64) (lib : Library f) (sprintf : Sprintf f)
    (driver : CoverCalibratorDriver) where
  open driver use {Device, answers, ask_calibrator, ask_cover}

  unfoldable pub put_case : Params → Member → Device → Device × Error
  put_case p calibrator_off cc =
      gated (Gated.gate_cover_calibrator_calibrator f sprintf (answers cc) "CalibratorOff")
        driver.calibrator_off (ask_calibrator cc)
  put_case p calibrator_on cc =
      with_arg (req_int f lib p "Brightness")
        (λ n d.
          gated (Gated.gate_cover_calibrator_on f sprintf (answers d) n) (driver.calibrator_on n)
            (ask_calibrator d))
        cc
  put_case p close_cover cc =
      gated (Gated.gate_cover_calibrator_cover f sprintf (answers cc) "CloseCover")
        driver.close_cover (ask_cover cc)
  put_case p halt_cover cc =
      gated (Gated.gate_cover_calibrator_cover f sprintf (answers cc) "HaltCover") driver.halt_cover
        (ask_cover cc)
  put_case p open_cover cc =
      gated (Gated.gate_cover_calibrator_cover f sprintf (answers cc) "OpenCover") driver.open_cover
        (ask_cover cc)

  unfoldable pub cover_calibrator_put : String → Params → Device → Device × Outcome
  cover_calibrator_put member p cc = dispatch put_cases (put_case p) member cc
