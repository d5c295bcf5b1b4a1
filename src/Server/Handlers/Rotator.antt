-- ===== src/Server/Handlers/Rotator.antt =====
-- rotatorPut of server/rotator.go.
use goalpaca.Prelude.{String, Bool, [], ◌∷◌}
use goalpaca.Alpaca.Errors.{Error}
use goalpaca.Float.{Float64}
use goalpaca.Server.Gates.{Sprintf}
use goalpaca.Server.Gates.Devices as Gated
use goalpaca.Server.Transaction.{Library, Params, req_float, req_bool}
use goalpaca.Server.Handlers.{Outcome, Cases, with_arg, gated, dispatch}

pub record RotatorDriver (f : Float64) : Type 1 where
  pub Device : Type 0
  pub can_reverse : Device → Bool
  pub set_reverse : Bool → Device → Device × Error
  pub halt : Device → Device × Error
  pub move : f.F → Device → Device × Error
  pub move_absolute : f.F → Device → Device × Error
  pub move_mechanical : f.F → Device → Device × Error
  pub sync : f.F → Device → Device × Error

pub data Member : Type 0 where
  reverse halt move move_absolute move_mechanical sync : Member

abbrev pub put_cases : Cases Member
put_cases =
    ("reverse", reverse)
    ∷ ("halt", halt)
    ∷ ("move", move)
    ∷ ("moveabsolute", move_absolute)
    ∷ ("movemechanical", move_mechanical)
    ∷ ("sync", sync)
    ∷ []

module _ (f : Float64) (lib : Library f) (sprintf : Sprintf f) (driver : RotatorDriver f) where
  open driver use {Device}

  unfoldable pub put_case : Params → Member → Device → Device × Error
  put_case p reverse r =
      with_arg (req_bool f lib p "Reverse")
        (λ b.
          gated (Gated.gate_rotator_reverse f sprintf (driver.can_reverse r))
            (driver.set_reverse b))
        r
  put_case p halt r = driver.halt r
  put_case p move r = with_arg (req_float f lib p "Position") (λ x. driver.move x) r
  put_case p move_absolute r =
      with_arg (req_float f lib p "Position")
        (λ x. gated (Gated.gate_rotator_position f sprintf x) (driver.move_absolute x)) r
  put_case p move_mechanical r =
      with_arg (req_float f lib p "Position")
        (λ x. gated (Gated.gate_rotator_position f sprintf x) (driver.move_mechanical x)) r
  put_case p sync r =
      with_arg (req_float f lib p "Position")
        (λ x. gated (Gated.gate_rotator_position f sprintf x) (driver.sync x)) r

  unfoldable pub rotator_put : String → Params → Device → Device × Outcome
  rotator_put member p r = dispatch put_cases (put_case p) member r
