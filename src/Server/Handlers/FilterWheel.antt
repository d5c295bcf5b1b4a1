-- ===== src/Server/Handlers/FilterWheel.antt =====
-- filterWheelPut of server/filterwheel.go.
use goalpaca.Prelude.{String, List, ℤ, [], ◌∷◌}
use goalpaca.Alpaca.Errors.{Error}
use goalpaca.Float.{Float64}
use goalpaca.Server.Gates.{Sprintf}
use goalpaca.Server.Gates.Devices as Gated
use goalpaca.Server.Transaction.{Library, Params, req_int}
use goalpaca.Server.Handlers.{Outcome, Cases, with_arg, gated, dispatch}

pub record FilterWheelDriver : Type 1 where
  pub Device : Type 0
  pub names : Device → List String
  pub set_position : ℤ → Device → Device × Error

pub data Member : Type 0 where
  position : Member

abbrev pub put_cases : Cases Member
put_cases = ("position", position) ∷ []

module _ (f : Float64) (lib : Library f) (sprintf : Sprintf f) (driver : FilterWheelDriver) where
  open driver use {Device}

  unfoldable pub put_case : Params → Member → Device → Device × Error
  put_case p position fw =
      with_arg (req_int f lib p "Position")
        (λ n.
          gated (Gated.gate_filter_wheel_position f sprintf (driver.names fw) n)
            (driver.set_position n))
        fw

  unfoldable pub filter_wheel_put : String → Params → Device → Device × Outcome
  filter_wheel_put member p fw = dispatch put_cases (put_case p) member fw
