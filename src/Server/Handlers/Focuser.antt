-- ===== src/Server/Handlers/Focuser.antt =====
-- focuserPut of server/focuser.go.
use goalpaca.Prelude.{String, ℤ, Bool, [], ◌∷◌}
use goalpaca.Alpaca.Errors.{Error}
use goalpaca.Float.{Float64}
use goalpaca.Server.Gates.{Sprintf}
use goalpaca.Server.Gates.Devices as Gated
use goalpaca.Server.Transaction.{Library, Params, req_int, req_bool}
use goalpaca.Server.Handlers.{Outcome, Cases, with_arg, gated, dispatch}

pub record FocuserDriver : Type 1 where
  pub Device : Type 0
  pub answers : Device → Gated.Focuser
  pub set_temp_comp : Bool → Device → Device × Error
  pub halt : Device → Device × Error
  pub move : ℤ → Device → Device × Error

pub data Member : Type 0 where
  temp_comp halt move : Member

abbrev pub put_cases : Cases Member
put_cases = ("tempcomp", temp_comp) ∷ ("halt", halt) ∷ ("move", move) ∷ []

module _ (f : Float64) (lib : Library f) (sprintf : Sprintf f) (driver : FocuserDriver) where
  open driver use {Device, answers}

  unfoldable pub put_case : Params → Member → Device → Device × Error
  put_case p temp_comp d =
      with_arg (req_bool f lib p "TempComp")
        (λ b. gated (Gated.gate_focuser_temp_comp f sprintf (answers d) b) (driver.set_temp_comp b))
        d
  put_case p halt d = driver.halt d
  put_case p move d =
      with_arg (req_int f lib p "Position")
        (λ n. gated (Gated.gate_focuser_move f sprintf (answers d)) (driver.move n)) d

  unfoldable pub focuser_put : String → Params → Device → Device × Outcome
  focuser_put member p d = dispatch put_cases (put_case p) member d
