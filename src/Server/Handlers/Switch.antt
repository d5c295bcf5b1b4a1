-- ===== src/Server/Handlers/Switch.antt =====
-- switchPut of server/switch.go.
use goalpaca.Prelude.{String, Option, none, some, ℤ, Bool, ◌||◌, if◌then◌else◌, [], ◌∷◌}
use goalpaca.Alpaca.Errors.{Error}
use goalpaca.Float.{Float64}
use goalpaca.Server.Gates.{Sprintf, Answer, int, float, invalid_valuef}
use goalpaca.Server.Gates.Devices as Gated
use goalpaca.Server.Transaction.{Library, Params, req_int, req_float, req_bool, get}
use goalpaca.Server.Handlers.{Outcome, Cases, with_arg, gated, dispatch}

pub record SwitchDriver (f : Float64) : Type 1 where
  pub Device : Type 0
  pub answers : Device → Gated.Switch f
  pub set_switch : ℤ → Bool → Device → Device × Error
  pub set_switch_name : ℤ → String → Device → Device × Error
  pub set_switch_value : ℤ → f.F → Device → Device × Error
  pub set_async : ℤ → Bool → Device → Device × Error
  pub set_async_value : ℤ → f.F → Device → Device × Error
  pub cancel_async : ℤ → Device → Device × Error

pub data Member : Type 0 where
  set_switch set_switch_name set_switch_value set_async set_async_value cancel_async : Member

abbrev pub put_cases : Cases Member
put_cases =
    ("setswitch", set_switch)
    ∷ ("setswitchname", set_switch_name)
    ∷ ("setswitchvalue", set_switch_value)
    ∷ ("setasync", set_async)
    ∷ ("setasyncvalue", set_async_value)
    ∷ ("cancelasync", cancel_async)
    ∷ []

-- The text of `name, _ := p.get(...)`: empty where the parameter is missing.
abbrev pub or_empty : Option String → String
or_empty none = ""
or_empty (some s) = s

module _ (f : Float64) (lib : Library f) (sprintf : Sprintf f) (driver : SwitchDriver f) where
  open driver use {Device, answers}
  open f use {F, lt}

  -- The comparison of SetAsyncValue, where the driver answers both bounds.
  unfoldable pub async_bounds : Answer F → Answer F → ℤ → F → Error
  async_bounds (min, none) (max, none) id value =
      if lt value min || lt max value
      then invalid_valuef f sprintf "switch %d value %g is outside the valid range %g to %g"
          (int id ∷ float value ∷ float min ∷ float max ∷ [])
      else none
  async_bounds (min, none) (_, some _) id value = none
  async_bounds (_, some _) _ id value = none

  -- The second switch, on an Id that has been read.
  unfoldable pub put_id : Params → Member → ℤ → Device → Device × Error
  put_id p set_switch id sw =
      with_arg (req_bool f lib p "State")
        (λ state.
          gated (Gated.valid_switch_id f sprintf (answers sw) id) (driver.set_switch id state))
        sw
  put_id p set_switch_name id sw =
      gated (Gated.valid_switch_id f sprintf (answers sw) id)
        (driver.set_switch_name id (or_empty (get f lib p "Name"))) sw
  put_id p set_switch_value id sw =
      with_arg (req_float f lib p "Value")
        (λ value.
          gated (Gated.gate_switch_value f sprintf (answers sw) id value)
            (driver.set_switch_value id value))
        sw
  put_id p set_async id sw =
      with_arg (req_bool f lib p "State")
        (λ state. gated (Gated.valid_switch_id f sprintf (answers sw) id) (
          gated (Gated.gate_switch_async f sprintf (answers sw) id "SetAsync")
            (driver.set_async id state)))
        sw
  put_id p set_async_value id sw =
      with_arg (req_float f lib p "Value")
        (λ value. gated (Gated.valid_switch_id f sprintf (answers sw) id) (
          gated (Gated.gate_switch_async f sprintf (answers sw) id "SetAsyncValue") (
            gated
              (async_bounds ((answers sw).min_switch_value id) ((answers sw).max_switch_value id) id
                value)
              (driver.set_async_value id value))))
        sw
  put_id p cancel_async id sw =
      gated (Gated.valid_switch_id f sprintf (answers sw) id)
        (gated (Gated.gate_switch_async f sprintf (answers sw) id "CancelAsync")
          (driver.cancel_async id))
        sw

  unfoldable pub put_case : Params → Member → Device → Device × Error
  unfolding put_id
  put_case p member sw = with_arg (req_int f lib p "Id") (λ id. put_id p member id) sw

  unfoldable pub switch_put : String → Params → Device → Device × Outcome
  switch_put member p sw = dispatch put_cases (put_case p) member sw
