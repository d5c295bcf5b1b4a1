-- ===== src/Server/Gates.antt =====
-- server/gate.go: the refusals that the gates answer with, and the range checks they share.
pub mod Devices
pub mod Camera
pub mod Telescope
pub mod Ranges
pub mod Parked
pub mod Rates
pub mod Exposure
use Prim.Native.String.{◌++◌}
use goalpaca.Prelude.{
  String, ℤ, pos, Bool, true, false, Option, none, some, ◌||◌, if◌then◌else◌, List, [], ◌∷◌,
}
use goalpaca.Alpaca.Errors.{
  GoError, Error, alpaca, err_num_not_implemented, err_num_invalid_value, err_num_parked,
  err_num_invalid_operation,
}
use goalpaca.Float.{Float64}

-- An argument of fmt.Sprintf.
pub data Arg (f : Float64) : Type 0 where
  int : ℤ → Arg f
  float : f.F → Arg f
  text : String → Arg f

-- fmt.Sprintf
abbrev pub Sprintf : Float64 → Type 0
Sprintf f = String → List (Arg f) → String

-- The two values of a Go method that may fail.
abbrev pub Answer : Type 0 → Type 0
Answer A = A × Error

-- `if err := first; err != nil { return err }` before the rest.
abbrev pub check_first : Error → Error → Error
check_first (some err) rest = some err
check_first none rest = rest

unfoldable pub not_impl_err : String → Error
not_impl_err member = some (
    alpaca (record { number = err_num_not_implemented; message = member ++ " is not implemented" }))

unfoldable pub parked_err : String → Error
parked_err member = some (
    alpaca (record {
      number = err_num_parked;
      message = member ++ " is not valid while the mount is parked";
    }))

unfoldable pub invalid_op_err : String → Error
invalid_op_err message =
    some (alpaca (record { number = err_num_invalid_operation; message = message }))

module _ (f : Float64) (sprintf : Sprintf f) where
  open f use {F, lt, of_int}

  unfoldable pub invalid_valuef : String → List (Arg f) → Error
  invalid_valuef format a =
      some (alpaca (record { number = err_num_invalid_value; message = sprintf format a }))

  unfoldable pub invalid_range : String → F → F → F → Error
  invalid_range name v lo hi =
      if lt v lo || lt hi v
      then invalid_valuef "%s %g is outside the valid range %g to %g"
          (text name ∷ float v ∷ float lo ∷ float hi ∷ [])
      else none

  unfoldable pub non_negative : String → F → Error
  non_negative member v =
      if lt v (of_int (pos 0))
      then invalid_valuef "%s %g is negative" (text member ∷ float v ∷ [])
      else none
