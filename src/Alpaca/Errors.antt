-- ===== src/Alpaca/Errors.antt =====
-- alpaca/errors.go, and the error values of the server: the ASCOM numbers, the errors that carry
-- them, and the number and text that a response reports.
pub mod Numbers
pub mod Report
use goalpaca.Prelude.{
  ℤ, pos, String, Bool, true, false, Option, none, some, ◌||◌, ltb_ℤ, eqb_ℤ, if◌then◌else◌,
}

abbrev pub err_num_not_implemented : ℤ
err_num_not_implemented = pos 0x400

abbrev pub err_num_invalid_value : ℤ
err_num_invalid_value = pos 0x401

abbrev pub err_num_value_not_set : ℤ
err_num_value_not_set = pos 0x402

abbrev pub err_num_not_connected : ℤ
err_num_not_connected = pos 0x407

abbrev pub err_num_parked : ℤ
err_num_parked = pos 0x408

abbrev pub err_num_slaved : ℤ
err_num_slaved = pos 0x409

abbrev pub err_num_settings_provider_error : ℤ
err_num_settings_provider_error = pos 0x40a

abbrev pub err_num_invalid_operation : ℤ
err_num_invalid_operation = pos 0x40b

abbrev pub err_num_action_not_implemented : ℤ
err_num_action_not_implemented = pos 0x40c

abbrev pub err_num_operation_cancelled : ℤ
err_num_operation_cancelled = pos 0x40e

abbrev pub err_num_unspecified : ℤ
err_num_unspecified = pos 0x4ff

abbrev pub err_num_driver_base : ℤ
err_num_driver_base = pos 0x500

abbrev pub err_num_driver_max : ℤ
err_num_driver_max = pos 0xfff

pub record AlpacaError : Type 0 where
  pub number : ℤ
  pub message : String

-- The error values that the packages make: an AlpacaError, a badRequestError, an error with a text
-- alone, and fmt.Errorf with %w around another.
pub data GoError : Type 0 where
  alpaca : AlpacaError → GoError
  bad_request : String → GoError
  plain : String → GoError
  wrapped : String → GoError → GoError

-- Go's `error`: nil is none.
abbrev pub Error : Type 0
Error = Option GoError

unfoldable pub is_reserved_number : ℤ → Bool
is_reserved_number n =
    eqb_ℤ n err_num_not_implemented
    || eqb_ℤ n err_num_invalid_value
    || eqb_ℤ n err_num_value_not_set
    || eqb_ℤ n err_num_not_connected
    || eqb_ℤ n err_num_parked
    || eqb_ℤ n err_num_slaved
    || eqb_ℤ n err_num_settings_provider_error
    || eqb_ℤ n err_num_invalid_operation
    || eqb_ℤ n err_num_action_not_implemented
    || eqb_ℤ n err_num_operation_cancelled
    || eqb_ℤ n err_num_unspecified

unfoldable pub new_error : ℤ → String → AlpacaError
unfolding is_reserved_number
new_error number message = record {
  number =
      if ltb_ℤ number err_num_driver_base || ltb_ℤ err_num_driver_max number
      then (if is_reserved_number number then number else err_num_driver_base)
      else number;
  message = message;
}

-- The text of an error: its Error method.
unfoldable pub error_text : GoError → String
error_text (alpaca e) = e.message
error_text (bad_request msg) = msg
error_text (plain msg) = msg
error_text (wrapped msg inner) = msg

-- errors.As with a *AlpacaError: the first in the chain of wrapped errors.
unfoldable pub as_alpaca : GoError → Option AlpacaError
as_alpaca (alpaca e) = some e
as_alpaca (bad_request msg) = none
as_alpaca (plain msg) = none
as_alpaca (wrapped msg inner) = as_alpaca inner

-- errors.As with a *badRequestError.
unfoldable pub as_bad_request : GoError → Option String
as_bad_request (alpaca e) = none
as_bad_request (bad_request msg) = some msg
as_bad_request (plain msg) = none
as_bad_request (wrapped msg inner) = as_bad_request inner

-- (*AlpacaError).Is
unfoldable pub alpaca_is : AlpacaError → GoError → Bool
unfolding as_alpaca
alpaca_is e target = elim (as_alpaca target) [ none ↦ false | some t ↦ eqb_ℤ e.number t.number ]

unfoldable pub number_and_text : GoError → Option AlpacaError → ℤ × String
unfolding error_text
number_and_text err (some e) = (e.number, e.message)
number_and_text err none = (err_num_unspecified, error_text err)

unfoldable pub error_number_for : Error → ℤ × String
unfolding number_and_text as_alpaca
error_number_for none = (pos 0, "")
error_number_for (some err) = number_and_text err (as_alpaca err)

-- The sentinel errors.
abbrev pub err_not_implemented : GoError
err_not_implemented =
    alpaca (record { number = err_num_not_implemented; message = "Not implemented" })

abbrev pub err_invalid_value : GoError
err_invalid_value = alpaca (record { number = err_num_invalid_value; message = "Invalid value" })

abbrev pub err_value_not_set : GoError
err_value_not_set = alpaca (record { number = err_num_value_not_set; message = "Value not set" })

abbrev pub err_invalid_operation : GoError
err_invalid_operation =
    alpaca (record { number = err_num_invalid_operation; message = "Invalid operation" })
