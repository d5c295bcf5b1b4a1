-- ===== src/Examples/Errors.antt =====
-- Errors that servers and drivers make.
use goalpaca.Prelude.{pos, ◌≡◌, ◌≢◌, arith, none, some}
use goalpaca.Alpaca.Errors.{
  alpaca, plain, wrapped, error_number_for, as_alpaca, err_num_unspecified,
}
use goalpaca.Alpaca.Errors.Report.{
  by_alpaca, by_wrapped, error_number_for_lem, error_number_for-wrapped,
}

error_number_for_lem_example :
    (error_number_for none ≡ (pos 0, ""))
    × ((error_number_for
          (some (wrapped "slew" (alpaca (record { number = pos 0x408; message = "parked" }))))).0
        ≢ pos 0)
error_number_for_lem_example =
    error_number_for_lem
      (wrapped "slew" (alpaca (record { number = pos 0x408; message = "parked" })))
      (by_wrapped "slew"
        (by_alpaca (record { number = pos 0x408; message = "parked" }) (λ e. ground arith)))

error_number_for-wrapped_example :
    ((as_alpaca (plain "eof") ≢ none)
      → error_number_for (some (wrapped "read" (plain "eof")))
        ≡ error_number_for (some (plain "eof")))
    × (as_alpaca (plain "eof") ≡ none
        → error_number_for (some (wrapped "read" (plain "eof"))) ≡ (err_num_unspecified, "read"))
error_number_for-wrapped_example = error_number_for-wrapped "read" (plain "eof")
