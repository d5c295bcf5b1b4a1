-- ===== src/Alpaca/Errors/Report.antt =====
-- What a response reports of an error.
use goalpaca.Prelude.{pos, String, none, some, ◌≡◌, ◌≢◌, refl, inl, inr, arith, Option-cases}
use goalpaca.Alpaca.Errors.{
  AlpacaError, GoError, alpaca, bad_request, plain, wrapped, as_alpaca, error_text,
  error_number_for, err_num_unspecified,
}

-- The errors whose first AlpacaError, where there is one, carries a number other than 0.
pub data IsNumbered : GoError → Type 0 where
  by_alpaca : (e : AlpacaError) → e.number ≢ pos 0 → IsNumbered (alpaca e)
  by_bad_request : (msg : String) → IsNumbered (bad_request msg)
  by_plain : (msg : String) → IsNumbered (plain msg)
  by_wrapped : (msg : String) {inner : GoError} → IsNumbered inner → IsNumbered (wrapped msg inner)

as_alpaca-number :
    (err : GoError) (e : AlpacaError) → IsNumbered err → as_alpaca err ≡ some e → e.number ≢ pos 0
unfolding as_alpaca
as_alpaca-number (alpaca x) e (by_alpaca _ h) eq = λ z. h (cc)
as_alpaca-number (bad_request msg) e h eq = cc
as_alpaca-number (plain msg) e h eq = cc
as_alpaca-number (wrapped msg inner) e (by_wrapped _ h) eq = as_alpaca-number inner e h eq

-- A response reports 0 and no text without an error, and a number other than 0 with one, unless a
-- driver built an AlpacaError numbered 0.
pub error_number_for_lem :
    (err : GoError)
    → IsNumbered err
    → (error_number_for none ≡ (pos 0, "")) × ((error_number_for (some err)).0 ≢ pos 0)
unfolding error_number_for
error_number_for_lem err h = (refl, at_number)
  where
    at_number : (error_number_for (some err)).0 ≢ pos 0
    at_number = elim (Option-cases (as_alpaca err)) [
      | inl e ↦ rw e (λ z. ground arith)
      | inr (x, e) ↦ rw e (as_alpaca-number err x h e)
    ]

-- Wrapping an error with %w keeps the number and the text of an AlpacaError within it, and gives
-- any other error the number 0x4ff and the text of the wrapping.
pub error_number_for-wrapped :
    (msg : String) (inner : GoError)
    → ((as_alpaca inner ≢ none)
        → error_number_for (some (wrapped msg inner)) ≡ error_number_for (some inner))
      × (as_alpaca inner ≡ none
          → error_number_for (some (wrapped msg inner)) ≡ (err_num_unspecified, msg))
unfolding error_number_for error_text
error_number_for-wrapped msg inner = (keeps, gives)
  where
    keeps :
        (as_alpaca inner ≢ none)
        → error_number_for (some (wrapped msg inner)) ≡ error_number_for (some inner)
    keeps h = elim (Option-cases (as_alpaca inner)) [ inl e ↦ absurd (h e) | inr (x, e) ↦ rw e ]

    gives :
        as_alpaca inner ≡ none
        → error_number_for (some (wrapped msg inner)) ≡ (err_num_unspecified, msg)
    gives e = rw e
