-- ===== src/Server/Transaction.antt =====
-- server/transaction.go: the parameters of a request, and the envelopes of the answers. A map is an
-- association list whose first entry for a key counts.
pub mod Lookup
use Prim.Native.String.{◌++◌}
use text.Mathlib.Text.{◌==◌}
use goalpaca.Prelude.{
  ℕ, ◌+◌, ◌%◌, ◌^◌, String, List, [], ◌∷◌, Bool, true, false, ◌&&◌, if◌then◌else◌, Option, none,
  some, ℤ, pos,
}
use goalpaca.Float.{Float64}
use goalpaca.Alpaca.Errors.{GoError, Error, bad_request, as_bad_request, error_number_for}

-- strings.ToLower, strconv.Atoi, strconv.ParseFloat(s, 64) and strconv.ParseUint(s, 10, 32), where
-- none is an error, and whether time.Parse(layout, s) succeeds.
pub record Library (f : Float64) : Type 0 where
  pub to_lower : String → String
  pub atoi : String → Option ℤ
  pub parse_float : String → Option f.F
  pub parse_uint32 : String → Option ℕ
  pub parses_time : String → String → Bool

-- The value of a request, or the error of a parameter.
pub data Got {ℓ} (A : Type ℓ) : Type ℓ where
  got : A → Got A
  refused : GoError → Got A

pub record Params : Type 0 where
  pub vals : List (String × String)
  pub lower : List (String × String)
  pub strict : Bool
  pub client_id : ℕ
  pub client_transaction_id : ℕ

-- The counter of the server, a uint32.
unfoldable pub next_tx : ℕ → ℕ
next_tx n = (n + 1) % 2 ^ 32

unfoldable pub find {ℓ} : {A : Type ℓ} → String → List (String × A) → Option A
find key [] = none
find key ((k, v) ∷ entries) = let rest = find key entries in if k == key then some v else rest

unfoldable pub missing_param : String → GoError
missing_param name = bad_request ("missing or empty required parameter: " ++ name)

unfoldable pub bad_param : String → String → GoError
bad_param name val = bad_request ("invalid value for parameter " ++ (name ++ (": " ++ val)))

-- A form, in the order in which the loop meets its keys.
abbrev pub Form : Type 0
Form = List (String × List String)

module _ (f : Float64) (lib : Library f) where
  open f use {F}
  open lib use {to_lower, atoi, parse_float, parse_uint32}

  -- The loop over r.Form.
  unfoldable pub collect : Form → Params → Params
  collect [] p = p
  collect ((k, []) ∷ form) p = collect form p
  collect ((k, v ∷ vs) ∷ form) p =
      collect form (record p { vals = (k, v) ∷ p.vals; lower = (to_lower k, v) ∷ p.lower })

  unfoldable pub id_of : Option String → ℕ
  id_of none = 0
  id_of (some v) = elim (parse_uint32 v) [ none ↦ 0 | some n ↦ n ]

  unfoldable pub parse_params : Bool → Bool → Form → Params
  unfolding collect id_of find
  parse_params is_put strict form =
      let p = collect form (record {
        vals = [];
        lower = [];
        strict = strict && is_put;
        client_id = 0;
        client_transaction_id = 0;
      }) in
      record p {
        client_id = id_of (find "clientid" p.lower);
        client_transaction_id = id_of (find "clienttransactionid" p.lower);
      }

  unfoldable pub get : Params → String → Option String
  unfolding find
  get p name = if p.strict then find name p.vals else find (to_lower name) p.lower

  -- What the four req functions share.
  unfoldable pub required {ℓ} : {A : Type ℓ} → (String → Option A) → Params → String → Got A
  unfolding missing_param bad_param
  required parse p name = elim (get p name) [
    | none ↦ refused (missing_param name)
    | some v ↦ elim (parse v) [ none ↦ refused (bad_param name v) | some a ↦ got a ]
  ]

  unfoldable pub req_int : Params → String → Got ℤ
  req_int p name = required atoi p name

  unfoldable pub req_float : Params → String → Got F
  req_float p name = required parse_float p name

  unfoldable pub parse_bool : String → Option Bool
  parse_bool v =
      if to_lower v == "true" then some true else if to_lower v == "false" then some false else none

  unfoldable pub req_bool : Params → String → Got Bool
  unfolding parse_bool
  req_bool p name = required parse_bool p name

  unfoldable pub req_string : Params → String → Got String
  req_string p name = required (λ v. some v) p name

-- What is written to the client: an http.Error with its status, or an envelope of the client's
-- transaction, the server's, and the error; a value stands in an envelope without an error.
pub data Response {ℓ} (V : Type ℓ) : Type ℓ where
  http_error : ℕ → String → Response V
  value_envelope : V → ℕ → ℕ → Response V
  method_envelope : ℕ → ℕ → ℤ → String → Response V

abbrev pub status_bad_request : ℕ
status_bad_request = 400

module _ {ℓ} {V : Type ℓ} where
  unfoldable pub write_bad_request : Error → Option (Response V)
  write_bad_request none = none
  write_bad_request (some err) = elim (as_bad_request err) [
    | none ↦ none
    | some msg ↦ some (http_error status_bad_request msg)
  ]

  unfoldable pub in_band : Error → ℕ → ℕ → Response V
  in_band err client_tx server_tx =
      let (num, msg) = error_number_for err in method_envelope client_tx server_tx num msg

  unfoldable pub write_method : Error → ℕ → ℕ → Response V
  unfolding write_bad_request in_band
  write_method err client_tx server_tx = elim (write_bad_request err) [
    | some r ↦ r
    | none ↦ in_band err client_tx server_tx
  ]

  unfoldable pub write_value : V → Error → ℕ → ℕ → Response V
  unfolding write_bad_request in_band
  write_value value err client_tx server_tx = elim (write_bad_request err) [
    | some r ↦ r
    | none ↦ elim err [
      | none ↦ value_envelope value client_tx server_tx
      | some e ↦ in_band (some e) client_tx server_tx
    ]
  ]
