-- ===== src/Examples/Requests.antt =====
-- Requests, and the calls of an operation.
use goalpaca.Prelude.{
  String, ◌==◌, ℕ, ◌+◌, ◌≤◌, pos, ◌≡◌, ◌≢◌, ◌↔◌, inl, refl, Bool, true, false, [], ◌∷◌, none, some,
  if◌then◌else◌,
}
use goalpaca.Float.Exact.{exact, num}
use goalpaca.Alpaca.Errors.{err_invalid_operation}
use goalpaca.Server.Transaction.{Library, Params, Form, parse_params, get}
use goalpaca.Server.Transaction.Lookup.{get-parse_params}
use goalpaca.Server.Handlers.{unhandled}
use goalpaca.Server.Http.{Driver, Server, put_method}
use goalpaca.Server.Http.Gating.{Request}
use goalpaca.Server.Op.{new_op, op_failed, begin, fail, busy}
use goalpaca.Server.Op.Exclusive.{try, finish, run, try_begin-exclusive}
use goalpaca.Server.Op.Lifecycle.{here, next, begins, fails, Reach-err}

-- A library that reads every number as 5.
abbrev pub five_library : Library exact
five_library = record {
  to_lower = λ s. s;
  atoi = λ s. some (pos 5);
  parse_float = λ s. some (num (pos 5));
  parse_uint32 = λ s. some 5;
  parses_time = λ layout s. true;
}

abbrev pub no_params : Params
no_params = record {
  vals = ("Tracking", "true") ∷ [];
  lower = ("Tracking", "true") ∷ [];
  strict = false;
  client_id = 0;
  client_transaction_id = 0;
}

abbrev form : Form
form = ("Duration", "5" ∷ []) ∷ ("Light", []) ∷ ("ClientID", "5" ∷ []) ∷ []

get-parse_params_example :
    get exact five_library (parse_params exact five_library true true form) "Duration" ≡ some "5"
get-parse_params_example =
    get-parse_params exact five_library true true form "Duration" "5" (inl (refl, refl))
      ((λ e. refl), ((λ e. refl), tt))

-- Devices that are connected or not, and all busy.
abbrev busy_driver : Driver ℕ
busy_driver = record {
  Device = Bool;
  connected = λ d. d;
  busy = λ d. some true;
  connect = λ d. (true, none);
  disconnect = λ d. (false, none);
  command_blind = λ cmd raw d. (d, none);
  command_string = λ cmd raw d. (d, ("", none));
  command_bool = λ cmd raw d. (d, (false, none));
  action = λ name args d. (d, ("", none));
  common_get = λ member d. none;
  type_get = λ member p d. none;
  image = λ member d. none;
  type_put = λ member p d. (false, unhandled);
}

abbrev two_devices : Server exact five_library busy_driver
two_devices = record {
  tx = 41;
  devices = ("camera", pos 5, 0) ∷ ("dome", pos 5, 1) ∷ [];
  heap = λ r. r == 0;
}

abbrev put_request : String → Request exact five_library busy_driver
put_request name = record {
  strict = false;
  method = put_method;
  typ = "camera";
  number = "5";
  name = name;
  form = form;
}

try_begin-exclusive_example :
    let t = run (try ∷ try ∷ finish ∷ try ∷ []) (record { op = new_op; granted = 0; ended = 0 }) in
    (t.granted ≤ t.ended + 1) × (t.granted ≤ t.ended + (if busy t.op then 1 else 0))
unfolding busy new_op
try_begin-exclusive_example = try_begin-exclusive (try ∷ try ∷ finish ∷ try ∷ []) new_op refl

Reach-err_example :
    ((fail (some err_invalid_operation) (begin new_op)).err ≢ none)
    ↔ ((fail (some err_invalid_operation) (begin new_op)).state ≡ op_failed)
unfolding begin new_op
Reach-err_example =
    Reach-err (next (next here (begins new_op)) (fails (begin new_op) err_invalid_operation refl))
