-- ===== src/Server/Http.antt =====
-- server/httpserver.go and server/device_http.go: what happens to a request for a device before and
-- after its type's own handler.
pub mod Gating
use Prim.Native.String.{◌++◌}
use text.Mathlib.Text.{◌==◌ as str_eq}
use goalpaca.Prelude.{
  ℕ, ◌==◌, String, List, [], ◌∷◌, Bool, true, false, not, ◌&&◌, ◌||◌, if◌then◌else◌, Option, none,
  some, ℤ, pos, eqb_ℤ,
}
use goalpaca.Float.{Float64}
use goalpaca.Alpaca.Errors.{GoError, Error, alpaca, err_num_not_connected, err_invalid_operation}
use goalpaca.Server.Gates.{Answer}
use goalpaca.Server.Transaction.{
  Library, Params, Form, Got, got, refused, Response, http_error, status_bad_request, next_tx,
  parse_params, get, req_bool, write_method, write_value,
}
use goalpaca.Server.Handlers.{Outcome, unhandled, handled, with_arg}

abbrev pub err_not_connected : GoError
err_not_connected = alpaca (record { number = err_num_not_connected; message = "Not connected" })

abbrev pub status_method_not_allowed : ℕ
status_method_not_allowed = 405

-- What a response's Value holds; a value of a device type's own is special.
pub data Value (A : Type 0) : Type 0 where
  nothing : Value A
  text_value : String → Value A
  flag_value : Bool → Value A
  special : A → Value A

-- The devices of a server, as one driver: its common methods, its type's tables, and the transport
-- of a camera's image. Busy answers none where a device is not Busyable.
pub record Driver (A : Type 0) : Type 1 where
  pub Device : Type 0
  pub connected : Device → Bool
  pub busy : Device → Option Bool
  pub connect : Device → Device × Error
  pub disconnect : Device → Device × Error
  pub command_blind : String → Bool → Device → Device × Error
  pub command_string : String → Bool → Device → Device × Answer String
  pub command_bool : String → Bool → Device → Device × Answer Bool
  pub action : String → String → Device → Device × Answer String
  -- deviceGet and devicestate, typeGet, and handleImage of a camera; none where not handled.
  pub common_get : String → Device → Option (Device × Answer (Value A))
  pub type_get : String → Params → Device → Option (Device × Answer (Value A))
  pub image : String → Device → Option (Device × Response (Value A))
  -- typePut
  pub type_put : String → Params → Device → Device × Outcome

pub data Method : Type 0 where
  get_method put_method other_method : Method

abbrev pub is_put : Method → Bool
is_put get_method = false
is_put put_method = true
is_put other_method = false

abbrev pub connection_exempt_members : List String
connection_exempt_members =
    "connected" ∷ "connect" ∷ "disconnect" ∷ "connecting" ∷ "name" ∷ "description" ∷ "driverinfo"
    ∷ "driverversion" ∷ "interfaceversion" ∷ "supportedactions" ∷ []

abbrev pub interrupt_members : List String
interrupt_members =
    "abortexposure" ∷ "stopexposure" ∷ "halt" ∷ "abortslew" ∷ "moveaxis" ∷ "haltcover"
    ∷ "calibratoroff" ∷ "cancelasync" ∷ []

abbrev pub passthrough_members : List String
passthrough_members = "commandstring" ∷ "commandbool" ∷ "commandblind" ∷ "action" ∷ []

-- A lookup in one of the three sets.
unfoldable pub is_member : List String → String → Bool
is_member [] s = false
is_member (m ∷ members) s = let rest = is_member members s in str_eq m s || rest

-- `v, _ := p.get(name)` and `b, _ := p.reqBool(name)`: a value that is not there is the zero value.
abbrev pub text_or_empty : Option String → String
text_or_empty none = ""
text_or_empty (some s) = s

abbrev pub flag_or_false : Got Bool → Bool
flag_or_false (got b) = b
flag_or_false (refused err) = false

-- The equality of two keys of the registry.
unfoldable pub same_key : String → ℤ → String → ℤ → Bool
same_key t n typ num = str_eq t typ && eqb_ℤ n num

module _ {A : Type 0} (f : Float64) (lib : Library f) (driver : Driver A) where
  open driver use {Device}

  unfoldable pub raw_of : Params → Bool
  raw_of p = flag_or_false (req_bool f lib p "Raw")

  unfoldable pub text_of : Params → String → String
  text_of p name = text_or_empty (get f lib p name)

  unfoldable pub text_answer : Device × Answer String → Device × Answer (Value A)
  text_answer (d, (v, err)) = (d, (text_value v, err))

  unfoldable pub flag_answer : Device × Answer Bool → Device × Answer (Value A)
  flag_answer (d, (v, err)) = (d, (flag_value v, err))

  unfoldable pub device_put_value : String → Params → Device → Option (Device × Answer (Value A))
  unfolding text_answer flag_answer text_of raw_of
  device_put_value member p d =
      if str_eq member "action"
      then some (text_answer (driver.action (text_of p "Action") (text_of p "Parameters") d))
      else if str_eq member "commandstring"
      then some (text_answer (driver.command_string (text_of p "Command") (raw_of p) d))
      else if str_eq member "commandbool"
      then some (flag_answer (driver.command_bool (text_of p "Command") (raw_of p) d))
      else none

  unfoldable pub set_connected : Bool → Device → Device × Error
  set_connected true d = driver.connect d
  set_connected false d = driver.disconnect d

  unfoldable pub device_put : String → Params → Device → Option (Device × Error)
  unfolding set_connected with_arg text_of raw_of
  device_put member p d =
      if str_eq member "connected"
      then some (with_arg (req_bool f lib p "Connected") set_connected d)
      else if str_eq member "connect"
      then some (driver.connect d)
      else if str_eq member "disconnect"
      then some (driver.disconnect d)
      else if str_eq member "commandblind"
      then some (driver.command_blind (text_of p "Command") (raw_of p) d)
      else none

  unfoldable pub unknown_member : String → Response (Value A)
  unknown_member member = http_error status_bad_request ("unknown member: " ++ member)

  -- The gate on the connection, of GET and PUT.
  unfoldable pub is_unconnected : String → Device → Bool
  is_unconnected member d =
      not (is_member connection_exempt_members member) && not (driver.connected d)

  -- The gate on a busy device, of PUT.
  unfoldable pub is_refused_busy : String → Device → Bool
  is_refused_busy member d =
      not (is_member connection_exempt_members member)
      && not (is_member interrupt_members member)
      && not (is_member passthrough_members member)
      && elim (driver.busy d) [ none ↦ false | some b ↦ b ]

  -- typePut, after the common members.
  unfoldable pub put_typed : String → Params → ℕ → Device → Device × Response (Value A)
  unfolding unknown_member write_method
  put_typed member p server_tx d =
      let (d', outcome) = driver.type_put member p d in
      elim outcome [
        | unhandled ↦ (d', unknown_member member)
        | handled err ↦ (d', write_method err p.client_transaction_id server_tx)
      ]

  -- The tables in their order.
  unfoldable pub put_member : String → Params → ℕ → Device → Device × Response (Value A)
  unfolding device_put_value device_put put_typed write_method write_value
  put_member member p server_tx d = elim (device_put_value member p d) [
    | some (d', (v, err)) ↦ (d', write_value v err p.client_transaction_id server_tx)
    | none ↦ elim (device_put member p d) [
      | some (d', err) ↦ (d', write_method err p.client_transaction_id server_tx)
      | none ↦ put_typed member p server_tx d
    ]
  ]

  unfoldable pub handle_put : String → Params → ℕ → Device → Device × Response (Value A)
  unfolding is_unconnected is_refused_busy put_member write_method
  handle_put member p server_tx d =
      if is_unconnected member d
      then (d, write_method (some err_not_connected) p.client_transaction_id server_tx)
      else if is_refused_busy member d
      then (d, write_method (some err_invalid_operation) p.client_transaction_id server_tx)
      else put_member member p server_tx d

  -- The tables of GET in their order.
  unfoldable pub get_member : String → Params → ℕ → Device → Device × Response (Value A)
  unfolding unknown_member write_value
  get_member member p server_tx d = elim (driver.image member d) [
    | some r ↦ r
    | none ↦ elim (driver.common_get member d) [
      | some (d', (v, err)) ↦ (d', write_value v err p.client_transaction_id server_tx)
      | none ↦ elim (driver.type_get member p d) [
        | some (d', (v, err)) ↦ (d', write_value v err p.client_transaction_id server_tx)
        | none ↦ (d, unknown_member member)
      ]
    ]
  ]

  unfoldable pub handle_get : String → Params → ℕ → Device → Device × Response (Value A)
  unfolding is_unconnected get_member write_value
  handle_get member p server_tx d =
      if is_unconnected member d
      then (d, write_value nothing (some err_not_connected) p.client_transaction_id server_tx)
      else get_member member p server_tx d

  -- The registered device of a type and a number.
  unfoldable pub lookup : String → ℤ → List (String × ℤ × ℕ) → Option ℕ
  lookup typ num [] = none
  lookup typ num ((t, n, ref) ∷ devices) =
      let rest = lookup typ num devices in if same_key t n typ num then some ref else rest

  -- The registry holds references to devices, which may be registered under several keys, and the
  -- heap has the state of each.
  pub record Server : Type 0 where
    pub tx : ℕ
    pub devices : List (String × ℤ × ℕ)
    pub heap : ℕ → Device

  -- The methods of the device behind a reference change its state, and no other.
  unfoldable pub assign : ℕ → Device → (ℕ → Device) → ℕ → Device
  assign ref d heap r = if ref == r then d else heap r

  unfoldable pub by_method : Method → String → Params → ℕ → Device → Device × Response (Value A)
  unfolding handle_get handle_put
  by_method get_method member p server_tx d = handle_get member p server_tx d
  by_method put_method member p server_tx d = handle_put member p server_tx d
  by_method other_method member p server_tx d =
      (d, http_error status_method_not_allowed "method not allowed")

  -- A request for the device: its parameters, and the next server transaction.
  unfoldable pub serve_device :
      Bool → Method → String → Form → Server → ℕ → Server × Response (Value A)
  unfolding by_method assign next_tx parse_params
  serve_device strict method member form s ref =
      let p = parse_params f lib (is_put method) strict form in
      let server_tx = next_tx s.tx in
      let (d, response) = by_method method member p server_tx (s.heap ref) in
      (record s { tx = server_tx; heap = assign ref d s.heap }, response)

  -- The parts of the path after /api/v1/, and Config.StrictParamCasing.
  unfoldable pub handle_device_api :
      Bool → Method → List String → Form → Server → Server × Response (Value A)
  unfolding lookup serve_device
  handle_device_api strict method (typ ∷ number ∷ name ∷ []) form s = elim (lib.atoi number) [
    | none ↦ (s, http_error status_bad_request "bad device number")
    | some num ↦ elim (lookup typ num s.devices) [
      | none ↦ (s, http_error status_bad_request "no such device")
      | some ref ↦ serve_device strict method (lib.to_lower name) form s ref
    ]
  ]
  handle_device_api strict method parts form s =
      (s, http_error status_bad_request "bad device API path")
