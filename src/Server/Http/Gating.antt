-- ===== src/Server/Http/Gating.antt =====
-- Which requests reach a device, and which device they reach.
use goalpaca.Prelude.{
  ℕ, if◌then◌else◌, String, List, [], ◌∷◌, Bool, true, false, ◌≡◌, ◌⊎◌, some, ℤ, pos,
}
use goalpaca.Float.{Float64}
use goalpaca.Server.Transaction.{Library, Form, Response, http_error, method_envelope}
use goalpaca.Server.Http.{
  Driver, Value, Method, get_method, put_method, other_method, Server, lookup, handle_device_api,
  is_member, connection_exempt_members, interrupt_members, passthrough_members,
}

module _ {A : Type 0} (f : Float64) (lib : Library f) (driver : Driver A) where
  open driver use {Device}

  pub record Request : Type 0 where
    pub strict : Bool
    pub method : Method
    pub typ : String
    pub number : String
    pub name : String
    pub form : Form

  unfoldable pub handle : Request → Server f lib driver → Server f lib driver × Response (Value A)
  unfolding handle_device_api
  handle q s =
      handle_device_api f lib driver q.strict q.method (q.typ ∷ q.number ∷ q.name ∷ []) q.form s

  -- The requests of the clients, one after the other.
  unfoldable pub serve_all : List Request → Server f lib driver → Server f lib driver
  unfolding handle
  serve_all [] s = s
  serve_all (q ∷ requests) s = serve_all requests (handle q s).0

  -- The path names the device behind the reference.
  abbrev pub IsFor : Server f lib driver → ℕ → Request → Type 0
  IsFor s ref q =
      (num : ℤ) × (lib.atoi q.number ≡ some num)
      × (lookup f lib driver q.typ num s.devices ≡ some ref)

  -- A request that the server holds back from a device: outside the members that need no connection
  -- while the device is not connected, or, as a PUT, outside the members that may reach a busy device
  -- while the device is busy.
  abbrev pub IsBarred : Method → String → Device → Type 0
  IsBarred method member d =
      (is_member connection_exempt_members member ≡ false)
      × ((driver.connected d ≡ false)
          ⊎ ((method ≡ put_method)
              × (driver.busy d ≡ some true)
              × (is_member interrupt_members member ≡ false)
              × (is_member passthrough_members member ≡ false)))

  -- What a request that is held back is answered with: NotConnected for a device that is not
  -- connected, InvalidOperation for one that is connected and busy, each in an envelope of the two
  -- transactions, and 405 for a method that is neither GET nor PUT.
  abbrev pub refusal : Method → Device → ℕ → ℕ → Response (Value A)
  refusal other_method d client_tx server_tx = http_error 405 "method not allowed"
  refusal get_method d client_tx server_tx =
      method_envelope client_tx server_tx (pos 0x407) "Not connected"
  refusal put_method d client_tx server_tx =
      if driver.connected d
      then method_envelope client_tx server_tx (pos 0x40b) "Invalid operation"
      else method_envelope client_tx server_tx (pos 0x407) "Not connected"

  -- A request is held back from the device, where its path names it.
  abbrev pub IsBarredFrom : Server f lib driver → ℕ → Request → Type 0
  IsBarredFrom s ref q = IsFor s ref q → IsBarred q.method (lib.to_lower q.name) (s.heap ref)

  abbrev pub AllBarredFrom : Server f lib driver → ℕ → List Request → Type 0
  AllBarredFrom s ref [] = Unit
  AllBarredFrom s ref (q ∷ requests) = IsBarredFrom s ref q × AllBarredFrom s ref requests
