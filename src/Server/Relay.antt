-- ===== src/Server/Relay.antt =====
-- server/discovery_relay.go: the endpoint that sends a discovery reply for a relayed probe, and the
-- token bucket that limits it. An answer has the status and the address that a reply is sent to.
pub mod Guarded
use text.Mathlib.Text.{◌==◌}
use goalpaca.Prelude.{
  ℕ, ◌-◌, String, Bool, true, false, not, ◌&&◌, ◌||◌, if◌then◌else◌, Option, none, some, ℤ, pos,
  ltb_ℤ,
}
use goalpaca.Alpaca.Errors.{Error}
use goalpaca.Float.{Float64}
use goalpaca.Server.Registrations.{Net}

-- DiscoveryMode of server/server.go.
pub data DiscoveryMode : Type 0 where
  discovery_off discovery_direct discovery_register : DiscoveryMode

abbrev pub is_register : DiscoveryMode → Bool
is_register discovery_off = false
is_register discovery_direct = false
is_register discovery_register = true

-- What the endpoint uses besides: the host of net.SplitHostPort, tests of addresses, the body of the
-- request as JSON, and sending the reply, with its error.
pub record Transport (net : Net) : Type 1 where
  pub split_host : String → Option String
  pub is_unspecified : net.Ip → Bool
  pub is_multicast : net.Ip → Bool
  pub ipv4_broadcast : net.Ip
  pub decode_target : String → Option (String × ℤ)
  pub send : net.Ip → ℤ → Error

module _ (f : Float64) where
  open f use {F, lt, add, sub, mul, of_int, seconds}

  -- The zero time is none.
  pub record RateGate : Type 0 where
    pub tokens : F
    pub last : Option ℕ

  unfoldable pub relay_burst : F
  relay_burst = of_int (pos 20)

  unfoldable pub relay_rate : F
  relay_rate = of_int (pos 5)

  unfoldable pub refill : ℕ → RateGate → F
  unfolding relay_burst relay_rate
  refill now g = elim g.last [
    | none ↦ relay_burst
    | some last ↦
        let tokens = add g.tokens (mul (seconds (now - last)) relay_rate) in
        if lt relay_burst tokens then relay_burst else tokens
  ]

  unfoldable pub take : ℕ → RateGate → RateGate × Bool
  unfolding refill
  take now g =
      let tokens = refill now g in
      let filled : RateGate = record { tokens = tokens; last = some now } in
      if lt tokens (of_int (pos 1))
      then (filled, false)
      else (record filled { tokens = sub tokens (of_int (pos 1)) }, true)

  module _ (net : Net) (transport : Transport net) where
    open net use {Ip}

    pub record Endpoint : Type 0 where
      pub mode : DiscoveryMode
      pub relay_peer : Option Ip
      pub relay_gate : RateGate

    pub record Answer : Type 0 where
      pub status : ℕ
      pub sends : Option (Ip × ℤ)

    abbrev pub refuse : ℕ → Answer
    refuse status = record { status = status; sends = none }

    unfoldable pub is_same_caller : Ip → Ip → Bool
    is_same_caller peer caller =
        if net.is_loopback peer && net.is_loopback caller then true else net.equal caller peer

    unfoldable pub relay_caller_allowed : Option Ip → String → Bool
    unfolding is_same_caller
    relay_caller_allowed none remote_addr = false
    relay_caller_allowed (some peer) remote_addr = elim (transport.split_host remote_addr) [
      | none ↦ false
      | some host ↦ elim (net.parse_ip host) [
        | none ↦ false
        | some caller ↦ is_same_caller peer caller
      ]
    ]

    unfoldable pub is_unicast_target : Ip → Bool
    is_unicast_target ip =
        if transport.is_unspecified ip
          || transport.is_multicast ip
          || net.equal ip transport.ipv4_broadcast
        then false
        else true

    -- What is answered to the error of sendDiscoveryReply.
    unfoldable pub send_status : Error → ℕ
    send_status none = 204
    send_status (some err) = 502

    -- The rest of the handler, from the body on.
    unfoldable pub reply_to : Option (String × ℤ) → Answer
    unfolding send_status
    reply_to none = refuse 400
    reply_to (some (text, port)) = elim (net.parse_ip text) [
      | none ↦ refuse 400
      | some ip ↦
          if not (is_unicast_target ip) || ltb_ℤ port (pos 1) || ltb_ℤ (pos 65535) port
          then refuse 400
          else record { status = send_status (transport.send ip port); sends = some (ip, port) }
    ]

    unfoldable pub handle_discovery_reply :
        ℕ → String → String → String → Endpoint → Endpoint × Answer
    unfolding reply_to
    handle_discovery_reply now method remote_addr body s =
        let (gate, available) = take now s.relay_gate in
        let spent = record s { relay_gate = gate } in
        if not (is_register s.mode)
        then (s, refuse 404)
        else if not (method == "POST")
        then (s, refuse 405)
        else if not (relay_caller_allowed s.relay_peer remote_addr)
        then (s, refuse 403)
        else if not available
        then (spent, refuse 429)
        else (spent, reply_to (transport.decode_target body))
