-- ===== src/Server/Relay/Guarded.antt =====
-- When the relay endpoint sends a datagram.
use text.Mathlib.Text.{◌==◌}
use goalpaca.Prelude.{
  ◌⊎◌, inl, inr, ℕ, ◌-◌, if◌then◌else◌, arith, ◌≡◌, refl, sym, ◌∙◌, ap, String, Bool, true, false,
  not, Bool-cases, Option-cases, ◌||◌, Option, none, some, ℤ, pos, ◌≤ℤ◌, ltb_ℤ,
}
use goalpaca.Float.{Float64}
use goalpaca.Server.Registrations.{Net}
use goalpaca.Server.Relay.{
  Transport, DiscoveryMode, discovery_register, discovery_off, discovery_direct, is_register,
  RateGate, take, refill, relay_burst, relay_rate, Endpoint, is_same_caller, relay_caller_allowed,
  is_unicast_target, reply_to, handle_discovery_reply,
}

false-true : false ≡ true → ⊥
false-true e = ground arith

none-some : {A : Type 0} {a : A} → none ≡ some a → ⊥
none-some e = ground arith

same_pair :
    {A B : Type 0} {a c : A} {b d : B}
    → ◌≡◌ {A = Option (A × B)} (some (a, b)) (some (c, d))
    → (a ≡ c) × (b ≡ d)
same_pair e = ground arith

true_of : (b : Bool) → not b ≡ false → b ≡ true
true_of b h = ground arith

register_mode : (m : DiscoveryMode) → not (is_register m) ≡ false → m ≡ discovery_register
register_mode discovery_off h = ground arith
register_mode discovery_direct h = ground arith
register_mode discovery_register h = refl

port_of :
    (b : Bool) (port : ℤ)
    → (not b || ltb_ℤ port (pos 1) || ltb_ℤ (pos 65535) port) ≡ false
    → (b ≡ true) × (pos 1 ≤ℤ port) × (port ≤ℤ pos 65535)
port_of b port h = ground arith

module _ (f : Float64) (net : Net) (transport : Transport net) where
  open net use {Ip}

  -- The request comes from the registered server, or both are on this host.
  abbrev pub IsFromPeer : Endpoint f net transport → String → Type 0
  IsFromPeer s remote_addr =
      (peer : Ip) × (host : String) × (caller : Ip) × (s.relay_peer ≡ some peer)
      × (transport.split_host remote_addr ≡ some host)
      × (net.parse_ip host ≡ some caller)
      × (((net.is_loopback peer ≡ true) × (net.is_loopback caller ≡ true))
          ⊎ (net.equal caller peer ≡ true))

  -- Neither the unspecified address, nor a multicast one, nor the broadcast address.
  abbrev pub IsUnicast : Ip → Type 0
  IsUnicast ip =
      (transport.is_unspecified ip ≡ false)
      × (transport.is_multicast ip ≡ false)
      × (net.equal ip transport.ipv4_broadcast ≡ false)

  -- The tokens at a time: 20 at first, then 5 more for each second since the last request, up to 20.
  abbrev pub tokens_at : ℕ → RateGate f → f.F
  tokens_at now g = elim g.last [
    | none ↦ f.of_int (pos 20)
    | some last ↦
        let more = f.add g.tokens (f.mul (f.seconds (now - last)) (f.of_int (pos 5))) in
        if f.lt (f.of_int (pos 20)) more then f.of_int (pos 20) else more
  ]

  -- The first bucket had no less than one token at the time, and the second has one less.
  abbrev pub IsSpent : ℕ → RateGate f → RateGate f → Type 0
  IsSpent now g g' =
      (f.lt (tokens_at now g) (f.of_int (pos 1)) ≡ false)
      × (g'.tokens ≡ f.sub (tokens_at now g) (f.of_int (pos 1)))
      × (g'.last ≡ some now)

  take-IsSpent :
      (now : ℕ) (g : RateGate f) → (take f now g).1 ≡ true → IsSpent now g (take f now g).0
  unfolding take refill relay_burst relay_rate
  take-IsSpent now g h = elim (Bool-cases (f.lt (tokens_at now g) (f.of_int (pos 1)))) [
    | inl low ↦ absurd (false-true (rw (take, low) at h))
    | inr enough ↦ (enough, rw (take, enough) refl, rw (take, enough) refl)
  ]

  is_unicast_target-IsUnicast :
      (ip : Ip) → is_unicast_target f net transport ip ≡ true → IsUnicast ip
  unfolding is_unicast_target
  is_unicast_target-IsUnicast ip h = ground arith

  same_caller-cases :
      (peer caller : Ip)
      → is_same_caller f net transport peer caller ≡ true
      → ((net.is_loopback peer ≡ true) × (net.is_loopback caller ≡ true))
        ⊎ (net.equal caller peer ≡ true)
  unfolding is_same_caller
  same_caller-cases peer caller h = ground arith

  allowed-IsFromPeer :
      (s : Endpoint f net transport) (remote_addr : String)
      → relay_caller_allowed f net transport s.relay_peer remote_addr ≡ true
      → IsFromPeer s remote_addr
  unfolding relay_caller_allowed
  allowed-IsFromPeer s remote_addr h = elim (Option-cases s.relay_peer) [
    | inl e ↦ absurd (false-true (rw (relay_caller_allowed, e) at h))
    | inr (peer, e) ↦ elim (Option-cases (transport.split_host remote_addr)) [
      | inl e' ↦ absurd (false-true (rw (relay_caller_allowed, e, e') at h))
      | inr (host, e') ↦ elim (Option-cases (net.parse_ip host)) [
        | inl e'' ↦ absurd (false-true (rw (relay_caller_allowed, e, e', e'') at h))
        | inr (caller, e'') ↦ (
          peer,
          host,
          caller,
          e,
          e',
          e'',
          same_caller-cases peer caller (rw (relay_caller_allowed, e, e', e'') at h),
        )
      ]
    ]
  ]

  reply_to-target :
      (body : Option (String × ℤ)) (ip : Ip) (port : ℤ)
      → (reply_to f net transport body).sends ≡ some (ip, port)
      → (is_unicast_target f net transport ip ≡ true) × (pos 1 ≤ℤ port) × (port ≤ℤ pos 65535)
  unfolding reply_to
  reply_to-target none ip port h = absurd (none-some h)
  reply_to-target (some (text, n)) ip port h = elim (Option-cases (net.parse_ip text)) [
    | inl e ↦ absurd (none-some (rw (reply_to, e) at h))
    | inr (addr, e) ↦
        elim (Bool-cases (
          not (is_unicast_target f net transport addr) || ltb_ℤ n (pos 1) || ltb_ℤ (pos 65535) n)) [
            | inl bad ↦ absurd (none-some (rw (reply_to, e, bad) at h))
            | inr good ↦
                let (same_ip, same_port) = same_pair (rw (reply_to, e, good) at h) in
                let (unicast, low, high) = port_of _ n good in
                (
                  ap (λ a. is_unicast_target f net transport a) (sym same_ip) ∙ unicast,
                  rw (sym same_port) low,
                  rw (sym same_port) high,
                )
          ]
  ]

  -- Where the endpoint sends a reply to an address: the server registers with a discovery server, the
  -- request is a POST that comes from that server or from this host to a server on it, the bucket
  -- held no less than one token, which is spent (20 tokens at first, 5 more for each second since the
  -- last request, up to 20), and the address is not the unspecified one, no multicast address and not
  -- the broadcast address, with a port from 1 to 65535.
  pub handle_discovery_reply-guarded :
      (now : ℕ) (method remote_addr body : String) (s : Endpoint f net transport) (ip : Ip)
      (port : ℤ)
      → let (s', answer) = handle_discovery_reply f net transport now method remote_addr body s in
        answer.sends ≡ some (ip, port)
        → (s.mode ≡ discovery_register)
          × ((method == "POST") ≡ true)
          × IsFromPeer s remote_addr
          × IsSpent now s.relay_gate s'.relay_gate
          × IsUnicast ip
          × (pos 1 ≤ℤ port)
          × (port ≤ℤ pos 65535)
  unfolding handle_discovery_reply
  handle_discovery_reply-guarded now method remote_addr body s ip port h =
      elim (Bool-cases (not (is_register s.mode))) [
        | inl off ↦ absurd (none-some (rw (handle_discovery_reply, off) at h))
        | inr on ↦ elim (Bool-cases (not (method == "POST"))) [
          | inl other ↦ absurd (none-some (rw (handle_discovery_reply, on, other) at h))
          | inr post ↦
              elim (Bool-cases
                (not (relay_caller_allowed f net transport s.relay_peer remote_addr))) [
                  | inl stranger ↦
                      absurd (none-some (rw (handle_discovery_reply, on, post, stranger) at h))
                  | inr known ↦ elim (Bool-cases (not (take f now s.relay_gate).1)) [
                    | inl empty ↦
                        absurd
                          (none-some (rw (handle_discovery_reply, on, post, known, empty) at h))
                    | inr filled ↦
                        let (unicast, low, high) =
                          reply_to-target (transport.decode_target body) ip port
                            (rw (handle_discovery_reply, on, post, known, filled) at h) in
                        (
                          register_mode s.mode on,
                          true_of _ post,
                          allowed-IsFromPeer s remote_addr (true_of _ known),
                          rw (handle_discovery_reply, on, post, known, filled)
                              (take-IsSpent now s.relay_gate (true_of _ filled)),
                          is_unicast_target-IsUnicast ip unicast,
                          low,
                          high,
                        )
                  ]
                ]
        ]
      ]
