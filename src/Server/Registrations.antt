-- ===== src/Server/Registrations.antt =====
-- server/discovery_registry.go: the table of the devices that send heartbeats. A time is in
-- nanoseconds, and a map is an association list.
pub mod Entries
pub mod Expiry
pub mod Latest
pub mod Ports
use text.Mathlib.Text.{◌==◌}
use goalpaca.Prelude.{
  ℕ, ◌-◌, ltb, String, List, [], ◌∷◌, map, Bool, true, false, not, ◌&&◌, ◌||◌, if◌then◌else◌,
  Option, none, some, ℤ, pos, eqb_ℤ,
}
use goalpaca.Server.Transaction.{find}

pub record Heartbeat : Type 0 where
  pub alpaca_port : ℤ
  pub unique_id : String
  pub device_type : String
  pub device_name : String
  pub instance_name : String
  pub address : String

-- What the table uses of net, bytes, strconv and encoding/json. A packet is a text; `unmarshal` is
-- none where json.Unmarshal fails.
pub record Net : Type 1 where
  pub Ip : Type 0
  pub parse_ip : String → Option Ip
  pub is_loopback : Ip → Bool
  pub equal : Ip → Ip → Bool
  pub to_string : Ip → String
  pub join_host_port : String → String → String
  pub itoa : ℤ → String
  pub trim_space : String → String
  pub has_prefix : String → String → Bool
  pub unmarshal : String → Option Heartbeat

pub data DatagramKind : Type 0 where
  datagram_other datagram_probe datagram_heartbeat : DatagramKind

abbrev pub discovery_probe : String
discovery_probe = "alpacadiscovery"

-- 30 s
abbrev pub default_registration_ttl : ℕ
default_registration_ttl = 30000000000

-- m[key] = value
unfoldable pub put {ℓ} : {A : Type ℓ} → String → A → List (String × A) → List (String × A)
put key value [] = (key, value) ∷ []
put key value ((k, v) ∷ entries) =
    let rest = put key value entries in if k == key then (k, value) ∷ entries else (k, v) ∷ rest

module _ (net : Net) where
  open net use {Ip}

  pub record Registration : Type 0 where
    pub heartbeat : Heartbeat
    pub addr : Ip
    pub local : Bool
    pub seen : ℕ

  pub record Registrations : Type 0 where
    pub ttl : ℕ
    pub entries : List (String × Registration)

  unfoldable pub new_registrations : ℕ → Registrations
  new_registrations ttl = record {
    ttl = if ltb 0 ttl then ttl else default_registration_ttl;
    entries = [];
  }

  -- The loop of isLocal over the host's addresses.
  unfoldable pub is_own : List Ip → Ip → Bool
  is_own [] ip = false
  is_own (own ∷ ips) ip = net.equal own ip || is_own ips ip

  -- The list is what localIPs gives at the call.
  unfoldable pub is_local : List Ip → Ip → Bool
  unfolding is_own
  is_local own ip = if net.is_loopback ip then true else is_own own ip

  unfoldable pub reachable_at : Heartbeat → Ip → Ip
  reachable_at hb source = elim (net.parse_ip hb.address) [ none ↦ source | some ip ↦ ip ]

  unfoldable pub registration_key : Heartbeat → Ip → String
  registration_key hb addr =
      if not (hb.unique_id == "")
      then hb.unique_id
      else if not (hb.instance_name == "")
      then hb.instance_name
      else net.join_host_port (net.to_string addr) (net.itoa hb.alpaca_port)

  unfoldable pub record_heartbeat :
      ℕ → List Ip → Heartbeat → Ip → Registrations → Registrations × Registration
  unfolding put
  record_heartbeat now own hb source r =
      let addr = reachable_at hb source in
      let entry : Registration = record {
        heartbeat = hb;
        addr = addr;
        local = is_local own addr;
        seen = now;
      } in
      (record r { entries = put (registration_key hb addr) entry r.entries }, entry)

  unfoldable pub is_expired : ℕ → ℕ → Registration → Bool
  is_expired now ttl e = ltb ttl (now - e.seen)

  -- The loop of Live.
  unfoldable pub prune : ℕ → ℕ → List (String × Registration) → List (String × Registration)
  prune now ttl [] = []
  prune now ttl ((k, e) ∷ entries) =
      let rest = prune now ttl entries in if is_expired now ttl e then rest else (k, e) ∷ rest

  unfoldable pub live : ℕ → Registrations → Registrations × List Registration
  unfolding prune
  live now r =
      let kept = prune now r.ttl r.entries in (record r { entries = kept }, map (λ e. e.1) kept)

  -- The two branches of Datagram that are not a probe.
  unfoldable pub heard :
      ℕ
      → List Ip
      → Option Heartbeat
      → Ip
      → Registrations
      → Registrations × DatagramKind × Option Registration
  heard now own none from r = (r, datagram_other, none)
  heard now own (some hb) from r =
      let (r', entry) = record_heartbeat now own hb from r in
      if eqb_ℤ hb.alpaca_port (pos 0)
      then (r, datagram_other, none)
      else (r', datagram_heartbeat, some entry)

  unfoldable pub datagram :
      ℕ → List Ip → String → Ip → Registrations → Registrations × DatagramKind × Option Registration
  datagram now own pkt from r =
      if net.has_prefix (net.trim_space pkt) discovery_probe
      then (r, datagram_probe, none)
      else heard now own (net.unmarshal pkt) from r

  unfoldable pub is_seen : ℤ → List ℤ → Bool
  is_seen port [] = false
  is_seen port (p ∷ ports) = eqb_ℤ p port || is_seen port ports

  -- The loop of LocalPorts, with the ports that it has seen.
  unfoldable pub distinct_ports : List ℤ → List Registration → List ℤ
  unfolding is_seen
  distinct_ports seen [] = []
  distinct_ports seen (e ∷ es) =
      let port = e.heartbeat.alpaca_port in
      let new = e.local && not (is_seen port seen) in
      let rest = distinct_ports (if new then port ∷ seen else seen) es in
      if new then port ∷ rest else rest

  unfoldable pub local_ports : ℕ → Registrations → Registrations × List ℤ
  unfolding live distinct_ports
  local_ports now r = let (r', es) = live now r in (r', distinct_ports [] es)
