-- ===== src/Server/Registrations/Latest.antt =====
-- The table of registrations against the last heartbeats of its devices.
use text.Mathlib.Text.{◌==◌}
use text.Mathlib.TextEquality.{eq_iff}
use goalpaca.Prelude.{
  Option-cases, eqb_ℤ, pos, ℕ, ◌≤◌, arith, ◌≡◌, refl, sym, ◌∙◌, ap, ◌↔◌, inl, inr, Bool-cases,
  if◌then◌else◌, String, List, [], ◌∷◌, Option, none, some,
}
use goalpaca.Server.Transaction.{find}
use goalpaca.Server.Registrations.{Net, Heartbeat, put}
use goalpaca.Server.Registrations as Table
use goalpaca.Server.Registrations.Expiry.{fresh, fresh_later, find-prune, prune-HasDistinctKeys}
use goalpaca.Server.Registrations.Entries.{
  In, HasDistinctKeys, find-put_same, find-put_other, put-HasDistinctKeys, In-find, find-In,
  some_same,
}

some-none : {A : Type 0} {a : A} → some a ≡ none → ⊥
some-none e = ground arith

module _ (net : Net) where
  open net use {Ip}

  -- What the table receives: a packet, with the host's addresses and its source, and a reading of the
  -- live devices.
  pub data Event : Type 0 where
    packet : List Ip → String → Ip → Event
    reading : Event

  unfoldable pub run : List (ℕ × Event) → Table.Registrations net → Table.Registrations net
  run [] r = r
  run ((now, packet own pkt source) ∷ events) r =
      run events (Table.datagram net now own pkt source r).0
  run ((now, reading) ∷ events) r = run events (Table.live net now r).0

  -- The registration that a heartbeat makes.
  abbrev pub made : ℕ → List Ip → Heartbeat → Ip → Table.Registration net
  made now own hb source =
      let addr = Table.reachable_at net hb source in
      record { heartbeat = hb; addr = addr; local = Table.is_local net own addr; seen = now }

  -- The heartbeat that a packet is, if it is one: no probe, and with a port.
  unfoldable pub beat : String → Option Heartbeat
  beat pkt =
      if net.has_prefix (net.trim_space pkt) Table.discovery_probe
      then none
      else elim (net.unmarshal pkt) [
        | none ↦ none
        | some hb ↦ if eqb_ℤ hb.alpaca_port (pos 0) then none else some hb
      ]

  -- What a key stands for after a packet.
  unfoldable pub after :
      ℕ
      → List Ip
      → Option Heartbeat
      → Ip
      → String
      → Option (Table.Registration net)
      → Option (Table.Registration net)
  after now own none source key before = before
  after now own (some hb) source key before =
      if Table.registration_key net hb (Table.reachable_at net hb source) == key
      then some (made now own hb source)
      else before

  -- What the last heartbeat under a key made, or what the key stood for before; nothing expires.
  unfoldable pub latest :
      String → List (ℕ × Event) → Option (Table.Registration net) → Option (Table.Registration net)
  unfolding after beat
  latest key [] before = before
  latest key ((now, packet own pkt source) ∷ events) before =
      latest key events (after now own (beat pkt) source key before)
  latest key ((now, reading) ∷ events) before = latest key events before

  -- The events come in the order of their times, from one time to another.
  abbrev pub IsOrdered : ℕ → List (ℕ × Event) → ℕ → Type 0
  IsOrdered from [] to = from ≤ to
  IsOrdered from ((now, e) ∷ events) to = (from ≤ now) × IsOrdered now events to

  -- At a time the table and a map from keys to registrations have the same fresh registrations.
  record Refines (now ttl : ℕ) (spec : String → Option (Table.Registration net))
      (r : Table.Registrations net) : Type 0 where
    bound : r.ttl ≡ ttl
    keys : HasDistinctKeys r.entries
    agrees : (key : String) → fresh net now ttl (find key r.entries) ≡ fresh net now ttl (spec key)

  Refines-later :
      (now later ttl : ℕ) (spec : String → Option (Table.Registration net))
      (r : Table.Registrations net)
      → now ≤ later
      → Refines now ttl spec r
      → Refines later ttl spec r
  Refines-later now later ttl spec r after h = record {
    bound = h.bound;
    keys = h.keys;
    agrees = λ key.
        sym (fresh_later net now later ttl (find key r.entries) after)
        ∙ ap (λ o. fresh net later ttl o) (h.agrees key)
        ∙ fresh_later net now later ttl (spec key) after;
  }

  record_heartbeat-Refines :
      (now ttl : ℕ) (own : List Ip) (hb : Heartbeat) (source : Ip)
      (spec : String → Option (Table.Registration net)) (r : Table.Registrations net)
      → Refines now ttl spec r
      → Refines now ttl
          (λ key. after now own (some hb) source key (spec key))
          (Table.record_heartbeat net now own hb source r).0
  unfolding Table.record_heartbeat after
  record_heartbeat-Refines now ttl own hb source spec r h =
      let at = Table.registration_key net hb (Table.reachable_at net hb source) in
      let e = made now own hb source in
      record {
        bound = h.bound;
        keys = put-HasDistinctKeys at e r.entries h.keys;
        agrees = λ key. elim (Bool-cases (at == key)) [
          | inl same ↦
              let here : find key (put at e r.entries) ≡ some e =
                ap (λ x. find x (put at e r.entries)) (sym ((eq_iff at key).0 same))
                ∙ find-put_same at e r.entries in
              rw same (ap (λ o. fresh net now ttl o) here)
          | inr other ↦ rw other (
              ap (λ o. fresh net now ttl o) (find-put_other at key e r.entries other)
              ∙ h.agrees key)
        ];
      }

  datagram_other :
      (now : ℕ) (own : List Ip) (pkt : String) (source : Ip) (r : Table.Registrations net)
      → beat pkt ≡ none
      → (Table.datagram net now own pkt source r).0 ≡ r
  unfolding Table.datagram Table.heard beat
  datagram_other now own pkt source r h =
      elim (Bool-cases (net.has_prefix (net.trim_space pkt) Table.discovery_probe)) [
        | inl probe ↦ rw (Table.datagram, probe) refl
        | inr plain ↦ elim (Option-cases (net.unmarshal pkt)) [
          | inl e ↦ rw (Table.datagram, plain, e) refl
          | inr (hb, e) ↦ elim (Bool-cases (eqb_ℤ hb.alpaca_port (pos 0))) [
            | inl zero_port ↦ rw (Table.datagram, plain, e, zero_port) refl
            | inr port ↦ absurd (some-none (rw (beat, plain, e, port) at h))
          ]
        ]
      ]

  datagram_heartbeat :
      (now : ℕ) (own : List Ip) (pkt : String) (hb : Heartbeat) (source : Ip)
      (r : Table.Registrations net)
      → beat pkt ≡ some hb
      → (Table.datagram net now own pkt source r).0
        ≡ (Table.record_heartbeat net now own hb source r).0
  unfolding Table.datagram Table.heard beat
  datagram_heartbeat now own pkt hb source r h =
      elim (Bool-cases (net.has_prefix (net.trim_space pkt) Table.discovery_probe)) [
        | inl probe ↦ absurd (some-none (sym (rw (beat, probe) at h)))
        | inr plain ↦ elim (Option-cases (net.unmarshal pkt)) [
          | inl e ↦ absurd (some-none (sym (rw (beat, plain, e) at h)))
          | inr (hb', e) ↦ elim (Bool-cases (eqb_ℤ hb'.alpaca_port (pos 0))) [
            | inl zero_port ↦ absurd (some-none (sym (rw (beat, plain, e, zero_port) at h)))
            | inr port ↦
                let same : hb' ≡ hb = some_same (rw (beat, plain, e, port) at h) in
                rw (Table.datagram, plain, e, port)
                  (ap (λ x. (Table.record_heartbeat net now own x source r).0) same)
          ]
        ]
      ]

  datagram-Refines :
      (now ttl : ℕ) (own : List Ip) (pkt : String) (source : Ip)
      (spec : String → Option (Table.Registration net)) (r : Table.Registrations net)
      → Refines now ttl spec r
      → Refines now ttl
          (λ key. after now own (beat pkt) source key (spec key))
          (Table.datagram net now own pkt source r).0
  unfolding after
  datagram-Refines now ttl own pkt source spec r h = elim (Option-cases (beat pkt)) [
    | inl e ↦ rw (e, datagram_other now own pkt source r e) h
    | inr (hb, e) ↦
        rw (e, datagram_heartbeat now own pkt hb source r e)
          (record_heartbeat-Refines now ttl own hb source spec r h)
  ]

  live-Refines :
      (now ttl : ℕ) (spec : String → Option (Table.Registration net)) (r : Table.Registrations net)
      → Refines now ttl spec r
      → Refines now ttl spec (Table.live net now r).0
  unfolding Table.live
  live-Refines now ttl spec r h = record {
    bound = h.bound;
    keys = prune-HasDistinctKeys net now r.ttl r.entries h.keys;
    agrees = λ key.
        ap (λ o. fresh net now ttl o)
          (find-prune net key now r.ttl r.entries h.keys
            ∙ ap (λ t. fresh net now t (find key r.entries)) h.bound)
        ∙ fresh_later net now now ttl (find key r.entries) (omega arith)
        ∙ h.agrees key;
  }

  run-Refines :
      (from to ttl : ℕ) (events : List (ℕ × Event))
      (spec : String → Option (Table.Registration net)) (r : Table.Registrations net)
      → IsOrdered from events to
      → Refines from ttl spec r
      → Refines to ttl (λ key. latest key events (spec key)) (run events r)
  unfolding run latest
  run-Refines from to ttl [] spec r order h = Refines-later from to ttl spec r order h
  run-Refines from to ttl ((now, packet own pkt source) ∷ events) spec r (first, rest) h =
      run-Refines now to ttl events (λ key. after now own (beat pkt) source key (spec key))
        (Table.datagram net now own pkt source r).0 rest
        (datagram-Refines now ttl own pkt source spec r (Refines-later from now ttl spec r first h))
  run-Refines from to ttl ((now, reading) ∷ events) spec r (first, rest) h =
      run-Refines now to ttl events spec (Table.live net now r).0 rest
        (live-Refines now ttl spec r (Refines-later from now ttl spec r first h))

  -- Whatever packets a new table has received and however often it was read, in the order of their
  -- times: Live gives exactly what the last heartbeat under each key made, where that is no
  -- older than the table's ttl. What an earlier reading removed is not missed, and a device that
  -- comes back under its key on another port or address replaces its old registration.
  pub live-latest :
      (ttl : ℕ) (events : List (ℕ × Event)) (now : ℕ) (e : Table.Registration net)
      → IsOrdered 0 events now
      → In e (Table.live net now (run events (Table.new_registrations net ttl))).1 ↔ (
          (key : String) × (fresh net now
              (Table.new_registrations net ttl).ttl
              (latest key events none)
            ≡ some e))
  unfolding Table.live Table.new_registrations find
  live-latest ttl events now e order =
      let new = Table.new_registrations net ttl in
      let r = run events new in
      let start : Refines 0 new.ttl (λ key. none) new = record {
        bound = refl;
        keys = tt;
        agrees = λ key. refl;
      } in
      let h = run-Refines 0 now new.ttl events (λ key. none) new order start in
      let kept = Table.prune net now r.ttl r.entries in
      let read : (key : String) → find key kept ≡ fresh net now new.ttl (latest key events none) =
        λ key.
          find-prune net key now r.ttl r.entries h.keys
          ∙ ap (λ t. fresh net now t (find key r.entries)) h.bound
          ∙ h.agrees key in
      (
        (λ listed.
            let (key, found) =
              In-find e kept (prune-HasDistinctKeys net now r.ttl r.entries h.keys) listed in
            (key, sym (read key) ∙ found)),
        λ (key, found). find-In e key kept (read key ∙ found),
      )
