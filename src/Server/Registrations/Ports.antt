-- ===== src/Server/Registrations/Ports.antt =====
-- The ports that a probe is answered for.
use goalpaca.Prelude.{
  ℕ, arith, ◌≡◌, refl, sym, ◌∙◌, ap, ◌↔◌, inl, inr, Bool, true, false, not, ◌&&◌, Bool-cases,
  or_false, List, [], ◌∷◌, ℤ, eqb_ℤ,
}
use goalpaca.Server.Registrations.{Net}
use goalpaca.Server.Registrations as Table
use goalpaca.Server.Registrations.Entries.{In}

-- No element comes twice.
abbrev pub HasNoRepeat : List ℤ → Type 0
HasNoRepeat [] = Unit
HasNoRepeat (p ∷ ps) = (In p ps → ⊥) × HasNoRepeat ps

both_new : (a b : Bool) → (a && not b) ≡ true → (a ≡ true) × (b ≡ false)
both_new a b h = ground arith

new_of_both : (a b : Bool) → a ≡ true → b ≡ false → (a && not b) ≡ true
new_of_both a b h h' = ground arith

eqb_ℤ-eq : (a b : ℤ) → eqb_ℤ a b ≡ true → a ≡ b
eqb_ℤ-eq a b h = ground arith

eqb_ℤ-refl : (a : ℤ) → eqb_ℤ a a ≡ true
eqb_ℤ-refl a = ground arith

module _ (net : Net) where
  -- A local registration of the list has the port.
  abbrev pub HasLocal : ℤ → List (Table.Registration net) → Type 0
  HasLocal p es =
      (e : Table.Registration net) × In e es × (e.local ≡ true) × (e.heartbeat.alpaca_port ≡ p)

  unseen-new :
      (p port : ℤ) (seen : List ℤ)
      → Table.is_seen net p (port ∷ seen) ≡ false
      → (eqb_ℤ port p ≡ false) × (Table.is_seen net p seen ≡ false)
  unfolding Table.is_seen
  unseen-new p port seen h = or_false _ _ h

  In-distinct_ports :
      (p : ℤ) (seen : List ℤ) (es : List (Table.Registration net))
      → In p (Table.distinct_ports net seen es)
      → (Table.is_seen net p seen ≡ false) × HasLocal p es
  unfolding Table.distinct_ports
  In-distinct_ports p seen [] h = elim h [ ]
  In-distinct_ports p seen (e ∷ es) h =
      let port = e.heartbeat.alpaca_port in
      elim (Bool-cases (e.local && not (Table.is_seen net port seen))) [
        | inl new ↦ elim (rw (Table.distinct_ports, new) at h) [
          | inl same ↦
              let (own, unseen) = both_new e.local (Table.is_seen net port seen) new in
              (ap (λ q. Table.is_seen net q seen) (sym same) ∙ unseen, (e, inl refl, own, same))
          | inr later ↦
              let (unseen, (e', listed, own, has)) = In-distinct_ports p (port ∷ seen) es later in
              ((unseen-new p port seen unseen).1, (e', inr listed, own, has))
        ]
        | inr old ↦
            let (unseen, (e', listed, own, has)) =
              In-distinct_ports p seen es (rw (Table.distinct_ports, old) at h) in
            (unseen, (e', inr listed, own, has))
      ]

  distinct_ports-In :
      (p : ℤ) (seen : List ℤ) (es : List (Table.Registration net))
      → Table.is_seen net p seen ≡ false
      → HasLocal p es
      → In p (Table.distinct_ports net seen es)
  unfolding Table.distinct_ports Table.is_seen
  distinct_ports-In p seen [] unseen (e, listed, own, has) = elim listed [ ]
  distinct_ports-In p seen (x ∷ es) unseen (e, inl same, own, has) =
      let at_p : x.heartbeat.alpaca_port ≡ p =
        ap (λ (r : Table.Registration net). r.heartbeat.alpaca_port) same ∙ has in
      let new : (x.local && not (Table.is_seen net x.heartbeat.alpaca_port seen)) ≡ true =
        new_of_both _ _ (ap (λ (r : Table.Registration net). r.local) same ∙ own)
          (ap (λ q. Table.is_seen net q seen) at_p ∙ unseen) in
      rw (Table.distinct_ports, new) (inl at_p)
  distinct_ports-In p seen (x ∷ es) unseen (e, inr listed, own, has) =
      let port = x.heartbeat.alpaca_port in
      elim (Bool-cases (x.local && not (Table.is_seen net port seen))) [
        | inl new ↦ elim (Bool-cases (eqb_ℤ port p)) [
          | inl here ↦ rw (Table.distinct_ports, new) (inl (eqb_ℤ-eq port p here))
          | inr there ↦
              rw (Table.distinct_ports, new)
                (inr (distinct_ports-In p (port ∷ seen) es (rw there unseen) (e, listed, own, has)))
        ]
        | inr old ↦
            rw (Table.distinct_ports, old)
              (distinct_ports-In p seen es unseen (e, listed, own, has))
      ]

  distinct_ports-HasNoRepeat :
      (seen : List ℤ) (es : List (Table.Registration net))
      → HasNoRepeat (Table.distinct_ports net seen es)
  unfolding Table.distinct_ports
  distinct_ports-HasNoRepeat seen [] = tt
  distinct_ports-HasNoRepeat seen (e ∷ es) =
      let port = e.heartbeat.alpaca_port in
      elim (Bool-cases (e.local && not (Table.is_seen net port seen))) [
        | inl new ↦
            rw (Table.distinct_ports, new)
              (
                (λ again.
                    let unseen = (In-distinct_ports port (port ∷ seen) es again).0 in
                    let apart = (unseen-new port port seen unseen).0 in
                    let self = eqb_ℤ-refl port in ground arith),
                distinct_ports-HasNoRepeat (port ∷ seen) es,
              )
        | inr old ↦ rw (Table.distinct_ports, old) (distinct_ports-HasNoRepeat seen es)
      ]

  -- LocalPorts gives each port of a live device of this host, once, and no other.
  pub local_ports_lem :
      (now : ℕ) (r : Table.Registrations net)
      → HasNoRepeat (Table.local_ports net now r).1
        × ((p : ℤ) → In p (Table.local_ports net now r).1 ↔ HasLocal p (Table.live net now r).1)
  unfolding Table.local_ports Table.is_seen
  local_ports_lem now r =
      let es = (Table.live net now r).1 in
      (
        distinct_ports-HasNoRepeat [] es,
        λ p. ((λ h. (In-distinct_ports p [] es h).1), λ h. distinct_ports-In p [] es refl h),
      )
