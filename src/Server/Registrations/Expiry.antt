-- ===== src/Server/Registrations/Expiry.antt =====
-- What expires of the table of registrations, and what stays.
use text.Mathlib.Text.{◌==◌}
use text.Mathlib.TextEquality.{eq_iff}
use goalpaca.Prelude.{
  ℕ, ◌≤◌, ◌-◌, ltb, ltb→lt, lt→ltb, arith, ◌≡◌, refl, sym, ◌∙◌, ap, inl, inr, Bool-cases,
  if◌then◌else◌, String, List, [], ◌∷◌, Option, none, some,
}
use goalpaca.Server.Transaction.{find}
use goalpaca.Server.Registrations.{Net}
use goalpaca.Server.Registrations as Table
use goalpaca.Server.Registrations.Entries.{HasDistinctKeys}

module _ (net : Net) where
  -- A registration whose heartbeat is no older than the ttl.
  unfoldable pub fresh : ℕ → ℕ → Option (Table.Registration net) → Option (Table.Registration net)
  fresh now ttl none = none
  fresh now ttl (some e) = if ltb ttl (now - e.seen) then none else some e

  fresh-none : (now ttl : ℕ) → fresh now ttl none ≡ none
  unfolding fresh
  fresh-none now ttl = refl

  pub fresh_later :
      (now later ttl : ℕ) (o : Option (Table.Registration net))
      → now ≤ later
      → fresh later ttl (fresh now ttl o) ≡ fresh later ttl o
  unfolding fresh
  fresh_later now later ttl none after = refl
  fresh_later now later ttl (some e) after = elim (Bool-cases (ltb ttl (now - e.seen))) [
    | inl old ↦
        let gap = ltb→lt ttl (now - e.seen) old in
        rw (old, lt→ltb ttl (later - e.seen) (omega arith)) refl
    | inr young ↦ rw young refl
  ]

  pub find-prune :
      (key : String) (now ttl : ℕ) (entries : List (String × Table.Registration net))
      → HasDistinctKeys entries
      → find key (Table.prune net now ttl entries) ≡ fresh now ttl (find key entries)
  unfolding find Table.prune Table.is_expired fresh
  find-prune key now ttl [] d = refl
  find-prune key now ttl ((k, e) ∷ entries) (new, rest) =
      let later = find-prune key now ttl entries rest in
      elim (Bool-cases (k == key)) [
        | inl same ↦ elim (Bool-cases (ltb ttl (now - e.seen))) [
          | inl old ↦
              let gone : find key entries ≡ none =
                sym (ap (λ x. find x entries) ((eq_iff k key).0 same)) ∙ new in
              rw (old, same, old) (later ∙ ap (λ o. fresh now ttl o) gone)
          | inr young ↦ rw (young, same, young) refl
        ]
        | inr other ↦ elim (Bool-cases (ltb ttl (now - e.seen))) [
          | inl old ↦ rw (old, other) later
          | inr young ↦ rw (young, other) later
        ]
      ]

  pub prune-HasDistinctKeys :
      (now ttl : ℕ) (entries : List (String × Table.Registration net))
      → HasDistinctKeys entries
      → HasDistinctKeys (Table.prune net now ttl entries)
  unfolding Table.prune
  prune-HasDistinctKeys now ttl [] d = tt
  prune-HasDistinctKeys now ttl ((k, e) ∷ entries) (new, rest) =
      let kept = prune-HasDistinctKeys now ttl entries rest in
      elim (Bool-cases (Table.is_expired net now ttl e)) [
        | inl old ↦ rw old kept
        | inr young ↦ rw young (
          find-prune k now ttl entries rest ∙ ap (λ o. fresh now ttl o) new ∙ fresh-none now ttl,
          kept,
        )
      ]
