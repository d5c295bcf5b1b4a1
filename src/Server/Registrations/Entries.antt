-- ===== src/Server/Registrations/Entries.antt =====
-- The entries of a map, as a list with distinct keys.
use text.Mathlib.Text.{◌==◌}
use text.Mathlib.TextEquality.{eq_iff}
use text.Mathlib.TextPositions.{eq_refl}
use goalpaca.Prelude.{
  arith, ◌≡◌, refl, sym, ◌∙◌, ap, ◌⊎◌, inl, inr, true, false, Bool-cases, String, List, [], ◌∷◌,
  map, none, some,
}
use goalpaca.Server.Transaction.{find}
use goalpaca.Server.Registrations.{put}

-- An element of the list.
abbrev pub In : {A : Type 0} → A → List A → Type 0
In a [] = ⊥
In a (x ∷ xs) = (x ≡ a) ⊎ In a xs

-- No two entries have the same key.
abbrev pub HasDistinctKeys : {A : Type 0} → List (String × A) → Type 0
HasDistinctKeys [] = Unit
HasDistinctKeys ((k, v) ∷ entries) = (find k entries ≡ none) × HasDistinctKeys entries

apart_sym : (a b : String) → (a == b) ≡ false → (b == a) ≡ false
apart_sym a b apart = elim (Bool-cases (b == a)) [
  | inl e ↦
      let met : (b == b) ≡ false = ap (λ x. x == b) ((eq_iff b a).0 e) ∙ apart in
      let self : (b == b) ≡ true = eq_refl b in absurd (ground arith)
  | inr e ↦ e
]

pub some_same : {A : Type 0} {a b : A} → some a ≡ some b → a ≡ b
some_same e = ground arith

module _ {A : Type 0} where
  pub find-put_same :
      (key : String) (value : A) (entries : List (String × A))
      → find key (put key value entries) ≡ some value
  unfolding put find
  find-put_same key value [] = rw (eq_refl key) refl
  find-put_same key value ((k, v) ∷ entries) = elim (Bool-cases (k == key)) [
    | inl same ↦ rw (same, same) refl
    | inr other ↦ rw (other, other) (find-put_same key value entries)
  ]

  pub find-put_other :
      (key key' : String) (value : A) (entries : List (String × A))
      → (key == key') ≡ false
      → find key' (put key value entries) ≡ find key' entries
  unfolding put find
  find-put_other key key' value [] apart = rw apart refl
  find-put_other key key' value ((k, v) ∷ entries) apart = elim (Bool-cases (k == key)) [
    | inl same ↦
        let far : (k == key') ≡ false = ap (λ x. x == key') ((eq_iff k key).0 same) ∙ apart in
        rw (same, far) refl
    | inr other ↦ rw other (elim (Bool-cases (k == key')) [
      | inl here ↦ rw here refl
      | inr there ↦ rw there (find-put_other key key' value entries apart)
    ])
  ]

  pub put-HasDistinctKeys :
      (key : String) (value : A) (entries : List (String × A))
      → HasDistinctKeys entries
      → HasDistinctKeys (put key value entries)
  unfolding put find
  put-HasDistinctKeys key value [] d = (refl, tt)
  put-HasDistinctKeys key value ((k, v) ∷ entries) (new, rest) = elim (Bool-cases (k == key)) [
    | inl same ↦ rw same (new, rest)
    | inr other ↦ rw other (
      find-put_other key k value entries (apart_sym k key other) ∙ new,
      put-HasDistinctKeys key value entries rest,
    )
  ]

  -- An element of the entries is what one of the keys stands for.
  pub In-find :
      (a : A) (entries : List (String × A))
      → HasDistinctKeys entries
      → In a (map (λ e. e.1) entries)
      → (key : String) × (find key entries ≡ some a)
  unfolding find
  In-find a [] d h = elim h [ ]
  In-find a ((k, v) ∷ entries) d (inl here) = (k, rw (eq_refl k) (ap some here))
  In-find a ((k, v) ∷ entries) (new, rest) (inr there) =
      let (key, found) = In-find a entries rest there in
      elim (Bool-cases (k == key)) [
        | inl same ↦
            let e : some a ≡ none =
              sym found ∙ sym (ap (λ x. find x entries) ((eq_iff k key).0 same)) ∙ new in
            absurd (ground arith)
        | inr other ↦ (key, rw other found)
      ]

  pub find-In :
      (a : A) (key : String) (entries : List (String × A))
      → find key entries ≡ some a
      → In a (map (λ e. e.1) entries)
  unfolding find
  find-In a key [] h = absurd (ground arith)
  find-In a key ((k, v) ∷ entries) h = elim (Bool-cases (k == key)) [
    | inl same ↦ inl (some_same (rw same at h))
    | inr other ↦ inr (find-In a key entries (rw other at h))
  ]
