-- ===== src/Server/Transaction/Lookup.antt =====
-- What a handler reads of a form: parseParams and get of server/transaction.go.
use text.Mathlib.Text.{◌==◌}
use text.Mathlib.TextEquality.{eq_iff}
use text.Mathlib.TextPositions.{eq_refl}
use goalpaca.Prelude.{
  String, List, [], ◌∷◌, Bool, ◌≡◌, refl, ◌∙◌, ap, ◌⊎◌, inl, inr, some, Bool-cases, ◌&&◌,
}
use goalpaca.Float.{Float64}
use goalpaca.Server.Transaction.{Library, Params, Form, find, collect, parse_params, get}

-- The form has the key, with this first value.
abbrev pub Sends : Form → String → String → Type 0
Sends [] name v = ⊥
Sends ((k, []) ∷ form) name v = Sends form name v
Sends ((k, w ∷ ws) ∷ form) name v = ((k ≡ name) × (w ≡ v)) ⊎ Sends form name v

-- Every key of the form that the function takes to the same text has this first value.
abbrev pub Agrees : (String → String) → Form → String → String → Type 0
Agrees g [] name v = Unit
Agrees g ((k, []) ∷ form) name v = Agrees g form name v
Agrees g ((k, w ∷ ws) ∷ form) name v = (g k ≡ g name → w ≡ v) × Agrees g form name v

-- The entries of a form, put one after the other before those of a map.
pile : (String → String) → Form → List (String × String) → List (String × String)
pile g [] entries = entries
pile g ((k, []) ∷ form) entries = pile g form entries
pile g ((k, v ∷ vs) ∷ form) entries = pile g form ((g k, v) ∷ entries)

find_here :
    (key k v : String) (entries : List (String × String))
    → k ≡ key
    → find key ((k, v) ∷ entries) ≡ some v
unfolding find
find_here key k v entries e = rw (e, eq_refl key) refl

find_cons :
    (key k w v : String) (entries : List (String × String))
    → (k ≡ key → w ≡ v)
    → find key entries ≡ some v
    → find key ((k, w) ∷ entries) ≡ some v
unfolding find
find_cons key k w v entries agree found = elim (Bool-cases (k == key)) [
  | inl e ↦ rw (find, e) (ap some (agree ((eq_iff k key).0 e)))
  | inr e ↦ rw (find, e) found
]

module _ (g : String → String) (name v : String) where
  -- A value that is found stays found, while the keys agree.
  find-pile :
      (form : Form) (entries : List (String × String))
      → Agrees g form name v
      → (find (g name) entries ≡ some v) ⊎ Sends form name v
      → find (g name) (pile g form entries) ≡ some v
  unfolding pile
  find-pile [] entries agree (inl found) = found
  find-pile [] entries agree (inr missing) = elim missing [ ]
  find-pile ((k, []) ∷ form) entries agree h = find-pile form entries agree h
  find-pile ((k, w ∷ ws) ∷ form) entries (first, rest) (inl found) =
      find-pile form ((g k, w) ∷ entries) rest
        (inl (find_cons (g name) (g k) w v entries first found))
  find-pile ((k, w ∷ ws) ∷ form) entries (first, rest) (inr (inl (e, e'))) =
      find-pile form ((g k, w) ∷ entries) rest
        (inl (find_here (g name) (g k) w entries (ap g e) ∙ ap some e'))
  find-pile ((k, w ∷ ws) ∷ form) entries (first, rest) (inr (inr later)) =
      find-pile form ((g k, w) ∷ entries) rest (inr later)

-- Keys that agree up to a function agree.
Agrees-exact :
    (g : String → String) (form : Form) (name v : String)
    → Agrees g form name v
    → Agrees (λ k. k) form name v
Agrees-exact g [] name v h = h
Agrees-exact g ((k, []) ∷ form) name v h = Agrees-exact g form name v h
Agrees-exact g ((k, w ∷ ws) ∷ form) name v (first, rest) =
    ((λ e. first (ap g e)), Agrees-exact g form name v rest)

module _ (f : Float64) (lib : Library f) where
  collect-pile :
      (form : Form) (p : Params)
      → ((collect f lib form p).vals ≡ pile (λ k. k) form p.vals)
        × ((collect f lib form p).lower ≡ pile lib.to_lower form p.lower)
        × ((collect f lib form p).strict ≡ p.strict)
  unfolding collect pile
  collect-pile [] p = (refl, refl, refl)
  collect-pile ((k, []) ∷ form) p = collect-pile form p
  collect-pile ((k, v ∷ vs) ∷ form) p = collect-pile form _

  -- A parameter that a form sends is read, whether case counts or not and whatever the order in
  -- which the form's keys are met, where every key that differs from its name in case alone has the
  -- same value.
  pub get-parse_params :
      (is_put strict : Bool) (form : Form) (name v : String)
      → Sends form name v
      → Agrees lib.to_lower form name v
      → get f lib (parse_params f lib is_put strict form) name ≡ some v
  unfolding get parse_params
  get-parse_params is_put strict form name v sends agrees =
      let blank : Params = record {
        vals = [];
        lower = [];
        strict = strict && is_put;
        client_id = 0;
        client_transaction_id = 0;
      } in
      let (exact, folded, same) = collect-pile form blank in
      elim (Bool-cases (strict && is_put)) [
        | inl e ↦
            rw (get, parse_params, exact, folded, same, e)
              (find-pile (λ k. k) name v form [] (Agrees-exact lib.to_lower form name v agrees)
                (inr sends))
        | inr e ↦
            rw (get, parse_params, exact, folded, same, e)
              (find-pile lib.to_lower name v form [] agrees (inr sends))
      ]
