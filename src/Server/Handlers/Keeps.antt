-- ===== src/Server/Handlers/Keeps.antt =====
-- What a handler keeps of its device, from what its calls keep.
use goalpaca.Prelude.{ℕ, List, [], ◌∷◌, ◌≡◌, refl, none, some, String, inl, inr, Option-cases}
use goalpaca.Alpaca.Errors.{Error}
use goalpaca.Server.Transaction.{Got, got, refused, find, Params}
use goalpaca.Server.Handlers.{
  Cases, Outcome, Event, direct, request, with_arg, gated, dispatch, serve, serve_all,
}

-- The state of a result has the property.
pub record Leaves {κ} {D : Type 0} (P : D → Type κ) (result : D × Error) : Type κ where
  pub kept : P result.0

-- The calls among the events meet a condition.
abbrev pub AllCalls : {C : Type 0} → (C → Type 0) → List (ℕ × Event C) → Type 0
AllCalls G [] = Unit
AllCalls G ((now, direct c) ∷ events) = G c × AllCalls G events
AllCalls G ((now, request member p) ∷ events) = AllCalls G events

pub AllCalls-Unit : {C : Type 0} (events : List (ℕ × Event C)) → AllCalls (λ c. Unit) events
AllCalls-Unit [] = tt
AllCalls-Unit ((now, direct c) ∷ events) = (tt, AllCalls-Unit events)
AllCalls-Unit ((now, request member p) ∷ events) = AllCalls-Unit events

module _ {κ} {D : Type 0} (P : D → Type κ) where
  pub with_arg-keeps {ℓ} :
      {A : Type ℓ} (a : Got A) (rest : A → D → D × Error) (d : D)
      → ((x : A) → a ≡ got x → Leaves P (rest x d))
      → P d
      → Leaves P (with_arg a rest d)
  unfolding with_arg
  with_arg-keeps (got x) rest d call keep = call x refl
  with_arg-keeps (refused err) rest d call keep = record { kept = keep }

  pub gated-keeps :
      (gate : Error) (call : D → D × Error) (d : D)
      → (gate ≡ none → Leaves P (call d))
      → P d
      → Leaves P (gated gate call d)
  unfolding gated
  gated-keeps none call d accepted keep = accepted refl
  gated-keeps (some err) call d accepted keep = record { kept = keep }

  pub dispatch-keeps {ℓ} :
      {M : Type ℓ} (cases : Cases M) (call : M → D → D × Error) (member : String) (d : D)
      → ((m : M) → Leaves P (call m d))
      → P d
      → P (dispatch cases call member d).0
  unfolding dispatch
  dispatch-keeps cases call member d called keep = elim (Option-cases (find member cases)) [
    | inl e ↦ rw (dispatch, e) keep
    | inr (m, e) ↦ rw (dispatch, e) (called m).kept
  ]

  module _ {C : Type 0} (G : C → Type 0) (step : ℕ → C → D → D)
      (put : ℕ → String → Params → D → D × Outcome)
      (step_keeps : (now : ℕ) (c : C) (d : D) → G c → P d → P (step now c d))
      (put_keeps : (now : ℕ) (member : String) (p : Params) (d : D)
        → P d
        → P (put now member p d).0) where
    pub serve_all-keeps :
        (events : List (ℕ × Event C)) (d : D)
        → AllCalls G events
        → P d
        → P (serve_all step put events d)
    unfolding serve_all serve
    serve_all-keeps [] d allowed keep = keep
    serve_all-keeps ((now, direct c) ∷ events) d (first, rest) keep =
        serve_all-keeps events (step now c d) rest (step_keeps now c d first keep)
    serve_all-keeps ((now, request member p) ∷ events) d rest keep =
        serve_all-keeps events (put now member p d).0 rest (put_keeps now member p d keep)
