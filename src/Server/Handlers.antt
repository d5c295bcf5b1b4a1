-- ===== src/Server/Handlers.antt =====
-- The PUT handlers of the server's device types. A driver is a record of its state, of its answers
-- to the methods that the gates call, and of the methods that a request ends in. A handler's switch
-- on the member is a table of the cases, and a function of the case.
pub mod Keeps
pub mod Camera
pub mod Telescope
pub mod Rotator
pub mod Focuser
pub mod FilterWheel
pub mod Dome
pub mod CoverCalibrator
pub mod Switch
use goalpaca.Prelude.{ℕ, Option, none, some, String, List, [], ◌∷◌}
use goalpaca.Alpaca.Errors.{Error}
use goalpaca.Server.Transaction.{Got, got, refused, find, Params}

-- The two results of a put function: (false, nil), or (true, err).
pub data Outcome : Type 0 where
  unhandled : Outcome
  handled : Error → Outcome

-- What is done to a device: a call in the same process, or a PUT request.
pub data Event (C : Type 0) : Type 0 where
  direct : C → Event C
  request : String → Params → Event C

-- The cases of a switch on a member, each with the member's name.
abbrev pub Cases {ℓ} : Type ℓ → Type ℓ
Cases M = List (String × M)

module _ {D : Type 0} where
  -- `a, err := p.req(name); if err != nil { return true, err }` before the rest.
  unfoldable pub with_arg {ℓ} : {A : Type ℓ} → Got A → (A → D → D × Error) → D → D × Error
  with_arg (got a) rest d = rest a d
  with_arg (refused err) rest d = (d, some err)

  -- `if err := gate; err != nil { return true, err }` before the call.
  unfoldable pub gated : Error → (D → D × Error) → D → D × Error
  gated none call d = call d
  gated (some err) call d = (d, some err)

  -- The case of a member, if there is one.
  unfoldable pub dispatch {ℓ} :
      {M : Type ℓ} → Cases M → (M → D → D × Error) → String → D → D × Outcome
  unfolding find
  dispatch cases call member d = elim (find member cases) [
    | none ↦ (d, unhandled)
    | some m ↦ let (d', err) = call m d in (d', handled err)
  ]

  module _ {C : Type 0} (step : ℕ → C → D → D) (put : ℕ → String → Params → D → D × Outcome) where
    unfoldable pub serve : ℕ → Event C → D → D
    serve now (direct c) d = step now c d
    serve now (request member p) d = (put now member p d).0

    -- Events in order, each with its time.
    unfoldable pub serve_all : List (ℕ × Event C) → D → D
    unfolding serve
    serve_all [] d = d
    serve_all ((now, e) ∷ events) d = serve_all events (serve now e d)
