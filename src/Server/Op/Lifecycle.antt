-- ===== src/Server/Op/Lifecycle.antt =====
-- The operation of an initiator that ends each start once.
use goalpaca.Prelude.{◌≡◌, ◌≢◌, true, none, some, ◌↔◌, arith}
use goalpaca.Alpaca.Errors.{GoError}
use goalpaca.Server.Op.{Op, op_failed, new_op, is_busy, begin, try_begin, complete, fail, reset}

-- The calls in the order of the lifecycle: an operation ends, with an error where it fails, only
-- while it is busy.
pub data Step : Op → Op → Type 0 where
  begins : (o : Op) → Step o (begin o)
  tries : (o : Op) → Step o (try_begin o).0
  completes : (o : Op) → is_busy o.state ≡ true → Step o (complete o)
  fails : (o : Op) (e : GoError) → is_busy o.state ≡ true → Step o (fail (some e) o)
  resets : (o : Op) → Step o (reset o)

pub data Reach (o : Op) : Op → Type 0 where
  here : Reach o o
  next : {p q : Op} → Reach o p → Step p q → Reach o q

-- There is an error in the failed state, and in no other.
pub record IsHonest (o : Op) : Type 0 where
  pub failed : o.state ≡ op_failed → o.err ≢ none
  pub others : o.err ≢ none → o.state ≡ op_failed

Step-IsHonest : {o p : Op} → Step o p → IsHonest o → IsHonest p
unfolding begin try_begin complete fail reset
Step-IsHonest (begins o) h = ground arith
Step-IsHonest (tries o) h = ground arith
Step-IsHonest (completes o b) h = ground arith
Step-IsHonest (fails o e b) h = ground arith
Step-IsHonest (resets o) h = ground arith

Reach-IsHonest : {o p : Op} → Reach o p → IsHonest o → IsHonest p
Reach-IsHonest here h = h
Reach-IsHonest (next r s) h = Step-IsHonest s (Reach-IsHonest r h)

-- Where Complete and Fail are called only on a busy operation, and Fail with an error, every state
-- that is reached from a new operation has an error exactly when it is the failed one. The methods
-- do not check this themselves.
pub Reach-err : {o : Op} → Reach new_op o → (o.err ≢ none) ↔ (o.state ≡ op_failed)
unfolding new_op
Reach-err r =
    let h = Reach-IsHonest r (record { failed = λ e. ground arith; others = λ e. ground arith }) in
    (h.others, h.failed)
