-- ===== src/Server/Op.antt =====
-- server/op.go: the lifecycle of an asynchronous operation. The mutex makes each method one step.
pub mod Exclusive
pub mod Lifecycle
use goalpaca.Prelude.{Bool, true, false, Option, none, some}
use goalpaca.Alpaca.Errors.{GoError, Error}

pub data OpState : Type 0 where
  op_idle op_busy op_done op_failed : OpState

pub record Op : Type 0 where
  pub state : OpState
  pub err : Error

-- The zero value.
unfoldable pub new_op : Op
new_op = record { state = op_idle; err = none }

-- `state == OpBusy`
abbrev pub is_busy : OpState → Bool
is_busy op_idle = false
is_busy op_busy = true
is_busy op_done = false
is_busy op_failed = false

unfoldable pub begin : Op → Op
begin o = record o { state = op_busy; err = none }

unfoldable pub try_begin : Op → Op × Bool
try_begin o = elim (is_busy o.state) [
  | true ↦ (o, false)
  | false ↦ (record o { state = op_busy; err = none }, true)
]

unfoldable pub complete : Op → Op
complete o = record o { state = op_done }

unfoldable pub fail : Error → Op → Op
fail err o = record o { state = op_failed; err = err }

unfoldable pub reset : Op → Op
reset o = record o { state = op_idle; err = none }

unfoldable pub busy : Op → Bool
busy o = is_busy o.state
