-- ===== src/Server/Op/Exclusive.antt =====
-- Who may start an operation that several threads try to start.
use goalpaca.Prelude.{ℕ, ◌+◌, ◌≤◌, ◌≡◌, false, List, [], ◌∷◌, if◌then◌else◌, arith}
use goalpaca.Alpaca.Errors.{Error}
use goalpaca.Server.Op.{Op, begin, try_begin, complete, fail, reset, busy}

-- The calls of all the threads, in the order in which they get the lock; `start` is Begin, which
-- asks nothing.
pub data Call : Type 0 where
  start : Call
  try : Call
  finish : Call
  break_off : Error → Call
  give_up : Call
  ask : Call

-- A run: the operation at the end, the starts that were granted, and the ends of one.
pub record Tally : Type 0 where
  pub op : Op
  pub granted : ℕ
  pub ended : ℕ

unfoldable pub step : Call → Tally → Tally
step start t = record t { op = begin t.op }
step try t =
    let (o, started) = try_begin t.op in
    record t { op = o; granted = if started then t.granted + 1 else t.granted }
step finish t = record t { op = complete t.op; ended = t.ended + 1 }
step (break_off err) t = record t { op = fail err t.op; ended = t.ended + 1 }
step give_up t = record t { op = reset t.op; ended = t.ended + 1 }
step ask t = t

unfoldable pub run : List Call → Tally → Tally
run [] t = t
run (c ∷ calls) t = run calls (step c t)

-- The operation runs only on a start that has not ended.
abbrev pub IsCounted : Tally → Type 0
IsCounted t = t.granted ≤ t.ended + (if busy t.op then 1 else 0)

step-IsCounted : (c : Call) (t : Tally) → IsCounted t → IsCounted (step c t)
unfolding step begin try_begin complete fail reset busy
step-IsCounted start t h = ground arith
step-IsCounted try t h = ground arith
step-IsCounted finish t h = ground arith
step-IsCounted (break_off err) t h = ground arith
step-IsCounted give_up t h = ground arith
step-IsCounted ask t h = h

run-IsCounted : (calls : List Call) (t : Tally) → IsCounted t → IsCounted (run calls t)
unfolding run
run-IsCounted [] t h = h
run-IsCounted (c ∷ calls) t h = run-IsCounted calls (step c t) (step-IsCounted c t h)

-- From an operation that is not busy, whatever calls the threads make, Begin among them, and in
-- whatever order: the starts that TryBegin has granted are at most one more than the calls of
-- Complete, Fail and Reset, and no more than these when the operation is not busy at the end.
pub try_begin-exclusive :
    (calls : List Call) (o : Op)
    → busy o ≡ false
    → let t = run calls (record { op = o; granted = 0; ended = 0 }) in
      (t.granted ≤ t.ended + 1) × (t.granted ≤ t.ended + (if busy t.op then 1 else 0))
unfolding busy
try_begin-exclusive calls o idle =
    let h = run-IsCounted calls (record { op = o; granted = 0; ended = 0 }) (omega arith) in
    (ground arith, h)
