-- ===== src/Sim/Rotator.antt =====
-- sim/rotator.go. A method that changes the rotator returns the new one.
pub mod Valid
pub mod Range
pub mod Arrival
use goalpaca.Prelude.{ℕ, Bool, true, false, if◌then◌else◌, Option, none, some, pos, neg, not, ◌||◌}
use goalpaca.Float.{Float64}
use goalpaca.Sim.Angles.{wrap360, shortest_delta, traveled}
use goalpaca.Alpaca.Errors.{Error, err_invalid_value}

pub record Rotator (f : Float64) : Type 0 where
  pub rate : f.F
  pub can_reverse : Bool
  pub reverse : Bool
  pub sync_offset : f.F
  pub start : f.F
  pub target : f.F
  pub start_time : ℕ
  pub moving : Bool

module _ (f : Float64) where
  open f use {F, lt, le, eq, add, sub, mul, abs, copysign, of_int, decimal}

  unfoldable pub with_rotation_rate : F → Rotator f → Rotator f
  with_rotation_rate deg_per_sec r = record r { rate = deg_per_sec }

  unfoldable pub new_rotator : Rotator f
  new_rotator = record {
    rate = of_int (pos 3);
    can_reverse = true;
    reverse = false;
    sync_offset = of_int (pos 0);
    start = of_int (pos 0);
    target = of_int (pos 0);
    start_time = 0;
    moving = false;
  }

  -- The present mechanical angle; on arrival the move is settled.
  unfoldable pub current_mechanical : ℕ → Rotator f → Rotator f × F
  current_mechanical now r =
      let dist = shortest_delta f r.start r.target in
      let gone = traveled f now r.start_time r.rate in
      if not r.moving
      then (r, r.start)
      else if le (abs dist) gone
      then (record r { start = r.target; moving = false }, r.target)
      else (r, wrap360 f (add r.start (copysign gone dist)))

  unfoldable pub begin_move : ℕ → F → Rotator f → Rotator f
  begin_move now target_mech r =
      let (settled, start) = current_mechanical now r in
      let target = wrap360 f target_mech in
      record settled {
        start = start;
        target = target;
        start_time = now;
        moving = not (eq (shortest_delta f start target) (of_int (pos 0)));
      }

  unfoldable pub is_moving : ℕ → Rotator f → Rotator f × Bool
  is_moving now r = let settled = (current_mechanical now r).0 in (settled, settled.moving)

  unfoldable pub mechanical_position : ℕ → Rotator f → Rotator f × F
  mechanical_position now r = current_mechanical now r

  unfoldable pub position : ℕ → Rotator f → Rotator f × F
  position now r =
      let (settled, angle) = current_mechanical now r in
      (settled, wrap360 f (add angle settled.sync_offset))

  unfoldable pub target_position : Rotator f → F
  target_position r = wrap360 f (add r.target r.sync_offset)

  unfoldable pub set_reverse : Bool → Rotator f → Rotator f
  set_reverse v r = record r { reverse = v }

  unfoldable pub step_size : Rotator f → F
  step_size r = mul r.rate (decimal (pos 25) 2)

  unfoldable pub halt : ℕ → Rotator f → Rotator f
  halt now r =
      let (settled, angle) = current_mechanical now r in
      record settled { start = angle; target = angle; moving = false }

  unfoldable pub move_absolute : ℕ → F → Rotator f → Rotator f
  move_absolute now angle r = begin_move now (sub angle r.sync_offset) r

  -- A move by an offset; one of a full turn or more is refused.
  unfoldable pub move : ℕ → F → Rotator f → Rotator f × Error
  move now relative r =
      let (settled, angle) = current_mechanical now r in
      if le relative (of_int (neg 360)) || le (of_int (pos 360)) relative
      then (r, some err_invalid_value)
      else (begin_move now (add angle relative) settled, none)

  unfoldable pub move_mechanical : ℕ → F → Rotator f → Rotator f
  move_mechanical now angle r = begin_move now angle r

  unfoldable pub sync : ℕ → F → Rotator f → Rotator f
  sync now angle r =
      let (settled, mechanical) = current_mechanical now r in
      record settled { sync_offset = wrap360 f (sub angle mechanical) }
