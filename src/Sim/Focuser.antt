-- ===== src/Sim/Focuser.antt =====
-- sim/focuser.go: an absolute focuser that counts in whole steps.
pub mod Travel
pub mod Served
use goalpaca.Prelude.{
  ℕ, Bool, true, false, not, if◌then◌else◌, ℤ, pos, ◌+ℤ◌, ◌-ℤ◌, ltb_ℤ, leb_ℤ, eqb_ℤ,
}
use goalpaca.Float.{Float64}
use goalpaca.Sim.Angles.{traveled}

pub record Focuser (f : Float64) : Type 0 where
  pub max_step : ℤ
  pub step_rate : f.F
  pub start : ℤ
  pub target : ℤ
  pub start_time : ℕ
  pub moving : Bool
  pub temp_comp : Bool

module _ (f : Float64) where
  unfoldable pub with_step_rate : f.F → Focuser f → Focuser f
  with_step_rate steps_per_sec s = record s { step_rate = steps_per_sec }

  unfoldable pub new_focuser : Focuser f
  new_focuser = record {
    max_step = pos 50000;
    step_rate = f.of_int (pos 5000);
    start = pos 0;
    target = pos 0;
    start_time = 0;
    moving = false;
    temp_comp = false;
  }

  -- int(time.Since(startTime).Seconds() * stepRate)
  unfoldable pub steps_since : ℕ → Focuser f → ℤ
  steps_since now s = f.trunc (traveled f now s.start_time s.step_rate)

  unfoldable pub current : ℕ → Focuser f → Focuser f × ℤ
  current now s =
      let dist = s.target -ℤ s.start in
      let mag = if ltb_ℤ dist (pos 0) then pos 0 -ℤ dist else dist in
      let gone = steps_since now s in
      if not s.moving
      then (s, s.start)
      else if leb_ℤ mag gone
      then (record s { start = s.target; moving = false }, s.target)
      else if leb_ℤ (pos 0) dist
      then (s, s.start +ℤ gone)
      else (s, s.start -ℤ gone)

  unfoldable pub set_temp_comp : Bool → Focuser f → Focuser f
  set_temp_comp v s = record s { temp_comp = v }

  unfoldable pub position : ℕ → Focuser f → Focuser f × ℤ
  position now s = current now s

  unfoldable pub is_moving : ℕ → Focuser f → Focuser f × Bool
  is_moving now s = let settled = (current now s).0 in (settled, settled.moving)

  -- The two tests that clamp the target run one after the other.
  unfoldable pub move : ℕ → ℤ → Focuser f → Focuser f
  move now target s =
      let target' = if ltb_ℤ target (pos 0) then pos 0 else target in
      let target'' = if ltb_ℤ s.max_step target' then s.max_step else target' in
      let (settled, start) = current now s in
      record settled {
        start = start;
        target = target'';
        start_time = now;
        moving = not (eqb_ℤ start target'');
      }

  unfoldable pub halt : ℕ → Focuser f → Focuser f
  halt now s =
      let (settled, angle) = current now s in
      record settled { start = angle; target = angle; moving = false }
