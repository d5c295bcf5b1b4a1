-- ===== src/Sim/Dome.antt =====
-- sim/dome.go, and the states of alpaca/dome.go.
pub mod Flags
pub mod Shutter
pub mod Served
use goalpaca.Prelude.{ℕ, ◌-◌, Bool, true, false, not, ◌&&◌, ◌||◌, if◌then◌else◌, ◌==◌, pos}
use goalpaca.Float.{Float64}
use goalpaca.Sim.Angles.{wrap360, shortest_delta, traveled}

pub data ShutterState : Type 0 where
  shutter_open shutter_closed shutter_opening shutter_closing shutter_err : ShutterState

abbrev pub shutter_number : ShutterState → ℕ
shutter_number shutter_open = 0
shutter_number shutter_closed = 1
shutter_number shutter_opening = 2
shutter_number shutter_closing = 3
shutter_number shutter_err = 4

-- `==` on the states, which are ints.
abbrev pub same_shutter : ShutterState → ShutterState → Bool
same_shutter a b = shutter_number a == shutter_number b

pub record Dome (f : Float64) : Type 0 where
  pub rate : f.F
  pub az_start : f.F
  pub az_target : f.F
  pub az_time : ℕ
  pub az_moving : Bool
  pub alt_start : f.F
  pub alt_target : f.F
  pub alt_time : ℕ
  pub alt_moving : Bool
  pub shutter_state : ShutterState
  pub shutter_target : ShutterState
  pub shutter_time : ℕ
  pub at_home : Bool
  pub at_park : Bool

module _ (f : Float64) where
  open f use {F, le, eq, add, sub, abs, copysign, of_int, seconds}

  unfoldable pub with_dome_rate : F → Dome f → Dome f
  with_dome_rate deg_per_sec d = record d { rate = deg_per_sec }

  unfoldable pub new_dome : Dome f
  new_dome = record {
    rate = of_int (pos 5);
    az_start = of_int (pos 0);
    az_target = of_int (pos 0);
    az_time = 0;
    az_moving = false;
    alt_start = of_int (pos 0);
    alt_target = of_int (pos 0);
    alt_time = 0;
    alt_moving = false;
    shutter_state = shutter_closed;
    shutter_target = shutter_closed;
    shutter_time = 0;
    at_home = false;
    at_park = false;
  }

  unfoldable pub current_azimuth : ℕ → Dome f → Dome f × F
  current_azimuth now d =
      let dist = shortest_delta f d.az_start d.az_target in
      let gone = traveled f now d.az_time d.rate in
      if not d.az_moving
      then (d, d.az_start)
      else if le (abs dist) gone
      then (record d { az_start = d.az_target; az_moving = false }, d.az_target)
      else (d, wrap360 f (add d.az_start (copysign gone dist)))

  unfoldable pub current_altitude : ℕ → Dome f → Dome f × F
  current_altitude now d =
      let dist = sub d.alt_target d.alt_start in
      let gone = traveled f now d.alt_time d.rate in
      if not d.alt_moving
      then (d, d.alt_start)
      else if le (abs dist) gone
      then (record d { alt_start = d.alt_target; alt_moving = false }, d.alt_target)
      else (d, add d.alt_start (copysign gone dist))

  -- time.Since(d.shutterTime).Seconds() >= 1.0
  unfoldable pub shutter_due : ℕ → Dome f → Bool
  shutter_due now d = le (of_int (pos 1)) (seconds (now - d.shutter_time))

  unfoldable pub current_shutter : ℕ → Dome f → Dome f × ShutterState
  current_shutter now d =
      if same_shutter d.shutter_state d.shutter_target
      then (d, d.shutter_state)
      else if shutter_due now d
      then (record d { shutter_state = d.shutter_target }, d.shutter_target)
      else (d, d.shutter_state)

  unfoldable pub begin_azimuth : ℕ → F → Dome f → Dome f
  begin_azimuth now target d =
      let (settled, start) = current_azimuth now d in
      let az_target = wrap360 f target in
      record settled {
        az_start = start;
        az_target = az_target;
        az_time = now;
        az_moving = not (eq (shortest_delta f start az_target) (of_int (pos 0)));
      }

  unfoldable pub begin_altitude : ℕ → F → Dome f → Dome f
  begin_altitude now target d =
      let (settled, start) = current_altitude now d in
      record settled {
        alt_start = start;
        alt_target = target;
        alt_time = now;
        alt_moving = not (eq target start);
      }

  unfoldable pub altitude : ℕ → Dome f → Dome f × F
  altitude now d = current_altitude now d

  unfoldable pub azimuth : ℕ → Dome f → Dome f × F
  azimuth now d = current_azimuth now d

  unfoldable pub is_at_home : ℕ → Dome f → Dome f × Bool
  is_at_home now d =
      let settled = (current_azimuth now d).0 in (settled, settled.at_home && not settled.az_moving)

  unfoldable pub is_at_park : ℕ → Dome f → Dome f × Bool
  is_at_park now d =
      let settled = (current_azimuth now d).0 in (settled, settled.at_park && not settled.az_moving)

  unfoldable pub shutter_status : ℕ → Dome f → Dome f × ShutterState
  shutter_status now d = current_shutter now d

  unfoldable pub slewing : ℕ → Dome f → Dome f × Bool
  slewing now d =
      let settled = (current_altitude now (current_azimuth now d).0).0 in
      let (d', shutter) = current_shutter now settled in
      (d', d'.az_moving || d'.alt_moving || not (same_shutter shutter d'.shutter_target))

  unfoldable pub slew_to_azimuth : ℕ → F → Dome f → Dome f
  slew_to_azimuth now angle d =
      let moved = begin_azimuth now angle d in record moved { at_home = false; at_park = false }

  unfoldable pub slew_to_altitude : ℕ → F → Dome f → Dome f
  slew_to_altitude now angle d = begin_altitude now angle d

  unfoldable pub sync_to_azimuth : F → Dome f → Dome f
  sync_to_azimuth angle d = record d {
    az_start = wrap360 f angle;
    az_target = wrap360 f angle;
    az_moving = false;
  }

  unfoldable pub open_shutter : ℕ → Dome f → Dome f
  open_shutter now d =
      let settled = (current_shutter now d).0 in
      record settled {
        shutter_state = shutter_opening;
        shutter_target = shutter_open;
        shutter_time = now;
      }

  unfoldable pub close_shutter : ℕ → Dome f → Dome f
  close_shutter now d =
      let settled = (current_shutter now d).0 in
      record settled {
        shutter_state = shutter_closing;
        shutter_target = shutter_closed;
        shutter_time = now;
      }

  unfoldable pub find_home : ℕ → Dome f → Dome f
  find_home now d =
      let moved = begin_azimuth now (of_int (pos 0)) d in
      record moved { at_home = true; at_park = false }

  unfoldable pub park : ℕ → Dome f → Dome f
  park now d =
      let moved = begin_azimuth now (of_int (pos 0)) d in
      let settled = (current_shutter now (record moved { at_park = true; at_home = false })).0 in
      record settled {
        shutter_state = shutter_closing;
        shutter_target = shutter_closed;
        shutter_time = now;
      }

  unfoldable pub abort_slew : ℕ → Dome f → Dome f
  abort_slew now d =
      let (turned, az) = current_azimuth now d in
      let stopped = record turned { az_start = az; az_target = az; az_moving = false } in
      let (raised, alt) = current_altitude now stopped in
      record raised {
        alt_start = alt;
        alt_target = alt;
        alt_moving = false;
        at_home = false;
        at_park = false;
      }
