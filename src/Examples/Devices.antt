-- ===== src/Examples/Devices.antt =====
-- Runs of the simulated devices.
use goalpaca.Prelude.{
  some, length, ℕ, pos, ◌≡◌, refl, arith, true, false, List, [], ◌∷◌, ◌*ℤ◌, ◌+ℤ◌, ◌-ℤ◌,
}
use goalpaca.Float.{Within}
use goalpaca.Float.Exact.{exact, exact_ieee, num}
use goalpaca.Sim.Angles.{traveled, shortest_delta, wrap360}
use goalpaca.Sim.Focuser
use goalpaca.Sim.Focuser.Travel.{move_arrives, clamp_target}
use goalpaca.Sim.Rotator
use goalpaca.Sim.Rotator.Range
use goalpaca.Sim.Rotator.Range.{positions_in_turn}
use goalpaca.Sim.Rotator.Arrival.{move_mechanical-arrives}
use goalpaca.Sim.Rotator.Valid.{IsValid}
use goalpaca.Sim.Switch
use goalpaca.Sim.Switch.Written.{set_switch_value_lem}
use goalpaca.Server.Gates.Devices.{
  gate_rotator_position, gate_switch_value, valid_switch_id, gate_switch_bounds,
}

abbrev focuser : Focuser.Focuser exact
focuser = record {
  max_step = pos 50000;
  step_rate = num (pos 5000);
  start = pos 700;
  target = pos 700;
  start_time = 0;
  moving = false;
  temp_comp = false;
}

-- Eleven seconds are enough for every way.
move_arrives_example :
    ((Focuser.position exact 11000000000 (Focuser.move exact 0 (pos 60000) focuser)).1
      ≡ clamp_target (pos 60000) (pos 50000))
    × ((Focuser.is_moving exact 11000000000 (Focuser.move exact 0 (pos 60000) focuser)).1 ≡ false)
unfolding Focuser.steps_since Focuser.move Focuser.current traveled ◌*ℤ◌
move_arrives_example =
    move_arrives exact 0 11000000000 (pos 60000) focuser (omega arith)
      (record {
        start_in = (omega arith, omega arith);
        target_in = (omega arith, omega arith);
        max_fixed = refl;
      })
      (omega arith)

-- A rotator that turns 10 degrees in a second, at rest at 350 degrees.
abbrev rotator : Rotator.Rotator exact
rotator = record {
  rate = num (pos 10);
  can_reverse = true;
  reverse = false;
  sync_offset = num (pos 0);
  start = num (pos 350);
  target = num (pos 350);
  start_time = 0;
  moving = false;
}

rotator-IsValid : IsValid exact rotator
rotator-IsValid = record {
  start_in = (refl, refl);
  target_in = (refl, refl);
  offset_in = (refl, refl);
  rate_bounded = (pos 0, pos 10, omega arith, omega arith, (refl, refl));
  rate_nonneg = refl;
}

move_mechanical-arrives_example :
    let (settled, reached) =
      Rotator.mechanical_position exact 20000000000
        (Rotator.move_mechanical exact 1000000000 (num (pos 10)) rotator) in
    (reached ≡ wrap360 exact (num (pos 10)))
    × ((Rotator.mechanical_position exact 90000000000 settled).1 ≡ wrap360 exact (num (pos 10)))
    × ((Rotator.is_moving exact 90000000000 settled).1 ≡ false)
unfolding Rotator.move_mechanical Rotator.mechanical_position Rotator.begin_move Rotator.is_moving
    Rotator.current_mechanical traveled shortest_delta wrap360 ◌*ℤ◌ ◌-ℤ◌ ◌+ℤ◌
move_mechanical-arrives_example =
    move_mechanical-arrives exact exact_ieee 1000000000 20000000000 90000000000 (num (pos 10))
      rotator rotator-IsValid (pos 0, pos 10, omega arith, omega arith, (refl, refl))
      (refl, refl, refl) refl

abbrev rotator_calls : List (ℕ × Range.Call exact)
rotator_calls =
    (1000000000, Range.move_absolute (num (pos 350)))
    ∷ (2000000000, Range.move (num (pos 30)))
    ∷ (3000000000, Range.sync (num (pos 5)))
    ∷ (4000000000, Range.halt)
    ∷ []

positions_in_turn_example :
    let r =
      Range.run exact rotator_calls
        (Rotator.with_rotation_rate exact (num (pos 10)) (Rotator.new_rotator exact)) in
    Within exact (pos 0) (pos 360) (Rotator.mechanical_position exact 5000000000 r).1
    × Within exact (pos 0) (pos 360) (Rotator.position exact 5000000000 r).1
    × Within exact (pos 0) (pos 360) (Rotator.target_position exact r)
unfolding gate_rotator_position
positions_in_turn_example =
    positions_in_turn exact exact_ieee (λ format a. format) (num (pos 10)) rotator_calls 5000000000
      (pos 0, pos 10, omega arith, omega arith, (refl, refl)) refl
      (
        ((pos 0, pos 350, omega arith, omega arith, (refl, refl)), refl),
        (
          (pos 0, pos 30, omega arith, omega arith, (refl, refl)),
          (((pos 0, pos 5, omega arith, omega arith, (refl, refl)), refl), (tt, tt)),
        ),
      )

abbrev switches : Switch.Switch exact
switches = record { n = 2; values = num (pos 0) ∷ num (pos 7) ∷ [] }

set_switch_value_lem_example :
    (s' : Switch.Switch exact) × (Switch.set_switch_value exact (pos 0) (num (pos 40)) switches
      ≡ some s')
    × (Switch.get_switch_value exact (pos 0) s' ≡ some (num (pos 40)))
    × (Switch.get_switch_value exact (pos 1) s' ≡ Switch.get_switch_value exact (pos 1) switches)
    × (length s'.values ≡ s'.n)
unfolding gate_switch_value valid_switch_id gate_switch_bounds
set_switch_value_lem_example =
    set_switch_value_lem exact (λ format a. format) switches (pos 0) (pos 1) (num (pos 40)) refl
      refl (λ e. ground arith)
