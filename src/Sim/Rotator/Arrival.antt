-- ===== src/Sim/Rotator/Arrival.antt =====
-- The end of a move.
use goalpaca.Prelude.{
  refl, ◌∙◌, pos, neg, ◌+ℤ◌, ◌-ℤ◌, ℕ, Bool-cases, inl, inr, ap, not, ◌≡◌, true, false, arith,
}
use goalpaca.Float.{Float64, Ieee, IsBounded}
use goalpaca.Sim.Angles.{shortest_delta, traveled, wrap360}
use goalpaca.Sim.Angles.Bounds.{shortest_delta-Within, IsBounded-of_Within, Within-int}
use goalpaca.Sim.Rotator
use goalpaca.Sim.Rotator.Valid.{IsValid, begin_move-IsValid}

module _ (f : Float64) (now later : ℕ) (r : Rotator.Rotator f) where
  at_rest : r.moving ≡ false → Rotator.current_mechanical f later r ≡ (r, r.start)
  unfolding Rotator.current_mechanical
  at_rest h = ground arith

  -- Halt stops the rotator where it is: the angle that is read at that time is read at every later
  -- time too, it is the target, and the rotator does not move.
  pub halt_lem :
      let halted = Rotator.halt f now r in
      ((Rotator.mechanical_position f later halted).1 ≡ (Rotator.mechanical_position f now r).1)
      × (halted.target ≡ (Rotator.mechanical_position f now r).1)
      × ((Rotator.is_moving f later halted).1 ≡ false)
  unfolding Rotator.mechanical_position Rotator.is_moving Rotator.current_mechanical Rotator.halt
  halt_lem = ground arith

-- The difference of two angles is neither 0 nor a full turn or more.
abbrev pub IsApart : (f : Float64) → f.F → f.F → Type 0
IsApart f from to =
    (f.lt (f.of_int (neg 360)) (f.sub to from) ≡ true)
    × (f.lt (f.sub to from) (f.of_int (pos 360)) ≡ true)
    × (f.eq (f.sub to from) (f.of_int (pos 0)) ≡ false)

module _ (f : Float64) (ieee : Ieee f) where
  open f use {F, lt, le, eq, add, sub, of_int}

  -- The rate does not change when a move begins.
  current_mechanical-rate :
      (now : ℕ) (r : Rotator.Rotator f) → (Rotator.current_mechanical f now r).0.rate ≡ r.rate
  unfolding Rotator.current_mechanical
  current_mechanical-rate now r = ground arith

  -- Two angles that differ, and not by a full turn or more, are some way apart.
  shortest_delta-apart :
      (from to : F) → IsApart f from to → eq (shortest_delta f from to) (of_int (pos 0)) ≡ false
  unfolding shortest_delta ◌+ℤ◌
  shortest_delta-apart from to (over, under, differ) =
      let d = sub to from in
      let exact : f.mod_of d (of_int (pos 360)) ≡ d = ieee.mod_small 360 d over under in
      elim (Bool-cases (lt d (of_int (neg 180)))) [
        | inl left ↦
            let up = add d (of_int (pos 360)) in
            let near =
              ieee.add_within (neg 360) (neg 180) (pos 360) (pos 360) d _ (omega arith)
                (ieee.le_of_lt _ d over, ieee.le_of_lt d _ left) (Within-int f ieee (pos 360)) in
            rw (exact, left, ieee.not_lt_of_le up (of_int (pos 180)) near.1)
              ((ieee.not_eq_of_lt _ up (ieee.add_positive 360 d (omega arith) over)).1)
        | inr here ↦ elim (Bool-cases (lt (of_int (pos 180)) d)) [
          | inl right ↦
              rw (exact, here, right)
                ((ieee.not_eq_of_lt _ _ (ieee.sub_negative 360 d (omega arith) under)).0)
          | inr near ↦ rw (exact, here, near) differ
        ]
      ]

  begin_move-started :
      (now : ℕ) (angle : F) (r : Rotator.Rotator f)
      → let moved = Rotator.begin_move f now angle r in
        (moved.rate ≡ r.rate) × (moved.start_time ≡ now) × (moved.target ≡ wrap360 f angle)
  unfolding Rotator.begin_move
  begin_move-started now angle r = (current_mechanical-rate now r, refl, refl)

  begin_move-starts :
      (now : ℕ) (angle : F) (r : Rotator.Rotator f)
      → IsApart f (Rotator.mechanical_position f now r).1 (wrap360 f angle)
      → (Rotator.begin_move f now angle r).moving ≡ true
  unfolding Rotator.begin_move Rotator.mechanical_position
  begin_move-starts now angle r apart = ap not (shortest_delta-apart _ _ apart)

  -- No way is longer than half a turn.
  way_le :
      (r : Rotator.Rotator f)
      → IsValid f r
      → le (f.abs (shortest_delta f r.start r.target)) (of_int (pos 180)) ≡ true
  unfolding ◌-ℤ◌
  way_le r v =
      let apart =
        ieee.sub_within (pos 0) (pos 360) (pos 0) (pos 360) _ _ (omega arith) v.target_in
          v.start_in in
      let dist =
        shortest_delta-Within f ieee r.start r.target
          (IsBounded-of_Within f ieee (neg 360) (pos 360) _ (omega arith) (omega arith) apart) in
      (ieee.abs_within 180 _ dist).1

  reads_target :
      (t later : ℕ) (r : Rotator.Rotator f)
      → r.moving ≡ true
      → le (f.abs (shortest_delta f r.start r.target)) (traveled f t r.start_time r.rate) ≡ true
      → let (settled, angle) = Rotator.mechanical_position f t r in
        (angle ≡ r.target)
        × ((Rotator.mechanical_position f later settled).1 ≡ r.target)
        × ((Rotator.is_moving f later settled).1 ≡ false)
  unfolding Rotator.mechanical_position Rotator.is_moving Rotator.current_mechanical
  reads_target t later r on arrived = ground arith

  -- MoveMechanical from any state whose angles lie in a turn and whose rate is a number and not
  -- negative, to an angle that is a number and, brought into a turn, differs from the present reading
  -- by less than a full turn and not by 0: once the rotator has had the time for half a turn at its
  -- rate, it reads the angle, brought into a turn, and it reads it at every later time and does not
  -- move.
  pub move_mechanical-arrives :
      (now t later : ℕ) (angle : F) (r : Rotator.Rotator f)
      → IsValid f r
      → IsBounded f angle
      → IsApart f (Rotator.mechanical_position f now r).1 (wrap360 f angle)
      → le (of_int (pos 180)) (traveled f t now r.rate) ≡ true
      → let (settled, reached) =
          Rotator.mechanical_position f t (Rotator.move_mechanical f now angle r) in
        (reached ≡ wrap360 f angle)
        × ((Rotator.mechanical_position f later settled).1 ≡ wrap360 f angle)
        × ((Rotator.is_moving f later settled).1 ≡ false)
  unfolding Rotator.move_mechanical
  move_mechanical-arrives now t later angle r v bounded apart enough =
      let moved = Rotator.begin_move f now angle r in
      let (rate, started, aimed) = begin_move-started now angle r in
      let way = way_le moved (begin_move-IsValid f ieee now angle r bounded v) in
      let covered : le (f.abs (shortest_delta f moved.start moved.target))
            (traveled f t moved.start_time moved.rate)
          ≡ true =
        rw (rate, started) (ieee.le_trans _ _ _ way enough) in
      let (a, b, c) = reads_target t later moved (begin_move-starts now angle r apart) covered in
      (a ∙ aimed, b ∙ aimed, c)
