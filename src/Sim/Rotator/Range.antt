-- ===== src/Sim/Rotator/Range.antt =====
-- Every angle that the rotator reports lies in a turn.
use goalpaca.Prelude.{
  none, Bool-cases, inl, inr, ℕ, ◌≡◌, Bool, true, pos, arith, List, [], ◌∷◌, All,
}
use goalpaca.Float.{Float64, Ieee, Within, IsBounded}
use goalpaca.Sim.Angles.Bounds.{Within-weaken, Within-int, wrap360-Within}
use goalpaca.Server.Gates.{Sprintf}
use goalpaca.Server.Gates.Devices.{gate_rotator_position}
use goalpaca.Server.Gates.Ranges.{gate_rotator_position_lem}
use goalpaca.Sim.Rotator
use goalpaca.Sim.Rotator.Valid.{
  IsValid, widen, difference-IsBounded, current_mechanical-IsValid, sum-IsBounded,
  begin_move-IsValid, move-IsValid,
}

-- The calls of a client. A reading of any of the positions settles the move in the same way.
pub data Call (f : Float64) : Type 0 where
  read : Call f
  halt : Call f
  set_reverse : Bool → Call f
  move_absolute : f.F → Call f
  move : f.F → Call f
  move_mechanical : f.F → Call f
  sync : f.F → Call f

-- The arguments are numbers, no NaN and no infinity, and the angles of MoveAbsolute, MoveMechanical
-- and Sync have passed the server's gate, which a NaN passes too.
abbrev pub IsGated : (f : Float64) → Sprintf f → Call f → Type 0
IsGated f sprintf read = Unit {0}
IsGated f sprintf halt = Unit {0}
IsGated f sprintf (set_reverse b) = Unit {0}
IsGated f sprintf (move_absolute angle) =
    IsBounded f angle × (gate_rotator_position f sprintf angle ≡ none)
IsGated f sprintf (move relative) = IsBounded f relative
IsGated f sprintf (move_mechanical angle) =
    IsBounded f angle × (gate_rotator_position f sprintf angle ≡ none)
IsGated f sprintf (sync angle) = IsBounded f angle × (gate_rotator_position f sprintf angle ≡ none)

pub step : (f : Float64) → ℕ → Call f → Rotator.Rotator f → Rotator.Rotator f
step f now read r = (Rotator.is_moving f now r).0
step f now halt r = Rotator.halt f now r
step f now (set_reverse b) r = Rotator.set_reverse f b r
step f now (move_absolute angle) r = Rotator.move_absolute f now angle r
step f now (move relative) r = (Rotator.move f now relative r).0
step f now (move_mechanical angle) r = Rotator.move_mechanical f now angle r
step f now (sync angle) r = Rotator.sync f now angle r

-- The calls in the order in which they reach the rotator, each with its time.
pub run : (f : Float64) → List (ℕ × Call f) → Rotator.Rotator f → Rotator.Rotator f
run f [] r = r
run f ((now, c) ∷ calls) r = run f calls (step f now c r)

module _ (f : Float64) (ieee : Ieee f) (sprintf : Sprintf f) where
  open f use {F, le, add, sub, of_int, abs, copysign}

  -- The gate leaves a number of a turn.
  gated-Within :
      (angle : F)
      → IsBounded f angle × (gate_rotator_position f sprintf angle ≡ none)
      → Within f (pos 0) (pos 360) angle
  gated-Within angle ((lo, hi, _, _, (low, high)), ok) =
      let zero_is : le (of_int (pos 0)) (of_int (pos 0)) ≡ true =
        ieee.of_int_le _ _ (omega arith) in
      let full_is : le (of_int (pos 360)) (of_int (pos 360)) ≡ true =
        ieee.of_int_le _ _ (omega arith) in
      let self : le angle angle ≡ true = elim (Bool-cases (le angle angle)) [
        | inl e ↦ e
        | inr e ↦ ieee.le_of_not_le (of_int lo) (of_int lo) angle angle low low e
      ] in
      let (above, below) = (gate_rotator_position_lem f ieee sprintf angle (self, zero_is)).0 ok in
      (
        above,
        ieee.le_of_not_le (of_int (pos 360)) (of_int lo) (of_int (pos 360)) angle full_is low below,
      )

  step-IsValid :
      (now : ℕ) (c : Call f) (r : Rotator.Rotator f)
      → IsGated f sprintf c
      → IsValid f r
      → IsValid f (step f now c r)
  unfolding step Rotator.halt Rotator.move_absolute Rotator.move_mechanical Rotator.sync
      Rotator.set_reverse Rotator.is_moving
  step-IsValid now read r g v = (current_mechanical-IsValid f ieee now r v).0
  step-IsValid now halt r g v =
      let (settled, in_turn) = current_mechanical-IsValid f ieee now r v in
      record {
        start_in = in_turn;
        target_in = in_turn;
        offset_in = settled.offset_in;
        rate_bounded = settled.rate_bounded;
        rate_nonneg = settled.rate_nonneg;
      }
  step-IsValid now (set_reverse b) r g v = record {
    start_in = v.start_in;
    target_in = v.target_in;
    offset_in = v.offset_in;
    rate_bounded = v.rate_bounded;
    rate_nonneg = v.rate_nonneg;
  }
  step-IsValid now (move_absolute angle) r g v =
      begin_move-IsValid f ieee now _ r
        (difference-IsBounded f ieee angle r.sync_offset (gated-Within angle g) v.offset_in) v
  step-IsValid now (move relative) r g v = move-IsValid f ieee now relative r g v
  step-IsValid now (move_mechanical angle) r g v = begin_move-IsValid f ieee now angle r g.0 v
  step-IsValid now (sync angle) r g v =
      let (settled, in_turn) = current_mechanical-IsValid f ieee now r v in
      record {
        start_in = settled.start_in;
        target_in = settled.target_in;
        offset_in =
            wrap360-Within f ieee _
              (difference-IsBounded f ieee angle _ (gated-Within angle g) in_turn);
        rate_bounded = settled.rate_bounded;
        rate_nonneg = settled.rate_nonneg;
      }

  run-IsValid :
      (calls : List (ℕ × Call f)) (r : Rotator.Rotator f)
      → All (λ c. IsGated f sprintf c.1) calls
      → IsValid f r
      → IsValid f (run f calls r)
  unfolding run
  run-IsValid [] r g v = v
  run-IsValid ((now, c) ∷ calls) r g v =
      run-IsValid calls (step f now c r) g.1 (step-IsValid now c r g.0 v)

  new_rotator-IsValid :
      (rate : F)
      → IsBounded f rate
      → le (of_int (pos 0)) rate ≡ true
      → IsValid f (Rotator.with_rotation_rate f rate (Rotator.new_rotator f))
  unfolding Rotator.with_rotation_rate Rotator.new_rotator
  new_rotator-IsValid rate bounded nonneg =
      let zero_in =
        Within-weaken f ieee (pos 0) (pos 0) (pos 0) (pos 360) _ (omega arith) (omega arith)
          (Within-int f ieee (pos 0)) in
      record {
        start_in = zero_in;
        target_in = zero_in;
        offset_in = zero_in;
        rate_bounded = bounded;
        rate_nonneg = nonneg;
      }

  -- Whatever calls have come since the rotator was made with a rate that is a number and not
  -- negative, its mechanical angle, its position and its target read as numbers from 0 to 360
  -- degrees, at any time. The arguments of the calls are numbers, neither a NaN nor an infinity, and
  -- the angles have passed the gate.
  pub positions_in_turn :
      (rate : F) (calls : List (ℕ × Call f)) (now : ℕ)
      → IsBounded f rate
      → le (of_int (pos 0)) rate ≡ true
      → All (λ c. IsGated f sprintf c.1) calls
      → let r = run f calls (Rotator.with_rotation_rate f rate (Rotator.new_rotator f)) in
        Within f (pos 0) (pos 360) (Rotator.mechanical_position f now r).1
        × Within f (pos 0) (pos 360) (Rotator.position f now r).1
        × Within f (pos 0) (pos 360) (Rotator.target_position f r)
  unfolding Rotator.mechanical_position Rotator.position Rotator.target_position
  positions_in_turn rate calls now bounded nonneg gated =
      let v = run-IsValid calls _ gated (new_rotator-IsValid rate bounded nonneg) in
      let (settled, in_turn) = current_mechanical-IsValid f ieee now _ v in
      (
        in_turn,
        wrap360-Within f ieee _
            (sum-IsBounded f ieee _ _ in_turn (widen f ieee _ settled.offset_in)),
        wrap360-Within f ieee _ (sum-IsBounded f ieee _ _ v.target_in (widen f ieee _ v.offset_in)),
      )
