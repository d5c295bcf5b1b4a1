-- ===== src/Sim/Focuser/Travel.antt =====
-- The focuser stays within its travel, and gets to its target.
use goalpaca.Prelude.{
  ℕ, ◌≡◌, refl, ap, ◌∙◌, Bool, false, arith, ℤ, pos, ◌≤ℤ◌, ◌-ℤ◌, +ℤ_parts, -ℤ_parts, List, [], ◌∷◌,
  if◌then◌else◌, ltb_ℤ,
}
use goalpaca.Float.{Float64}
use goalpaca.Sim.Focuser
use goalpaca.Sim.Angles.{traveled}

-- The clock and the rate never give a negative number of steps.
abbrev pub StepsForward : (f : Float64) → f.F → Type 0
StepsForward f rate = (now start : ℕ) → pos 0 ≤ℤ f.trunc (traveled f now start rate)

-- The calls of a client. A reading of the position settles the move.
pub data Call : Type 0 where
  read halt_call : Call
  move_call : ℤ → Call
  temp_comp_call : Bool → Call

unfoldable pub step : (f : Float64) → ℕ → Call → Focuser.Focuser f → Focuser.Focuser f
step f now read s = (Focuser.position f now s).0
step f now halt_call s = Focuser.halt f now s
step f now (move_call target) s = Focuser.move f now target s
step f now (temp_comp_call v) s = Focuser.set_temp_comp f v s

pub run : (f : Float64) → List (ℕ × Call) → Focuser.Focuser f → Focuser.Focuser f
run f [] s = s
run f ((now, c) ∷ calls) s = run f calls (step f now c s)

pub record IsValid (f : Float64) (s : Focuser.Focuser f) : Type 0 where
  pub start_in : (pos 0 ≤ℤ s.start) × (s.start ≤ℤ s.max_step)
  pub target_in : (pos 0 ≤ℤ s.target) × (s.target ≤ℤ s.max_step)
  pub max_fixed : s.max_step ≡ pos 50000

-- The target that a move aims at.
abbrev pub clamp_target : ℤ → ℤ → ℤ
clamp_target target max =
    if ltb_ℤ target (pos 0) then pos 0 else if ltb_ℤ max target then max else target

pub top : (z m : ℤ) → m ≡ pos 50000 → z ≤ℤ m → z ≤ℤ pos 50000
top z m e h = ground arith

bottom : (z m : ℤ) → m ≡ pos 50000 → pos 50000 ≤ℤ z → m ≤ℤ z
bottom z m e h = ground arith

module _ (f : Float64) where
  current-IsValid :
      (now : ℕ) (s : Focuser.Focuser f)
      → pos 0 ≤ℤ Focuser.steps_since f now s
      → IsValid f s
      → IsValid f (Focuser.current f now s).0
        × (pos 0 ≤ℤ (Focuser.current f now s).1)
        × ((Focuser.current f now s).1 ≤ℤ s.max_step)
        × ((Focuser.current f now s).0.max_step ≡ s.max_step)
        × ((Focuser.current f now s).0.step_rate ≡ s.step_rate)
  unfolding Focuser.current
  current-IsValid now s forward v = ground (
    arith,
    -ℤ_parts s.target s.start,
    -ℤ_parts (pos 0) (s.target -ℤ s.start),
    +ℤ_parts s.start (Focuser.steps_since f now s),
    -ℤ_parts s.start (Focuser.steps_since f now s),
  )

  pub reading :
      (rate : f.F) (now : ℕ) (s : Focuser.Focuser f)
      → StepsForward f rate
      → s.step_rate ≡ rate
      → IsValid f s
      → IsValid f (Focuser.current f now s).0
        × (pos 0 ≤ℤ (Focuser.current f now s).1)
        × ((Focuser.current f now s).1 ≤ℤ s.max_step)
        × ((Focuser.current f now s).0.max_step ≡ s.max_step)
        × ((Focuser.current f now s).0.step_rate ≡ s.step_rate)
  unfolding Focuser.steps_since
  reading rate now s forward e v = current-IsValid now s (rw e (forward now s.start_time)) v

  pub step-IsValid :
      (rate : f.F) (now : ℕ) (c : Call) (s : Focuser.Focuser f)
      → StepsForward f rate
      → s.step_rate ≡ rate
      → IsValid f s
      → IsValid f (step f now c s) × ((step f now c s).step_rate ≡ rate)
  unfolding step Focuser.position Focuser.halt Focuser.move Focuser.set_temp_comp
  step-IsValid rate now read s forward e v = ground (arith, reading rate now s forward e v)
  step-IsValid rate now halt_call s forward e v = ground (arith, reading rate now s forward e v)
  step-IsValid rate now (move_call target) s forward e v =
      ground (arith, reading rate now s forward e v)
  step-IsValid rate now (temp_comp_call b) s forward e v = ground arith

  run-IsValid :
      (rate : f.F) (calls : List (ℕ × Call)) (s : Focuser.Focuser f)
      → StepsForward f rate
      → s.step_rate ≡ rate
      → IsValid f s
      → IsValid f (run f calls s) × ((run f calls s).step_rate ≡ rate)
  unfolding run
  run-IsValid rate [] s forward e v = (v, e)
  run-IsValid rate ((now, c) ∷ calls) s forward e v =
      let (v', e') = step-IsValid rate now c s forward e v in
      run-IsValid rate calls (step f now c s) forward e' v'

  -- Whatever calls have come since the focuser was made, for targets of any size and in any order,
  -- its position reads between 0 and its largest step. The rate gives no negative number of steps.
  pub position_in_travel :
      (rate : f.F) (calls : List (ℕ × Call)) (now : ℕ)
      → StepsForward f rate
      → let s = run f calls (Focuser.with_step_rate f rate (Focuser.new_focuser f)) in
        (pos 0 ≤ℤ (Focuser.position f now s).1) × ((Focuser.position f now s).1 ≤ℤ pos 50000)
  unfolding Focuser.with_step_rate Focuser.new_focuser Focuser.position
  position_in_travel rate calls now forward =
      let (v, e) =
        run-IsValid rate calls (Focuser.with_step_rate f rate (Focuser.new_focuser f)) forward refl
          (ground arith) in
      let (_, low, high, _, _) = reading rate now _ forward e v in (low, top _ _ v.max_fixed high)

  arrives :
      (t : ℕ) (s : Focuser.Focuser f)
      → IsValid f s
      → (s.moving ≡ false → s.start ≡ s.target)
      → s.max_step ≤ℤ Focuser.steps_since f t s
      → ((Focuser.current f t s).1 ≡ s.target) × ((Focuser.current f t s).0.moving ≡ false)
  unfolding Focuser.current
  arrives t s v rest enough =
      ground (arith, -ℤ_parts s.target s.start, -ℤ_parts (pos 0) (s.target -ℤ s.start))

  move_starts :
      (now : ℕ) (target : ℤ) (s : Focuser.Focuser f)
      → pos 0 ≤ℤ Focuser.steps_since f now s
      → IsValid f s
      → let s' = Focuser.move f now target s in
        IsValid f s'
        × (s'.target ≡ clamp_target target s.max_step)
        × (s'.moving ≡ false → s'.start ≡ s'.target)
        × (s'.max_step ≡ s.max_step)
  unfolding Focuser.move
  move_starts now target s forward v = ground (arith, current-IsValid now s forward v)

  -- A move that has had the time for the longest way ends at its target, cut to the travel, and
  -- the focuser does not move then.
  pub move_arrives :
      (now t : ℕ) (target : ℤ) (s : Focuser.Focuser f)
      → pos 0 ≤ℤ Focuser.steps_since f now s
      → IsValid f s
      → pos 50000 ≤ℤ Focuser.steps_since f t (Focuser.move f now target s)
      → ((Focuser.position f t (Focuser.move f now target s)).1 ≡ clamp_target target (pos 50000))
        × ((Focuser.is_moving f t (Focuser.move f now target s)).1 ≡ false)
  unfolding Focuser.position Focuser.is_moving
  move_arrives now t target s forward v enough =
      let (v', aim, rest, same) = move_starts now target s forward v in
      let (there, still) =
        arrives t (Focuser.move f now target s) v' rest (bottom _ _ v'.max_fixed enough) in
      (there ∙ aim ∙ ap (clamp_target target) v.max_fixed, still)
