-- ===== src/Sim/CoverCalibrator/Transitions.antt =====
-- The cover and the calibrator as state machines.
use goalpaca.Prelude.{
  ℕ, ◌+◌, ◌≤◌, ◌≡◌, ◌⊎◌, true, false, arith, ℤ, pos, ◌≤ℤ◌, List, [], ◌∷◌, All, refl, ltb,
  if◌then◌else◌, ◌∙◌,
}
use goalpaca.Sim.CoverCalibrator.{
  CoverCalibrator, cover_closed, cover_moving, cover_open, cover_unknown, calibrator_off,
  calibrator_not_ready, calibrator_ready, calibrator_time, cover_time, with_max_brightness,
  new_cover_calibrator, calibrator_state, cover_state, is_cover_moving, switch_calibrator_on,
  switch_calibrator_off, open_cover, close_cover, halt_cover,
}

-- The calls of a client.
pub data Call : Type 0 where
  read_calibrator read_cover calibrator_off_call open_call close_call halt_call : Call
  calibrator_on_call : ℤ → Call

unfoldable pub step : ℕ → Call → CoverCalibrator → CoverCalibrator
step now read_calibrator c = (calibrator_state now c).0
step now read_cover c = (cover_state now c).0
step now calibrator_off_call c = switch_calibrator_off now c
step now open_call c = open_cover now c
step now close_call c = close_cover now c
step now halt_call c = halt_cover now c
step now (calibrator_on_call b) c = switch_calibrator_on now b c

pub run : List (ℕ × Call) → CoverCalibrator → CoverCalibrator
run [] c = c
run ((now, k) ∷ calls) c = run calls (step now k c)

-- The states that the device can report, and a brightness that fits them.
pub record IsValid (c : CoverCalibrator) : Type 0 where
  pub bright : (pos 0 ≤ℤ c.brightness) × (c.brightness ≤ℤ c.max_brightness)
  pub dark_when_off : c.cal_settled ≡ calibrator_off → c.brightness ≡ pos 0
  pub settled_known : (c.cal_settled ≡ calibrator_off) ⊎ (c.cal_settled ≡ calibrator_ready)
  pub transient_known : c.cal_changing ≡ true → c.cal_transient ≡ calibrator_not_ready
  pub cover_known :
      (c.cov_settled ≡ cover_closed)
      ⊎ (c.cov_settled ≡ cover_open)
      ⊎ (c.cov_settled ≡ cover_unknown)

-- The gate bounds the brightness by the device's maximum.
abbrev pub IsGated : ℤ → Call → Type 0
IsGated max (calibrator_on_call b) = (pos 0 ≤ℤ b) × (b ≤ℤ max)
IsGated max _ = Unit {0}

pub step-IsValid :
    (now : ℕ) (k : Call) (c : CoverCalibrator)
    → IsGated c.max_brightness k
    → IsValid c
    → IsValid (step now k c) × ((step now k c).max_brightness ≡ c.max_brightness)
unfolding step calibrator_state cover_state switch_calibrator_on switch_calibrator_off open_cover
    close_cover halt_cover
step-IsValid now read_calibrator c g v = ground arith
step-IsValid now k c g v = ground arith

pub reads :
    (max : ℤ) (now : ℕ) (c : CoverCalibrator)
    → c.max_brightness ≡ max
    → IsValid c
    → (((calibrator_state now c).1 ≡ calibrator_off)
        ⊎ ((calibrator_state now c).1 ≡ calibrator_not_ready)
        ⊎ ((calibrator_state now c).1 ≡ calibrator_ready))
      × (((cover_state now c).1 ≡ cover_closed)
          ⊎ ((cover_state now c).1 ≡ cover_moving)
          ⊎ ((cover_state now c).1 ≡ cover_open)
          ⊎ ((cover_state now c).1 ≡ cover_unknown))
      × (pos 0 ≤ℤ c.brightness)
      × (c.brightness ≤ℤ max)
      × ((calibrator_state now c).1 ≡ calibrator_off → c.brightness ≡ pos 0)
unfolding calibrator_state cover_state
reads max now c same v = ground arith

run-IsValid :
    (calls : List (ℕ × Call)) (c : CoverCalibrator)
    → All (λ k. IsGated c.max_brightness k.1) calls
    → IsValid c
    → IsValid (run calls c) × ((run calls c).max_brightness ≡ c.max_brightness)
unfolding run
run-IsValid [] c g v = (v, refl)
run-IsValid ((now, k) ∷ calls) c g v =
    let (kept, same) = step-IsValid now k c g.0 v in
    let (kept', same') = run-IsValid calls (step now k c) (rw same (g.1)) kept in
    (kept', same' ∙ same)

-- Whatever calls the gates have let through since the device was made with a maximum of 0 or more:
-- the calibrator reads Off, NotReady or Ready, the cover reads Closed, Moving, Open or Unknown, the
-- brightness lies between 0 and the maximum, and it is 0 where the calibrator reads Off.
pub reports_lem :
    (max : ℤ) (calls : List (ℕ × Call)) (now : ℕ)
    → pos 0 ≤ℤ max
    → All (λ k. IsGated max k.1) calls
    → let c = run calls (with_max_brightness max new_cover_calibrator) in
      (((calibrator_state now c).1 ≡ calibrator_off)
        ⊎ ((calibrator_state now c).1 ≡ calibrator_not_ready)
        ⊎ ((calibrator_state now c).1 ≡ calibrator_ready))
      × (((cover_state now c).1 ≡ cover_closed)
          ⊎ ((cover_state now c).1 ≡ cover_moving)
          ⊎ ((cover_state now c).1 ≡ cover_open)
          ⊎ ((cover_state now c).1 ≡ cover_unknown))
      × (pos 0 ≤ℤ c.brightness)
      × (c.brightness ≤ℤ max)
      × ((calibrator_state now c).1 ≡ calibrator_off → c.brightness ≡ pos 0)
unfolding with_max_brightness new_cover_calibrator
reports_lem max calls now nonneg gated =
    let (v, same) =
      run-IsValid calls (with_max_brightness max new_cover_calibrator) gated (ground arith) in
    reads max now (run calls (with_max_brightness max new_cover_calibrator)) same v

-- A calibrator call reports NotReady for 400 ms and the new state afterwards, at the brightness
-- that was asked for; a cover call reports Moving for 700 ms and the new state afterwards.
pub transitions_lem :
    (now t : ℕ) (b : ℤ) (c : CoverCalibrator)
    → now ≤ t
    → ((calibrator_state t (switch_calibrator_on now b c)).1
        ≡ (if ltb t (now + calibrator_time) then calibrator_not_ready else calibrator_ready))
      × ((switch_calibrator_on now b c).brightness ≡ b)
      × ((calibrator_state t (switch_calibrator_off now c)).1
          ≡ (if ltb t (now + calibrator_time) then calibrator_not_ready else calibrator_off))
      × ((cover_state t (open_cover now c)).1
          ≡ (if ltb t (now + cover_time) then cover_moving else cover_open))
      × ((cover_state t (close_cover now c)).1
          ≡ (if ltb t (now + cover_time) then cover_moving else cover_closed))
unfolding calibrator_state cover_state switch_calibrator_on switch_calibrator_off open_cover
    close_cover
transitions_lem now t b c after = ground arith

-- A halted cover does not move at any later time: it reads Unknown if it was stopped on its way, and
-- else the state in which it had settled.
pub halt_cover_lem :
    (now t : ℕ) (c : CoverCalibrator)
    → now ≤ t
    → ((cover_state t (halt_cover now c)).1
        ≡ (if (is_cover_moving now c).1 then cover_unknown else (cover_state now c).1))
      × ((is_cover_moving t (halt_cover now c)).1 ≡ false)
unfolding cover_state is_cover_moving halt_cover
halt_cover_lem now t c after = ground arith
