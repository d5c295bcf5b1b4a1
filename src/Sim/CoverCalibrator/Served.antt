-- ===== src/Sim/CoverCalibrator/Served.antt =====
-- The simulated cover calibrator behind coverCalibratorPut.
use goalpaca.Prelude.{ℕ, ◌≡◌, ◌⊎◌, refl, ◌∙◌, arith, String, List, ℤ, pos, ◌≤ℤ◌, none}
use goalpaca.Float.{Float64}
use goalpaca.Server.Gates.{Sprintf, invalid_valuef, not_impl_err}
use goalpaca.Server.Gates.Devices as Gated
use goalpaca.Server.Transaction.{Library, Params}
use goalpaca.Server.Handlers.{Event, serve_all}
use goalpaca.Server.Handlers.Keeps.{
  Leaves, AllCalls, with_arg-keeps, gated-keeps, dispatch-keeps, serve_all-keeps,
}
use goalpaca.Server.Handlers.CoverCalibrator.{
  CoverCalibratorDriver, Member, calibrator_off, calibrator_on, close_cover, halt_cover, open_cover,
  put_cases, put_case, cover_calibrator_put,
}
use goalpaca.Sim.CoverCalibrator as Cover
use goalpaca.Sim.CoverCalibrator.Transitions.{
  Call, read_calibrator, read_cover, calibrator_off_call, open_call, close_call, halt_call,
  calibrator_on_call, step, IsValid, IsGated, step-IsValid, reads,
}

-- The driver at a time. CalibratorState and CoverState settle the device.
abbrev pub cover_calibrator_driver : ℕ → CoverCalibratorDriver
cover_calibrator_driver now = record {
  Device = Cover.CoverCalibrator;
  answers = λ c. record {
    calibrator_state = (Cover.calibrator_state now c).1;
    cover_state = (Cover.cover_state now c).1;
    max_brightness = c.max_brightness;
  };
  ask_calibrator = λ c. (Cover.calibrator_state now c).0;
  ask_cover = λ c. (Cover.cover_state now c).0;
  calibrator_off = λ c. (Cover.switch_calibrator_off now c, none);
  calibrator_on = λ b c. (Cover.switch_calibrator_on now b c, none);
  close_cover = λ c. (Cover.close_cover now c, none);
  halt_cover = λ c. (Cover.halt_cover now c, none);
  open_cover = λ c. (Cover.open_cover now c, none);
}

record IsServed (max : ℤ) (c : Cover.CoverCalibrator) : Type 0 where
  valid : IsValid c
  bound : c.max_brightness ≡ max

called :
    (max : ℤ) (now : ℕ) (k : Call) (c : Cover.CoverCalibrator)
    → IsGated max k
    → IsServed max c
    → IsServed max (step now k c)
called max now k c allowed s =
    let (v, same) = step-IsValid now k c (rw s.bound allowed) s.valid in
    record { valid = v; bound = same ∙ s.bound }

module _ (f : Float64) (lib : Library f) (sprintf : Sprintf f) (max : ℤ) where
  brightness_ok :
      (cc : Gated.CoverCalibrator) (n : ℤ)
      → cc.max_brightness ≡ max
      → Gated.gate_cover_calibrator_on f sprintf cc n ≡ none
      → (pos 0 ≤ℤ n) × (n ≤ℤ max)
  unfolding Gated.gate_cover_calibrator_on Gated.gate_cover_calibrator_calibrator invalid_valuef
      not_impl_err
  brightness_ok cc n e h = ground arith

  put_case-IsServed :
      (now : ℕ) (p : Params) (m : Member) (c : Cover.CoverCalibrator)
      → IsServed max c
      → Leaves (IsServed max) (put_case f lib sprintf (cover_calibrator_driver now) p m c)
  unfolding put_case step
  put_case-IsServed now p calibrator_off c s =
      let asked = called max now read_calibrator c tt s in
      gated-keeps (IsServed max) _ _ _
        (λ ok. record { kept = called max now calibrator_off_call _ tt asked }) asked
  put_case-IsServed now p calibrator_on c s =
      let asked = called max now read_calibrator c tt s in
      with_arg-keeps (IsServed max) _ _ c
        (λ n e.
          gated-keeps (IsServed max) _ _ _
            (λ ok. record {
              kept = called max now (calibrator_on_call n) _ (brightness_ok _ n s.bound ok) asked;
            })
            asked)
        s
  put_case-IsServed now p close_cover c s =
      let asked = called max now read_cover c tt s in
      gated-keeps (IsServed max) _ _ _
        (λ ok. record { kept = called max now close_call _ tt asked }) asked
  put_case-IsServed now p halt_cover c s =
      let asked = called max now read_cover c tt s in
      gated-keeps (IsServed max) _ _ _ (λ ok. record { kept = called max now halt_call _ tt asked })
        asked
  put_case-IsServed now p open_cover c s =
      let asked = called max now read_cover c tt s in
      gated-keeps (IsServed max) _ _ _ (λ ok. record { kept = called max now open_call _ tt asked })
        asked

  put-IsServed :
      (now : ℕ) (member : String) (p : Params) (c : Cover.CoverCalibrator)
      → IsServed max c
      → IsServed max (cover_calibrator_put f lib sprintf (cover_calibrator_driver now) member p c).0
  unfolding cover_calibrator_put
  put-IsServed now member p c s =
      dispatch-keeps (IsServed max) put_cases
        (put_case f lib sprintf (cover_calibrator_driver now) p) member c
        (λ m. put_case-IsServed now p m c s) s

  -- Whatever PUT requests and calls that the gates let through have come since the device was made
  -- with a maximum of 0 or more: the calibrator reads Off, NotReady or Ready, the cover reads
  -- Closed, Moving, Open or Unknown, the brightness lies between 0 and the maximum, and it is 0
  -- where the calibrator reads Off.
  pub cover_calibrator_put-reports :
      (events : List (ℕ × Event Call)) (now : ℕ)
      → pos 0 ≤ℤ max
      → AllCalls (IsGated max) events
      → let c =
          serve_all step
            (λ at. cover_calibrator_put f lib sprintf (cover_calibrator_driver at))
            events
            (Cover.with_max_brightness max Cover.new_cover_calibrator) in
        (((Cover.calibrator_state now c).1 ≡ Cover.calibrator_off)
          ⊎ ((Cover.calibrator_state now c).1 ≡ Cover.calibrator_not_ready)
          ⊎ ((Cover.calibrator_state now c).1 ≡ Cover.calibrator_ready))
        × (((Cover.cover_state now c).1 ≡ Cover.cover_closed)
            ⊎ ((Cover.cover_state now c).1 ≡ Cover.cover_moving)
            ⊎ ((Cover.cover_state now c).1 ≡ Cover.cover_open)
            ⊎ ((Cover.cover_state now c).1 ≡ Cover.cover_unknown))
        × (pos 0 ≤ℤ c.brightness)
        × (c.brightness ≤ℤ max)
        × ((Cover.calibrator_state now c).1 ≡ Cover.calibrator_off → c.brightness ≡ pos 0)
  unfolding Cover.with_max_brightness Cover.new_cover_calibrator
  cover_calibrator_put-reports events now nonneg allowed =
      let fresh : IsServed max (Cover.with_max_brightness max Cover.new_cover_calibrator) = record {
        valid = ground arith;
        bound = refl;
      } in
      let served =
        serve_all-keeps (IsServed max) (IsGated max) step
          (λ at. cover_calibrator_put f lib sprintf (cover_calibrator_driver at))
          (λ at k c ok. called max at k c ok) put-IsServed events _ allowed fresh in
      reads max now _ served.bound served.valid
