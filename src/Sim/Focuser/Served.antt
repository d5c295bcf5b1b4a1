-- ===== src/Sim/Focuser/Served.antt =====
-- The simulated focuser behind focuserPut.
use goalpaca.Prelude.{ℕ, ◌≡◌, refl, arith, String, List, pos, ◌≤ℤ◌, none, true}
use goalpaca.Float.{Float64}
use goalpaca.Server.Gates.{Sprintf}
use goalpaca.Server.Transaction.{Library, Params}
use goalpaca.Server.Handlers.{Event, serve_all}
use goalpaca.Server.Handlers.Keeps.{
  Leaves, with_arg-keeps, gated-keeps, dispatch-keeps, serve_all-keeps, AllCalls-Unit,
}
use goalpaca.Server.Handlers.Focuser.{
  FocuserDriver, Member, temp_comp, halt, move, put_cases, put_case, focuser_put,
}
use goalpaca.Sim.Focuser
use goalpaca.Sim.Focuser.Travel.{
  Call, halt_call, move_call, temp_comp_call, step, IsValid, StepsForward, step-IsValid, reading,
  top,
}

module _ (f : Float64) where
  -- The driver at a time.
  abbrev pub focuser_driver : ℕ → FocuserDriver
  focuser_driver now = record {
    Device = Focuser.Focuser f;
    answers = λ s. record {
      interface_version = pos 4;
      temp_comp = s.temp_comp;
      temp_comp_available = true;
    };
    set_temp_comp = λ b s. (Focuser.set_temp_comp f b s, none);
    halt = λ s. (Focuser.halt f now s, none);
    move = λ n s. (Focuser.move f now n s, none);
  }

  record IsServed (rate : f.F) (s : Focuser.Focuser f) : Type 0 where
    valid : IsValid f s
    rated : s.step_rate ≡ rate

  module _ (lib : Library f) (sprintf : Sprintf f) (rate : f.F)
      (forward : StepsForward f rate) where
    called :
        (now : ℕ) (c : Call) (s : Focuser.Focuser f)
        → IsServed rate s
        → IsServed rate (step f now c s)
    called now c s served =
        let (v, e) = step-IsValid f rate now c s forward served.rated served.valid in
        record { valid = v; rated = e }

    put_case-IsServed :
        (now : ℕ) (p : Params) (m : Member) (s : Focuser.Focuser f)
        → IsServed rate s
        → Leaves (IsServed rate) (put_case f lib sprintf (focuser_driver now) p m s)
    unfolding put_case step
    put_case-IsServed now p temp_comp s served =
        with_arg-keeps (IsServed rate) _ _ s
          (λ b e.
            gated-keeps (IsServed rate) _ _ s
              (λ ok. record { kept = called now (temp_comp_call b) s served }) served)
          served
    put_case-IsServed now p halt s served = record { kept = called now halt_call s served }
    put_case-IsServed now p move s served =
        with_arg-keeps (IsServed rate) _ _ s
          (λ n e.
            gated-keeps (IsServed rate) _ _ s
              (λ ok. record { kept = called now (move_call n) s served }) served)
          served

    put-IsServed :
        (now : ℕ) (member : String) (p : Params) (s : Focuser.Focuser f)
        → IsServed rate s
        → IsServed rate (focuser_put f lib sprintf (focuser_driver now) member p s).0
    unfolding focuser_put
    put-IsServed now member p s served =
        dispatch-keeps (IsServed rate) put_cases (put_case f lib sprintf (focuser_driver now) p)
          member s (λ m. put_case-IsServed now p m s served) served

    -- Whatever PUT requests and calls have come since the focuser was made, for targets of any size
    -- and in any order, its position reads between 0 and its largest step. The rate gives no
    -- negative number of steps.
    pub focuser_put-in_travel :
        (events : List (ℕ × Event Call)) (now : ℕ)
        → let s =
            serve_all
              (step f)
              (λ at. focuser_put f lib sprintf (focuser_driver at))
              events
              (Focuser.with_step_rate f rate (Focuser.new_focuser f)) in
          (pos 0 ≤ℤ (Focuser.position f now s).1) × ((Focuser.position f now s).1 ≤ℤ pos 50000)
    unfolding Focuser.with_step_rate Focuser.new_focuser Focuser.position
    focuser_put-in_travel events now =
        let fresh : IsServed rate (Focuser.with_step_rate f rate (Focuser.new_focuser f)) = record {
          valid = ground arith;
          rated = refl;
        } in
        let served =
          serve_all-keeps (IsServed rate) (λ c. Unit) (step f)
            (λ at. focuser_put f lib sprintf (focuser_driver at)) (λ at c s ok. called at c s)
            put-IsServed events _ (AllCalls-Unit events) fresh in
        let (_, low, high, _, _) = reading f rate now _ forward served.rated served.valid in
        (low, top _ _ served.valid.max_fixed high)
