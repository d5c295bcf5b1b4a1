-- ===== src/Sim/FilterWheel/Served.antt =====
-- The simulated filter wheel behind filterWheelPut.
use goalpaca.Prelude.{
  ℕ, ◌<◌, ◌≡◌, refl, sym, ◌⊎◌, arith, String, List, ℤ, pos, neg, ◌≤ℤ◌, ◌<ℤ◌, none, length,
}
use goalpaca.Float.{Float64}
use goalpaca.Server.Gates.{Sprintf, invalid_valuef}
use goalpaca.Server.Gates.Devices as Gated
use goalpaca.Server.Transaction.{Library, Params}
use goalpaca.Server.Handlers.{Event, serve_all}
use goalpaca.Server.Handlers.Keeps.{
  Leaves, with_arg-keeps, gated-keeps, dispatch-keeps, serve_all-keeps, AllCalls-Unit,
}
use goalpaca.Server.Handlers.FilterWheel.{
  FilterWheelDriver, Member, position, put_cases, put_case, filter_wheel_put,
}
use goalpaca.Sim.FilterWheel

-- The driver at a time.
abbrev pub filter_wheel_driver : ℕ → FilterWheelDriver
filter_wheel_driver now = record {
  Device = FilterWheel.FilterWheel;
  names = λ fw. fw.names;
  set_position = λ n fw. (FilterWheel.set_position now n fw, none);
}

-- The wheel has the names, and stands at one of their slots.
record IsAtSlot (names : List String) (fw : FilterWheel.FilterWheel) : Type 0 where
  names_kept : fw.names ≡ names
  inside : (pos 0 ≤ℤ fw.position) × (fw.position <ℤ pos (length names))

slot_ok :
    (f : Float64) (sprintf : Sprintf f) (names : List String) (n : ℤ)
    → Gated.gate_filter_wheel_position f sprintf names n ≡ none
    → (pos 0 ≤ℤ n) × (n <ℤ pos (length names))
unfolding Gated.gate_filter_wheel_position invalid_valuef
slot_ok f sprintf names n h = ground arith

module _ (f : Float64) (lib : Library f) (sprintf : Sprintf f) (names : List String) where
  put_case-IsAtSlot :
      (now : ℕ) (p : Params) (m : Member) (fw : FilterWheel.FilterWheel)
      → IsAtSlot names fw
      → Leaves (IsAtSlot names) (put_case f lib sprintf (filter_wheel_driver now) p m fw)
  unfolding put_case FilterWheel.set_position
  put_case-IsAtSlot now p position fw at =
      with_arg-keeps (IsAtSlot names) _ _ fw
        (λ n e.
          gated-keeps (IsAtSlot names) _ _ fw
            (λ ok. record {
              kept = record {
                names_kept = at.names_kept;
                inside = slot_ok f sprintf names n (rw (sym at.names_kept) ok);
              };
            })
            at)
        at

  put-IsAtSlot :
      (now : ℕ) (member : String) (p : Params) (fw : FilterWheel.FilterWheel)
      → IsAtSlot names fw
      → IsAtSlot names (filter_wheel_put f lib sprintf (filter_wheel_driver now) member p fw).0
  unfolding filter_wheel_put
  put-IsAtSlot now member p fw at =
      dispatch-keeps (IsAtSlot names) put_cases (put_case f lib sprintf (filter_wheel_driver now) p)
        member fw (λ m. put_case-IsAtSlot now p m fw at) at

  -- Whatever PUT requests the clients of a new wheel with at least one filter send: its position
  -- reads -1, for a move under way, or the index of a filter.
  pub filter_wheel_put-at_slot :
      (offsets : List ℤ) (events : List (ℕ × Event ⊥)) (now : ℕ)
      → 0 < length names
      → let fw =
          serve_all
            (λ at c s. s)
            (λ at. filter_wheel_put f lib sprintf (filter_wheel_driver at))
            events
            (FilterWheel.with_filters names offsets FilterWheel.new_filter_wheel) in
        (FilterWheel.read_position now fw ≡ neg 1)
        ⊎ ((pos 0 ≤ℤ FilterWheel.read_position now fw)
            × (FilterWheel.read_position now fw <ℤ pos (length names)))
  unfolding FilterWheel.with_filters FilterWheel.new_filter_wheel FilterWheel.read_position
  filter_wheel_put-at_slot offsets events now some_filter =
      let fresh : IsAtSlot names
          (FilterWheel.with_filters names offsets FilterWheel.new_filter_wheel) =
        record { names_kept = refl; inside = (omega arith, omega arith) } in
      let served =
        serve_all-keeps (IsAtSlot names) (λ c. Unit) (λ at c s. s)
          (λ at. filter_wheel_put f lib sprintf (filter_wheel_driver at)) (λ at c s ok keep. keep)
          put-IsAtSlot events _ (AllCalls-Unit events) fresh in
      let inside = served.inside in ground arith
