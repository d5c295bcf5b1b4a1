-- ===== src/Examples/Served.antt =====
-- Requests and calls that reach simulated devices.
use goalpaca.Prelude.{
  ℕ, pos, neg, ◌≤ℤ◌, ◌<ℤ◌, ◌≡◌, ◌⊎◌, arith, false, ◌&&◌, List, [], ◌∷◌, length, String, ◌*ℤ◌,
}
use goalpaca.Float.Exact.{exact, num}
use goalpaca.Server.Gates.{Sprintf}
use goalpaca.Server.Handlers.{Event, direct, request, serve_all}
use goalpaca.Server.Handlers.Focuser.{focuser_put}
use goalpaca.Server.Handlers.FilterWheel.{filter_wheel_put}
use goalpaca.Server.Handlers.CoverCalibrator.{cover_calibrator_put}
use goalpaca.Server.Handlers.Dome.{dome_put}
use goalpaca.Sim.Angles.{traveled}
use goalpaca.Sim.Focuser
use goalpaca.Sim.Focuser.Travel
use goalpaca.Sim.Focuser.Served.{focuser_driver, focuser_put-in_travel}
use goalpaca.Sim.FilterWheel
use goalpaca.Sim.FilterWheel.Served.{filter_wheel_driver, filter_wheel_put-at_slot}
use goalpaca.Sim.CoverCalibrator as Cover
use goalpaca.Sim.CoverCalibrator.Transitions
use goalpaca.Sim.CoverCalibrator.Served.{cover_calibrator_driver, cover_calibrator_put-reports}
use goalpaca.Sim.Dome
use goalpaca.Sim.Dome.Flags
use goalpaca.Sim.Dome.Served.{dome_driver, dome_put-home_or_park}
use goalpaca.Examples.Requests.{five_library, no_params}

-- A Sprintf that prints the format.
abbrev format_only : Sprintf exact
format_only format a = format

-- A target beyond the travel, one below it, and a request.
abbrev focuser_events : List (ℕ × Event Travel.Call)
focuser_events =
    (1, direct (Travel.move_call (pos 60000)))
    ∷ (20, request "move" no_params)
    ∷ (30, direct (Travel.move_call (neg 5)))
    ∷ (40, request "halt" no_params)
    ∷ []

steps_forward : Travel.StepsForward exact (num (pos 5000))
unfolding traveled ◌*ℤ◌
steps_forward now start = ground arith

focuser_put-in_travel_example :
    let s =
      serve_all
        (Travel.step exact)
        (λ at. focuser_put exact five_library format_only (focuser_driver exact at))
        focuser_events
        (Focuser.with_step_rate exact (num (pos 5000)) (Focuser.new_focuser exact)) in
    (pos 0 ≤ℤ (Focuser.position exact 50 s).1) × ((Focuser.position exact 50 s).1 ≤ℤ pos 50000)
focuser_put-in_travel_example =
    focuser_put-in_travel exact five_library format_only (num (pos 5000)) steps_forward
      focuser_events 50

abbrev filters : List String
filters = "Red" ∷ "Green" ∷ []

abbrev wheel_events : List (ℕ × Event ⊥)
wheel_events = (10, request "position" no_params) ∷ (20, request "names" no_params) ∷ []

filter_wheel_put-at_slot_example :
    let fw =
      serve_all
        (λ at c s. s)
        (λ at. filter_wheel_put exact five_library format_only (filter_wheel_driver at))
        wheel_events
        (FilterWheel.with_filters filters (pos 0 ∷ pos 0 ∷ []) FilterWheel.new_filter_wheel) in
    (FilterWheel.read_position 30 fw ≡ neg 1)
    ⊎ ((pos 0 ≤ℤ FilterWheel.read_position 30 fw)
        × (FilterWheel.read_position 30 fw <ℤ pos (length filters)))
filter_wheel_put-at_slot_example =
    filter_wheel_put-at_slot exact five_library format_only filters (pos 0 ∷ pos 0 ∷ [])
      wheel_events 30 (omega arith)

abbrev cover_events : List (ℕ × Event Transitions.Call)
cover_events =
    (10, direct (Transitions.calibrator_on_call (pos 40)))
    ∷ (20, request "calibratoron" no_params)
    ∷ (30, request "haltcover" no_params)
    ∷ []

cover_calibrator_put-reports_example :
    let c =
      serve_all Transitions.step
        (λ at. cover_calibrator_put exact five_library format_only (cover_calibrator_driver at))
        cover_events
        (Cover.with_max_brightness (pos 50) Cover.new_cover_calibrator) in
    (((Cover.calibrator_state 40 c).1 ≡ Cover.calibrator_off)
      ⊎ ((Cover.calibrator_state 40 c).1 ≡ Cover.calibrator_not_ready)
      ⊎ ((Cover.calibrator_state 40 c).1 ≡ Cover.calibrator_ready))
    × (((Cover.cover_state 40 c).1 ≡ Cover.cover_closed)
        ⊎ ((Cover.cover_state 40 c).1 ≡ Cover.cover_moving)
        ⊎ ((Cover.cover_state 40 c).1 ≡ Cover.cover_open)
        ⊎ ((Cover.cover_state 40 c).1 ≡ Cover.cover_unknown))
    × (pos 0 ≤ℤ c.brightness)
    × (c.brightness ≤ℤ pos 50)
    × ((Cover.calibrator_state 40 c).1 ≡ Cover.calibrator_off → c.brightness ≡ pos 0)
cover_calibrator_put-reports_example =
    cover_calibrator_put-reports exact five_library format_only (pos 50) cover_events 40
      (omega arith) ((omega arith, omega arith), tt)

abbrev dome_events : List (ℕ × Event (Flags.Call exact))
dome_events =
    (1000000000, direct Flags.park)
    ∷ (2000000000, request "findhome" no_params)
    ∷ (3000000000, request "slewtoazimuth" no_params)
    ∷ []

dome_put-home_or_park_example :
    let d =
      serve_all
        (Flags.step exact)
        (λ at. dome_put exact five_library format_only (dome_driver exact at))
        dome_events
        (Dome.new_dome exact) in
    ((Dome.is_at_home exact 5000000000 d).1 && (Dome.is_at_park exact 5000000000 d).1) ≡ false
dome_put-home_or_park_example =
    dome_put-home_or_park exact five_library format_only dome_events 5000000000
