-- ===== src/Server/Gates/Devices.antt =====
-- server/gates.go: the gates of the switch, the filter wheel, the focuser, the rotator, the cover
-- calibrator and the observing conditions; validSwitchID and switchAsyncGate of server/switch.go.
-- A driver is a record of its answers to the methods that the gates call.
use goalpaca.Prelude.{
  String, ℤ, pos, ◌-ℤ◌, ltb_ℤ, leb_ℤ, Bool, true, false, not, none, some, ◌&&◌, ◌||◌, if◌then◌else◌,
  List, [], ◌∷◌, length,
}
use goalpaca.Alpaca.Errors.{Error}
use goalpaca.Float.{Float64}
use goalpaca.Sim.CoverCalibrator.{
  CoverStatus, CalibratorStatus, cover_not_present, calibrator_not_present,
}
use goalpaca.Server.Gates.{
  Sprintf, int, float, Answer, check_first, not_impl_err, invalid_op_err, invalid_valuef,
}

pub record Switch (f : Float64) : Type 0 where
  pub max_switch : ℤ
  pub min_switch_value : ℤ → Answer f.F
  pub max_switch_value : ℤ → Answer f.F
  pub can_async : ℤ → Answer Bool

pub record Focuser : Type 0 where
  pub interface_version : ℤ
  pub temp_comp : Bool
  pub temp_comp_available : Bool

pub record CoverCalibrator : Type 0 where
  pub calibrator_state : CalibratorStatus
  pub cover_state : CoverStatus
  pub max_brightness : ℤ

abbrev pub is_calibrator_absent : CalibratorStatus → Bool
is_calibrator_absent calibrator_not_present = true
is_calibrator_absent _ = false

abbrev pub is_cover_absent : CoverStatus → Bool
is_cover_absent cover_not_present = true
is_cover_absent _ = false

module _ (f : Float64) (sprintf : Sprintf f) where
  open f use {F, lt, le, of_int}

  unfoldable pub valid_switch_id : Switch f → ℤ → Error
  valid_switch_id sw id =
      if ltb_ℤ id (pos 0) || leb_ℤ sw.max_switch id
      then invalid_valuef f sprintf "switch Id %d is outside the valid range 0 to %d"
          (int id ∷ int (sw.max_switch -ℤ pos 1) ∷ [])
      else none

  -- The comparison with the bounds, once the driver has answered both.
  unfoldable pub gate_switch_bounds : Answer F → Answer F → ℤ → F → Error
  gate_switch_bounds (_, some _) _ id value = none
  gate_switch_bounds (min, none) (_, some _) id value = none
  gate_switch_bounds (min, none) (max, none) id value =
      if lt value min || lt max value
      then invalid_valuef f sprintf "switch %d value %g is outside the valid range %g to %g"
          (int id ∷ float value ∷ float min ∷ float max ∷ [])
      else none

  unfoldable pub gate_switch_value : Switch f → ℤ → F → Error
  gate_switch_value sw id value =
      check_first (valid_switch_id sw id)
        (gate_switch_bounds (sw.min_switch_value id) (sw.max_switch_value id) id value)

  unfoldable pub switch_async_gate : Switch f → ℤ → String → Error
  switch_async_gate sw id member =
      let (can, err) = sw.can_async id in
      check_first err (if not can then not_impl_err member else none)

  unfoldable pub gate_switch_async : Switch f → ℤ → String → Error
  gate_switch_async sw id member =
      check_first (valid_switch_id sw id) (switch_async_gate sw id member)

  -- The names of the wheel's slots, and the slot.
  unfoldable pub gate_filter_wheel_position : List String → ℤ → Error
  gate_filter_wheel_position names slot =
      if ltb_ℤ slot (pos 0) || leb_ℤ (pos (length names)) slot
      then invalid_valuef f sprintf "Position %d is outside the valid range 0 to %d"
          (int slot ∷ int (pos (length names) -ℤ pos 1) ∷ [])
      else none

  unfoldable pub gate_focuser_temp_comp : Focuser → Bool → Error
  gate_focuser_temp_comp foc on =
      if on && not foc.temp_comp_available then not_impl_err "TempComp" else none

  unfoldable pub gate_focuser_move : Focuser → Error
  gate_focuser_move foc =
      if ltb_ℤ foc.interface_version (pos 3) && foc.temp_comp
      then invalid_op_err "Move is not valid while temperature compensation is active"
      else none

  -- The argument is CanReverse of the rotator.
  unfoldable pub gate_rotator_reverse : Bool → Error
  gate_rotator_reverse can_reverse = if not can_reverse then not_impl_err "Reverse" else none

  unfoldable pub gate_rotator_position : F → Error
  gate_rotator_position position =
      if lt position (of_int (pos 0)) || le (of_int (pos 360)) position
      then invalid_valuef f sprintf "Position %g is outside the valid range 0 to 359.999"
          (float position ∷ [])
      else none

  unfoldable pub gate_cover_calibrator_calibrator : CoverCalibrator → String → Error
  gate_cover_calibrator_calibrator cc member =
      if is_calibrator_absent cc.calibrator_state then not_impl_err member else none

  unfoldable pub gate_cover_calibrator_cover : CoverCalibrator → String → Error
  gate_cover_calibrator_cover cc member =
      if is_cover_absent cc.cover_state then not_impl_err member else none

  unfoldable pub gate_cover_calibrator_on : CoverCalibrator → ℤ → Error
  gate_cover_calibrator_on cc brightness =
      check_first (gate_cover_calibrator_calibrator cc "CalibratorOn") (
        if ltb_ℤ brightness (pos 0) || ltb_ℤ cc.max_brightness brightness
        then invalid_valuef f sprintf "Brightness %d is outside the valid range 0 to %d"
            (int brightness ∷ int cc.max_brightness ∷ [])
        else none)

  unfoldable pub gate_observing_conditions_average_period : F → Error
  gate_observing_conditions_average_period hours =
      if lt hours (of_int (pos 0))
      then invalid_valuef f sprintf "AveragePeriod %g is negative" (float hours ∷ [])
      else none
