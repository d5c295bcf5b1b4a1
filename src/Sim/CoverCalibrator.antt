-- ===== src/Sim/CoverCalibrator.antt =====
-- sim/covercalibrator.go, and the states of alpaca/covercalibrator.go.
pub mod Transitions
pub mod Served
use goalpaca.Prelude.{ℕ, ◌+◌, ltb, not, ◌&&◌, Bool, true, false, if◌then◌else◌, ℤ, pos}

pub data CoverStatus : Type 0 where
  cover_not_present cover_closed cover_moving cover_open cover_unknown cover_error : CoverStatus

pub data CalibratorStatus : Type 0 where
  calibrator_not_present calibrator_off calibrator_not_ready : CalibratorStatus
  calibrator_ready calibrator_unknown calibrator_error : CalibratorStatus

pub record CoverCalibrator : Type 0 where
  pub max_brightness : ℤ
  pub brightness : ℤ
  pub cal_until : ℕ
  pub cal_changing : Bool
  pub cal_transient : CalibratorStatus
  pub cal_settled : CalibratorStatus
  pub cov_until : ℕ
  pub cov_moving : Bool
  pub cov_settled : CoverStatus

-- 400 ms and 700 ms
abbrev pub calibrator_time : ℕ
calibrator_time = 400000000

abbrev pub cover_time : ℕ
cover_time = 700000000

-- WithMaxBrightness
unfoldable pub with_max_brightness : ℤ → CoverCalibrator → CoverCalibrator
with_max_brightness max c = record c { max_brightness = max }

-- The zero value of calTransient is NotPresent.
unfoldable pub new_cover_calibrator : CoverCalibrator
new_cover_calibrator = record {
  max_brightness = pos 100;
  brightness = pos 0;
  cal_until = 0;
  cal_changing = false;
  cal_transient = calibrator_not_present;
  cal_settled = calibrator_off;
  cov_until = 0;
  cov_moving = false;
  cov_settled = cover_closed;
}

-- `!time.Now().Before(until)` is `not (ltb now until)`.
unfoldable pub settle_calibrator : ℕ → CoverCalibrator → CoverCalibrator
settle_calibrator now c =
    if c.cal_changing && not (ltb now c.cal_until) then record c { cal_changing = false } else c

unfoldable pub settle_cover : ℕ → CoverCalibrator → CoverCalibrator
settle_cover now c =
    if c.cov_moving && not (ltb now c.cov_until) then record c { cov_moving = false } else c

unfoldable pub calibrator_state : ℕ → CoverCalibrator → CoverCalibrator × CalibratorStatus
unfolding settle_calibrator
calibrator_state now c =
    let c' = settle_calibrator now c in
    (c', if c'.cal_changing then c'.cal_transient else c'.cal_settled)

unfoldable pub calibrator_changing : ℕ → CoverCalibrator → CoverCalibrator × Bool
unfolding settle_calibrator
calibrator_changing now c = let c' = settle_calibrator now c in (c', c'.cal_changing)

unfoldable pub cover_state : ℕ → CoverCalibrator → CoverCalibrator × CoverStatus
unfolding settle_cover
cover_state now c =
    let c' = settle_cover now c in (c', if c'.cov_moving then cover_moving else c'.cov_settled)

unfoldable pub is_cover_moving : ℕ → CoverCalibrator → CoverCalibrator × Bool
unfolding settle_cover
is_cover_moving now c = let c' = settle_cover now c in (c', c'.cov_moving)

unfoldable pub switch_calibrator_on : ℕ → ℤ → CoverCalibrator → CoverCalibrator
switch_calibrator_on now brightness c = record c {
  brightness = brightness;
  cal_changing = true;
  cal_transient = calibrator_not_ready;
  cal_settled = calibrator_ready;
  cal_until = now + calibrator_time;
}

unfoldable pub switch_calibrator_off : ℕ → CoverCalibrator → CoverCalibrator
switch_calibrator_off now c = record c {
  brightness = pos 0;
  cal_changing = true;
  cal_transient = calibrator_not_ready;
  cal_settled = calibrator_off;
  cal_until = now + calibrator_time;
}

unfoldable pub open_cover : ℕ → CoverCalibrator → CoverCalibrator
open_cover now c = record c {
  cov_moving = true;
  cov_settled = cover_open;
  cov_until = now + cover_time;
}

unfoldable pub close_cover : ℕ → CoverCalibrator → CoverCalibrator
close_cover now c = record c {
  cov_moving = true;
  cov_settled = cover_closed;
  cov_until = now + cover_time;
}

unfoldable pub halt_cover : ℕ → CoverCalibrator → CoverCalibrator
unfolding settle_cover
halt_cover now c =
    let c' = settle_cover now c in
    if c'.cov_moving then record c' { cov_moving = false; cov_settled = cover_unknown } else c'
