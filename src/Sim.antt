-- ===== src/Sim.antt =====
-- The package sim: simulated devices, whose state is computed from the clock when it is read.
-- Time is a number of nanoseconds on a clock that does not run backwards, and 0 is Go's zero time.
-- A method reads the clock once, and gets it as the argument `now`.
pub mod Angles
pub mod Camera
pub mod Rotator
pub mod FilterWheel
pub mod Dome
pub mod Focuser
pub mod CoverCalibrator
pub mod Telescope
pub mod Switch
