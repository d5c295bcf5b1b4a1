-- ===== src/Alpaca.antt =====
-- The package alpaca: the error model and the image codec.
pub mod Errors
pub mod ImageBytes
