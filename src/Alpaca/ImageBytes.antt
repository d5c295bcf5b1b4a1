-- ===== src/Alpaca/ImageBytes.antt =====
-- alpaca/imagebytes.go and alpaca/camera.go: the ImageBytes codec. A byte slice is a list of
-- numbers below 256.
pub mod Word
pub mod Transpose
pub mod Header
pub mod Codec
