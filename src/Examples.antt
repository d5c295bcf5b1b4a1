-- ===== src/Examples.antt =====
-- The theorems at concrete values: small images, requests and devices.
mod Images
mod Errors
mod Gates
mod Devices
mod Mount
mod Requests
mod Served
mod Registry
mod Relay
mod Camera
