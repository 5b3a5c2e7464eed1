-- ===== src/DeviceAuth/Examples.antt =====
-- services/device_auth: tests, and the theorems at concrete inputs.
mod Store
mod Credentials
mod Service
