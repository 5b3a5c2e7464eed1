-- ===== src/DeviceAuth/Service.antt =====
-- services/device_auth/src/us_stock_helper_device_auth/service.py: pairing, verification and
-- revocation, on the store of `DeviceAuth/Store`. The clock's answer and the random draws of a call
-- are its arguments.
pub mod Types
pub mod Operator
pub mod Device
pub mod Trace
pub mod Tokens
pub mod Redeem
pub mod History
