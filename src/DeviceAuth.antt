-- ===== src/DeviceAuth.antt =====
-- services/device_auth: device pairing and revocable device tokens.
pub mod Errors
pub mod Credentials
pub mod Store
pub mod Action
pub mod Service
mod Examples
