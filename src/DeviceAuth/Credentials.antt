-- ===== src/DeviceAuth/Credentials.antt =====
-- services/device_auth/src/us_stock_helper_device_auth/credentials.py: what a pairing code is, what a
-- token is, and how either becomes a digest.
--
-- A text is the list of its code points. Random draws are arguments. `hashlib.scrypt` and
-- `hmac.new(…, sha256)` are the fields of `Digests`; `none` is the `ValueError` of scrypt.
pub mod Scrypt
pub mod Codes
pub mod Tokens
pub mod Digests
