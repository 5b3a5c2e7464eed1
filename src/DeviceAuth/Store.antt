-- ===== src/DeviceAuth/Store.antt =====
-- services/device_auth/src/us_stock_helper_device_auth/store.py: the rows of the credential store,
-- and one function for each operation, which is one transaction.
--
-- A table is the list of its rows in the order of insertion. Times are microseconds since the least
-- datetime; the text that the database holds for one compares as the instant does
-- (time_utils.py). `x < now - d` is written `x + d < now`, since `-` stops at 0.
-- A transaction that ends in ROLLBACK, or that raises, returns the store that it began with.
pub mod Rows
pub mod Codes
pub mod Attempts
pub mod Devices
pub mod Calls
pub mod Keys
pub mod Revocation
pub mod SingleUse
pub mod Paired
pub mod Window
pub mod Candidates
pub mod Retry
