-- ===== src/HttpApp.antt =====
-- services/analysis_api/src/us_stock_helper_analysis_api/http_app.py: the HTTP surface, in front of
-- which stands the gate of `DeviceGate`. Starting the server, the parsing of the URL and the encoding
-- of the answer are not modelled.
pub mod Query
pub mod Config
pub mod Responses
pub mod Surface
pub mod Configured
pub mod Permitted
pub mod Paired
mod Unpaired
pub mod Exposed
mod Examples
