-- ===== src/Adviser.antt =====
-- services/adviser_llm/src/adviser_llm: what of the output of a model may be shown.
pub mod Tokens
pub mod Evidence
pub mod Items
pub mod Frameworks
pub mod Trace
pub mod Visible
pub mod Sourced
pub mod Shown
pub mod Client
pub mod Gating
pub mod Service
mod Examples
