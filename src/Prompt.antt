-- ===== src/Prompt.antt =====
-- The prompt of an agent, rust/starbridge-core/src/context_engine.rs.
pub mod Floats
pub mod Decimal
pub mod Toon
pub mod Budget
pub mod Fits
pub mod Build
pub mod Bound
pub mod Lines
