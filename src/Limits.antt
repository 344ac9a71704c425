-- ===== src/Limits.antt =====
-- Resource limits, app/core/limit_service.py.
pub mod Model
pub mod Setting
pub mod Reading
pub mod Applying
pub mod Resetting
pub mod Defaults
pub mod Enums
pub mod Agreeing
pub mod Startup
pub mod Counting
pub mod Preserving
pub mod Manual
pub mod Capacity
pub mod Inherited
pub mod Written
pub mod Levels
mod Tests
