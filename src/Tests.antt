-- ===== src/Tests.antt =====
-- Concrete inputs at which the theorems apply.
pub mod World
pub mod Programs
pub mod Loader
pub mod Version
pub mod Generator
pub mod Text
pub mod Machine
pub mod Runs
pub mod Whole
pub mod Failed
pub mod Interleave
