-- ===== src/Restart.antt =====
-- The restart policies of src/solver.rs: `LbdRestartState`, `TrailRestartState`,
-- `ReluctantRestart` and `luby`.
pub mod Lbd
pub mod Trail
pub mod Reluctant
pub mod Luby
pub mod Word
pub mod History
pub mod Examples
