-- ===== src/Tests.antt =====
-- Concrete environments, and the theorems at inputs that meet their hypotheses.
pub mod Environments
pub mod PidFiles
pub mod Signals
pub mod Handlers
pub mod Control
pub mod Startups
pub mod Options
pub mod Programs
pub mod Clients
pub mod Kernels
pub mod Defaults
pub mod Elevated
pub mod Declared
pub mod Successes
