-- ===== src/Tests.antt =====
-- Concrete states, and the theorems at them.
pub mod States
pub mod Postures
pub mod Collectors
pub mod Stores
pub mod Runs
mod Files
mod Views
mod Captures
pub mod Parsers
pub mod Logs
