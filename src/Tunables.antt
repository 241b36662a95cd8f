-- ===== src/Tunables.antt =====
-- The registry of tunables of vehicle/link_controller.c and the query that sets them.
pub mod Types
pub mod Setter
pub mod Table
pub mod Typed
pub mod Verdict
pub mod Reported
mod Tests
