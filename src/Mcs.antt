-- ===== src/Mcs.antt =====
-- The MCS selector of vehicle/link_controller.c: the control law that picks the radio's modulation
-- rung from the loss reports, the boundary probe and the signal strength.
pub mod Types
pub mod Antennas
pub mod Scorer
pub mod Fuel
pub mod Slots
pub mod Smooth
pub mod Selector
pub mod Law
pub mod Fired
pub mod Valid
pub mod Rungs
pub mod Guards
pub mod Failsafe
pub mod Freeze
pub mod Frozen
pub mod Pinned
pub mod Changes
mod Tests
mod ScoreTests
