-- ===== src/Fec.antt =====
-- The FEC subsystem of vehicle/link_controller.c: block sizing from the frame sizes, and the
-- controller that decides when a new size goes to the radio.
pub mod Types
pub mod Headroom
pub mod Sizing
pub mod Controller
pub mod Bounds
pub mod Gating
pub mod Emission
mod Tests
