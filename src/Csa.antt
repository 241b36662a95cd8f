-- ===== src/Csa.antt =====
-- The receiver of channel switch announcements, vehicle/csa/csa.c.
pub mod Json
pub mod Machine
pub mod Allow
pub mod Run
pub mod Vetted
pub mod Switch
pub mod Steady
mod Tests
