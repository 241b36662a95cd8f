-- ===== src/Wcmd.antt =====
-- The command channel of vehicle/link_controller.c: operator commands on the keyed uplink, and the
-- open recovery channel.
pub mod Types
pub mod Wire
pub mod Clamp
pub mod Apply
pub mod Dispatch
pub mod Recovery
pub mod Gates
pub mod Burst
pub mod Armed
pub mod Values
pub mod Armable
mod Tests
