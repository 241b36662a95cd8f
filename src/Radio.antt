-- ===== src/Radio.antt =====
-- The radio and the encoder in vehicle/link_controller.c: what the radio is set to, the bitrate and
-- the payload that its rate can carry, and changes of modulation in the safe order.
pub mod Types
pub mod Rate
pub mod Bitrate
pub mod Observe
pub mod Ordered
pub mod Tiers
pub mod Locked
pub mod Caps
mod Tests
