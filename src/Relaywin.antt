-- ===== src/Relaywin.antt =====
-- internal/relaywin: what a sender has handed a relay for one destination and the destination has
-- not yet taken off it, bounded by a window for each destination.
pub mod Types
pub mod Ops
pub mod Bounds
pub mod Wakes
pub mod Steps
