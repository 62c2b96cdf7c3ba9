-- ===== src/Transport.antt =====
-- internal/transport/common: what the video-track transports are built from.
pub mod Frame
pub mod Fragment
pub mod Reassembler
pub mod Ordered
pub mod SendWindow
pub mod Ack
pub mod Sender
