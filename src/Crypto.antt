-- ===== src/Crypto.antt =====
-- internal/crypto: the record layer, its replay protection and the ring of keys.
pub mod Replay
pub mod Record
pub mod Ring
