-- ===== src/Tests.antt =====
-- Runs of the theorems at concrete inputs.
mod Crypto
mod Record
mod Rules
mod Stream
mod Relaywin
mod Wire
mod Receive
mod Window
mod Video
mod Failover
mod Vp8
mod Sender
