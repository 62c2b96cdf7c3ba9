-- ===== src/Relaywin/Steps.antt =====
-- Calls of Windows one after another, in the order in which they take its mutex.
pub mod Sound
pub mod Valid
pub mod Traces
pub mod Restarts
use Prim.Native.String.{String}
use olcrtc.Prelude.{ℕ, ◌+◌, ◌^◌, ◌<◌, List, [], ◌∷◌}
use olcrtc.Relaywin.Types.{Float64, Windows}
use olcrtc.Relaywin.Ops.{room, sent, apply_echo_at, arm, epoch_of, wake_of, reset, reset_all, bump}

-- Every call that changes state, with its arguments: key, bytes or count, and time.
pub data Op : Type 0 where
  call_room : String → ℕ → Op
  call_sent : String → ℕ → ℕ → Op
  call_echo : String → ℕ → ℕ → Op
  call_arm call_reset call_bump call_epoch call_wake : String → Op
  call_reset_all : Op

module _ {F : Type 0} (fl : Float64 F) where
  unfoldable pub step : Windows F → Op → Windows F
  step w (call_room key now) = (room w key now).0
  step w (call_sent key n now) = (sent fl w key n now).0
  step w (call_echo key counter now) = (apply_echo_at fl w key counter now).0
  step w (call_arm key) = arm fl w key
  step w (call_reset key) = reset w key
  step w (call_bump key) = bump w key
  step w (call_epoch key) = (epoch_of fl w key).0
  step w (call_wake key) = (wake_of fl w key).0
  step w call_reset_all = reset_all w

  unfoldable pub run : Windows F → List Op → Windows F
  run w [] = w
  run w (op ∷ ops) = run (step w op) ops

-- How far a call moves the count of bytes.
abbrev pub bytes_of : Op → ℕ
bytes_of (call_sent key n now) = n
bytes_of (call_room key now) = 0
bytes_of (call_echo key counter now) = 0
bytes_of (call_arm key) = 0
bytes_of (call_reset key) = 0
bytes_of (call_bump key) = 0
bytes_of (call_epoch key) = 0
bytes_of (call_wake key) = 0
bytes_of call_reset_all = 0

-- The 64-bit count of bytes and the 64-bit count of epochs do not wrap during the calls.
abbrev pub NoWrap : {F : Type 0} → Windows F → Op → Type 0
NoWrap w op = (w.count + bytes_of op < 2 ^ 64) × (w.epochs + 1 < 2 ^ 64)
