-- ===== src/Relaywin/Steps/Traces.antt =====
-- Sequences of calls: the counters after them, and the invariant from New on.
use Prim.Native.String.{String}
use olcrtc.Prelude.{ℕ, ◌+◌, ◌^◌, ◌≤◌, ◌<◌, ◌≡◌, List, [], ◌∷◌, some, arith, length, if◌then◌else◌}
use olcrtc.Prelude.Maps.{lookup, string_eq, lookup-nil}
use olcrtc.Relaywin.Types.{Float64, Timing, State, Windows}
use olcrtc.Relaywin.Ops.{
  room, room_of, new, open_of, open_window, sent, wake_senders, apply_echo_of, apply_echo_at, arm,
  epoch_of, wake_of, reset_of, reset, reset_all, bump_of, bump,
}
use olcrtc.Relaywin.Steps.{
  Op, call_room, call_sent, call_echo, call_arm, call_reset, call_bump, call_epoch, call_wake,
  call_reset_all, step, run, bytes_of, NoWrap,
}
use olcrtc.Relaywin.Steps.Valid.{IsValid, step-IsValid}

abbrev pub total_bytes : List Op → ℕ
total_bytes [] = 0
total_bytes (op ∷ ops) = bytes_of op + total_bytes ops

-- The bounds of one key, and 0 for the others.
abbrev pub only_at : String → ℕ → String → ℕ
only_at key n k = if string_eq.beq key k then n else 0

module _ {F : Type 0} (fl : Float64 F) where
  -- A call counts its bytes, and gives one new epoch at most.
  pub count-step :
      (w : Windows F) (op : Op) → NoWrap w op → (step fl w op).count ≡ w.count + bytes_of op
  unfolding step room room_of sent open_window open_of apply_echo_at apply_echo_of wake_senders arm
      epoch_of wake_of reset reset_of reset_all bump bump_of
  count-step w (call_room key now) fits = ground arith
  count-step w (call_sent key n now) fits = ground arith
  count-step w (call_echo key counter now) fits = ground arith
  count-step w (call_arm key) fits = ground arith
  count-step w (call_reset key) fits = ground arith
  count-step w (call_bump key) fits = ground arith
  count-step w (call_epoch key) fits = ground arith
  count-step w (call_wake key) fits = ground arith
  count-step w call_reset_all fits = ground arith

  pub epochs-step :
      (w : Windows F) (op : Op)
      → NoWrap w op
      → (w.epochs ≤ (step fl w op).epochs) × ((step fl w op).epochs ≤ w.epochs + 1)
  unfolding step room room_of sent open_window open_of apply_echo_at apply_echo_of wake_senders arm
      epoch_of wake_of reset reset_of reset_all bump bump_of
  epochs-step w (call_room key now) fits = ground arith
  epochs-step w (call_sent key n now) fits = ground arith
  epochs-step w (call_echo key counter now) fits = ground arith
  epochs-step w (call_arm key) fits = ground arith
  epochs-step w (call_reset key) fits = ground arith
  epochs-step w (call_bump key) fits = ground arith
  epochs-step w (call_epoch key) fits = ground arith
  epochs-step w (call_wake key) fits = ground arith
  epochs-step w call_reset_all fits = ground arith

  -- The invariant over a sequence of calls, and the counters after it.
  pub run-IsValid :
      (low since : String → ℕ) (w : Windows F) (ops : List Op)
      → w.count + total_bytes ops < 2 ^ 64
      → w.epochs + length ops < 2 ^ 64
      → IsValid low since w
      → IsValid low since (run fl w ops)
        × ((run fl w ops).count ≡ w.count + total_bytes ops)
        × (w.epochs ≤ (run fl w ops).epochs)
        × ((run fl w ops).epochs ≤ w.epochs + length ops)
  unfolding run
  run-IsValid low since w [] fits_n fits v = (v, omega arith, omega arith, omega arith)
  run-IsValid low since w (op ∷ ops) fits_n fits v =
      let now_fits : NoWrap w op = (omega arith, omega arith) in
      let c = count-step w op now_fits in
      let e = epochs-step w op now_fits in
      let (v', c', e0, e1) =
        run-IsValid low since (step fl w op) ops (omega arith) (omega arith)
          (step-IsValid low since fl w op now_fits v) in
      (v', omega arith, omega arith, omega arith)

  pub new-IsValid : (t : Timing) → IsValid (λ k. 0) (λ k. 0) (new fl t)
  unfolding new
  new-IsValid t = record {
    low_counted = λ k. omega arith;
    since_given = λ k. omega arith;
    all_sound = λ k s h. ground (arith, lookup-nil {V = State F} k);
  }

  -- After any calls from New on, every window is sound: it has not echoed or marked more than it sent,
  -- nor sent more than the count, its size is within the cap, and its epoch is one that was given. The
  -- count is the bytes of all calls, and at most one epoch was given for each call. The 64-bit counts
  -- do not wrap.
  pub from_new :
      (t : Timing) (ops : List Op)
      → total_bytes ops < 2 ^ 64
      → length ops < 2 ^ 64
      → IsValid (λ k. 0) (λ k. 0) (run fl (new fl t) ops)
        × ((run fl (new fl t) ops).count ≡ total_bytes ops)
        × ((run fl (new fl t) ops).epochs ≤ length ops)
  unfolding new
  from_new t ops fits_n fits =
      let (v, c, e0, e1) =
        run-IsValid (λ k. 0) (λ k. 0) (new fl t) ops (omega arith) (omega arith) (new-IsValid t) in
      (v, omega arith, omega arith)

  -- Bounds that hold of one key's window from now on.
  pub raise-IsValid :
      (w : Windows F) (key : String) (low since : ℕ)
      → low ≤ w.count
      → since ≤ w.epochs
      → ((st : State F) → lookup key w.windows ≡ some st → (low ≤ st.echoed) × (since < st.epoch))
      → IsValid (λ k. 0) (λ k. 0) w
      → IsValid (only_at key low) (only_at key since) w
  raise-IsValid w key low since hl hs at_key v = record {
    low_counted = λ k. ground arith;
    since_given = λ k. ground arith;
    all_sound = λ k s h. ground (arith, v.all_sound k s h, at_key s, string_eq.beq_iff key k);
  }
