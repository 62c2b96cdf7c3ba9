-- ===== src/Relaywin/Wakes.antt =====
-- No wake is lost: the channel that a sender parks on is closed by whatever lets it go on.
use Prim.Native.String.{String}
use olcrtc.Prelude.{
  contains, ℕ, ◌+◌, ◌≡◌, ◌⊎◌, inr, refl, Bool, true, false, ◌||◌, List, [], ◌∷◌, ◌++◌, Option, none,
  some, arith, ◌==◌, ◌%◌, ◌^◌,
}
use olcrtc.Prelude.Maps.{lookup, insert, string_eq, lookup-insert, lookup-erase}
use olcrtc.Relaywin.Types.{Float64, Timing, LegMeasure, State, Windows}
use olcrtc.Relaywin.Ops.{
  room_in, room_of, room, fresh_state, open_of, open_window, sent_in, sent, resize, measure_if,
  wake_senders, apply_echo_of, apply_echo_at, arm, epoch_of, wake_of, reset_of, reset, reset_all,
  bump_of, bump, wakes,
}
use olcrtc.Relaywin.Steps.{
  Op, call_room, call_sent, call_echo, call_arm, call_reset, call_bump, call_epoch, call_wake,
  call_reset_all, step, run,
}
use olcrtc.Relaywin.Steps.Restarts.{Restarts, by_reset, by_reset_all, by_bump}
use olcrtc.Relaywin.Steps.Valid.{open_window-lookup}

contains-append_right :
    (n : ℕ) (xs ys : List ℕ) → contains n ys ≡ true → contains n (xs ++ ys) ≡ true
unfolding contains
contains-append_right n [] ys h = h
contains-append_right n (x ∷ xs) ys h = ground (arith, contains-append_right n xs ys h)

contains-append_left :
    (n : ℕ) (xs ys : List ℕ) → contains n xs ≡ true → contains n (xs ++ ys) ≡ true
unfolding contains
contains-append_left n [] ys h = cc
contains-append_left n (x ∷ xs) ys h = ground (arith, contains-append_left n xs ys)

module _ {F : Type 0} (fl : Float64 F) where
  measure_if-wake :
      (t : Timing) (st : State F) (leg : Option (LegMeasure F)) (counter now : ℕ)
      → (measure_if fl t st leg counter now).wake ≡ st.wake
  unfolding measure_if resize
  measure_if-wake t st leg counter now = ground arith

  -- Channel `ch` is the one of `key`'s window.
  abbrev is_wake : ℕ → Option (State F) → Bool
  is_wake ch none = false
  is_wake ch (some st) = st.wake == ch

  -- Channel `ch` is closed, or it is the one that the next wake of `key` closes.
  abbrev pub pending : String → ℕ → Windows F → Bool
  pending key ch w = contains ch w.closed || is_wake ch (lookup key w.windows)

  contains-wakes :
      (key : String) (ch : ℕ) (m : List (String × State F))
      → is_wake ch (lookup key m) ≡ true
      → contains ch (wakes m) ≡ true
  unfolding lookup contains
  contains-wakes key ch [] h = h
  contains-wakes key ch ((k, st) ∷ rest) h = ground (arith, contains-wakes key ch rest)

  pending-put :
      (key k : String) (ch : ℕ) (st : State F) (m : List (String × State F)) (closed : List ℕ)
      → is_wake ch (lookup k m) ≡ is_wake ch (some st)
      → contains ch closed || is_wake ch (lookup key m) ≡ true
      → contains ch closed || is_wake ch (lookup key (insert k st m)) ≡ true
  pending-put key k ch st m closed same h =
      ground (arith, lookup-insert key k st m, string_eq.beq_iff k key)

  pending-room :
      (key k : String) (ch now : ℕ) (w : Windows F) (o : Option (State F))
      → lookup k w.windows ≡ o
      → pending key ch w ≡ true
      → pending key ch (room_of w k now o).0 ≡ true
  unfolding room_of room_in
  pending-room key k ch now w none e h = h
  pending-room key k ch now w (some st) e h =
      pending-put key k ch (room_in w.timing st now).0 w.windows w.closed (ground (arith, e)) h

  -- A wake of `k` closes its channel, and leaves the others pending.
  pending-wake_senders :
      (key k : String) (ch : ℕ) (w : Windows F) (old new : State F)
      → lookup k w.windows ≡ some old
      → new.wake ≡ old.wake
      → pending key ch w ≡ true
      → pending key ch (wake_senders w k new) ≡ true
  unfolding wake_senders contains
  pending-wake_senders key k ch w old new e same h = ground (
    arith,
    lookup-insert key k (record new { wake = w.chans + 1 }) w.windows,
    string_eq.beq_iff k key,
  )

  pending-echo :
      (key k : String) (ch counter now : ℕ) (w : Windows F) (o : Option (State F))
      → lookup k w.windows ≡ o
      → pending key ch w ≡ true
      → pending key ch (apply_echo_of fl w k counter now o).0 ≡ true
  unfolding apply_echo_of
  pending-echo key k ch counter now w none e h = h
  pending-echo key k ch counter now w (some st) e h =
      let moved : State F = record st { active = true; echoed = counter; held_since = 0 } in
      let after = measure_if fl w.timing moved st.leg counter now in
      ground (
        arith,
        pending-wake_senders key k ch w st after e
            (measure_if-wake w.timing moved st.leg counter now) h,
      )

  pending-open :
      (key k : String) (ch : ℕ) (w : Windows F) (o : Option (State F))
      → lookup k w.windows ≡ o
      → pending key ch w ≡ true
      → pending key ch (open_of fl w k o).0 ≡ true
  unfolding open_of
  pending-open key k ch w none e h =
      ground (arith, lookup-insert key k (fresh_state fl w) w.windows, string_eq.beq_iff k key)
  pending-open key k ch w (some st) e h = h

  pending-open_window :
      (key k : String) (ch : ℕ) (w : Windows F)
      → pending key ch w ≡ true
      → pending key ch (open_window fl w k).0 ≡ true
  unfolding open_window
  pending-open_window key k ch w h = pending-open key k ch w (lookup k w.windows) refl h

  pending-sent :
      (key k : String) (ch n now : ℕ) (w : Windows F)
      → pending key ch w ≡ true
      → pending key ch (sent fl w k n now).0 ≡ true
  unfolding sent sent_in
  pending-sent key k ch n now w h =
      let (w', st) = open_window fl w k in
      pending-put key k ch (sent_in fl w'.timing st n now).0 w'.windows w'.closed
        (ground (arith, open_window-lookup fl w k)) (pending-open_window key k ch w h)

  pending-arm :
      (key k : String) (ch : ℕ) (w : Windows F)
      → pending key ch w ≡ true
      → pending key ch (arm fl w k) ≡ true
  unfolding arm
  pending-arm key k ch w h =
      let (w', st) = open_window fl w k in
      let put =
        pending-put key k ch (record st { active = true; held_since = 0 }) w'.windows w'.closed
          (ground (arith, open_window-lookup fl w k)) (pending-open_window key k ch w h) in
      ground (arith, put, pending-open_window key k ch w h)

  pending-reset :
      (key k : String) (ch : ℕ) (w : Windows F) (o : Option (State F))
      → lookup k w.windows ≡ o
      → pending key ch w ≡ true
      → pending key ch (reset_of w k o) ≡ true
  unfolding reset_of contains
  pending-reset key k ch w none e h = h
  pending-reset key k ch w (some st) e h =
      ground (arith, lookup-erase key k w.windows, string_eq.beq_iff k key)

  pending-bump :
      (key k : String) (ch : ℕ) (w : Windows F) (o : Option (State F))
      → lookup k w.windows ≡ o
      → pending key ch w ≡ true
      → pending key ch (bump_of w k o) ≡ true
  unfolding bump_of
  pending-bump key k ch w none e h = h
  pending-bump key k ch w (some st) e h =
      let epoch = (w.epochs + 1) % 2 ^ 64 in
      pending-wake_senders key k ch (record w { epochs = epoch }) st
        (record st { epoch = epoch; waiting_since = 0 }) e refl h

  reset_all_closes :
      (key : String) (ch : ℕ) (w : Windows F)
      → pending key ch w ≡ true
      → contains ch (reset_all w).closed ≡ true
  unfolding reset_all
  reset_all_closes key ch w h = ground (
    arith,
    contains-wakes key ch w.windows,
    contains-append_left ch (wakes w.windows) w.closed,
    contains-append_right ch (wakes w.windows) w.closed,
  )

  pending-step :
      (key : String) (ch : ℕ) (w : Windows F) (op : Op)
      → pending key ch w ≡ true
      → pending key ch (step fl w op) ≡ true
  unfolding step room apply_echo_at reset bump epoch_of wake_of
  pending-step key ch w (call_room k now) h =
      pending-room key k ch now w (lookup k w.windows) refl h
  pending-step key ch w (call_sent k n now) h = pending-sent key k ch n now w h
  pending-step key ch w (call_echo k counter now) h =
      pending-echo key k ch counter now w (lookup k w.windows) refl h
  pending-step key ch w (call_arm k) h = pending-arm key k ch w h
  pending-step key ch w (call_reset k) h = pending-reset key k ch w (lookup k w.windows) refl h
  pending-step key ch w (call_bump k) h = pending-bump key k ch w (lookup k w.windows) refl h
  pending-step key ch w (call_epoch k) h = pending-open_window key k ch w h
  pending-step key ch w (call_wake k) h = pending-open_window key k ch w h
  pending-step key ch w call_reset_all h = ground (arith, reset_all_closes key ch w h)

  pending-run :
      (key : String) (ch : ℕ) (w : Windows F) (ops : List Op)
      → pending key ch w ≡ true
      → pending key ch (run fl w ops) ≡ true
  unfolding run
  pending-run key ch w [] h = h
  pending-run key ch w (op ∷ ops) h =
      pending-run key ch (step fl w op) ops (pending-step key ch w op h)

  reset_closes :
      (key : String) (ch : ℕ) (w : Windows F) (o : Option (State F))
      → lookup key w.windows ≡ o
      → pending key ch w ≡ true
      → contains ch (reset_of w key o).closed ≡ true
  unfolding reset_of contains
  reset_closes key ch w none e h = ground arith
  reset_closes key ch w (some st) e h = ground arith

  bump_closes :
      (key : String) (ch : ℕ) (w : Windows F) (o : Option (State F))
      → lookup key w.windows ≡ o
      → pending key ch w ≡ true
      → contains ch (bump_of w key o).closed ≡ true
  unfolding bump_of wake_senders contains
  bump_closes key ch w none e h = ground arith
  bump_closes key ch w (some st) e h = ground arith

  echo_closes :
      (key : String) (ch counter now : ℕ) (w : Windows F) (o : Option (State F))
      → lookup key w.windows ≡ o
      → pending key ch w ≡ true
      → let r = apply_echo_of fl w key counter now o in
        (contains ch r.0.closed ≡ true) ⊎ (r.1 ≡ false)
  unfolding apply_echo_of wake_senders contains
  echo_closes key ch counter now w none e h = inr refl
  echo_closes key ch counter now w (some st) e h =
      let moved : State F = record st { active = true; echoed = counter; held_since = 0 } in
      ground (arith, measure_if-wake w.timing moved st.leg counter now)

  taken-pending :
      (key : String) (w : Windows F) → let (w', ch) = wake_of fl w key in pending key ch w' ≡ true
  unfolding wake_of
  taken-pending key w = ground (arith, open_window-lookup fl w key)

  restart_closes :
      (key : String) (ch : ℕ) (w : Windows F) (op : Op)
      → Restarts key op
      → pending key ch w ≡ true
      → contains ch (step fl w op).closed ≡ true
  unfolding step reset reset_of bump bump_of wake_senders contains
  restart_closes key ch w _ by_reset h = reset_closes key ch w (lookup key w.windows) refl h
  restart_closes key ch w _ by_reset_all h = reset_all_closes key ch w h
  restart_closes key ch w _ by_bump h = bump_closes key ch w (lookup key w.windows) refl h

  -- A sender that took the channel of its window's next wake, with any calls after that, finds it
  -- closed after a Reset or a Bump of the window or a ResetAll, and after an echo that moved the
  -- window: no wake between the taking and the wait is missed.
  pub no_lost_wake :
      (w : Windows F) (key : String) (between : List Op) (op : Op) (counter now : ℕ)
      → Restarts key op
      → let (w', ch) = wake_of fl w key in
        let later = run fl w' between in
        let (echoed, moved, on) = apply_echo_at fl later key counter now in
        (contains ch (step fl later op).closed ≡ true)
        × ((contains ch echoed.closed ≡ true) ⊎ (moved ≡ false))
  unfolding apply_echo_at
  no_lost_wake w key between op counter now restart =
      let (w', ch) = wake_of fl w key in
      let later = run fl w' between in
      let waiting = pending-run key ch w' between (taken-pending key w) in
      (
        restart_closes key ch later op restart waiting,
        echo_closes key ch counter now later (lookup key later.windows) refl waiting,
      )
