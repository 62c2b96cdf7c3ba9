-- ===== src/Relaywin/Bounds.antt =====
-- How much the window lets be in flight, when it asks for a mark, and how it is sized.
use olcrtc.Prelude.{ℕ, ◌+◌, ◌-◌, ◌^◌, ◌≤◌, ◌<◌, ◌≡◌, ◌↔◌, ◌⊎◌, true, false, arith}
use olcrtc.Relaywin.Types.{Float64, Timing, LegMeasure, State, with_defaults}
use olcrtc.Relaywin.Ops.{room_in, resize, sent_in, measure, over_in}
use olcrtc.Relaywin.Steps.Sound.{IsSound}

module _ {F : Type 0} (fl : Float64 F) where
  -- A sender that Room lets go and that then hands over `n` bytes leaves less than the window's size
  -- and those bytes in flight, or the window is off; when Room holds it, the window is on and full.
  pub room-sent_bounded :
      (t : Timing) (st : State F) (n now later count epochs low since : ℕ)
      → IsSound t.window count epochs low since st
      → count + n < 2 ^ 64
      → let (st', ok, probe, counter) = room_in t st now in
        let after = (sent_in fl t st' n later).0 in
        ((ok ≡ true) × ((after.active ≡ false) ⊎ (after.sent - after.echoed < after.size + n)))
        ⊎ ((ok ≡ false) × (st.active ≡ true) × (st.size ≤ st.sent - st.echoed))
  unfolding room_in sent_in
  room-sent_bounded t st n now later count epochs low since v fits = ground arith

  -- Sent leaves fewer than `mark_every` bytes unmarked. While the destination has not echoed, it
  -- also leaves no mark that is ProbeAfter old, and a mark carries the count of all bytes sent.
  pub sent_marks :
      (t : Timing) (st : State F) (n now count epochs low since : ℕ)
      → IsSound t.window count epochs low since st
      → count + n < 2 ^ 64
      → 1 ≤ st.mark_every
      → 1 ≤ t.probe_after
      → let (after, due, counter) = sent_in fl t st n now in
        (after.sent - after.marked < after.mark_every)
        × ((after.active ≡ true) ⊎ (now - after.marked_at < t.probe_after))
        × (((due ≡ true) × (counter ≡ st.sent + n) × (after.marked ≡ counter))
            ⊎ ((due ≡ false) × (counter ≡ 0)))
  unfolding sent_in
  sent_marks t st n now count epochs low since v fits m p =
      (ground arith, ground arith, ground arith)

  -- However the leg is measured, a sized window lies between MinWindow and Window, and the echo
  -- leaves every count and the state of holding as they were.
  pub measure_sized :
      (t : Timing) (st : State F) (leg : LegMeasure F) (counter now : ℕ)
      → t.min_window ≤ t.window
      → (t.min_window ≤ st.size) × (st.size ≤ t.window)
      → let after = measure fl t st leg counter now in
        (t.min_window ≤ after.size)
        × (after.size ≤ t.window)
        × (after.sent ≡ st.sent)
        × (after.echoed ≡ st.echoed)
        × (after.marked ≡ st.marked)
        × (after.active ≡ st.active)
  unfolding measure resize
  measure_sized t st leg counter now h k =
      (ground arith, ground arith, ground arith, ground arith, ground arith, ground arith)

module _ {F : Type 0} where
  -- A datagram is dropped only at a window that is on, and there exactly when a sender has waited
  -- for ProbeAfter or more than the window and the slack is in flight.
  pub over_iff :
      (t : Timing) (st : State F) (slack now count epochs low since : ℕ)
      → count < 2 ^ 64
      → IsSound t.window count epochs low since st
      → (over_in t st slack now ≡ true) ↔ (
          (st.active ≡ true)
          × (((1 ≤ st.waiting_since) × (t.probe_after ≤ now - st.waiting_since))
              ⊎ (st.size + slack < st.sent - st.echoed)))
  unfolding over_in
  over_iff t st slack now count epochs low since fits v = (ground arith, ground arith)

-- The timing that New puts in force has a window, a mark distance, a probe and a dead time and a
-- retry above zero, and a sized window's least is no more than its cap.
pub with_defaults_pos :
    (t : Timing)
    → let d = with_defaults t in
      (1 ≤ d.window)
      × (1 ≤ d.mark_every)
      × (1 ≤ d.probe_after)
      × (1 ≤ d.dead_after)
      × (1 ≤ d.retry)
      × ((d.horizon ≡ 0) ⊎ (d.min_window ≤ d.window))
unfolding with_defaults
with_defaults_pos t =
    (ground arith, ground arith, ground arith, ground arith, ground arith, ground arith)
