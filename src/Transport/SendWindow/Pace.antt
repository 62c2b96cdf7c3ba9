-- ===== src/Transport/SendWindow/Pace.antt =====
-- internal/transport/common/window.go: the round trip estimate, loss detection and the pace.
use olcrtc.Prelude.{
  ℕ, ◌+◌, ◌-◌, ◌*◌, ◌/◌, ◌%◌, ◌^◌, Bool, true, false, ◌&&◌, ◌||◌, not, List, [], ◌∷◌, length, max,
  min, ltb, leb, ◌==◌, if◌then◌else◌,
}
use olcrtc.Transport.SendWindow.Types.{
  Slot, WindowMsg, Window, PaceFloat, millisecond, grow_every, pace_burst, min_rto, max_rto,
  max_backoff, reorder_floor, lost_after_acks, blackout,
}

-- The timer of a fragment sent `tries` times.
unfoldable pub backoff : ℕ → ℕ → ℕ
backoff rto tries =
    min (if ltb 1 tries then rto * 2 ^ min (tries - 1) max_backoff else rto) (max_rto * max_backoff)

module _ {F : Type 0} where
  unfoldable pub sample : Window F → ℕ → Window F
  sample w rtt =
      let diff = (w.srtt - rtt) + (rtt - w.srtt) in
      if rtt == 0
      then w
      else if w.srtt == 0
      then record w { srtt = rtt; rttvar = rtt / 2 }
      else record w { rttvar = (3 * w.rttvar + diff) / 4; srtt = (7 * w.srtt + rtt) / 8 }

  unfoldable pub rto : Window F → ℕ
  rto w =
      if w.srtt == 0 then 1000 * millisecond else min (max (w.srtt + 4 * w.rttvar) min_rto) max_rto

  -- The condition under which the loop of detectLoss marks a fragment.
  unfoldable pub is_lost : Window F → ℕ → Slot → Bool
  unfolding backoff rto
  is_lost w now slot =
      not slot.acked
      && not slot.lost
      && not (slot.sent_at == 0)
      && not (
          ltb (now - slot.sent_at) (backoff (rto w) slot.tries)
          && leb (w.rack - slot.sent_at) (max (w.srtt / 4) reorder_floor)
          && ltb w.acked_ord ((slot.sent_ord + lost_after_acks) % 2 ^ 64))

  unfoldable pub mark_slots : Window F → ℕ → List Slot → List Slot
  unfolding is_lost
  mark_slots w now [] = []
  mark_slots w now (s ∷ slots) =
      let rest = mark_slots w now slots in
      (if is_lost w now s then record s { lost = true } else s) ∷ rest

  unfoldable pub any_lost : Window F → ℕ → List Slot → Bool
  unfolding is_lost
  any_lost w now [] = false
  any_lost w now (s ∷ slots) = is_lost w now s || any_lost w now slots

  unfoldable pub mark_msgs : Window F → ℕ → List WindowMsg → List WindowMsg
  unfolding mark_slots
  mark_msgs w now [] = []
  mark_msgs w now (m ∷ msgs) = record m { slots = mark_slots w now m.slots } ∷ mark_msgs w now msgs

  unfoldable pub any_msg_lost : Window F → ℕ → List WindowMsg → Bool
  unfolding any_lost
  any_msg_lost w now [] = false
  any_msg_lost w now (m ∷ msgs) = any_lost w now m.slots || any_msg_lost w now msgs

  unfoldable pub expire : Window F → ℕ → Window F
  expire w now =
      let late = record w { failed = true } in
      elim w.msgs [
        | [] ↦ w
        | m ∷ msgs ↦ if w.failed || ltb (now - m.queued) w.cfg.give_up then w else late
      ]

  module _ ⦃float : PaceFloat F⦄ where
    unfoldable pub cut : Window F → ℕ → Window F
    cut w now =
        if not (w.loss_at == 0) && ltb (now - w.loss_at) (max w.srtt grow_every)
        then w
        else record w {
          rate = float.max_float (float.mul_float w.rate float.cut_factor) w.cfg.min_rate;
          loss_at = now;
          grow_at = now;
          held = false;
        }

    unfoldable pub dark : Window F → ℕ → Window F
    dark w now =
        if length w.msgs == 0 || w.last_ack == 0 || ltb (now - w.last_ack) blackout
        then w
        else if float.le_float w.rate w.cfg.min_rate
        then w
        else record w { rate = w.cfg.min_rate; loss_at = now; grow_at = now; held = false }

    unfoldable pub detect_loss : Window F → ℕ → Window F
    unfolding any_msg_lost mark_msgs cut dark
    detect_loss w now =
        let marked = record w { msgs = mark_msgs w now w.msgs } in
        dark (if any_msg_lost w now w.msgs then cut marked now else marked) now

    unfoldable pub burst : Window F → F
    burst w =
        float.max_float (float.mul_float w.rate (float.seconds pace_burst))
          (float.of_int w.cfg.fragment_size)

    unfoldable pub refill : Window F → ℕ → Window F
    unfolding burst
    refill w now =
        let w1 =
          if w.credit_at == 0
          then record w { credit_at = now; grow_at = now; credit = burst w }
          else w in
        let w2 =
          if ltb 0 (now - w1.credit_at)
          then record w1 {
            credit =
                float.add_float w1.credit
                  (float.mul_float w1.rate (float.seconds (now - w1.credit_at)));
            credit_at = now;
          }
          else w1 in
        let w3 : Window F = record w2 { credit = float.min_float w2.credit (burst w2) } in
        if not w3.held || ltb (now - w3.grow_at) grow_every
        then w3
        else if not (w3.loss_at == 0) && ltb (now - w3.loss_at) grow_every
        then w3
        else record w3 {
          rate = float.min_float (float.mul_float w3.rate float.grow_factor) w3.cfg.max_rate;
          grow_at = now;
          held = false;
        }
