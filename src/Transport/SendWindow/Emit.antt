-- ===== src/Transport/SendWindow/Emit.antt =====
-- internal/transport/common/window.go: Drain, which writes the fragments that may go now.
-- The writer's answer to the call of emit after `n` frames is `emit n`.
use olcrtc.Prelude.{
  ℕ, zero, suc, ◌+◌, ◌*◌, ◌%◌, ◌^◌, ◌≤◌, arith, Option-cases, inl, inr, Bool, true, false, ◌&&◌,
  ◌||◌, not, List, [], ◌∷◌, ◌++◌, Option, none, some, length, take, drop, set, get_elem?, ltb, leb,
  ◌==◌, if◌then◌else◌,
}
use olcrtc.Transport.Frame.{encode_stream_data}
use olcrtc.Transport.SendWindow.Types.{Slot, WindowMsg, Window, PaceFloat, max_backoff}
use olcrtc.Transport.SendWindow.Pace.{detect_loss, expire, refill}

-- `frag i` of a message: its bytes from i * frag_size on.
unfoldable pub frag : WindowMsg → ℕ → List ℕ
frag m i = take m.frag_size (drop (i * m.frag_size) m.payload)

unfoldable pub wants : Slot → Bool → Bool
wants slot retransmit =
    if slot.acked then false else if retransmit then slot.lost else slot.sent_at == 0

unfoldable pub pending_slots : List Slot → Bool
pending_slots [] = false
pending_slots (s ∷ slots) = (not s.acked && (s.lost || s.sent_at == 0)) || pending_slots slots

unfoldable pub pending : List WindowMsg → Bool
unfolding pending_slots
pending [] = false
pending (m ∷ msgs) = pending_slots m.slots || pending msgs

-- The fragments in the order of the three loops of Drain, by message and index.
abbrev indices : ℕ → ℕ → ℕ → List (ℕ × ℕ)
indices zero at i = []
indices (suc n) at i = (at, i) ∷ indices n at (i + 1)

abbrev places : List WindowMsg → ℕ → List (ℕ × ℕ)
places [] at = []
places (m ∷ msgs) at = indices (length m.slots) at 0 ++ places msgs (at + 1)

abbrev pub pass : Bool → List (ℕ × ℕ) → List (Bool × ℕ × ℕ)
pass retransmit [] = []
pass retransmit ((at, i) ∷ rest) = (retransmit, at, i) ∷ pass retransmit rest

unfoldable pub turns : List WindowMsg → List (Bool × ℕ × ℕ)
turns msgs = pass true (places msgs 0) ++ pass false (places msgs 0)

abbrev pub slot_at : List WindowMsg → ℕ → ℕ → Option (WindowMsg × Slot)
slot_at msgs at i = elim (get_elem? msgs at) [
  | none ↦ none
  | some m ↦ elim (get_elem? m.slots i) [ none ↦ none | some slot ↦ some (m, slot) ]
]

-- Fragment `i` of a message went out at `now` as the transmission `ord`.
abbrev pub booked_msg : ℕ → ℕ → WindowMsg → ℕ → Slot → WindowMsg
booked_msg now ord m i slot = record m {
  slots = set m.slots i (record slot {
    sent_at = now;
    sent_ord = ord;
    lost = false;
    tries = if ltb slot.tries max_backoff then slot.tries + 1 else slot.tries;
  });
}

module _ (crc32 : List ℕ → ℕ) {F : Type 0} ⦃float : PaceFloat F⦄ where
  unfoldable pub frame_of : Window F → WindowMsg → ℕ → List ℕ
  unfolding frag
  frame_of w m i =
      encode_stream_data crc32 w.cfg.role w.cfg.binding w.id w.floor m.seq m.crc (length m.payload)
        i (length m.slots) (frag m i)

  -- emitFrag, once the writer has taken the frame.
  unfoldable pub book : Window F → ℕ → ℕ → WindowMsg → ℕ → Slot → List ℕ → Window F
  book w now at m i slot frame =
      let ord = (w.send_ord + 1) % 2 ^ 64 in
      record w {
        send_ord = ord;
        msgs = set w.msgs at (booked_msg now ord m i slot);
        credit = float.sub_float w.credit (float.of_int (length frame));
      }

  unfoldable pub drain_turns :
      List (Bool × ℕ × ℕ) → Window F → ℕ → ℕ → (ℕ → List ℕ → Bool) → ℕ → Window F × ℕ
  unfolding wants frame_of book pending
  drain_turns [] w now frames emit written = (w, written)
  drain_turns ((retransmit, at, i) ∷ rest) w now frames emit written =
      let skipped = drain_turns rest w now frames emit written in
      let at_place = slot_at w.msgs at i in
      let stopped = record w { held = w.held || pending w.msgs } in
      let next : Window F × ℕ = elim at_place [
        | none ↦ skipped
        | some (m, slot) ↦
            let frame = frame_of w m i in
            let after =
              drain_turns rest (book w now at m i slot frame) now frames emit (written + 1) in
            if not (wants slot retransmit)
            then skipped
            else if emit written frame
            then after
            else (w, written)
      ] in
      if leb frames written || float.le_float w.credit float.zero_float
      then (stopped, written)
      else next

  -- Drain, with the number of frames written.
  unfoldable pub drain : Window F → ℕ → ℕ → (ℕ → List ℕ → Bool) → Window F × ℕ
  unfolding detect_loss expire refill turns drain_turns
  drain w now frames emit =
      let ready = refill (expire (detect_loss w now) now) now in
      drain_turns (turns ready.msgs) ready now frames emit 0

  drain_turns_bounded :
      (places : List (Bool × ℕ × ℕ)) (w : Window F) (now frames : ℕ) (emit : ℕ → List ℕ → Bool)
      (written : ℕ)
      → written ≤ frames
      → (drain_turns places w now frames emit written).1 ≤ frames
  unfolding drain_turns
  drain_turns_bounded [] w now frames emit written h = h
  drain_turns_bounded ((retransmit, at, i) ∷ rest) w now frames emit written h =
      let skipped = drain_turns_bounded rest w now frames emit written h in
      elim (Option-cases (slot_at w.msgs at i)) [
        | inl e ↦ ground (arith, e, skipped)
        | inr ((m, slot), e) ↦
            let booked = book w now at m i slot (frame_of w m i) in
            ground
              (arith, e, skipped, drain_turns_bounded rest booked now frames emit (written + 1))
      ]

  -- Drain writes at most `frames` frames.
  pub drain_bounded :
      (w : Window F) (now frames : ℕ) (emit : ℕ → List ℕ → Bool)
      → (drain w now frames emit).1 ≤ frames
  unfolding drain
  drain_bounded w now frames emit =
      let ready = refill (expire (detect_loss w now) now) now in
      drain_turns_bounded (turns ready.msgs) ready now frames emit 0 omega arith
