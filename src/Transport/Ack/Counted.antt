-- ===== src/Transport/Ack/Counted.antt =====
-- The counter of a waiter is the number of its fragments that are not acknowledged:
-- internal/transport/common/ack.go.
use olcrtc.Prelude.{
  ℕ, zero, suc, ◌<◌, ◌≡◌, ◌↔◌, refl, ap, ◌∙◌, subst, inl, inr, Bool, true, false, Bool-cases, not,
  ◌||◌, List, [], ◌∷◌, ◌++◌, Option, none, some, length, get_elem?, get_or, set, length-set, All,
  arith, leb, ◌==◌,
}
use olcrtc.Prelude.Maps.{nat_eq, lookup}
use olcrtc.Transport.Ack.{
  AckWaiter, AckTracker, unacked, new_tracker, register, unregister, mark_waiter, mark_at, mark,
  unacked_from, pending_of, done, IsCounted, Call, call, call_all, waiter_of, register_call,
  unregister_call, mark_call,
}

pub unacked_counts :
    (i n : ℕ) → (length (unacked n) ≡ n) × (length (unacked_from i (unacked n)) ≡ n)
unfolding unacked unacked_from
unacked_counts i zero = (refl, refl)
unacked_counts i (suc n) =
    (ap suc (unacked_counts (suc i) n).0, ap suc (unacked_counts (suc i) n).1)

set_acked_counts :
    (i : ℕ) (bs : List Bool) (idx : ℕ)
    → idx < length bs
    → get_or bs idx false ≡ false
    → suc (length (unacked_from i (set bs idx true))) ≡ length (unacked_from i bs)
unfolding unacked_from
set_acked_counts i [] idx lt missing = ground arith
set_acked_counts i (b ∷ bs) zero lt missing = ground (arith, missing)
set_acked_counts i (b ∷ bs) (suc idx) lt missing =
    ground (arith, missing, set_acked_counts (suc i) bs idx)

mark_waiter-IsCounted :
    (w : AckWaiter) (crc idx : ℕ) → IsCounted w → IsCounted (mark_waiter w crc idx).1
mark_waiter-IsCounted w crc idx h =
    elim (Bool-cases (not (w.crc == crc) || leb w.total idx || get_or w.acked idx false)) [
      | inl ignored ↦ rw ignored h
      | inr new ↦
          let missing : get_or w.acked idx false ≡ false = ground (arith, new) in
          let lt : idx < length w.acked = ground (arith, new, h.0) in
          rw new (
            length-set w.acked idx true ∙ h.0,
            omega (arith, set_acked_counts 0 w.acked idx lt missing, h.1),
          )
    ]

pub get-All :
    (ws : List AckWaiter) (at : ℕ) (w : AckWaiter)
    → All IsCounted ws
    → get_elem? ws at ≡ some w
    → IsCounted w
get-All [] at w hs h = ground (arith, h)
get-All (v ∷ ws) zero w hs h = let same : v ≡ w = ground (arith, h) in subst IsCounted same hs.0
get-All (v ∷ ws) (suc at) w hs h = get-All ws at w hs.1 h

set-All :
    (ws : List AckWaiter) (at : ℕ) (w : AckWaiter)
    → All IsCounted ws
    → IsCounted w
    → All IsCounted (set ws at w)
set-All [] at w hs h = tt
set-All (v ∷ ws) zero w hs h = (h, hs.1)
set-All (v ∷ ws) (suc at) w hs h = (hs.0, set-All ws at w hs.1 h)

append-All :
    (ws : List AckWaiter) (w : AckWaiter)
    → All IsCounted ws
    → IsCounted w
    → All IsCounted (ws ++ w ∷ [])
append-All [] w hs h = (h, tt)
append-All (v ∷ ws) w hs h = (hs.0, append-All ws w hs.1 h)

mark_at-IsCounted :
    (t : AckTracker) (crc idx : ℕ) (o : Option ℕ) (w : Option AckWaiter)
    → waiter_of t o ≡ w
    → All IsCounted t.waiters
    → All IsCounted (mark_at t crc idx o w).1.waiters
mark_at-IsCounted t crc idx none w found hs = hs
mark_at-IsCounted t crc idx (some at) none found hs = hs
mark_at-IsCounted t crc idx (some at) (some w) found hs =
    set-All t.waiters at (mark_waiter w crc idx).1 hs
      (mark_waiter-IsCounted w crc idx (get-All t.waiters at w hs found))

pub call-IsCounted :
    (t : AckTracker) (c : Call) → All IsCounted t.waiters → All IsCounted (call t c).waiters
unfolding register unregister mark
call-IsCounted t (register_call seq crc total) hs =
    append-All t.waiters
      (record {
        crc = crc;
        total = total;
        acked = unacked total;
        remaining = total;
        ticked = false;
      })
      hs (unacked_counts 0 total)
call-IsCounted t (unregister_call seq) hs = hs
call-IsCounted t (mark_call seq crc idx) hs =
    let o = lookup seq t.pending in mark_at-IsCounted t crc idx o (waiter_of t o) refl hs

call_all-IsCounted :
    (t : AckTracker) (cs : List Call)
    → All IsCounted t.waiters
    → All IsCounted (call_all t cs).waiters
call_all-IsCounted t [] hs = hs
call_all-IsCounted t (c ∷ cs) hs = call_all-IsCounted (call t c) cs (call-IsCounted t c hs)

empty : (xs : List ℕ) → length xs ≡ 0 → xs ≡ []
empty [] h = refl
empty (x ∷ xs) h = ground (arith, h)

pub done_counted : (w : AckWaiter) → IsCounted w → (done w ≡ true) ↔ (pending_of w ≡ [])
done_counted w h =
    (λ d. empty (pending_of w) (ground (arith, h, d)), λ e. ground (arith, h, ap length e))

All-map :
    (P Q : AckWaiter → Type 0) (ws : List AckWaiter)
    → ((w : AckWaiter) → P w → Q w)
    → All P ws
    → All Q ws
All-map P Q [] f hs = tt
All-map P Q (w ∷ ws) f hs = (f w hs.0, All-map P Q ws f hs.1)

-- After any calls of a tracker, whose waiters all started with Register, a waiter is done just when it
-- reports no fragment that is not acknowledged.
pub done_lem :
    (cs : List Call)
    → All (λ w. (done w ≡ true) ↔ (pending_of w ≡ [])) (call_all new_tracker cs).waiters
done_lem cs =
    let ws = (call_all new_tracker cs).waiters in
    All-map IsCounted (λ w. (done w ≡ true) ↔ (pending_of w ≡ [])) ws done_counted
      (call_all-IsCounted new_tracker cs tt)
