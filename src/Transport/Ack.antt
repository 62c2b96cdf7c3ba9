-- ===== src/Transport/Ack.antt =====
-- internal/transport/common/ack.go: per-fragment acknowledgements. A waiter is shared by the tracker and
-- its sender: it stands in a store, and the tracker and the sender keep its place there. The notify
-- channel has room for one tick. Fragment indexes come from the wire and are not negative.
pub mod Counted
use olcrtc.Prelude.{
  ℕ, zero, suc, ◌-◌, ◌<◌, ◌≡◌, ◌↔◌, refl, ap, ◌∙◌, subst, inl, inr, Bool, true, false, Bool-cases,
  not, ◌||◌, List, [], ◌∷◌, ◌++◌, Option, none, some, length, get_elem?, get_or, set, length-set,
  All, arith, leb, ◌==◌, if◌then◌else◌,
}
use olcrtc.Prelude.Maps.{nat_eq, lookup, insert, erase}

pub record AckWaiter : Type 0 where
  pub crc : ℕ
  pub total : ℕ
  pub acked : List Bool
  pub remaining : ℕ
  pub ticked : Bool

-- The waiters made so far, by their place, and the tracker's map from sequence numbers to places.
pub record AckTracker : Type 0 where
  pub waiters : List AckWaiter
  pub pending : List (ℕ × ℕ)

unfoldable pub unacked : ℕ → List Bool
unacked zero = []
unacked (suc n) = false ∷ unacked n

abbrev pub new_tracker : AckTracker
new_tracker = record { waiters = []; pending = [] }

-- With the place of the waiter it returns.
unfoldable pub register : AckTracker → ℕ → ℕ → ℕ → ℕ × AckTracker
register t seq crc total =
    let w : AckWaiter = record {
      crc = crc;
      total = total;
      acked = unacked total;
      remaining = total;
      ticked = false;
    } in
    (
      length t.waiters,
      record { waiters = t.waiters ++ w ∷ []; pending = insert seq (length t.waiters) t.pending },
    )

unfoldable pub unregister : AckTracker → ℕ → AckTracker
unregister t seq = record t { pending = erase seq t.pending }

abbrev pub mark_waiter : AckWaiter → ℕ → ℕ → Bool × AckWaiter
mark_waiter w crc idx =
    if not (w.crc == crc) || leb w.total idx || get_or w.acked idx false then (false, w) else (
      true,
      record w { acked = set w.acked idx true; remaining = w.remaining - 1; ticked = true },
    )

abbrev pub mark_at : AckTracker → ℕ → ℕ → Option ℕ → Option AckWaiter → Bool × AckTracker
mark_at t crc idx (some at) (some w) =
    let (flipped, w') = mark_waiter w crc idx in
    (flipped, record t { waiters = set t.waiters at w' })
mark_at t crc idx (some at) none = (false, t)
mark_at t crc idx none o = (false, t)

abbrev pub waiter_of : AckTracker → Option ℕ → Option AckWaiter
waiter_of t none = none
waiter_of t (some at) = get_elem? t.waiters at

unfoldable pub mark : AckTracker → ℕ → ℕ → ℕ → Bool × AckTracker
mark t seq crc idx = let at = lookup seq t.pending in mark_at t crc idx at (waiter_of t at)

-- The indexes of the fragments that are not acknowledged, from `i` on.
unfoldable pub unacked_from : ℕ → List Bool → List ℕ
unacked_from i [] = []
unacked_from i (b ∷ bs) = let rest = unacked_from (suc i) bs in if b then rest else i ∷ rest

abbrev pub pending_of : AckWaiter → List ℕ
pending_of w = unacked_from 0 w.acked

abbrev pub done : AckWaiter → Bool
done w = w.remaining == 0

-- The counter is the number of the fragments that are not acknowledged.
abbrev pub IsCounted : AckWaiter → Type 0
IsCounted w = (length w.acked ≡ w.total) × (length (pending_of w) ≡ w.remaining)

pub data Call : Type 0 where
  register_call : ℕ → ℕ → ℕ → Call
  unregister_call : ℕ → Call
  mark_call : ℕ → ℕ → ℕ → Call

abbrev pub call : AckTracker → Call → AckTracker
call t (register_call seq crc total) = (register t seq crc total).1
call t (unregister_call seq) = unregister t seq
call t (mark_call seq crc idx) = (mark t seq crc idx).1

abbrev pub call_all : AckTracker → List Call → AckTracker
call_all t [] = t
call_all t (c ∷ cs) = call_all (call t c) cs
