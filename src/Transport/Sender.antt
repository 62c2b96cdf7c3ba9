-- ===== src/Transport/Sender.antt =====
-- internal/transport/common/sender.go: Send over the ack tracker. What happens around it, the
-- acknowledgements that Resolve records, the end of a wait and the close of the transport, is the input of an
-- attempt; `crc` stands for crc32.ChecksumIEEE.
pub mod Settled
pub mod Acknowledged
use olcrtc.Prelude.{
  ℕ, zero, suc, ◌+◌, ◌-◌, ◌*◌, ◌/◌, ◌%◌, ◌^◌, Bool, true, false, List, [], ◌∷◌, ◌++◌, Option, none,
  some, length, get_elem?, get_or, take, map, ltb, ◌==◌, if◌then◌else◌,
}
use olcrtc.Prelude.Maps.{nat_eq}
use olcrtc.Prelude.Results.{Result, ok, err}
use olcrtc.Transport.Frame.{encode_data}
use olcrtc.Transport.Fragment.{fragment_payload}
use olcrtc.Transport.Ack.{AckWaiter, AckTracker, register, unregister, mark, pending_of, done}

pub data SendError : Type 0 where
  ack_timeout queue_closed : SendError

pub record SenderConfig : Type 0 where
  pub role : ℕ
  pub binding : ℕ
  pub fragment_size : ℕ
  pub max_attempts : ℕ

-- A call of Resolve.
pub record Resolved : Type 0 where
  pub seq : ℕ
  pub crc : ℕ
  pub frag_idx : ℕ

-- Where the transport closes while the fragments are queued, how many of them are in; what is resolved in
-- the wait; whether the transport is closed at the last select of the wait and the select takes that case;
-- what is resolved while it does, after the test of the waiter at the top of the turn; and what is resolved
-- between the end of the wait and the next attempt.
pub record Attempt : Type 0 where
  pub closed_in_queue : Option ℕ
  pub resolved : List Resolved
  pub closed_in_wait : Bool
  pub in_select : List Resolved
  pub late : List Resolved

abbrev pub resolve : AckTracker → Resolved → AckTracker
resolve t r = (mark t (r.seq) (r.crc) (r.frag_idx)).1

unfoldable pub resolve_all : AckTracker → List Resolved → AckTracker
resolve_all t [] = t
resolve_all t (r ∷ rs) = resolve_all (resolve t r) rs

-- The waiter that Register made.
abbrev pub is_done : Option AckWaiter → Bool
is_done none = false
is_done (some w) = done w

abbrev pub still_pending : Option AckWaiter → List ℕ
still_pending none = []
still_pending (some w) = pending_of w

abbrev pub waiter_at : AckTracker → ℕ → Option AckWaiter
waiter_at t at = get_elem? (t.waiters) at

-- The case that the select takes, the close or the timer.
abbrev pub selected : AckTracker → ℕ → Bool → Result SendError Bool × AckTracker
selected t at true = (err queue_closed, t)
selected t at false = (ok (is_done (waiter_at t at)), t)

-- A turn tests the waiter, then selects. An element of the list is resolved by the next turn's test, so
-- that a waiter that the test finds done ends the wait; with none left, the select takes the timer, which
-- tests the waiter again, or the close, which does not: an acknowledgement may then be in, the last one
-- included, and the answer is the close all the same.
unfoldable pub await :
    AckTracker → ℕ → List Resolved → Bool → List Resolved → Result SendError Bool × AckTracker
unfolding resolve_all
await t at [] closed in_select =
    if is_done (waiter_at t at) then (ok true, t) else selected (resolve_all t in_select) at closed
await t at (r ∷ rs) closed in_select =
    let more = await (resolve t r) at rs closed in_select in
    if is_done (waiter_at t at) then (ok true, t) else more

abbrev pub queued : Option ℕ → List (List ℕ) → Result SendError (List (List ℕ))
queued none frames = ok frames
queued (some n) frames = if ltb n (length frames) then err queue_closed else ok frames

-- What was queued before the close.
abbrev pub sent_of : Option ℕ → List (List ℕ) → List (List ℕ)
sent_of none frames = frames
sent_of (some n) frames = take n frames

-- 0, 1, ... up to a number, from `i` on.
unfoldable pub count_from : ℕ → ℕ → List ℕ
count_from i zero = []
count_from i (suc n) = i ∷ count_from (suc i) n

-- The error, none for nil, the tracker and the frames queued.
abbrev pub Sent : Type 0
Sent = Option SendError × AckTracker × List (List ℕ)

abbrev pub waited :
    (AckTracker → List ℕ → Sent) → ℕ → List Resolved → Result SendError Bool → AckTracker → Sent
waited next at late (err e) t = (some e, t, [])
waited next at late (ok true) t = (none, t, [])
waited next at late (ok false) t =
    let t' = resolve_all t late in
    let pending = still_pending (waiter_at t' at) in
    if length pending == 0 then (none, t', []) else next t' pending

abbrev pub after_queue :
    (AckTracker → List ℕ → Sent)
    → ℕ
    → Attempt
    → Result SendError (List (List ℕ))
    → AckTracker
    → Sent
after_queue next at attempt (err e) t = (some e, t, [])
after_queue next at attempt (ok frames) t =
    let awaited = await t at (attempt.resolved) (attempt.closed_in_wait) (attempt.in_select) in
    waited next at (attempt.late) (awaited.0) (awaited.1)

abbrev pub with_sent : List (List ℕ) → Sent → Sent
with_sent frames (result, t, sent) = (result, t, frames ++ sent)

-- The loop of Send over its attempts; `frames_of` is queueFragments on the indexes.
unfoldable pub send_loop : (List ℕ → List (List ℕ)) → ℕ → List Attempt → AckTracker → List ℕ → Sent
send_loop frames_of at [] t pending = (some ack_timeout, t, [])
send_loop frames_of at (attempt ∷ attempts) t pending =
    let frames = frames_of pending in
    with_sent (sent_of (attempt.closed_in_queue) frames) (
      after_queue (send_loop frames_of at attempts) at attempt
        (queued (attempt.closed_in_queue) frames) t)

abbrev pub deregistered : ℕ → Sent → Sent
deregistered seq (result, t, sent) = (result, unregister t seq, sent)

module _ (crc : List ℕ → ℕ) where
  abbrev pub queue_fragments : SenderConfig → ℕ → List ℕ → List (List ℕ) → List ℕ → List (List ℕ)
  queue_fragments cfg seq bytes fragments pending =
      map
        (λ idx.
          encode_data crc (cfg.role) (cfg.binding) seq (crc bytes) (length bytes) idx
            (length fragments) (get_or fragments idx []))
        pending

  -- With the number that the message gets, and as many attempts as the configuration has, at least.
  unfoldable pub send : SenderConfig → AckTracker → ℕ → List ℕ → List Attempt → Sent
  send cfg t seq bytes attempts =
      let fragments = fragment_payload bytes (cfg.fragment_size) in
      let registered = register t seq (crc bytes) (length fragments) in
      deregistered seq (
        send_loop (queue_fragments cfg seq bytes fragments) (registered.0)
          (take (cfg.max_attempts) attempts) (registered.1) (count_from 0 (length fragments)))
