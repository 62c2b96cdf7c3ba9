-- ===== src/Transport/Sender/Settled.antt =====
-- Send returns without an error only when every fragment was acknowledged:
-- internal/transport/common/sender.go.
use olcrtc.Prelude.{
  ℕ, zero, suc, ◌≡◌, refl, sym, ap, ◌∙◌, inl, inr, Bool, Bool-cases, true, false, List, [], ◌∷◌,
  ◌++◌, All, Option, none, some, length, get_elem?, set, length-set, take, arith, ◌==◌,
  if◌then◌else◌,
}
use olcrtc.Prelude.Maps.{nat_eq, lookup}
use olcrtc.Prelude.Results.{Result, ok, err, ok_inj}
use olcrtc.Transport.Fragment.{fragment_payload}
use olcrtc.Transport.Ack.{
  AckWaiter, AckTracker, unacked, register, unregister, mark_waiter, mark_at, mark, waiter_of,
  pending_of, IsCounted, mark_call, register_call,
}
use olcrtc.Transport.Ack.Counted.{unacked_counts, call-IsCounted, get-All, done_counted}
use olcrtc.Transport.Sender.{
  SendError, SenderConfig, Resolved, Attempt, resolve, resolve_all, is_done, still_pending,
  waiter_at, selected, await, queued, sent_of, count_from, Sent, waited, after_queue, with_sent,
  send_loop, queue_fragments, deregistered, send,
}

-- The waiter of a message of `total` fragments.
abbrev IsThere : ℕ → ℕ → AckTracker → Type 0
IsThere at total t = (w : AckWaiter) × ((waiter_at t at ≡ some w) × (length w.acked ≡ total))

abbrev IsGood : ℕ → ℕ → AckTracker → Type 0
IsGood at total t = All IsCounted t.waiters × IsThere at total t

get_elem?-set :
    (ws : List AckWaiter) (i at : ℕ) (old v w : AckWaiter)
    → get_elem? ws i ≡ some old
    → get_elem? ws at ≡ some w
    → get_elem? (set ws i v) at ≡ (if i == at then some v else some w)
get_elem?-set [] i at old v w e h = ground (arith, h)
get_elem?-set (x ∷ ws) zero zero old v w e h = refl
get_elem?-set (x ∷ ws) zero (suc at) old v w e h = h ∙ ground arith
get_elem?-set (x ∷ ws) (suc i) zero old v w e h = h ∙ ground arith
get_elem?-set (x ∷ ws) (suc i) (suc at) old v w e h =
    get_elem?-set ws i at old v w e h ∙ ground arith

length-mark_waiter :
    (w : AckWaiter) (crc idx : ℕ) → length (mark_waiter w crc idx).1.acked ≡ length w.acked
length-mark_waiter w crc idx = ground (arith, length-set w.acked idx true)

mark_at-IsThere :
    (t : AckTracker) (crc idx at total : ℕ) (o : Option ℕ) (found : Option AckWaiter)
    → waiter_of t o ≡ found
    → IsThere at total t
    → IsThere at total (mark_at t crc idx o found).1
mark_at-IsThere t crc idx at total none found e h = h
mark_at-IsThere t crc idx at total (some i) none e h = h
mark_at-IsThere t crc idx at total (some i) (some old) e (w, (there, size)) =
    let marked = (mark_waiter old crc idx).1 in
    let next = get_elem?-set t.waiters i at old marked w e there in
    elim (Bool-cases (i == at)) [
      | inl same ↦
          let place : i ≡ at = ground (arith, same) in
          let equal : some old ≡ some w = sym e ∙ ap (get_elem? t.waiters) place ∙ there in
          let kept : length old.acked ≡ length w.acked = ground (arith, equal) in
          (
            marked,
            (
              next ∙ ap (λ b. if b then some marked else some w) same,
              length-mark_waiter old crc idx ∙ kept ∙ size,
            ),
          )
      | inr other ↦ (w, (next ∙ ap (λ b. if b then some marked else some w) other, size))
    ]

resolve-IsGood :
    (t : AckTracker) (r : Resolved) (at total : ℕ)
    → IsGood at total t
    → IsGood at total (resolve t r)
unfolding mark
resolve-IsGood t r at total h =
    let o = lookup r.seq t.pending in
    (
      call-IsCounted t (mark_call r.seq r.crc r.frag_idx) h.0,
      mark_at-IsThere t r.crc r.frag_idx at total o (waiter_of t o) refl h.1,
    )

resolve_all-IsGood :
    (t : AckTracker) (rs : List Resolved) (at total : ℕ)
    → IsGood at total t
    → IsGood at total (resolve_all t rs)
unfolding resolve_all
resolve_all-IsGood t [] at total h = h
resolve_all-IsGood t (r ∷ rs) at total h =
    resolve_all-IsGood (resolve t r) rs at total (resolve-IsGood t r at total h)

selected-IsGood :
    (t : AckTracker) (at total : ℕ) (closed : Bool)
    → IsGood at total t
    → IsGood at total (selected t at closed).1
selected-IsGood t at total true h = h
selected-IsGood t at total false h = h

await-IsGood :
    (t : AckTracker) (at total : ℕ) (rs : List Resolved) (closed : Bool) (xs : List Resolved)
    → IsGood at total t
    → IsGood at total (await t at rs closed xs).1
unfolding await
await-IsGood t at total [] closed xs h = elim (Bool-cases (is_done (waiter_at t at))) [
  | inl e ↦ rw e h
  | inr e ↦
      rw e (selected-IsGood (resolve_all t xs) at total closed (resolve_all-IsGood t xs at total h))
]
await-IsGood t at total (r ∷ rs) closed xs h = elim (Bool-cases (is_done (waiter_at t at))) [
  | inl e ↦ rw e h
  | inr e ↦ rw e (await-IsGood (resolve t r) at total rs closed xs (resolve-IsGood t r at total h))
]

-- Every fragment of the message is acknowledged.
abbrev pub IsSettled : ℕ → ℕ → AckTracker → Type 0
IsSettled at total t =
    (w : AckWaiter) × ((waiter_at t at ≡ some w) × (length w.acked ≡ total) × (pending_of w ≡ []))

IsSettled-pending :
    (t : AckTracker) (at total : ℕ)
    → IsThere at total t
    → still_pending (waiter_at t at) ≡ []
    → IsSettled at total t
IsSettled-pending t at total (w, (there, size)) e =
    (w, (there, size, ap still_pending (sym there) ∙ e))

IsSettled-done :
    (t : AckTracker) (at total : ℕ)
    → IsGood at total t
    → is_done (waiter_at t at) ≡ true
    → IsSettled at total t
IsSettled-done t at total (counted, (w, (there, size))) e = (
  w,
  (
    there,
    size,
    (done_counted w (get-All t.waiters at w counted there)).0 (ap is_done (sym there) ∙ e),
  ),
)

-- The end of a wait whose last test found the waiter not done.
await_ended :
    (t : AckTracker) (at total : ℕ) (closed : Bool)
    → (is_done (waiter_at t at) ≡ true → IsSettled at total t)
    → (selected t at closed).0 ≡ ok true
    → IsSettled at total (selected t at closed).1
await_ended t at total true settled e = ground (arith, e)
await_ended t at total false settled e = settled (ok_inj e)

await-IsSettled :
    (t : AckTracker) (at total : ℕ) (rs : List Resolved) (closed : Bool) (xs : List Resolved)
    → IsGood at total t
    → (await t at rs closed xs).0 ≡ ok true
    → IsSettled at total (await t at rs closed xs).1
unfolding await
await-IsSettled t at total [] closed xs h e =
    let later = IsSettled-done (resolve_all t xs) at total (resolve_all-IsGood t xs at total h) in
    elim (Bool-cases (is_done (waiter_at t at))) [
      | inl d ↦ rw d (IsSettled-done t at total h d)
      | inr d ↦ rw d (
          await_ended (resolve_all t xs) at total closed later (
            ap (λ b. (if b then (ok true, t) else selected (resolve_all t xs) at closed).0) (sym d)
            ∙ e))
    ]
await-IsSettled t at total (r ∷ rs) closed xs h e = elim (Bool-cases (is_done (waiter_at t at))) [
  | inl d ↦ rw d (IsSettled-done t at total h d)
  | inr d ↦ rw d (
      await-IsSettled (resolve t r) at total rs closed xs (resolve-IsGood t r at total h)
        (ap (λ b. (if b then (ok true, t) else await (resolve t r) at rs closed xs).0) (sym d) ∙ e))
]

-- What a part of Send promises of its outcome.
abbrev SettlesIn : ℕ → ℕ → Sent → Type 0
SettlesIn at total (none, t, sent) = IsSettled at total t
SettlesIn at total (some e, t, sent) = true ≡ true

empty_list : (xs : List ℕ) → length xs == 0 ≡ true → xs ≡ []
empty_list [] h = refl
empty_list (x ∷ xs) h = ground (arith, h)

waited-SettlesIn :
    (next : AckTracker → List ℕ → Sent) (at total : ℕ) (late : List Resolved)
    (r : Result SendError Bool) (t : AckTracker)
    → ((u : AckTracker) (pending : List ℕ)
        → IsGood at total u
        → SettlesIn at total (next u pending))
    → IsGood at total t
    → (r ≡ ok true → IsSettled at total t)
    → SettlesIn at total (waited next at late r t)
waited-SettlesIn next at total late (err e) t f h s = refl
waited-SettlesIn next at total late (ok true) t f h s = s refl
waited-SettlesIn next at total late (ok false) t f h s =
    let u = resolve_all t late in
    let good = resolve_all-IsGood t late at total h in
    elim (Bool-cases (length (still_pending (waiter_at u at)) == 0)) [
      | inl e ↦
          rw e (IsSettled-pending u at total good.1 (empty_list (still_pending (waiter_at u at)) e))
      | inr e ↦ rw e (f u (still_pending (waiter_at u at)) good)
    ]

after_queue-SettlesIn :
    (next : AckTracker → List ℕ → Sent) (at total : ℕ) (attempt : Attempt)
    (r : Result SendError (List (List ℕ))) (t : AckTracker)
    → ((u : AckTracker) (pending : List ℕ)
        → IsGood at total u
        → SettlesIn at total (next u pending))
    → IsGood at total t
    → SettlesIn at total (after_queue next at attempt r t)
after_queue-SettlesIn next at total attempt (err e) t f h = refl
after_queue-SettlesIn next at total attempt (ok frames) t f h =
    let step = await t at attempt.resolved attempt.closed_in_wait attempt.in_select in
    waited-SettlesIn next at total attempt.late step.0 step.1 f
      (await-IsGood t at total attempt.resolved attempt.closed_in_wait attempt.in_select h)
      (await-IsSettled t at total attempt.resolved attempt.closed_in_wait attempt.in_select h)

with_sent-SettlesIn :
    (at total : ℕ) (frames : List (List ℕ)) (s : Sent)
    → SettlesIn at total s
    → SettlesIn at total (with_sent frames s)
with_sent-SettlesIn at total frames (none, t, sent) h = h
with_sent-SettlesIn at total frames (some e, t, sent) h = h

send_loop-SettlesIn :
    (frames_of : List ℕ → List (List ℕ)) (at total : ℕ) (attempts : List Attempt) (t : AckTracker)
    (pending : List ℕ)
    → IsGood at total t
    → SettlesIn at total (send_loop frames_of at attempts t pending)
unfolding send_loop
send_loop-SettlesIn frames_of at total [] t pending h = refl
send_loop-SettlesIn frames_of at total (attempt ∷ attempts) t pending h =
    let frames = frames_of pending in
    let next = send_loop frames_of at attempts in
    with_sent-SettlesIn at total (sent_of attempt.closed_in_queue frames)
      (after_queue next at attempt (queued attempt.closed_in_queue frames) t)
      (after_queue-SettlesIn next at total attempt (queued attempt.closed_in_queue frames) t
        (send_loop-SettlesIn frames_of at total attempts) h)

get_elem?-last :
    (ws : List AckWaiter) (w : AckWaiter) → get_elem? (ws ++ w ∷ []) (length ws) ≡ some w
get_elem?-last [] w = refl
get_elem?-last (x ∷ ws) w = get_elem?-last ws w

register-IsGood :
    (t : AckTracker) (seq crc total : ℕ)
    → All IsCounted t.waiters
    → IsGood (length t.waiters) total (register t seq crc total).1
unfolding register
register-IsGood t seq crc total h =
    let w : AckWaiter = record {
      crc = crc;
      total = total;
      acked = unacked total;
      remaining = total;
      ticked = false;
    } in
    (
      call-IsCounted t (register_call seq crc total) h,
      (w, (get_elem?-last t.waiters w, (unacked_counts 0 total).0)),
    )

deregistered-IsSettled :
    (at total seq : ℕ) (s : Sent)
    → SettlesIn at total s
    → (deregistered seq s).0 ≡ none
    → IsSettled at total (deregistered seq s).1
unfolding unregister
deregistered-IsSettled at total seq (none, t, sent) h e = h
deregistered-IsSettled at total seq (some x, t, sent) h e = ground (arith, e)

-- When Send returns nil, every fragment of its message was acknowledged by then, whatever was resolved and
-- whenever, in the order of its attempts.
pub send-IsSettled :
    (crc : List ℕ → ℕ) (cfg : SenderConfig) (t : AckTracker) (seq : ℕ) (bytes : List ℕ)
    (attempts : List Attempt)
    → All IsCounted t.waiters
    → (send crc cfg t seq bytes attempts).0 ≡ none
    → IsSettled
        (length t.waiters)
        (length (fragment_payload bytes cfg.fragment_size))
        (send crc cfg t seq bytes attempts).1
unfolding send register
send-IsSettled crc cfg t seq bytes attempts h e =
    let fragments = fragment_payload bytes cfg.fragment_size in
    let total = length fragments in
    let registered = register t seq (crc bytes) total in
    let sent =
      send_loop (queue_fragments crc cfg seq bytes fragments) (length t.waiters)
        (take cfg.max_attempts attempts) registered.1 (count_from 0 total) in
    deregistered-IsSettled (length t.waiters) total seq sent
      (send_loop-SettlesIn (queue_fragments crc cfg seq bytes fragments) (length t.waiters) total
        (take cfg.max_attempts attempts) registered.1 (count_from 0 total)
        (register-IsGood t seq (crc bytes) total h))
      e
