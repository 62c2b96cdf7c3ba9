-- ===== src/Transport/Sender/Acknowledged.antt =====
-- Send returns once its fragments are acknowledged:
-- internal/transport/common/sender.go.
use olcrtc.Prelude.{
  ℕ, suc, ◌≡◌, refl, ap, ◌∙◌, inl, inr, Bool, Bool-cases, true, false, arith, List, [], ◌∷◌, none,
  length, take, if◌then◌else◌,
}
use olcrtc.Prelude.Maps.{nat_eq}
use olcrtc.Prelude.Results.{Result, ok}
use olcrtc.Transport.Fragment.{fragment_payload}
use olcrtc.Transport.Ack.{AckTracker, register}
use olcrtc.Transport.Sender.{
  SendError, SenderConfig, Resolved, Attempt, resolve, resolve_all, is_done, waiter_at, await,
  queued, count_from, Sent, waited, after_queue, send_loop, queue_fragments, send,
}

await-done :
    (t : AckTracker) (at : ℕ) (rs in_select : List Resolved)
    → is_done (waiter_at (resolve_all (resolve_all t rs) in_select) at) ≡ true
    → (await t at rs false in_select).0 ≡ ok true
unfolding await resolve_all
await-done t at [] in_select h = ground (arith, h)
await-done t at (r ∷ rs) in_select h = elim (Bool-cases (is_done (waiter_at t at))) [
  | inl d ↦ rw d refl
  | inr d ↦
      ap (λ b. (if b then (ok true, t) else await (resolve t r) at rs false in_select).0) d
      ∙ await-done (resolve t r) at rs in_select h
]

waited-done :
    (next : AckTracker → List ℕ → Sent) (at : ℕ) (late : List Resolved) (r : Result SendError Bool)
    (t : AckTracker)
    → r ≡ ok true
    → (waited next at late r t).0 ≡ none
waited-done next at late r t e = ap (λ s. (waited next at late s t).0) e

-- Every fragment is acknowledged by the end of the attempt's wait.
abbrev pub AllIn : AckTracker → ℕ → Attempt → Type 0
AllIn t at attempt =
    is_done (waiter_at (resolve_all (resolve_all t attempt.resolved) attempt.in_select) at) ≡ true

send_loop_acknowledged :
    (frames_of : List ℕ → List (List ℕ)) (at : ℕ) (attempt : Attempt) (attempts : List Attempt)
    (t : AckTracker) (pending : List ℕ)
    → attempt.closed_in_queue ≡ none
    → attempt.closed_in_wait ≡ false
    → AllIn t at attempt
    → (send_loop frames_of at (attempt ∷ attempts) t pending).0 ≡ none
unfolding send_loop
send_loop_acknowledged frames_of at attempt attempts t pending opened stays h =
    let frames = frames_of pending in
    let next = send_loop frames_of at attempts in
    let step = await t at attempt.resolved attempt.closed_in_wait attempt.in_select in
    ap (λ c. (after_queue next at attempt (queued c frames) t).0) opened
    ∙ waited-done next at attempt.late step.0 step.1 (
        ap (λ closed. (await t at attempt.resolved closed attempt.in_select).0) stays
        ∙ await-done t at attempt.resolved attempt.in_select h)

-- Send, with one attempt at least, returns nil when the transport does not close while it queues
-- its first attempt nor in the wait after it, and the fragments are all acknowledged by the end of
-- that wait.
pub send_acknowledged :
    (crc : List ℕ → ℕ) (cfg : SenderConfig) (t : AckTracker) (seq m : ℕ) (bytes : List ℕ)
    (attempt : Attempt) (attempts : List Attempt)
    → cfg.max_attempts ≡ suc m
    → attempt.closed_in_queue ≡ none
    → attempt.closed_in_wait ≡ false
    → AllIn
        (register t seq (crc bytes) (length (fragment_payload bytes cfg.fragment_size))).1
        (length t.waiters)
        attempt
    → (send crc cfg t seq bytes (attempt ∷ attempts)).0 ≡ none
unfolding send register
send_acknowledged crc cfg t seq m bytes attempt attempts some_attempts opened stays h =
    let fragments = fragment_payload bytes cfg.fragment_size in
    let total = length fragments in
    let registered = (register t seq (crc bytes) total).1 in
    let frames_of = queue_fragments crc cfg seq bytes fragments in
    ap
      (λ n.
        (send_loop frames_of (length t.waiters) (take n (attempt ∷ attempts)) registered
          (count_from 0 total)).0)
      some_attempts
    ∙ send_loop_acknowledged frames_of (length t.waiters) attempt (take m attempts) registered
        (count_from 0 total) opened stays h
