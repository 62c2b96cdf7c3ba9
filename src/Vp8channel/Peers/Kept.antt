-- ===== src/Vp8channel/Peers/Kept.antt =====
-- One session for a peer, however the calls for it interleave: internal/transport/vp8channel/peers.go,
-- peerSessionFor.
use olcrtc.Prelude.{
  ℕ, ◌+◌, ◌≡◌, refl, sym, ap, ◌∙◌, subst, inl, inr, Bool, Option-cases, true, false, List, [], ◌∷◌,
  ◌++◌, Option, none, some, arith,
}
use olcrtc.Prelude.Maps.{nat_eq, lookup, insert, lookup-insert}
use olcrtc.Vp8channel.Peers.{
  PeerSession, PeerTable, touch, get, with_room, add_of, add, added_or_closed, create, PeerEvent,
  made, happened, after_events, PeerCall, answer_or, peer_session_for,
}
use olcrtc.Vp8channel.Peers.Numbers.{HasNumber, Remains, after_events-HasNumber}

-- The session that is handed out is the one the table has.
abbrev IsHeld : ℕ → PeerTable × Option PeerSession → Type 0
IsHeld epoch (t, none) = true ≡ true
IsHeld epoch (t, some sess) = lookup epoch t.sessions ≡ some sess

lookup_inserted :
    (epoch : ℕ) (sess : PeerSession) (m : List (ℕ × PeerSession))
    → lookup epoch (insert epoch sess m) ≡ some sess
lookup_inserted epoch sess m = ground (arith, lookup-insert epoch epoch sess m)

added_or_closed-IsHeld :
    (sess : PeerSession) (r : PeerTable × Bool)
    → (r.1 ≡ true → lookup sess.epoch r.0.sessions ≡ some sess)
    → IsHeld sess.epoch (added_or_closed sess r)
added_or_closed-IsHeld sess (t, true) h = h refl
added_or_closed-IsHeld sess (t, false) h = refl

add_of-held :
    (t : PeerTable) (sess : PeerSession) (now : ℕ) (o : Option PeerSession)
    → (add_of t sess now o).1 ≡ true
    → lookup sess.epoch (add_of t sess now o).0.sessions ≡ some (touch sess now)
add_of-held t sess now (some there) h = ground (arith, h)
add_of-held t sess now none h = lookup_inserted sess.epoch (touch sess now) (with_room t).sessions

add-held :
    (t : PeerTable) (sess : PeerSession) (now : ℕ)
    → (add t sess now).1 ≡ true
    → lookup sess.epoch (add t sess now).0.sessions ≡ some (touch sess now)
unfolding add
add-held t sess now h = ground (arith, h, add_of-held t sess now (lookup sess.epoch t.sessions))

create-IsHeld :
    (t : PeerTable) (epoch now : ℕ) (starts : Bool) → IsHeld epoch (create t epoch now starts)
unfolding create
create-IsHeld t epoch now false = refl
create-IsHeld t epoch now true =
    let sess : PeerSession = record {
      number = t.next_number;
      epoch = epoch;
      last_seen = 0;
      retired = false;
    } in
    let next : PeerTable = record t { next_number = t.next_number + 1 } in
    added_or_closed-IsHeld (touch sess now) (add next sess now) (add-held next sess now)

get-IsHeld : (t : PeerTable) (epoch now : ℕ) → IsHeld epoch (get t epoch now)
unfolding get
get-IsHeld t epoch now = elim (Option-cases (lookup epoch t.sessions)) [
  | inl missing ↦ rw missing refl
  | inr (sess, at) ↦ rw at (lookup_inserted epoch (touch sess now) t.sessions)
]

answer_or-IsHeld :
    (epoch : ℕ) (a b : PeerTable × Option PeerSession)
    → IsHeld epoch a
    → IsHeld epoch b
    → IsHeld epoch (answer_or a b)
answer_or-IsHeld epoch (t, some sess) b h k = h
answer_or-IsHeld epoch (t, none) b h k = k

peer_session_for-IsHeld :
    (t : PeerTable) (epoch : ℕ) (call : PeerCall) → IsHeld epoch (peer_session_for t epoch call)
unfolding peer_session_for
peer_session_for-IsHeld t epoch call =
    let first = get t epoch call.looked_at in
    let again = get (after_events first.0 call.waiting) epoch call.locked_at in
    let built = create (after_events again.0 call.building) epoch call.made_at call.starts in
    answer_or-IsHeld epoch first (answer_or again built) (get-IsHeld t epoch call.looked_at) (
      answer_or-IsHeld epoch again built
        (get-IsHeld (after_events first.0 call.waiting) epoch call.locked_at)
        (create-IsHeld (after_events again.0 call.building) epoch call.made_at call.starts))

-- The answer is the session of this number, and no session was made for it since the table was `t`.
abbrev pub IsAnswered : ℕ → PeerTable → PeerTable × Option PeerSession → Type 0
IsAnswered number t (t', answer) =
    (sess : PeerSession) × (answer ≡ some sess)
    × (sess.number ≡ number)
    × (t'.next_number ≡ t.next_number)

get-IsAnswered :
    (t : PeerTable) (epoch now number : ℕ) (other : PeerTable × Option PeerSession)
    → HasNumber epoch number t.sessions
    → IsAnswered number t (answer_or (get t epoch now) other)
unfolding get
get-IsAnswered t epoch now number other (sess, at, numbered) =
    rw at (touch sess now, refl, numbered, refl)

-- A peer keeps its session: once a call of peerSessionFor has handed one out, a later call for the epoch
-- answers the session of the same number and makes none, whatever looks, creations, for this epoch too, sweeps
-- and ended sessions came between, as long as none of them took the session out of the table.
pub peer_session_for_kept :
    (t next : PeerTable) (epoch : ℕ) (call : PeerCall) (sess : PeerSession)
    (events : List PeerEvent) (later : PeerCall)
    → peer_session_for t epoch call ≡ (next, some sess)
    → Remains epoch next events
    → let t' = after_events next events in
      IsAnswered sess.number t' (peer_session_for t' epoch later)
unfolding peer_session_for
peer_session_for_kept t next epoch call sess events later given left =
    let at = subst (IsHeld epoch) given (peer_session_for-IsHeld t epoch call) in
    let t' = after_events next events in
    let first = get t' epoch later.looked_at in
    let again = get (after_events first.0 later.waiting) epoch later.locked_at in
    let built = create (after_events again.0 later.building) epoch later.made_at later.starts in
    get-IsAnswered t' epoch later.looked_at sess.number (answer_or again built)
      (after_events-HasNumber next events epoch sess.number (sess, at, refl) left)

after_events-append :
    (t : PeerTable) (before after : List PeerEvent)
    → after_events t (before ++ after) ≡ after_events (after_events t before) after
unfolding after_events
after_events-append t [] after = refl
after_events-append t (event ∷ before) after = after_events-append (happened t event) before after

looked_in_vain :
    (t : PeerTable) (epoch now : ℕ) → lookup epoch t.sessions ≡ none → get t epoch now ≡ (t, none)
unfolding get
looked_in_vain t epoch now missing = rw missing refl

-- Calls for one new epoch that race converge on one session: when a call has looked in vain and another makes
-- the session while it waits for createMu, it answers the session of the other's number and makes none, as
-- long as the session is not taken out of the table before its turn.
pub peer_session_for_raced :
    (t : PeerTable) (epoch : ℕ) (call : PeerCall) (before after : List PeerEvent) (now : ℕ)
    (starts : Bool) (next : PeerTable) (sess : PeerSession)
    → lookup epoch t.sessions ≡ none
    → call.waiting ≡ before ++ made epoch now starts ∷ after
    → create (after_events t before) epoch now starts ≡ (next, some sess)
    → Remains epoch next after
    → IsAnswered sess.number (after_events next after) (peer_session_for t epoch call)
unfolding peer_session_for after_events
peer_session_for_raced t epoch call before after now starts next sess missing waits given left =
    let at = subst (IsHeld epoch) given (create-IsHeld (after_events t before) epoch now starts) in
    let t' = after_events next after in
    let reached : after_events t call.waiting ≡ t' =
      ap (after_events t) waits
      ∙ after_events-append t before (made epoch now starts ∷ after)
      ∙ ap (λ (r : PeerTable × Option PeerSession). after_events r.0 after) given in
    let answer = λ (u : PeerTable).
      let again = get u epoch call.locked_at in
      answer_or again
        (create (after_events again.0 call.building) epoch call.made_at call.starts) in
    let again = get t' epoch call.locked_at in
    let found =
      get-IsAnswered t' epoch call.locked_at sess.number
        (create (after_events again.0 call.building) epoch call.made_at call.starts)
        (after_events-HasNumber next after epoch sess.number (sess, at, refl) left) in
    subst (IsAnswered sess.number t')
      (sym (
        ap (λ first. answer_or first (answer (after_events first.0 call.waiting)))
          (looked_in_vain t epoch call.looked_at missing)
        ∙ ap answer reached))
      found
