-- ===== src/Vp8channel/Peers/Numbers.antt =====
-- The session of an epoch stays the one it is until it is taken out of the table:
-- internal/transport/vp8channel/peers.go and peer_release.go.
use olcrtc.Prelude.{
  ℕ, ◌+◌, ◌≡◌, ◌≢◌, refl, sym, ap, ◌∙◌, subst, inl, inr, Bool, Bool-cases, Option-cases, true,
  false, List, [], ◌∷◌, Option, none, some, length, leb, arith, ◌==◌, ◌-◌, not, ◌||◌, if◌then◌else◌,
}
use olcrtc.Prelude.Maps.{nat_eq, lookup, insert, erase, lookup-insert, lookup-erase}
use olcrtc.Vp8channel.Peers.{
  max_peers, PeerSession, PeerTable, touch, get, close, find_oldest, evict_oldest, with_room,
  add_of, add, added_or_closed, create, is_stale, swept, sweep, release_of, release_idle,
  retire_peer, close_all, PeerEvent, looked, made, swept_at, retired_at, closing, happened,
  after_events,
}

-- The epoch has the session of this number.
abbrev pub HasNumber : ℕ → ℕ → List (ℕ × PeerSession) → Type 0
HasNumber epoch number m =
    (sess : PeerSession) × (lookup epoch m ≡ some sess) × (sess.number ≡ number)

-- The event does not take the epoch's session out of the table.
abbrev pub IsSpared : ℕ → PeerTable → PeerEvent → Type 0
IsSpared epoch t (swept_at ttl retired_ttl now) =
    (sess : PeerSession)
    → lookup epoch t.sessions ≡ some sess
    → is_stale ttl retired_ttl now sess ≡ false
IsSpared epoch t event = lookup epoch (happened t event).sessions ≢ none

abbrev pub Remains : ℕ → PeerTable → List PeerEvent → Type 0
Remains epoch t [] = Unit
Remains epoch t (event ∷ events) = IsSpared epoch t event × Remains epoch (happened t event) events

-- A session written again at its place keeps its number.
insert-HasNumber :
    (epoch number other : ℕ) (sess old : PeerSession) (m : List (ℕ × PeerSession))
    → lookup other m ≡ some old
    → sess.number ≡ old.number
    → HasNumber epoch number m
    → HasNumber epoch number (insert other sess m)
insert-HasNumber epoch number other sess old m at same (there, found, numbered) =
    elim (Bool-cases (other == epoch)) [
      | inl e ↦
          let place : other ≡ epoch = ground (arith, e) in
          let one : some there ≡ some old = sym found ∙ ap (λ k. lookup k m) (sym place) ∙ at in
          let number_of : there.number ≡ old.number = ground (arith, one) in
          (
            sess,
            ground (arith, lookup-insert epoch other sess m, e),
            same ∙ sym number_of ∙ numbered,
          )
      | inr e ↦ (there, ground (arith, lookup-insert epoch other sess m, e, found), numbered)
    ]

erase-HasNumber :
    (epoch number other : ℕ) (m : List (ℕ × PeerSession))
    → HasNumber epoch number m
    → lookup epoch (erase other m) ≢ none
    → HasNumber epoch number (erase other m)
erase-HasNumber epoch number other m (there, found, numbered) left =
    (there, ground (arith, lookup-erase epoch other m, found, left), numbered)

get-HasNumber :
    (t : PeerTable) (other now epoch number : ℕ)
    → HasNumber epoch number t.sessions
    → HasNumber epoch number (get t other now).0.sessions
unfolding get
get-HasNumber t other now epoch number h = elim (Option-cases (lookup other t.sessions)) [
  | inl missing ↦ rw missing h
  | inr (sess, at) ↦
      rw at (insert-HasNumber epoch number other (touch sess now) sess t.sessions at refl h)
]

swept-lookup :
    (ttl retired_ttl now epoch : ℕ) (m : List (ℕ × PeerSession)) (sess : PeerSession)
    → lookup epoch m ≡ some sess
    → is_stale ttl retired_ttl now sess ≡ false
    → lookup epoch (swept ttl retired_ttl now m).0 ≡ some sess
unfolding swept lookup
swept-lookup ttl retired_ttl now epoch [] sess found fresh = ground (arith, found)
swept-lookup ttl retired_ttl now epoch ((other, there) ∷ m) sess found fresh =
    elim (Bool-cases (other == epoch)) [
      | inl e ↦
          let first : there ≡ sess = ground (arith, e, found) in
          let stays : is_stale ttl retired_ttl now there ≡ false =
            ap (is_stale ttl retired_ttl now) first ∙ fresh in
          rw (stays, e) (ap some first)
      | inr e ↦
          let later : lookup epoch m ≡ some sess = ground (arith, e, found) in
          let below = swept-lookup ttl retired_ttl now epoch m sess later fresh in
          elim (Bool-cases (is_stale ttl retired_ttl now there)) [
            | inl stale ↦ rw stale below
            | inr stays ↦ rw (stays, e) below
          ]
    ]

sweep-HasNumber :
    (t : PeerTable) (ttl retired_ttl now epoch number : ℕ)
    → HasNumber epoch number t.sessions
    → IsSpared epoch t (swept_at ttl retired_ttl now)
    → HasNumber epoch number (sweep t ttl retired_ttl now).sessions
unfolding sweep
sweep-HasNumber t ttl retired_ttl now epoch number (sess, found, numbered) spared = (
  sess,
  swept-lookup ttl retired_ttl now epoch t.sessions sess found (spared sess found),
  numbered,
)

evict_oldest-HasNumber :
    (t : PeerTable) (epoch number : ℕ)
    → HasNumber epoch number t.sessions
    → lookup epoch (evict_oldest t).sessions ≢ none
    → HasNumber epoch number (evict_oldest t).sessions
unfolding evict_oldest close
evict_oldest-HasNumber t epoch number h left = elim (Option-cases (find_oldest none t.sessions)) [
  | inl missing ↦ rw missing h
  | inr (oldest, at) ↦
      rw at (erase-HasNumber epoch number oldest.epoch t.sessions h (rw at at left))
]

with_room-HasNumber :
    (t : PeerTable) (epoch number : ℕ)
    → HasNumber epoch number t.sessions
    → lookup epoch (with_room t).sessions ≢ none
    → HasNumber epoch number (with_room t).sessions
with_room-HasNumber t epoch number h left = elim (Bool-cases (leb max_peers (length t.sessions))) [
  | inl full ↦ rw full (evict_oldest-HasNumber t epoch number h (rw full at left))
  | inr room ↦ rw room h
]

add_of-HasNumber :
    (t : PeerTable) (sess : PeerSession) (now epoch number : ℕ) (o : Option PeerSession)
    → lookup sess.epoch t.sessions ≡ o
    → HasNumber epoch number t.sessions
    → lookup epoch (add_of t sess now o).0.sessions ≢ none
    → HasNumber epoch number (add_of t sess now o).0.sessions
add_of-HasNumber t sess now epoch number (some there) e h left = h
add_of-HasNumber t sess now epoch number none e (there, found, numbered) left =
    let roomy = with_room t in
    elim (Bool-cases (sess.epoch == epoch)) [
      | inl same ↦
          let place : sess.epoch ≡ epoch = ground (arith, same) in
          let nothing : none ≡ some there = sym e ∙ ap (λ k. lookup k t.sessions) place ∙ found in
          ground (arith, nothing)
      | inr other ↦
          let passed =
            lookup-insert epoch sess.epoch (touch sess now) roomy.sessions
            ∙ ap (λ b. if b then some (touch sess now) else lookup epoch roomy.sessions) other in
          let (stays, at, kept) =
            with_room-HasNumber t epoch number (there, found, numbered)
              (λ gone. left (passed ∙ gone)) in
          (stays, passed ∙ at, kept)
    ]

add-HasNumber :
    (t : PeerTable) (sess : PeerSession) (now epoch number : ℕ)
    → HasNumber epoch number t.sessions
    → lookup epoch (add t sess now).0.sessions ≢ none
    → HasNumber epoch number (add t sess now).0.sessions
unfolding add
add-HasNumber t sess now epoch number h left =
    let o = lookup sess.epoch t.sessions in
    let result = λ (b : Bool). (if b then (t, false) else add_of t sess now o).0.sessions in
    elim (Bool-cases t.closed) [
      | inl closed ↦ subst (λ b. HasNumber epoch number (result b)) (sym closed) h
      | inr going ↦
          subst (λ b. HasNumber epoch number (result b)) (sym going)
            (add_of-HasNumber t sess now epoch number o refl h
              (subst (λ b. lookup epoch (result b) ≢ none) going left))
    ]

added_or_closed-sessions :
    (sess : PeerSession) (r : PeerTable × Bool) → (added_or_closed sess r).0.sessions ≡ r.0.sessions
unfolding close
added_or_closed-sessions sess (u, true) = refl
added_or_closed-sessions sess (u, false) = refl

create-HasNumber :
    (t : PeerTable) (other now : ℕ) (starts : Bool) (epoch number : ℕ)
    → HasNumber epoch number t.sessions
    → lookup epoch (create t other now starts).0.sessions ≢ none
    → HasNumber epoch number (create t other now starts).0.sessions
unfolding create
create-HasNumber t other now false epoch number h left = h
create-HasNumber t other now true epoch number h left =
    let sess : PeerSession = record {
      number = t.next_number;
      epoch = other;
      last_seen = 0;
      retired = false;
    } in
    let next : PeerTable = record t { next_number = t.next_number + 1 } in
    let same = added_or_closed-sessions (touch sess now) (add next sess now) in
    subst (HasNumber epoch number) (sym same)
      (add-HasNumber next sess now epoch number h (subst (λ m. lookup epoch m ≢ none) same left))

release_of-HasNumber :
    (t : PeerTable) (sess : PeerSession) (cutoff epoch number : ℕ) (o : Option PeerSession)
    → HasNumber epoch number t.sessions
    → lookup epoch (release_of t sess cutoff o).0.sessions ≢ none
    → HasNumber epoch number (release_of t sess cutoff o).0.sessions
unfolding close
release_of-HasNumber t sess cutoff epoch number none h left = h
release_of-HasNumber t sess cutoff epoch number (some there) h left =
    let stays = not (there.number == sess.number) || leb cutoff there.last_seen in
    let gone = close (record t { sessions = erase sess.epoch t.sessions }) there in
    let result : Bool → PeerTable × Bool = λ (b : Bool). if b then (t, false) else (gone, true) in
    elim (Bool-cases stays) [
      | inl e ↦ subst (λ b. HasNumber epoch number (result b).0.sessions) (sym e) h
      | inr e ↦
          subst (λ b. HasNumber epoch number (result b).0.sessions) (sym e)
            (erase-HasNumber epoch number sess.epoch t.sessions h
              (subst (λ b. lookup epoch (result b).0.sessions ≢ none) e left))
    ]

retire_peer-HasNumber :
    (t : PeerTable) (other idle now epoch number : ℕ)
    → HasNumber epoch number t.sessions
    → lookup epoch (retire_peer t other idle now).sessions ≢ none
    → HasNumber epoch number (retire_peer t other idle now).sessions
unfolding retire_peer release_idle
retire_peer-HasNumber t other idle now epoch number h left =
    elim (Option-cases (lookup other t.sessions)) [
      | inl missing ↦ rw missing h
      | inr (sess, at) ↦
          let gone : PeerSession = record sess { retired = true } in
          let next : PeerTable = record t { sessions = insert other gone t.sessions } in
          let still = insert-HasNumber epoch number other gone sess t.sessions at refl h in
          rw at (
            release_of-HasNumber next gone (now - idle) epoch number
              (lookup gone.epoch next.sessions) still (rw at at left))
    ]

happened-HasNumber :
    (t : PeerTable) (event : PeerEvent) (epoch number : ℕ)
    → HasNumber epoch number t.sessions
    → IsSpared epoch t event
    → HasNumber epoch number (happened t event).sessions
unfolding close_all lookup
happened-HasNumber t (looked other now) epoch number h left =
    get-HasNumber t other now epoch number h
happened-HasNumber t (made other now starts) epoch number h left =
    create-HasNumber t other now starts epoch number h left
happened-HasNumber t (swept_at ttl retired_ttl now) epoch number h left =
    sweep-HasNumber t ttl retired_ttl now epoch number h left
happened-HasNumber t (retired_at other idle now) epoch number h left =
    retire_peer-HasNumber t other idle now epoch number h left
happened-HasNumber t closing epoch number h left = absurd (left refl)

pub after_events-HasNumber :
    (t : PeerTable) (events : List PeerEvent) (epoch number : ℕ)
    → HasNumber epoch number t.sessions
    → Remains epoch t events
    → HasNumber epoch number (after_events t events).sessions
unfolding after_events
after_events-HasNumber t [] epoch number h left = h
after_events-HasNumber t (event ∷ events) epoch number h left =
    after_events-HasNumber (happened t event) events epoch number
      (happened-HasNumber t event epoch number h left.0) left.1
