-- ===== src/Vp8channel/Peers.antt =====
-- internal/transport/vp8channel/peers.go and peer_release.go: the table of a server's peers. A session is
-- known by its number, and closing one writes its number down. Times are numbers of nanoseconds, and
-- `now - ttl` is 0 where the clock has not run for `ttl`. Of several sessions that were seen last at the same
-- time the first of the list is taken.
pub mod Numbers
pub mod Kept
pub mod Bounded
pub mod Events
use olcrtc.Prelude.{
  ℕ, zero, suc, ◌+◌, ◌-◌, Bool, true, false, not, ◌&&◌, ◌||◌, List, [], ◌∷◌, ◌++◌, Option, none,
  some, length, map, ltb, leb, ◌==◌, if◌then◌else◌,
}
use olcrtc.Prelude.Maps.{nat_eq, lookup, insert, erase}

abbrev pub max_peers : ℕ
max_peers = 64

pub record PeerSession : Type 0 where
  pub number : ℕ
  pub epoch : ℕ
  pub last_seen : ℕ
  pub retired : Bool

pub record PeerTable : Type 0 where
  pub sessions : List (ℕ × PeerSession)
  pub closed : Bool
  pub closed_sessions : List ℕ
  pub next_number : ℕ

abbrev pub touch : PeerSession → ℕ → PeerSession
touch sess now = record sess { last_seen = now }

abbrev pub get_of : PeerTable → ℕ → ℕ → Option PeerSession → PeerTable × Option PeerSession
get_of t epoch now none = (t, none)
get_of t epoch now (some sess) =
    (record t { sessions = insert epoch (touch sess now) (t.sessions) }, some (touch sess now))

unfoldable pub get : PeerTable → ℕ → ℕ → PeerTable × Option PeerSession
get t epoch now = get_of t epoch now (lookup epoch (t.sessions))

unfoldable pub close : PeerTable → PeerSession → PeerTable
close t sess = record t { closed_sessions = sess.number ∷ t.closed_sessions }

-- The session that was not seen for longest.
abbrev pub older : Option PeerSession → PeerSession → Option PeerSession
older none sess = some sess
older (some oldest) sess =
    if ltb (sess.last_seen) (oldest.last_seen) then some sess else some oldest

unfoldable pub find_oldest : Option PeerSession → List (ℕ × PeerSession) → Option PeerSession
find_oldest oldest [] = oldest
find_oldest oldest ((epoch, sess) ∷ sessions) = find_oldest (older oldest sess) sessions

abbrev pub evict : PeerTable → Option PeerSession → PeerTable
evict t none = t
evict t (some oldest) = close (record t { sessions = erase (oldest.epoch) (t.sessions) }) oldest

unfoldable pub evict_oldest : PeerTable → PeerTable
evict_oldest t = evict t (find_oldest none (t.sessions))

abbrev pub with_room : PeerTable → PeerTable
with_room t =
    let evicted = evict_oldest t in if leb max_peers (length (t.sessions)) then evicted else t

abbrev pub add_of : PeerTable → PeerSession → ℕ → Option PeerSession → PeerTable × Bool
add_of t sess now (some there) = (t, false)
add_of t sess now none =
    let roomy = with_room t in
    (record roomy { sessions = insert (sess.epoch) (touch sess now) (roomy.sessions) }, true)

unfoldable pub add : PeerTable → PeerSession → ℕ → PeerTable × Bool
add t sess now =
    let added = add_of t sess now (lookup (sess.epoch) (t.sessions)) in
    if t.closed then (t, false) else added

-- The new session is closed where the table does not take it.
abbrev pub added_or_closed : PeerSession → PeerTable × Bool → PeerTable × Option PeerSession
added_or_closed sess (t, true) = (t, some sess)
added_or_closed sess (t, false) = (close t sess, none)

-- What peerSessionFor does once it has looked in vain; `starts` says whether the KCP session could be started.
unfoldable pub create : PeerTable → ℕ → ℕ → Bool → PeerTable × Option PeerSession
unfolding add
create t epoch now starts =
    let sess : PeerSession = record {
      number = t.next_number;
      epoch = epoch;
      last_seen = 0;
      retired = false;
    } in
    let made =
      added_or_closed (touch sess now)
        (add (record t { next_number = t.next_number + 1 }) sess now) in
    if starts then made else (t, none)

abbrev pub is_stale : ℕ → ℕ → ℕ → PeerSession → Bool
is_stale ttl retired_ttl now sess =
    ltb (sess.last_seen) (now - ttl) || (sess.retired && ltb (sess.last_seen) (now - retired_ttl))

-- The sessions that stay, and the numbers of those that go.
unfoldable pub swept : ℕ → ℕ → ℕ → List (ℕ × PeerSession) → List (ℕ × PeerSession) × List ℕ
swept ttl retired_ttl now [] = ([], [])
swept ttl retired_ttl now ((epoch, sess) ∷ sessions) =
    let rest = swept ttl retired_ttl now sessions in
    if is_stale ttl retired_ttl now sess
    then (rest.0, sess.number ∷ rest.1)
    else ((epoch, sess) ∷ rest.0, rest.1)

unfoldable pub sweep : PeerTable → ℕ → ℕ → ℕ → PeerTable
sweep t ttl retired_ttl now =
    let split = swept ttl retired_ttl now (t.sessions) in
    record t { sessions = split.0; closed_sessions = split.1 ++ t.closed_sessions }

abbrev pub release_of : PeerTable → PeerSession → ℕ → Option PeerSession → PeerTable × Bool
release_of t sess cutoff none = (t, false)
release_of t sess cutoff (some there) =
    if not (there.number == sess.number) || leb cutoff (there.last_seen)
    then (t, false)
    else (close (record t { sessions = erase (sess.epoch) (t.sessions) }) there, true)

unfoldable pub release_idle : PeerTable → PeerSession → ℕ → ℕ → PeerTable × Bool
release_idle t sess idle now = release_of t sess (now - idle) (lookup (sess.epoch) (t.sessions))

abbrev pub retire_of : PeerTable → ℕ → ℕ → ℕ → Option PeerSession → PeerTable
retire_of t epoch idle now none = t
retire_of t epoch idle now (some sess) =
    let gone = record sess { retired = true } in
    (release_idle (record t { sessions = insert epoch gone (t.sessions) }) gone idle now).0

-- RetirePeer, with the epoch that the peer's name says.
unfoldable pub retire_peer : PeerTable → ℕ → ℕ → ℕ → PeerTable
retire_peer t epoch idle now = retire_of t epoch idle now (lookup epoch (t.sessions))

unfoldable pub close_all : PeerTable → PeerTable
close_all t = record t {
  sessions = [];
  closed = true;
  closed_sessions = map (λ entry. entry.1.number) (t.sessions) ++ t.closed_sessions;
}

-- What happens to the table, each under its lock: a call of peerSessionFor looks for its session, or makes it
-- and adds it; the sweep; the end of a peer's session; the close.
pub data PeerEvent : Type 0 where
  looked : (epoch now : ℕ) → PeerEvent
  made : (epoch now : ℕ) (starts : Bool) → PeerEvent
  swept_at : (ttl retired_ttl now : ℕ) → PeerEvent
  retired_at : (epoch idle now : ℕ) → PeerEvent
  closing : PeerEvent

abbrev pub happened : PeerTable → PeerEvent → PeerTable
happened t (looked epoch now) = (get t epoch now).0
happened t (made epoch now starts) = (create t epoch now starts).0
happened t (swept_at ttl retired_ttl now) = sweep t ttl retired_ttl now
happened t (retired_at epoch idle now) = retire_peer t epoch idle now
happened t closing = close_all t

unfoldable pub after_events : PeerTable → List PeerEvent → PeerTable
after_events t [] = t
after_events t (event ∷ events) = after_events (happened t event) events

-- A call of peerSessionFor: the time of its first look, what happens while it waits for createMu, the time of
-- its look under createMu, what happens while it starts the session, and when and whether that starts.
pub record PeerCall : Type 0 where
  pub looked_at : ℕ
  pub waiting : List PeerEvent
  pub locked_at : ℕ
  pub building : List PeerEvent
  pub made_at : ℕ
  pub starts : Bool

abbrev pub answer_or :
    PeerTable × Option PeerSession → PeerTable × Option PeerSession → PeerTable × Option PeerSession
answer_or (t, some sess) other = (t, some sess)
answer_or (t, none) other = other

-- The calls of other goroutines, and all else, happen between its steps.
unfoldable pub peer_session_for : PeerTable → ℕ → PeerCall → PeerTable × Option PeerSession
unfolding after_events get create
peer_session_for t epoch call =
    let first = get t epoch call.looked_at in
    let again = get (after_events first.0 call.waiting) epoch call.locked_at in
    answer_or first
      (answer_or again (create (after_events again.0 call.building) epoch call.made_at call.starts))
