-- ===== src/Vp8channel/Peers/Events.antt =====
-- The table of peers over any course of events: internal/transport/vp8channel/peers.go and peer_release.go.
use olcrtc.Prelude.{
  ℕ, ◌-◌, ◌≤◌, refl, inl, inr, Bool-cases, Option-cases, true, not, ◌||◌, List, [], ◌∷◌, All,
  Option, none, some, length, arith, leb, ◌==◌,
}
use olcrtc.Prelude.Maps.{nat_eq, lookup, insert}
use olcrtc.Vp8channel.Peers.{
  PeerSession, PeerTable, close, is_stale, swept, sweep, release_of, release_idle, retire_peer,
  close_all, PeerEvent, looked, made, swept_at, retired_at, closing, happened, after_events,
}
use olcrtc.Vp8channel.Peers.Bounded.{
  Sessions, IsKeyed, IsBounded, erase-IsKeyed, length-erase, change-IsBounded, get-IsBounded,
  create-IsBounded,
}

swept-IsKeyed :
    (ttl retired_ttl now : ℕ) (m : Sessions)
    → All IsKeyed m
    → All IsKeyed (swept ttl retired_ttl now m).0
unfolding swept
swept-IsKeyed ttl retired_ttl now [] h = tt
swept-IsKeyed ttl retired_ttl now ((epoch, sess) ∷ m) h =
    elim (Bool-cases (is_stale ttl retired_ttl now sess)) [
      | inl e ↦ rw e (swept-IsKeyed ttl retired_ttl now m h.1)
      | inr e ↦ rw e (h.0, swept-IsKeyed ttl retired_ttl now m h.1)
    ]

length-swept :
    (ttl retired_ttl now : ℕ) (m : Sessions) → length (swept ttl retired_ttl now m).0 ≤ length m
unfolding swept
length-swept ttl retired_ttl now [] = omega arith
length-swept ttl retired_ttl now ((epoch, sess) ∷ m) =
    ground (arith, length-swept ttl retired_ttl now m)

sweep-IsBounded :
    (t : PeerTable) (ttl retired_ttl now : ℕ)
    → IsBounded t
    → IsBounded (sweep t ttl retired_ttl now)
unfolding sweep
sweep-IsBounded t ttl retired_ttl now h = (
  swept-IsKeyed ttl retired_ttl now t.sessions h.0,
  omega (arith, h.1, length-swept ttl retired_ttl now t.sessions),
)

release_of-IsBounded :
    (t : PeerTable) (sess : PeerSession) (cutoff : ℕ) (o : Option PeerSession)
    → IsBounded t
    → IsBounded (release_of t sess cutoff o).0
unfolding close
release_of-IsBounded t sess cutoff none h = h
release_of-IsBounded t sess cutoff (some there) h =
    elim (Bool-cases (not (there.number == sess.number) || leb cutoff there.last_seen)) [
      | inl e ↦ rw e h
      | inr e ↦ rw e (
        erase-IsKeyed sess.epoch t.sessions h.0,
        omega (arith, h.1, length-erase sess.epoch t.sessions),
      )
    ]

retire_peer-IsBounded :
    (t : PeerTable) (epoch idle now : ℕ) → IsBounded t → IsBounded (retire_peer t epoch idle now)
unfolding retire_peer release_idle
retire_peer-IsBounded t epoch idle now h = elim (Option-cases (lookup epoch t.sessions)) [
  | inl missing ↦ rw missing h
  | inr (sess, at) ↦
      let gone : PeerSession = record sess { retired = true } in
      let next : PeerTable = record t { sessions = insert epoch gone t.sessions } in
      rw at (
        release_of-IsBounded next gone (now - idle) (lookup gone.epoch next.sessions)
          (change-IsBounded t epoch sess gone h at refl))
]

happened-IsBounded :
    (t : PeerTable) (event : PeerEvent) → IsBounded t → IsBounded (happened t event)
unfolding close_all
happened-IsBounded t (looked epoch now) h = get-IsBounded t epoch now h
happened-IsBounded t (made epoch now starts) h = create-IsBounded t epoch now starts h
happened-IsBounded t (swept_at ttl retired_ttl now) h = sweep-IsBounded t ttl retired_ttl now h
happened-IsBounded t (retired_at epoch idle now) h = retire_peer-IsBounded t epoch idle now h
happened-IsBounded t closing h = (tt, omega arith)

-- After any looks and creations of peerSessionFor, in any order, sweeps, ended sessions and closes, a table
-- of peers that started within its bounds has 64 sessions at most, each under its own epoch.
pub after_events-IsBounded :
    (t : PeerTable) (events : List PeerEvent) → IsBounded t → IsBounded (after_events t events)
unfolding after_events
after_events-IsBounded t [] h = h
after_events-IsBounded t (event ∷ events) h =
    after_events-IsBounded (happened t event) events (happened-IsBounded t event h)
