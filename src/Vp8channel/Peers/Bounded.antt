-- ===== src/Vp8channel/Peers/Bounded.antt =====
-- The table of peers stays within its size: internal/transport/vp8channel/peers.go.
use olcrtc.Prelude.{
  ℕ, ◌+◌, ◌≤◌, ◌<◌, ◌≡◌, ◌≢◌, refl, sym, ◌∙◌, subst, ◌⊎◌, inl, inr, Bool, Bool-cases, Option-cases,
  true, false, List, [], ◌∷◌, All, Option, none, some, length, arith, ltb, leb, ◌==◌, if◌then◌else◌,
}
use olcrtc.Prelude.Maps.{nat_eq, lookup, insert, erase, length-insert}
use olcrtc.Vp8channel.Peers.{
  max_peers, PeerSession, PeerTable, touch, get, close, older, find_oldest, evict_oldest, with_room,
  add_of, add, added_or_closed, create,
}

abbrev pub Sessions : Type 0
Sessions = List (ℕ × PeerSession)

-- Every session stands under its epoch.
abbrev pub IsKeyed : ℕ × PeerSession → Type 0
IsKeyed (epoch, sess) = sess.epoch ≡ epoch

insert-IsKeyed :
    (k : ℕ) (sess : PeerSession) (m : Sessions)
    → sess.epoch ≡ k
    → All IsKeyed m
    → All IsKeyed (insert k sess m)
unfolding insert
insert-IsKeyed k sess [] e h = (e, tt)
insert-IsKeyed k sess ((epoch, other) ∷ m) e h = elim (Bool-cases (epoch == k)) [
  | inl same ↦ rw same (e, h.1)
  | inr other_key ↦ rw other_key (h.0, insert-IsKeyed k sess m e h.1)
]

lookup-IsKeyed :
    (k : ℕ) (sess : PeerSession) (m : Sessions)
    → All IsKeyed m
    → lookup k m ≡ some sess
    → sess.epoch ≡ k
unfolding lookup
lookup-IsKeyed k sess [] h e = ground (arith, e)
lookup-IsKeyed k sess ((epoch, other) ∷ m) h e = ground (arith, h.0, e, lookup-IsKeyed k sess m h.1)

length-insert_there :
    (k : ℕ) (sess old : PeerSession) (m : Sessions)
    → lookup k m ≡ some old
    → length (insert k sess m) ≡ length m
unfolding lookup insert
length-insert_there k sess old [] e = ground (arith, e)
length-insert_there k sess old ((epoch, other) ∷ m) e =
    ground (arith, e, length-insert_there k sess old m)

pub erase-IsKeyed : (k : ℕ) (m : Sessions) → All IsKeyed m → All IsKeyed (erase k m)
unfolding erase
erase-IsKeyed k [] h = tt
erase-IsKeyed k ((epoch, other) ∷ m) h = elim (Bool-cases (epoch == k)) [
  | inl e ↦ rw e (erase-IsKeyed k m h.1)
  | inr e ↦ rw e (h.0, erase-IsKeyed k m h.1)
]

pub length-erase : (k : ℕ) (m : Sessions) → length (erase k m) ≤ length m
unfolding erase
length-erase k [] = omega arith
length-erase k ((epoch, other) ∷ m) = ground (arith, length-erase k m)

-- One with an epoch.
abbrev HasKey : ℕ → Sessions → Type 0
HasKey k [] = true ≡ false
HasKey k ((epoch, sess) ∷ m) = (epoch ≡ k) ⊎ HasKey k m

length-erase_found : (k : ℕ) (m : Sessions) → HasKey k m → length (erase k m) < length m
unfolding erase
length-erase_found k [] h = ground (arith, h)
length-erase_found k ((epoch, other) ∷ m) (inl e) = ground (arith, e, length-erase k m)
length-erase_found k ((epoch, other) ∷ m) (inr h) = ground (arith, length-erase_found k m h)

find_oldest-HasKey :
    (o : Option PeerSession) (m : Sessions) (sess : PeerSession)
    → All IsKeyed m
    → find_oldest o m ≡ some sess
    → (o ≡ some sess) ⊎ HasKey sess.epoch m
unfolding find_oldest
find_oldest-HasKey o [] sess h e = inl e
find_oldest-HasKey none ((epoch, other) ∷ m) sess h e =
    elim (find_oldest-HasKey (some other) m sess h.1 e) [
      | inl same ↦ inr (inl (ground (arith, same, h.0)))
      | inr there ↦ inr (inr there)
    ]
find_oldest-HasKey (some old) ((epoch, other) ∷ m) sess h e =
    elim (find_oldest-HasKey (older (some old) other) m sess h.1 e) [
      | inl same ↦ ground (arith, same, h.0)
      | inr there ↦ inr (inr there)
    ]

find_oldest-some :
    (old : PeerSession) (m : Sessions)
    → (sess : PeerSession) × (find_oldest (some old) m ≡ some sess)
unfolding find_oldest
find_oldest-some old [] = (old, refl)
find_oldest-some old ((epoch, other) ∷ m) = elim (Bool-cases (ltb other.last_seen old.last_seen)) [
  | inl e ↦ rw e (find_oldest-some other m)
  | inr e ↦ rw e (find_oldest-some old m)
]

some_oldest : (m : Sessions) → 1 ≤ length m → find_oldest none m ≢ none
unfolding find_oldest
some_oldest [] h e = ground (arith, h)
some_oldest ((epoch, other) ∷ m) h e =
    let (sess, found) = find_oldest-some other m in ground (arith, found, e)

-- A table that is full loses one session.
length-evict_oldest :
    (t : PeerTable)
    → All IsKeyed t.sessions
    → 1 ≤ length t.sessions
    → length (evict_oldest t).sessions < length t.sessions
unfolding evict_oldest close
length-evict_oldest t h full = elim (Option-cases (find_oldest none t.sessions)) [
  | inl missing ↦ ground (arith, full, missing, some_oldest t.sessions full)
  | inr (oldest, found) ↦ elim (find_oldest-HasKey none t.sessions oldest h found) [
    | inl wrong ↦ ground (arith, wrong)
    | inr there ↦ rw found (length-erase_found oldest.epoch t.sessions there)
  ]
]

evict_oldest-IsKeyed :
    (t : PeerTable) → All IsKeyed t.sessions → All IsKeyed (evict_oldest t).sessions
unfolding evict_oldest close
evict_oldest-IsKeyed t h = elim (Option-cases (find_oldest none t.sessions)) [
  | inl missing ↦ rw missing h
  | inr (oldest, found) ↦ rw found (erase-IsKeyed oldest.epoch t.sessions h)
]

-- Every session under its epoch, and no more than the table may have.
abbrev pub IsBounded : PeerTable → Type 0
IsBounded t = All IsKeyed t.sessions × (length t.sessions ≤ max_peers)

-- A session that changes without its epoch, at its place.
pub change-IsBounded :
    (t : PeerTable) (epoch : ℕ) (old sess : PeerSession)
    → IsBounded t
    → lookup epoch t.sessions ≡ some old
    → sess.epoch ≡ old.epoch
    → IsBounded (record t { sessions = insert epoch sess t.sessions })
change-IsBounded t epoch old sess h at same = (
  insert-IsKeyed epoch sess t.sessions (same ∙ lookup-IsKeyed epoch old t.sessions h.0 at) h.0,
  subst (λ n. n ≤ max_peers) (sym (length-insert_there epoch sess old t.sessions at)) h.1,
)

pub get-IsBounded : (t : PeerTable) (epoch now : ℕ) → IsBounded t → IsBounded (get t epoch now).0
unfolding get
get-IsBounded t epoch now h = elim (Option-cases (lookup epoch t.sessions)) [
  | inl missing ↦ rw missing h
  | inr (sess, at) ↦ rw at (change-IsBounded t epoch sess (touch sess now) h at refl)
]

with_room-length :
    (t : PeerTable)
    → IsBounded t
    → (All IsKeyed (with_room t).sessions) × (length (with_room t).sessions < max_peers)
with_room-length t h = elim (Bool-cases (leb max_peers (length t.sessions))) [
  | inl full ↦
      let some_sessions : 1 ≤ length t.sessions = ground (arith, full) in
      rw full
        (evict_oldest-IsKeyed t h.0, omega (arith, h.1, length-evict_oldest t h.0 some_sessions))
  | inr room ↦ rw room (h.0, ground (arith, room))
]

add_of-IsBounded :
    (t : PeerTable) (sess : PeerSession) (now : ℕ) (o : Option PeerSession)
    → IsBounded t
    → IsBounded (add_of t sess now o).0
add_of-IsBounded t sess now (some there) h = h
add_of-IsBounded t sess now none h =
    let roomy = with_room-length t h in
    (
      insert-IsKeyed sess.epoch (touch sess now) (with_room t).sessions refl roomy.0,
      omega (arith, roomy.1, length-insert sess.epoch (touch sess now) (with_room t).sessions),
    )

add-IsBounded :
    (t : PeerTable) (sess : PeerSession) (now : ℕ) → IsBounded t → IsBounded (add t sess now).0
unfolding add
add-IsBounded t sess now h =
    let added = add_of-IsBounded t sess now (lookup sess.epoch t.sessions) h in
    let choose = λ (b : Bool).
      IsBounded (if b then (t, false) else add_of t sess now (lookup sess.epoch t.sessions)).0 in
    elim (Bool-cases t.closed) [
      | inl closed ↦ subst choose (sym closed) h
      | inr going ↦ subst choose (sym going) added
    ]

added_or_closed-IsBounded :
    (sess : PeerSession) (r : PeerTable × Bool)
    → IsBounded r.0
    → IsBounded (added_or_closed sess r).0
unfolding close
added_or_closed-IsBounded sess (u, true) k = k
added_or_closed-IsBounded sess (u, false) k = k

pub create-IsBounded :
    (t : PeerTable) (epoch now : ℕ) (starts : Bool)
    → IsBounded t
    → IsBounded (create t epoch now starts).0
unfolding create
create-IsBounded t epoch now false h = h
create-IsBounded t epoch now true h =
    let sess : PeerSession = record {
      number = t.next_number;
      epoch = epoch;
      last_seen = 0;
      retired = false;
    } in
    let next : PeerTable = record t { next_number = t.next_number + 1 } in
    added_or_closed-IsBounded (touch sess now) (add next sess now) (add-IsBounded next sess now h)
