-- ===== src/Crypto/Replay/Lookup.antt =====
-- What a search of the LRU list finds, and what each operation of the cache does to the list:
-- internal/crypto/chacha.go, replayCache.
use olcrtc.Prelude.{
  ℕ, suc, ◌-◌, ◌≤◌, ◌<◌, ◌≡◌, refl, ap, ◌∙◌, true, false, ◌&&◌, List, [], ◌∷◌, length, none, some,
  arith, length-take,
}
use olcrtc.Prelude.Maps.{same_bytes, same_bytes_iff}
use olcrtc.Prelude.Results.{ok, err}
use olcrtc.Crypto.Replay.{
  ReplayState, ReplayCache, ReplayError, is_sender, find, remove, judge, insert, make_room, settle,
  accept_found, accept, new_state,
}

pub judge_sender :
    (s t : ReplayState) (c : ℕ) → judge s c ≡ ok t → (t.lane ≡ s.lane) × (t.prefix ≡ s.prefix)
unfolding judge
judge_sender s t c h = ground arith

pub is_sender_iff :
    (lane prefix : List ℕ) (s : ReplayState)
    → is_sender lane prefix s ≡ true
    → (s.lane ≡ lane) × (s.prefix ≡ prefix)
is_sender_iff lane prefix s h =
    ground (arith, same_bytes_iff s.lane lane, same_bytes_iff s.prefix prefix)

pub none_ne_some : (s : ReplayState) → none ≡ some s → ⊥
none_ne_some s h = cc

-- What the lookup returns is the sender's.
pub find_sender :
    (lane prefix : List ℕ) (cache : ReplayCache) (s : ReplayState)
    → find lane prefix cache ≡ some s
    → is_sender lane prefix s ≡ true
unfolding find
find_sender lane prefix [] s h = cc
find_sender lane prefix (t ∷ rest) s h = ground (arith, find_sender lane prefix rest s)

pub length-remove :
    (lane prefix : List ℕ) (cache : ReplayCache) → length (remove lane prefix cache) ≤ length cache
unfolding remove
length-remove lane prefix [] = omega arith
length-remove lane prefix (t ∷ rest) = ground (arith, length-remove lane prefix rest)

-- Removing one sender's state leaves what the lookup finds for another.
pub find-remove_ne :
    (lane prefix l p : List ℕ) (cache : ReplayCache)
    → (same_bytes lane l && same_bytes prefix p ≡ false)
    → find l p (remove lane prefix cache) ≡ find l p cache
unfolding find remove
find-remove_ne lane prefix l p [] ne = refl
find-remove_ne lane prefix l p (t ∷ rest) ne = ground (
  arith,
  same_bytes_iff t.lane lane,
  same_bytes_iff t.prefix prefix,
  same_bytes_iff t.lane l,
  same_bytes_iff t.prefix p,
  same_bytes_iff lane l,
  same_bytes_iff prefix p,
  find-remove_ne lane prefix l p rest ne,
)

pub find_front :
    (l p : List ℕ) (t : ReplayState) (rest : ReplayCache)
    → t.lane ≡ l
    → t.prefix ≡ p
    → find l p (t ∷ rest) ≡ some t
unfolding find
find_front l p t rest h k = ground (arith, same_bytes_iff t.lane l, same_bytes_iff t.prefix p)

pub find_behind :
    (l p : List ℕ) (t : ReplayState) (rest : ReplayCache)
    → same_bytes t.lane l && same_bytes t.prefix p ≡ false
    → find l p (t ∷ rest) ≡ find l p rest
unfolding find
find_behind l p t rest h = ground arith

-- The three ways through `accept`.
pub accept_new :
    (cache : ReplayCache) (l p : List ℕ) (c : ℕ)
    → find l p cache ≡ none
    → accept cache l p c ≡ (ok tt, new_state l p c ∷ make_room cache)
unfolding accept insert
accept_new cache l p c h = ap (accept_found cache l p c) h

pub accept_ok :
    (cache : ReplayCache) (l p : List ℕ) (c : ℕ) (s t : ReplayState)
    → find l p cache ≡ some s
    → judge s c ≡ ok t
    → accept cache l p c ≡ (ok tt, t ∷ remove t.lane t.prefix cache)
unfolding accept
accept_ok cache l p c s t h k = ap (accept_found cache l p c) h ∙ ap (settle cache) k

pub accept_err :
    (cache : ReplayCache) (l p : List ℕ) (c : ℕ) (s : ReplayState) (e : ReplayError)
    → find l p cache ≡ some s
    → judge s c ≡ err e
    → accept cache l p c ≡ (err e, cache)
unfolding accept
accept_err cache l p c s e h k = ap (accept_found cache l p c) h ∙ ap (settle cache) k

pub length-make_room : (cache : ReplayCache) → length (make_room cache) ≤ length cache
unfolding make_room
length-make_room cache = ground (arith, length-take (length cache - 1) cache)

pub make_room-lt : (cache : ReplayCache) → length cache ≤ 1024 → length (make_room cache) < 1024
unfolding make_room
make_room-lt cache bound = ground (arith, length-take (length cache - 1) cache)

remove_found :
    (l p : List ℕ) (cache : ReplayCache) (s : ReplayState)
    → find l p cache ≡ some s
    → suc (length (remove l p cache)) ≡ length cache
unfolding find remove
remove_found l p [] s h = cc
remove_found l p (t ∷ rest) s h = ground (arith, remove_found l p rest s)

pub remove-lt :
    (l p : List ℕ) (cache : ReplayCache) (s t : ReplayState) (c : ℕ)
    → find l p cache ≡ some s
    → judge s c ≡ ok t
    → suc (length (remove t.lane t.prefix cache)) ≡ length cache
remove-lt l p cache s t c found good =
    let (sl, sp) = is_sender_iff l p s (find_sender l p cache s found) in
    let (tl, tp) = judge_sender s t c good in rw (tl ∙ sl, tp ∙ sp) (remove_found l p cache s found)

pub make_room_fits : (cache : ReplayCache) → length cache < 1024 → make_room cache ≡ cache
unfolding make_room
make_room_fits cache room = ground arith
