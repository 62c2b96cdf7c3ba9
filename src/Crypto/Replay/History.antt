-- ===== src/Crypto/Replay/History.antt =====
-- Sequences of records through the replay cache: no record gets in twice, and the cache stays
-- within its bound.
use olcrtc.Prelude.{
  ℕ, ◌+◌, ◌≤◌, ◌<◌, ◌≡◌, inl, inr, true, false, List, [], ◌∷◌, length, arith, Option-cases,
}
use olcrtc.Prelude.Results.{is_ok, Result-cases}
use olcrtc.Crypto.Replay.{ReplayCache, max_replay_senders, find, judge, accept}
use olcrtc.Crypto.Replay.Cache.{Holds, accept-Holds, Holds-accepted, Holds-accept, length-accept}
use olcrtc.Crypto.Replay.Lookup.{make_room-lt, remove-lt, accept_new, accept_ok, accept_err}

pub record Request : Type 0 where
  pub lane : List ℕ
  pub prefix : List ℕ
  pub counter : ℕ

-- The cache after a sequence of authenticated records.
unfoldable pub run : ReplayCache → List Request → ReplayCache
run cache [] = cache
run cache (r ∷ rs) = run (accept cache r.lane r.prefix r.counter).1 rs

Holds-run :
    (l p : List ℕ) (c : ℕ) (cache : ReplayCache) (rs : List Request)
    → length cache + length rs ≤ 1024
    → Holds l p c cache
    → Holds l p c (run cache rs)
unfolding run
Holds-run l p c cache [] room h = h
Holds-run l p c cache (r ∷ rs) room h =
    Holds-run l p c (accept cache r.lane r.prefix r.counter).1 rs
      (omega (arith, length-accept cache r.lane r.prefix r.counter))
      (Holds-accept l p c cache r.lane r.prefix r.counter (omega arith) h)

-- A record that was let in is refused when it comes again, whatever records of its own sender and
-- of others come between, while the cache has room for a new sender with each of them; the refusal
-- leaves the cache as it is.
pub replay_refused :
    (cache : ReplayCache) (lane prefix : List ℕ) (counter : ℕ) (between : List Request)
    → length cache + length between < 1024
    → is_ok (accept cache lane prefix counter).0 ≡ true
    → let later = run (accept cache lane prefix counter).1 between in
      (is_ok (accept later lane prefix counter).0 ≡ false)
      × ((accept later lane prefix counter).1 ≡ later)
replay_refused cache lane prefix counter between room good =
    let first = (accept cache lane prefix counter).1 in
    accept-Holds lane prefix counter (run first between) (
      Holds-run lane prefix counter first between
        (omega (arith, length-accept cache lane prefix counter))
        (Holds-accepted lane prefix counter cache good))

-- The cache never holds more states than its bound.
pub accept_bounded :
    (cache : ReplayCache) (lane prefix : List ℕ) (counter : ℕ)
    → length cache ≤ max_replay_senders
    → length (accept cache lane prefix counter).1 ≤ max_replay_senders
accept_bounded cache l p c bound = elim (Option-cases (find l p cache)) [
  | inl none_yet ↦ rw (accept_new cache l p c none_yet) (omega (arith, make_room-lt cache bound))
  | inr (s, found) ↦ elim (Result-cases (judge s c)) [
    | inl (t, good) ↦
        rw (accept_ok cache l p c s t found good)
          (omega (arith, remove-lt l p cache s t c found good))
    | inr (e, bad) ↦ rw (accept_err cache l p c s e found bad) bound
  ]
]
