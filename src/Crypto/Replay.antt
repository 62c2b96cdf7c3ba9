-- ===== src/Crypto/Replay.antt =====
-- internal/crypto/chacha.go, replayState and replayCache: which authenticated records are let in.
-- A counter is a number below 2 ^ 64.
pub mod Window
pub mod Lookup
pub mod Cache
pub mod History
use Prim.Native.Nat.{bit_and, bit_or}
use olcrtc.Prelude.{
  ℕ, suc, ◌+◌, ◌-◌, ◌*◌, ◌%◌, ◌^◌, Bool, true, false, ◌&&◌, not, List, [], ◌∷◌, ◌++◌, length,
  Option, none, some, take, ltb, leb, ◌==◌, if◌then◌else◌,
}
use olcrtc.Prelude.Maps.{same_bytes}
use olcrtc.Prelude.Results.{Result, ok, err}

abbrev pub replay_window_size : ℕ
replay_window_size = 64

abbrev pub max_replay_senders : ℕ
max_replay_senders = 1024

pub data ReplayError : Type 0 where
  replay_duplicate replay_too_old : ReplayError

-- The state's place in the LRU list, its `element`, is its place in the cache below.
pub record ReplayState : Type 0 where
  pub lane : List ℕ
  pub prefix : List ℕ
  pub highest : ℕ
  pub seen : ℕ
  pub skipped : ℕ
  pub late : ℕ

-- The LRU list from front to back. The maps of `lanes` hold the same states under their lanes and
-- prefixes, so a search of the list stands for the lookup in them.
abbrev pub ReplayCache : Type 0
ReplayCache = List ReplayState

abbrev pub is_sender : List ℕ → List ℕ → ReplayState → Bool
is_sender lane prefix s = same_bytes s.lane lane && same_bytes s.prefix prefix

-- `r.lanes[string(aad)][prefix]`
unfoldable pub find : List ℕ → List ℕ → ReplayCache → Option ReplayState
find lane prefix [] = none
find lane prefix (s ∷ rest) = if is_sender lane prefix s then some s else find lane prefix rest

unfoldable pub remove : List ℕ → List ℕ → ReplayCache → ReplayCache
remove lane prefix [] = []
remove lane prefix (s ∷ rest) =
    if is_sender lane prefix s then rest else s ∷ remove lane prefix rest

-- What `accept` does with the state that it found: the state updated, or the error with no change.
unfoldable pub judge : ReplayState → ℕ → Result ReplayError ReplayState
judge s counter =
    let shift = counter - s.highest in
    let age = s.highest - counter in
    if ltb s.highest counter
    then ok (record s {
      highest = counter;
      seen = if leb replay_window_size shift then 1 else bit_or (s.seen * 2 ^ shift % 2 ^ 64) 1;
      skipped = (s.skipped + (shift - 1)) % 2 ^ 64;
    })
    else if leb replay_window_size age
    then err replay_too_old
    else if not (bit_and s.seen (2 ^ age) == 0)
    then err replay_duplicate
    else ok (record s { seen = bit_or s.seen (2 ^ age); late = (s.late + 1) % 2 ^ 64 })

abbrev pub new_state : List ℕ → List ℕ → ℕ → ReplayState
new_state lane prefix counter = record {
  lane = lane;
  prefix = prefix;
  highest = counter;
  seen = 1;
  skipped = 0;
  late = 0;
}

-- A full cache drops the state at its back first.
unfoldable pub make_room : ReplayCache → ReplayCache
make_room cache =
    if leb max_replay_senders (length cache) then take (length cache - 1) cache else cache

unfoldable pub insert : ReplayCache → List ℕ → List ℕ → ℕ → ReplayCache
insert cache lane prefix counter = new_state lane prefix counter ∷ make_room cache

-- MoveToFront with the state's new contents.
abbrev pub to_front : ReplayState → ReplayCache → ReplayCache
to_front s cache = s ∷ remove s.lane s.prefix cache

unfoldable pub settle :
    ReplayCache → Result ReplayError ReplayState → Result ReplayError (Unit {0}) × ReplayCache
settle cache (ok s) = (ok tt, to_front s cache)
settle cache (err e) = (err e, cache)

unfoldable pub accept_found :
    ReplayCache
    → List ℕ
    → List ℕ
    → ℕ
    → Option ReplayState
    → Result ReplayError (Unit {0}) × ReplayCache
unfolding insert settle
accept_found cache lane prefix counter none = (ok tt, insert cache lane prefix counter)
accept_found cache lane prefix counter (some s) = settle cache (judge s counter)

unfoldable pub accept :
    ReplayCache → List ℕ → List ℕ → ℕ → Result ReplayError (Unit {0}) × ReplayCache
unfolding accept_found
accept cache lane prefix counter = accept_found cache lane prefix counter (find lane prefix cache)

pub record ReorderStats : Type 0 where
  pub skipped : ℕ
  pub late : ℕ

-- The sums over the states of one lane.
unfoldable pub reorder_stats : ReplayCache → List ℕ → ReorderStats
reorder_stats [] lane = record { skipped = 0; late = 0 }
reorder_stats (s ∷ rest) lane =
    let sum = reorder_stats rest lane in
    if same_bytes s.lane lane
    then record {
      skipped = (sum.skipped + s.skipped) % 2 ^ 64;
      late = (sum.late + s.late) % 2 ^ 64;
    }
    else sum
