-- ===== src/Crypto/Replay/Window.antt =====
-- The 64-record window of one sender: a record is let in at most once.
use olcrtc.Prelude.{ℕ, ◌-◌, ◌≤◌, ◌<◌, ◌≡◌, ◌⊎◌, true, arith}
use olcrtc.Prelude.Bits.{bit, bit_push, bit_mark, bit_of_mask, bit-pow, bit_and-pow}
use olcrtc.Prelude.Results.{ok, err, is_ok}
use olcrtc.Crypto.Replay.{ReplayState, replay_duplicate, replay_too_old, judge}

-- The window holds the counter as one that was let in, or is past it.
abbrev pub Spent : ReplayState → ℕ → Type 0
Spent s c = (c ≤ s.highest) × ((64 ≤ s.highest - c) ⊎ (bit s.seen (s.highest - c) ≡ 1))

-- A counter that the window holds is refused: as too old where it is 64 or more below the highest,
-- and as a duplicate otherwise.
pub judge-Spent :
    (s : ReplayState) (c : ℕ)
    → Spent s c
    → ((64 ≤ s.highest - c) × (judge s c ≡ err replay_too_old))
      ⊎ ((s.highest - c < 64) × (judge s c ≡ err replay_duplicate))
unfolding judge
judge-Spent s c h = ground (arith, bit_of_mask s.seen (s.highest - c))

-- A counter that is let in is held from then on.
pub Spent-accepted : (s t : ReplayState) (c : ℕ) → judge s c ≡ ok t → Spent t c
unfolding judge
Spent-accepted s t c h = ground (
  arith,
  bit_push s.seen (c - s.highest) 0,
  bit_mark s.seen (s.highest - c) (s.highest - c),
  bit-pow 0 0,
)

-- No later record makes the window let go of a counter.
pub Spent-judge : (s t : ReplayState) (c d : ℕ) → judge s d ≡ ok t → Spent s c → Spent t c
unfolding judge
Spent-judge s t c d h p = ground (
  arith,
  bit_push s.seen (d - s.highest) (d - c),
  bit_mark s.seen (s.highest - d) (s.highest - c),
)

-- Any other counter is let in: one above the highest, and one among the last 64 that the window
-- does not hold, however late it comes.
pub judge_fresh :
    (s : ReplayState) (c : ℕ)
    → (s.highest < c) ⊎ ((s.highest - c < 64) × (bit s.seen (s.highest - c) ≡ 0))
    → is_ok (judge s c) ≡ true
unfolding judge
judge_fresh s c fresh = ground (arith, bit_and-pow s.seen (s.highest - c))
