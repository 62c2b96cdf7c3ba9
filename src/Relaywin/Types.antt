-- ===== src/Relaywin/Types.antt =====
-- internal/relaywin/relaywin.go: the timing, the window toward one destination, and all of them.
-- A time is a number of nanoseconds, 0 for time.Time{}; a duration is a number of nanoseconds too,
-- and a negative one in a Timing acts as 0 does. A uint64 is a number below 2 ^ 64.
use Prim.Native.String.{String}
use olcrtc.Prelude.{ℕ, ◌*◌, ◌/◌, ◌^◌, Bool, List, Option, max, min, ltb, ◌==◌, if◌then◌else◌}

-- float64 and what the package does with it. Go's floats are not modelled; no law is assumed.
pub record Float64 (F : Type 0) : Type 0 where
  pub zero_float : F
  pub of_u64 : ℕ → F
  pub seconds : ℕ → F
  pub max_float : F → F → F
  pub div_float : F → F → F
  pub mul_float : F → F → F
  pub to_u64 : F → ℕ

abbrev pub second : ℕ
second = 1_000_000_000

abbrev pub default_window : ℕ
default_window = 192 * 2 ^ 10

abbrev pub default_probe_after : ℕ
default_probe_after = second

abbrev pub default_dead_after : ℕ
default_dead_after = 120 * second

abbrev pub default_retry : ℕ
default_retry = default_probe_after / 4

abbrev pub mark_divisor : ℕ
mark_divisor = 8

abbrev pub default_min_window : ℕ
default_min_window = 16 * 2 ^ 10

abbrev pub min_mark_every : ℕ
min_mark_every = 2 * 2 ^ 10

abbrev pub rate_interval : ℕ
rate_interval = second

abbrev pub rate_samples : ℕ
rate_samples = 10

abbrev pub first_sized_window : ℕ
first_sized_window = 64 * 2 ^ 10

pub record Timing : Type 0 where
  pub window : ℕ
  pub mark_every : ℕ
  pub probe_after : ℕ
  pub dead_after : ℕ
  pub retry : ℕ
  pub horizon : ℕ
  pub min_window : ℕ

-- `if x == 0 { x = d }`
abbrev or_default : ℕ → ℕ → ℕ
or_default x d = if x == 0 then d else x

unfoldable pub with_defaults : Timing → Timing
with_defaults t =
    let window = or_default t.window default_window in
    let min_given = or_default t.min_window default_min_window in
    record {
      window = window;
      mark_every = or_default t.mark_every (max (window / mark_divisor) 1);
      probe_after = or_default t.probe_after default_probe_after;
      dead_after = or_default t.dead_after default_dead_after;
      retry = or_default t.retry default_retry;
      horizon = t.horizon;
      min_window = if ltb 0 t.horizon then min min_given window else t.min_window;
    }

-- What a sized window measures of its leg.
pub record LegMeasure (F : Type 0) : Type 0 where
  pub rate_since : ℕ
  pub rate_from : ℕ
  pub held : Bool
  pub rates : List F
  pub next : ℕ

-- The window toward one destination. `wake` names the channel: the n-th that was made.
pub record State (F : Type 0) : Type 0 where
  pub sent : ℕ
  pub marked : ℕ
  pub echoed : ℕ
  pub active : Bool
  pub marked_at : ℕ
  pub held_since : ℕ
  pub waiting_since : ℕ
  pub epoch : ℕ
  pub wake : ℕ
  pub size : ℕ
  pub mark_every : ℕ
  pub leg : Option (LegMeasure F)

-- `chans` is how many channels were made, and `closed` lists each close of one.
pub record Windows (F : Type 0) : Type 0 where
  pub timing : Timing
  pub windows : List (String × State F)
  pub count : ℕ
  pub epochs : ℕ
  pub chans : ℕ
  pub closed : List ℕ
