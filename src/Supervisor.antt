-- ===== src/Supervisor.antt =====
-- internal/supervisor/supervisor.go: the walk over the list of profiles and the pauses between them. Times
-- are numbers of nanoseconds; a `time.Duration` of zero or less is 0. `C` is the session's configuration.
pub mod Status
pub mod Run
pub mod Walk
pub mod Pace
pub mod Tracked
pub mod Kept
pub mod Statuses
pub mod Turns
pub mod Passes
use Prim.Native.String.{String}
use olcrtc.Prelude.{
  ℕ, zero, suc, ◌+◌, ◌-◌, ◌*◌, ◌%◌, ◌^◌, min, Bool, true, false, not, ◌||◌, List, [], ◌∷◌, Option,
  none, some, length, get_elem?, ltb, ◌==◌, if◌then◌else◌,
}
use olcrtc.Prelude.Maps.{Eq, string_eq}
use olcrtc.Prelude.Results.{Result, ok, err}

-- 2 seconds, 1 minute, 5 minutes.
abbrev pub default_retry_delay : ℕ
default_retry_delay = 2000000000

abbrev pub profile_held_for : ℕ
profile_held_for = 60000000000

abbrev pub max_retry_delay : ℕ
max_retry_delay = 300000000000

abbrev pub max_retry_backoff : ℕ
max_retry_backoff = 8

pub record Profile (C : Type 0) : Type 0 where
  pub name : String
  pub config : C

pub record LastProfile : Type 0 where
  pub name : String
  pub index : ℕ
  pub ran : Bool

abbrev pub no_last : LastProfile
no_last = record { name = ""; index = 0; ran = false }

-- Whether the profile at a place has a name.
abbrev pub is_named : {C : Type 0} → String → Option (Profile C) → Bool
is_named name none = false
is_named name (some profile) = string_eq.beq (profile.name) name

-- The loop over the offsets, with `left` of them to come.
unfoldable pub find_last : {C : Type 0} → List (Profile C) → LastProfile → ℕ → ℕ → ℕ × Bool
find_last profiles last zero offset = (0, false)
find_last profiles last (suc left) offset =
    let i = (last.index + offset) % length profiles in
    let more = find_last profiles last left (offset + 1) in
    if is_named (last.name) (get_elem? profiles i)
    then ((i + 1) % length profiles, i + 1 == length profiles)
    else more

unfoldable pub next_step : {C : Type 0} → List (Profile C) → LastProfile → ℕ × Bool
next_step profiles last =
    let found = find_last profiles last (length profiles) 0 in
    if not (last.ran) || length profiles == 0 then (0, false) else found

pub record ProfileList (C : Type 0) : Type 0 where
  pub current : List (Profile C)
  pub reloads : Bool

abbrev pub reloaded : {C : Type 0} → List (Profile C) → Option (List (Profile C)) → List (Profile C)
reloaded current none = current
reloaded current (some []) = current
reloaded current (some (profile ∷ profiles)) = profile ∷ profiles

-- With what the hook would return, `none` for an error; without a hook it is not read.
unfoldable pub refresh : {C : Type 0} → ProfileList C → Option (List (Profile C)) → ProfileList C
refresh p next = if p.reloads then record p { current = reloaded (p.current) next } else p

pub record ProfilePace : Type 0 where
  pub dead_cycles : ℕ
  pub held_a_cycle : Bool

abbrev pub held : ProfilePace → ProfilePace
held p = record p { held_a_cycle = true }

abbrev pub passed : ProfilePace → Bool → ProfilePace
passed p pass_complete =
    let count = if p.held_a_cycle then 0 else p.dead_cycles + 1 in
    if pass_complete then record { dead_cycles = count; held_a_cycle = false } else p

-- `base << n` on 64 bits; one that comes out negative makes no wait, as 0 does.
abbrev pub shift_left : ℕ → ℕ → ℕ
shift_left base n = let bits = base * 2 ^ n % 2 ^ 64 in if ltb bits (2 ^ 63) then bits else 0

abbrev pub pause : ℕ → ℕ → ℕ
pause base dead_cycles =
    if dead_cycles == 0
    then base
    else min (shift_left base (min dead_cycles max_retry_backoff)) max_retry_delay

unfoldable pub wait : ProfilePace → ℕ → Bool → ProfilePace × ℕ
wait p base pass_complete =
    let next = passed p pass_complete in (next, pause base (next.dead_cycles))
