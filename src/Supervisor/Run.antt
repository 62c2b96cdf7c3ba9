-- ===== src/Supervisor/Run.antt =====
-- internal/supervisor/supervisor.go: Run. What a turn of its loop meets, the hook's results, how the profile
-- ended and whether the context was cancelled, are the turn's inputs.
use Prim.Native.String.{String}
use olcrtc.Prelude.{
  ℕ, ◌+◌, Bool, true, false, ◌&&◌, List, Option, none, some, length, get_elem?, ltb, leb, ◌==◌,
  if◌then◌else◌,
}
use olcrtc.Supervisor.{
  default_retry_delay, profile_held_for, Profile, LastProfile, no_last, next_step, ProfileList,
  refresh, ProfilePace, held, wait,
}
use olcrtc.Supervisor.Status.{Tracker, new_status_tracker, start, end}

pub record Config (C : Type 0) : Type 0 where
  pub profiles : List (Profile C)
  pub reloads : Bool
  pub retry_delay : ℕ
  pub max_cycles : ℕ
  pub history_limit : Option ℕ

pub record State (C : Type 0) : Type 0 where
  pub list : ProfileList C
  pub last : LastProfile
  pub cycle : ℕ
  pub pace : ProfilePace
  pub status : Tracker

-- `error` is what the runner returned, `none` for nil; `ran_for` is how long it ran.
pub record Input (C : Type 0) : Type 0 where
  pub cancelled : Bool
  pub before : Option (List (Profile C))
  pub started_at : ℕ
  pub ran_for : ℕ
  pub cancelled_in_run : Bool
  pub error : Option String
  pub after : Option (List (Profile C))
  pub cancelled_in_wait : Bool

-- A turn runs no profile and waits, runs one and waits, or ends the loop.
pub data Outcome (C : Type 0) : Type 0 where
  stopped panicked : Outcome C
  exceeded : (cycle : ℕ) (name : String) (error : Option String) → Outcome C
  idle : (s : State C) (delay : ℕ) → Outcome C
  turned : (s : State C) (delay : ℕ) → Outcome C

abbrev pub delay_of : {C : Type 0} → Config C → ℕ
delay_of cfg = if cfg.retry_delay == 0 then default_retry_delay else cfg.retry_delay

abbrev pub is_held : ℕ → ProfilePace → ProfilePace
is_held ran_for pace = if leb profile_held_for ran_for then held pace else pace

-- The state when the runner starts.
abbrev pub running : {C : Type 0} → State C → ProfileList C → ℕ → Bool → Profile C → ℕ → State C
running s list idx wrapped profile now =
    let cycle = if wrapped then s.cycle + 1 else s.cycle in
    record {
      list = list;
      last = record { name = profile.name; index = idx; ran = true };
      cycle = cycle;
      pace = s.pace;
      status = start (s.status) (profile.name) cycle idx now;
    }

-- The state when it has ended, and the list has been read again.
abbrev pub finished : {C : Type 0} → State C → Profile C → Input C → State C
finished s profile input = record s {
  list = refresh (s.list) (input.after);
  pace = is_held (input.ran_for) (s.pace);
  status = end (s.status) (profile.name) (s.cycle) (input.error) (input.started_at + input.ran_for);
}

abbrev pub paused : {C : Type 0} → Config C → State C → Bool → Bool → Outcome C
paused cfg s done cancelled =
    let pace = wait (s.pace) (delay_of cfg) done in
    if cancelled then stopped else turned (record s { pace = pace.0 }) pace.1

abbrev pub after_run : {C : Type 0} → Config C → State C → Profile C → Input C → Outcome C
after_run cfg s profile input =
    let done = (next_step (s.list.current) (s.last)).1 in
    if ltb 0 (cfg.max_cycles) && leb (cfg.max_cycles) (s.cycle) && done
    then exceeded (s.cycle) (profile.name) (input.error)
    else paused cfg s done (input.cancelled_in_wait)

-- A place outside the list would be a panic; it does not occur.
abbrev pub run_profile :
    {C : Type 0}
    → Config C
    → State C
    → ProfileList C
    → ℕ
    → Bool
    → Option (Profile C)
    → Input C
    → Outcome C
run_profile cfg s list idx wrapped none input = panicked
run_profile cfg s list idx wrapped (some profile) input =
    let ran = running s list idx wrapped profile (input.started_at) in
    if input.cancelled_in_run
    then stopped
    else after_run cfg (finished ran profile input) profile input

abbrev pub run_next : {C : Type 0} → Config C → State C → ProfileList C → Input C → Outcome C
run_next cfg s list input =
    let step = next_step (list.current) (s.last) in
    run_profile cfg s list (step.0) (step.1) (get_elem? (list.current) (step.0)) input

unfoldable pub turn : {C : Type 0} → Config C → State C → Input C → Outcome C
turn cfg s input =
    let list = refresh (s.list) (input.before) in
    if input.cancelled
    then stopped
    else if length (list.current) == 0
    then (if input.cancelled_in_wait
        then stopped
        else idle (record s { list = list }) (delay_of cfg))
    else run_next cfg s list input

-- Before the loop; `none` is ErrNoProfiles.
unfoldable pub begin : {C : Type 0} → Config C → Option (List (Profile C)) → Option (State C)
begin cfg next =
    let list = refresh (record { current = cfg.profiles; reloads = cfg.reloads }) next in
    if length (list.current) == 0
    then none
    else some (record {
      list = list;
      last = no_last;
      cycle = 1;
      pace = record { dead_cycles = 0; held_a_cycle = false };
      status = new_status_tracker (cfg.history_limit);
    })
