-- ===== src/Tests/Failover.antt =====
-- The theorems on the supervisor at concrete inputs.
use Prim.Native.String.{String}
use olcrtc.Prelude.{
  ℕ, ◌*◌, ◌^◌, ◌≡◌, ◌≤◌, min, inr, refl, true, false, List, [], ◌∷◌, Option, none, some, length,
  arith,
}
use olcrtc.Prelude.Maps.{string_eq}
use olcrtc.Supervisor.{
  Profile, no_last, max_retry_delay, max_retry_backoff, wait, refresh, next_step, find_last,
}
use olcrtc.Supervisor.Status.{
  new_status_tracker, snapshot_profiles, ProfileStatus, max_tracked_profiles, start, end, profile,
  change, append_history, forget_oldest,
}
use olcrtc.Supervisor.Run.{Config, State, Input, Outcome, exceeded, turned, turn, begin}
use olcrtc.Supervisor.Turns.{run_loop, places_run}
use olcrtc.Supervisor.Passes.{run_exceeded, run_stands, StandsAt}
use olcrtc.Supervisor.Pace.{wait_paced}
use olcrtc.Supervisor.Kept.{IsTracked, IsShort}
use olcrtc.Supervisor.Statuses.{
  Reached, begun, after_turn, Reached-IsTracked, Reached-IsSound, IsSound,
}

-- Two profiles of one name.
abbrev two_profiles : List (Profile ℕ)
two_profiles = record { name = "one"; config = 7 } ∷ record { name = "one"; config = 8 } ∷ []

abbrev config : Config ℕ
config = record {
  profiles = two_profiles;
  reloads = false;
  retry_delay = 0;
  max_cycles = 2;
  history_limit = some 1;
}

abbrev first_state : State ℕ
first_state = record {
  list = record { current = two_profiles; reloads = false };
  last = no_last;
  cycle = 1;
  pace = record { dead_cycles = 0; held_a_cycle = false };
  status = new_status_tracker (some 1);
}

abbrev failing : Input ℕ
failing = record {
  cancelled = false;
  before = none;
  started_at = 50;
  ran_for = 9;
  cancelled_in_run = false;
  error = some "boom";
  after = none;
  cancelled_in_wait = false;
}

first_state_begun : begin config none ≡ some first_state
unfolding begin refresh
first_state_begun = refl

-- Twice two profiles run; the fifth turn is not taken.
run_exceeded_example :
    (places_run config first_state (failing ∷ failing ∷ failing ∷ failing ∷ failing ∷ [])
      ≡ 0 ∷ 1 ∷ 0 ∷ 1 ∷ [])
    × ((name : String) × (error : Option String) × (run_loop config first_state
            (failing ∷ failing ∷ failing ∷ failing ∷ failing ∷ [])
          ≡ exceeded 2 name error))
run_exceeded_example =
    run_exceeded config none first_state (failing ∷ failing ∷ failing ∷ failing ∷ failing ∷ []) refl
      (omega arith) first_state_begun
      (
        (refl, refl, refl),
        ((refl, refl, refl), ((refl, refl, refl), ((refl, refl, refl), ((refl, refl, refl), tt)))),
      )
      (omega arith)

run_stands_example :
    StandsAt config two_profiles (run_loop config first_state (failing ∷ failing ∷ failing ∷ [])) 3
run_stands_example =
    run_stands config none first_state failing (failing ∷ failing ∷ []) refl first_state_begun
      ((refl, refl, refl), ((refl, refl, refl), ((refl, refl, refl), tt))) (inr (omega arith))

wait_paced_example :
    let out = wait (record { dead_cycles = 3; held_a_cycle = false }) 2000000000 true in
    (out.1 ≡ min (2000000000 * 2 ^ min 4 max_retry_backoff) max_retry_delay)
    × (2000000000 ≤ out.1)
    × (out.1 ≤ max_retry_delay)
    × (out.0.dead_cycles ≡ 4)
wait_paced_example =
    wait_paced (record { dead_cycles = 3; held_a_cycle = false }) 2000000000 true (omega arith)

abbrev state_of : Outcome ℕ → State ℕ
state_of (turned s delay) = s
state_of _ = first_state

-- One profile has run and failed.
abbrev next_state : State ℕ
next_state = state_of (turn config first_state failing)

next_state-Reached : Reached config next_state
unfolding turn begin refresh next_step find_last new_status_tracker start end profile change
    append_history forget_oldest wait
next_state-Reached = after_turn failing (begun none refl) refl

Reached-IsTracked_example : IsTracked none next_state.status
Reached-IsTracked_example = Reached-IsTracked config next_state next_state-Reached

Reached-IsSound_example :
    ((statuses : List ProfileStatus) × ((snapshot_profiles next_state.status.by_name
            next_state.status.order
          ≡ some statuses)
        × (length statuses ≤ max_tracked_profiles)))
    × IsShort next_state.status.history_limit next_state.status.history
    × IsSound (turn config next_state failing)
Reached-IsSound_example = Reached-IsSound config next_state failing next_state-Reached
