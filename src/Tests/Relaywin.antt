-- ===== src/Tests/Relaywin.antt =====
-- The relay windows at concrete calls.
use olcrtc.Prelude.{
  ℕ, ◌*◌, ◌/◌, ◌≤◌, ◌≡◌, ◌⊎◌, true, false, List, [], ◌∷◌, length, max, arith, contains, none,
}
use olcrtc.Relaywin.Types.{Float64, Timing, State, LegMeasure}
use olcrtc.Relaywin.Ops.{new, apply_echo_at, wake_of, reset}
use olcrtc.Relaywin.Steps.{Op, call_room, call_sent, call_echo, call_reset, step, run}
use olcrtc.Relaywin.Steps.Sound.{IsSound}
use olcrtc.Relaywin.Steps.Valid.{IsValid}
use olcrtc.Relaywin.Steps.Traces.{total_bytes, from_new}
use olcrtc.Relaywin.Steps.Restarts.{by_reset, late_echo}
use olcrtc.Relaywin.Wakes.{no_lost_wake}

-- Whole numbers in the place of the floats.
abbrev whole : Float64 ℕ
whole = record {
  zero_float = 0;
  of_u64 = λ n. n;
  seconds = λ n. n / 1_000_000_000;
  max_float = λ a b. max a b;
  div_float = λ a b. a / b;
  mul_float = λ a b. a * b;
  to_u64 = λ n. n;
}

abbrev timing : Timing
timing = record {
  window = 1000;
  mark_every = 100;
  probe_after = 10;
  dead_after = 100;
  retry = 5;
  horizon = 0;
  min_window = 0;
}

abbrev used : List Op
used = call_room "a" 1 ∷ call_sent "a" 700 2 ∷ call_echo "a" 300 3 ∷ []

abbrev again : List Op
again = call_room "a" 4 ∷ call_sent "a" 50 5 ∷ []

-- 500 of 700 bytes are echoed.
abbrev state : State ℕ
state = record {
  sent = 700;
  marked = 700;
  echoed = 500;
  active = true;
  marked_at = 5;
  held_since = 0;
  waiting_since = 0;
  epoch = 1;
  wake = 1;
  size = 1000;
  mark_every = 100;
  leg = none;
}

from_new_example :
    IsValid (λ k. 0) (λ k. 0) (run whole (new whole timing) used)
    × ((run whole (new whole timing) used).count ≡ total_bytes used)
    × ((run whole (new whole timing) used).epochs ≤ length used)
from_new_example = from_new whole timing used omega arith omega arith

late_echo_example :
    let later = run whole (reset (run whole (new whole timing) used) "a") again in
    apply_echo_at whole later "a" 300 6 ≡ (later, false, false)
late_echo_example =
    late_echo whole timing used again "a" 300 6 omega arith omega arith omega
      (arith, (from_new whole timing used omega arith omega arith).1)

no_lost_wake_example :
    let (w', ch) = wake_of whole (new whole timing) "a" in
    let later = run whole w' used in
    let (echoed, moved, on) = apply_echo_at whole later "a" 700 6 in
    (contains ch (step whole later (call_reset "a")).closed ≡ true)
    × ((contains ch echoed.closed ≡ true) ⊎ (moved ≡ false))
no_lost_wake_example =
    no_lost_wake whole (new whole timing) "a" used (call_reset "a") 700 6 by_reset

state-IsSound : IsSound 1000 700 1 0 0 state
state-IsSound = record {
  echoed_sent = omega arith;
  marked_sent = omega arith;
  sent_counted = omega arith;
  epoch_given = omega arith;
  size_capped = omega arith;
  low_echoed = omega arith;
  since_epoch = omega arith;
}

abbrev leg : LegMeasure ℕ
leg = record { rate_since = 1; rate_from = 500; held = false; rates = 3 ∷ []; next = 0 }
