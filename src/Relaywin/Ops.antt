-- ===== src/Relaywin/Ops.antt =====
-- internal/relaywin/relaywin.go: the operations of Windows. Each holds the mutex from start to end,
-- so an interleaving of callers is a sequence of them.
use Prim.Native.String.{String}
use olcrtc.Prelude.{
  ℕ, ◌+◌, ◌-◌, ◌*◌, ◌/◌, ◌%◌, ◌^◌, Bool, true, false, not, ◌&&◌, ◌||◌, List, [], ◌∷◌, ◌++◌, Option,
  none, some, max, min, length, set, replicate, ltb, leb, ◌==◌, if◌then◌else◌,
}
use mathlib.Core.List.{foldl}
use olcrtc.Prelude.Maps.{lookup, insert, erase, string_eq}
use olcrtc.Relaywin.Types.{
  Float64, Timing, LegMeasure, State, Windows, with_defaults, min_mark_every, rate_interval,
  rate_samples, first_sized_window,
}

-- `x >= y` on counters and durations.
abbrev at_least : ℕ → ℕ → Bool
at_least x y = leb y x

-- Room over the window found: the new window, and (ok, probe, counter). `now.Sub(t)` is compared
-- with positive durations only, so a difference cut off at 0 compares as the negative one would.
unfoldable pub room_in : {F : Type 0} → Timing → State F → ℕ → State F × Bool × Bool × ℕ
room_in t st now =
    let in_flight = (st.sent + 2 ^ 64 - st.echoed) % 2 ^ 64 in
    let free = record st { held_since = 0; waiting_since = 0 } in
    let held_since = if st.held_since == 0 then now else st.held_since in
    let held = record st {
      leg = elim st.leg [ none ↦ none | some l ↦ some (record l { held = true }) ];
      held_since = held_since;
      waiting_since = if st.waiting_since == 0 then now else st.waiting_since;
    } in
    if not st.active || ltb in_flight st.size
    then (free, true, false, 0)
    else if at_least (now - held_since) t.dead_after
    then (record held { active = false; held_since = 0; waiting_since = 0 }, true, false, 0)
    else if at_least (now - st.marked_at) t.probe_after
    then (record held { marked = st.sent; marked_at = now }, false, true, st.sent)
    else (held, false, false, 0)

unfoldable pub room_of :
    {F : Type 0} → Windows F → String → ℕ → Option (State F) → Windows F × Bool × Bool × ℕ
unfolding room_in
room_of w key now none = (w, true, false, 0)
room_of w key now (some st) =
    let (st', ok, probe, counter) = room_in w.timing st now in
    (record w { windows = insert key st' w.windows }, ok, probe, counter)

unfoldable pub room : {F : Type 0} → Windows F → String → ℕ → Windows F × Bool × Bool × ℕ
unfolding room_of
room w key now = room_of w key now (lookup key w.windows)

-- The products and the count wrap at 2 ^ 64.
unfoldable pub resize : {F : Type 0} → Timing → State F → ℕ → State F
resize t st size = record st {
  size = size;
  mark_every = max (size * t.mark_every % 2 ^ 64 / t.window) (min min_mark_every t.mark_every);
}

module _ {F : Type 0} (fl : Float64 F) where
  -- New: no window open.
  unfoldable pub new : Timing → Windows F
  new t = record {
    timing = with_defaults t;
    windows = [];
    count = 0;
    epochs = 0;
    chans = 0;
    closed = [];
  }

  abbrev pub zero_leg : LegMeasure F
  zero_leg = record {
    rate_since = 0;
    rate_from = 0;
    held = false;
    rates = replicate rate_samples fl.zero_float;
    next = 0;
  }

  -- The window that `open` makes, under the next epoch and with the next channel.
  unfoldable pub fresh_state : Windows F → State F
  fresh_state w =
      let st : State F = record {
        sent = w.count;
        marked = w.count;
        echoed = w.count;
        active = false;
        marked_at = 0;
        held_since = 0;
        waiting_since = 0;
        epoch = (w.epochs + 1) % 2 ^ 64;
        wake = w.chans + 1;
        size = w.timing.window;
        mark_every = w.timing.mark_every;
        leg = none;
      } in
      if ltb 0 w.timing.horizon
      then resize w.timing (record st { leg = some zero_leg })
          (min (max first_sized_window w.timing.min_window) w.timing.window)
      else st

  unfoldable pub open_of : Windows F → String → Option (State F) → Windows F × State F
  unfolding fresh_state
  open_of w key (some st) = (w, st)
  open_of w key none = (
    record w {
      windows = insert key (fresh_state w) w.windows;
      epochs = (w.epochs + 1) % 2 ^ 64;
      chans = w.chans + 1;
    },
    fresh_state w,
  )

  unfoldable pub open_window : Windows F → String → Windows F × State F
  unfolding open_of
  open_window w key = open_of w key (lookup key w.windows)

  -- Sent over the window that `open` returned: the new window, and (due, counter).
  unfoldable pub sent_in : Timing → State F → ℕ → ℕ → State F × Bool × ℕ
  sent_in t st n now =
      let total = (st.sent + n) % 2 ^ 64 in
      let st' = record st { sent = total } in
      let unmarked = (total + 2 ^ 64 - st.marked) % 2 ^ 64 in
      if at_least unmarked st.mark_every
        || (not st.active && at_least (now - st.marked_at) t.probe_after)
      then (record st' { marked = total; marked_at = now }, true, total)
      else (st', false, 0)

  -- `n` is the count of bytes; a negative one would count as 0.
  unfoldable pub sent : Windows F → String → ℕ → ℕ → Windows F × Bool × ℕ
  unfolding sent_in
  sent w key n now =
      let (w', st) = open_window w key in
      let (st', due, counter) = sent_in w'.timing st n now in
      (
        record w' { windows = insert key st' w'.windows; count = (w'.count + n) % 2 ^ 64 },
        due,
        counter,
      )

  abbrev best_rate : List F → F
  best_rate = foldl fl.max_float fl.zero_float

  -- The size that the best of the rates asks for, between MinWindow and Window.
  abbrev pub wanted_size : Timing → List F → ℕ
  wanted_size t rates =
      let want = fl.to_u64 (fl.mul_float (best_rate rates) (fl.seconds t.horizon)) in
      min (max want t.min_window) t.window

  abbrev restart : LegMeasure F → ℕ → ℕ → LegMeasure F
  restart leg counter now = record leg { rate_since = now; rate_from = counter; held = false }

  unfoldable pub measure : Timing → State F → LegMeasure F → ℕ → ℕ → State F
  measure t st leg counter now =
      let elapsed = now - leg.rate_since in
      let taken = (counter + 2 ^ 64 - leg.rate_from) % 2 ^ 64 in
      let rate = fl.div_float (fl.of_u64 taken) (fl.seconds elapsed) in
      let rates = set leg.rates leg.next rate in
      let sampled = record leg { rates = rates; next = (leg.next + 1) % rate_samples } in
      if leg.rate_since == 0
      then record st { leg = some (restart leg counter now) }
      else if ltb elapsed rate_interval
      then st
      else if leg.held
      then record (resize t st (wanted_size t rates)) { leg = some (restart sampled counter now) }
      else record st { leg = some (restart leg counter now) }

  -- `if st.leg != nil && !now.IsZero() { w.measure(st, counter, now) }`
  unfoldable pub measure_if : Timing → State F → Option (LegMeasure F) → ℕ → ℕ → State F
  unfolding measure
  measure_if t st none counter now = st
  measure_if t st (some leg) counter now = if now == 0 then st else measure t st leg counter now

-- wakeSenders: the channel is closed and the next one made.
unfoldable pub wake_senders : {F : Type 0} → Windows F → String → State F → Windows F
wake_senders w key st = record w {
  windows = insert key (record st { wake = w.chans + 1 }) w.windows;
  chans = w.chans + 1;
  closed = st.wake ∷ w.closed;
}

module _ {F : Type 0} (fl : Float64 F) where
  -- ApplyEchoAt over the lookup: the windows, and (moved, turned on).
  unfoldable pub apply_echo_of :
      Windows F → String → ℕ → ℕ → Option (State F) → Windows F × Bool × Bool
  apply_echo_of w key counter now none = (w, false, false)
  apply_echo_of w key counter now (some st) =
      let moved = record st { active = true; echoed = counter; held_since = 0 } in
      if leb counter st.echoed || ltb st.sent counter then (w, false, false) else (
        wake_senders w key (measure_if fl w.timing moved st.leg counter now),
        true,
        not st.active,
      )

  unfoldable pub apply_echo_at : Windows F → String → ℕ → ℕ → Windows F × Bool × Bool
  unfolding apply_echo_of
  apply_echo_at w key counter now = apply_echo_of w key counter now (lookup key w.windows)

  -- ApplyEcho gives no clock.
  unfoldable pub apply_echo : Windows F → String → ℕ → Windows F × Bool × Bool
  unfolding apply_echo_at
  apply_echo w key counter = apply_echo_at w key counter 0

  unfoldable pub arm : Windows F → String → Windows F
  arm w key =
      let (w', st) = open_window fl w key in
      if st.active then w' else record w' {
        windows = insert key (record st { active = true; held_since = 0 }) w'.windows;
      }

  unfoldable pub epoch_of : Windows F → String → Windows F × ℕ
  epoch_of w key = let (w', st) = open_window fl w key in (w', st.epoch)

  unfoldable pub wake_of : Windows F → String → Windows F × ℕ
  wake_of w key = let (w', st) = open_window fl w key in (w', st.wake)

module _ {F : Type 0} where
  unfoldable pub size_of : Windows F → String → ℕ
  size_of w key = elim (lookup key w.windows) [ none ↦ w.timing.window | some st ↦ st.size ]

  unfoldable pub reset_of : Windows F → String → Option (State F) → Windows F
  reset_of w key none = w
  reset_of w key (some st) = record w { closed = st.wake ∷ w.closed; windows = erase key w.windows }

  unfoldable pub reset : Windows F → String → Windows F
  unfolding reset_of
  reset w key = reset_of w key (lookup key w.windows)

  abbrev pub wakes : List (String × State F) → List ℕ
  wakes [] = []
  wakes ((key, st) ∷ rest) = st.wake ∷ wakes rest

  unfoldable pub reset_all : Windows F → Windows F
  reset_all w = record w { closed = wakes w.windows ++ w.closed; windows = [] }

  unfoldable pub bump_of : Windows F → String → Option (State F) → Windows F
  bump_of w key none = w
  bump_of w key (some st) =
      let epoch = (w.epochs + 1) % 2 ^ 64 in
      wake_senders (record w { epochs = epoch }) key
        (record st { epoch = epoch; waiting_since = 0 })

  unfoldable pub bump : Windows F → String → Windows F
  unfolding bump_of
  bump w key = bump_of w key (lookup key w.windows)

  -- Over the window found; a key with no window is never over.
  unfoldable pub over_in : Timing → State F → ℕ → ℕ → Bool
  over_in t st slack now =
      let in_flight = (st.sent + 2 ^ 64 - st.echoed) % 2 ^ 64 in
      if not st.active
      then false
      else if not (st.waiting_since == 0) && at_least (now - st.waiting_since) t.probe_after
      then true
      else ltb st.size in_flight && ltb slack (in_flight - st.size)

  unfoldable pub over : Windows F → String → ℕ → ℕ → Bool
  unfolding over_in
  over w key slack now = elim (lookup key w.windows) [
    | none ↦ false
    | some st ↦ over_in w.timing st slack now
  ]

  -- Len.
  unfoldable pub len : Windows F → ℕ
  len w = length w.windows
