-- ===== src/Supervisor/Statuses.antt =====
-- What Run reports while it goes on: internal/supervisor/supervisor.go.
use Prim.Native.String.{String}
use olcrtc.Prelude.{
  ℕ, suc, ◌+◌, ◌≤◌, ◌≡◌, refl, sym, ap, subst, ◌∙◌, Bool, true, false, Bool-cases, Option-cases,
  inl, inr, List, [], ◌∷◌, Option, none, some, length, ltb, leb, ◌&&◌, ◌==◌, if◌then◌else◌, arith,
}
use olcrtc.Prelude.Maps.{string_eq, lookup, is_in}
use olcrtc.Supervisor.{Profile, next_step, ProfileList, refresh}
use olcrtc.Supervisor.Walk.{next_step_bound, get_elem?-some}
use olcrtc.Supervisor.Run.{
  Config, State, Input, Outcome, stopped, panicked, idle, turned, running, finished, paused,
  run_profile, run_next, turn, begin, delay_of,
}
use olcrtc.Supervisor.Status.{
  ProfileStatus, max_tracked_profiles, snapshot_profiles, with_status, new_status_tracker,
}
use olcrtc.Supervisor.Tracked.{is_some, IsDistinct}
use olcrtc.Supervisor.Kept.{IsTracked, IsShort, start-IsTracked, end-IsTracked}

is_in_first : (name : String) (names : List String) → is_in name (name ∷ names) ≡ true
unfolding is_in
is_in_first name names = ground (arith, string_eq.beq_iff name name)

is_in_later :
    (k name : String) (names : List String) → is_in k names ≡ true → is_in k (name ∷ names) ≡ true
unfolding is_in
is_in_later k name names h = ground (arith, h)

-- A snapshot finds every name that it lists.
snapshot_known :
    (m : List (String × ProfileStatus)) (ks : List String)
    → ((k : String) → is_in k ks ≡ true → is_some (lookup k m) ≡ true)
    → (statuses : List ProfileStatus) × (snapshot_profiles m ks ≡ some statuses)
      × (length statuses ≡ length ks)
unfolding snapshot_profiles
snapshot_known m [] known = ([], refl, refl)
snapshot_known m (name ∷ names) known =
    let (statuses, rest, count) =
      snapshot_known m names (λ k h. known k (is_in_later k name names h)) in
    elim (Option-cases (lookup name m)) [
      | inl missing ↦ ground (arith, known name (is_in_first name names), missing)
      | inr (s, at) ↦ (
        s ∷ statuses,
        ap (λ o. with_status o (snapshot_profiles m names)) at ∙ ap (with_status (some s)) rest,
        ap suc count,
      )
    ]

-- What the outcome of a turn leaves: no panic, and a status without a running profile.
abbrev pub IsSound : {C : Type 0} → Outcome C → Type 0
IsSound panicked = false ≡ true
IsSound (idle s delay) = IsTracked none s.status
IsSound (turned s delay) = IsTracked none s.status
IsSound _ = true ≡ true

paused-IsSound :
    {C : Type 0} (cfg : Config C) (s : State C) (done cancelled : Bool)
    → IsTracked none s.status
    → IsSound (paused cfg s done cancelled)
paused-IsSound cfg s done true h = refl
paused-IsSound cfg s done false h = h

run_profile-IsSound :
    {C : Type 0} (cfg : Config C) (s : State C) (list : ProfileList C) (i : ℕ) (wrapped : Bool)
    (p : Profile C) (input : Input C)
    → IsTracked none s.status
    → IsSound (run_profile cfg s list i wrapped (some p) input)
run_profile-IsSound cfg s list i wrapped p input h =
    let cycle = if wrapped then s.cycle + 1 else s.cycle in
    let (busy, present) = start-IsTracked s.status p.name cycle i input.started_at h in
    let ran = running s list i wrapped p input.started_at in
    let free =
      end-IsTracked ran.status p.name cycle input.error (input.started_at + input.ran_for) busy
        present in
    let after = finished ran p input in
    let done = (next_step after.list.current after.last).1 in
    elim (Bool-cases input.cancelled_in_run) [
      | inl c ↦ rw c refl
      | inr c ↦ elim (Bool-cases (ltb 0 cfg.max_cycles && leb cfg.max_cycles cycle && done)) [
        | inl e ↦ rw (c, e) refl
        | inr e ↦ rw (c, e) (paused-IsSound cfg after done input.cancelled_in_wait free)
      ]
    ]

run_next-IsSound :
    {C : Type 0} (cfg : Config C) (s : State C) (list : ProfileList C) (input : Input C)
    → 1 ≤ length list.current
    → IsTracked none s.status
    → IsSound (run_next cfg s list input)
run_next-IsSound cfg s list input some_profiles h =
    let step = next_step list.current s.last in
    let (p, at) =
      get_elem?-some list.current step.0 (next_step_bound list.current s.last some_profiles) in
    subst (λ o. IsSound (run_profile cfg s list step.0 step.1 o input)) (sym at)
      (run_profile-IsSound cfg s list step.0 step.1 p input h)

if-IsSound :
    {C : Type 0} (b : Bool) (x y : Outcome C)
    → (b ≡ true → IsSound x)
    → (b ≡ false → IsSound y)
    → IsSound (if b then x else y)
if-IsSound true x y f g = f refl
if-IsSound false x y f g = g refl

turn-IsSound :
    {C : Type 0} (cfg : Config C) (s : State C) (input : Input C)
    → IsTracked none s.status
    → IsSound (turn cfg s input)
unfolding turn
turn-IsSound cfg s input h =
    let list = refresh s.list input.before in
    let waiting =
      if input.cancelled_in_wait then stopped else idle (record s { list = list }) (delay_of cfg) in
    let next = run_next cfg s list input in
    if-IsSound input.cancelled stopped (if length list.current == 0 then waiting else next)
      (λ _. refl)
      (λ _.
        if-IsSound (length list.current == 0) waiting next
          (λ _.
            if-IsSound input.cancelled_in_wait stopped
              (idle (record s { list = list }) (delay_of cfg)) (λ _. refl) (λ _. h))
          (λ e. run_next-IsSound cfg s list input (ground (arith, e)) h))

-- The states of Run between its turns.
pub data Reached {C : Type 0} (cfg : Config C) : State C → Type 0 where
  begun : (next : Option (List (Profile C))) {s : State C} → begin cfg next ≡ some s → Reached cfg s
  after_idle :
      {s t : State C} {delay : ℕ} (input : Input C)
      → Reached cfg s
      → turn cfg s input ≡ idle t delay
      → Reached cfg t
  after_turn :
      {s t : State C} {delay : ℕ} (input : Input C)
      → Reached cfg s
      → turn cfg s input ≡ turned t delay
      → Reached cfg t

new_status_tracker-IsTracked : (limit : Option ℕ) → IsTracked none (new_status_tracker limit)
unfolding new_status_tracker IsDistinct is_in lookup
new_status_tracker-IsTracked none = record {
  known = λ k. refl;
  distinct = 0;
  few = omega arith;
  counted = λ k s e. ground (arith, e);
  short = refl;
}
new_status_tracker-IsTracked (some limit) = record {
  known = λ k. refl;
  distinct = 0;
  few = omega arith;
  counted = λ k s e. ground (arith, e);
  short = omega arith;
}

begin-status :
    {C : Type 0} (cfg : Config C) (next : Option (List (Profile C))) (s : State C)
    → begin cfg next ≡ some s
    → s.status ≡ new_status_tracker cfg.history_limit
unfolding begin
begin-status cfg next s e = ground (arith, e)

-- Between the turns of Run the status is consistent: its names are the keys of its map, each once and 64 at
-- most, every profile it has was started as often as it failed or ended cleanly, and the history keeps to its
-- limit.
pub Reached-IsTracked :
    {C : Type 0} (cfg : Config C) (s : State C) → Reached cfg s → IsTracked none s.status
Reached-IsTracked cfg s (begun next e) =
    subst (IsTracked none) (sym (begin-status cfg next s e))
      (new_status_tracker-IsTracked cfg.history_limit)
Reached-IsTracked cfg s (after_idle {s = r} input h e) =
    subst IsSound e (turn-IsSound cfg r input (Reached-IsTracked cfg r h))
Reached-IsTracked cfg s (after_turn {s = r} input h e) =
    subst IsSound e (turn-IsSound cfg r input (Reached-IsTracked cfg r h))

-- Between the turns of Run, whatever lists the hook returns, a snapshot of the status finds every profile
-- that it lists, 64 at most, the history keeps to its limit, and the next turn runs no place outside the list.
pub Reached-IsSound :
    {C : Type 0} (cfg : Config C) (s : State C) (input : Input C)
    → Reached cfg s
    → ((statuses : List ProfileStatus) × ((snapshot_profiles s.status.by_name s.status.order
            ≡ some statuses)
          × (length statuses ≤ max_tracked_profiles)))
      × IsShort s.status.history_limit s.status.history
      × IsSound (turn cfg s input)
Reached-IsSound cfg s input h =
    let tracked = Reached-IsTracked cfg s h in
    let (statuses, found, count) =
      snapshot_known s.status.by_name s.status.order (λ k there. sym (tracked.known k) ∙ there) in
    let few = tracked.few in
    (
      (statuses, (found, omega (arith, count, few))),
      tracked.short,
      turn-IsSound cfg s input tracked,
    )

-- Between the turns of Run each profile that the status has was started as often as it failed or ended.
starts_ended :
    {C : Type 0} (cfg : Config C) (s : State C) (k : String) (p : ProfileStatus)
    → Reached cfg s
    → lookup k s.status.by_name ≡ some p
    → p.starts ≡ p.failures + p.clean_ends
starts_ended cfg s k p h at =
    let counts = (Reached-IsTracked cfg s h).counted k p at in omega (arith, counts)
