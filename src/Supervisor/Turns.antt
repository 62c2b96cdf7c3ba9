-- ===== src/Supervisor/Turns.antt =====
-- Run over a list that is never reloaded: internal/supervisor/supervisor.go.
use Prim.Native.String.{String}
use olcrtc.Prelude.{
  ℕ, suc, ◌+◌, ◌%◌, ◌<◌, ◌≡◌, refl, sym, ap, ◌∙◌, Bool, true, false, Bool-cases, inl, inr, ◌&&◌,
  ◌||◌, ◌++◌, List, [], ◌∷◌, Option, some, length, get_elem?, subst, ltb, leb, ◌==◌, if◌then◌else◌,
  arith,
}
use olcrtc.Supervisor.{Profile, LastProfile, no_last, next_step, ProfileList, refresh}
use olcrtc.Supervisor.Walk.{get_elem?-some, next_step_kept}
use olcrtc.Supervisor.Run.{Config, State, Input, Outcome, exceeded, idle, turned, run_profile, turn}

-- Turn after turn, until one does not go on; the turns before `inputs` are used up.
abbrev pub next_turns : {C : Type 0} → Outcome C → (State C → Outcome C) → Outcome C
next_turns (turned s delay) go = go s
next_turns (idle s delay) go = go s
next_turns other go = other

unfoldable pub run_loop : {C : Type 0} → Config C → State C → List (Input C) → Outcome C
run_loop cfg s [] = idle s 0
run_loop cfg s (input ∷ inputs) = next_turns (turn cfg s input) (λ next. run_loop cfg next inputs)

-- The place of the profile that a turn runs, if it runs one.
abbrev pub ran_at : {C : Type 0} → State C → Input C → List ℕ
ran_at s input =
    let list = refresh s.list input.before in
    if input.cancelled || length list.current == 0
    then []
    else (next_step list.current s.last).0 ∷ []

abbrev pub next_places : {C : Type 0} → Outcome C → (State C → List ℕ) → List ℕ
next_places (turned s delay) go = go s
next_places (idle s delay) go = go s
next_places other go = []

-- The places of the profiles that the turns run, in order, until one does not go on.
unfoldable pub places_run : {C : Type 0} → Config C → State C → List (Input C) → List ℕ
places_run cfg s [] = []
places_run cfg s (input ∷ inputs) =
    ran_at s input ++ next_places (turn cfg s input) (λ next. places_run cfg next inputs)

-- Nothing cancels a turn.
abbrev pub IsUndisturbed : {C : Type 0} → Input C → Type 0
IsUndisturbed input =
    (input.cancelled ≡ false) × (input.cancelled_in_run ≡ false) × (input.cancelled_in_wait ≡ false)

abbrev pub static : {C : Type 0} → List (Profile C) → ProfileList C
static profiles = record { current = profiles; reloads = false }

abbrev last_at : {C : Type 0} → Profile C → ℕ → LastProfile
last_at profile i = record { name = profile.name; index = i; ran = true }

-- The profile at place `i` of the list ran last, in pass `c + 1`.
abbrev pub IsAt : {C : Type 0} → List (Profile C) → ℕ → ℕ → State C → Type 0
IsAt profiles i c s =
    (i < length profiles)
    × (s.list ≡ static profiles)
    × (s.cycle ≡ suc c)
    × ((p : Profile _) × ((get_elem? profiles i ≡ some p) × (s.last ≡ last_at p i)))

refresh-static :
    {C : Type 0} (profiles : List (Profile C)) (next : Option (List (Profile C)))
    → refresh (static profiles) next ≡ static profiles
unfolding refresh
refresh-static profiles next = refl

-- Where the walk goes from a place.
abbrev pub place_after : ℕ → ℕ → ℕ
place_after n i = (i + 1) % n

abbrev pub pass_after : ℕ → ℕ → ℕ → ℕ
pass_after n i c = if i + 1 == n then suc c else c

-- How a turn at a new place goes on.
abbrev pub GoesOn : {C : Type 0} → Config C → List (Profile C) → ℕ → ℕ → Outcome C → Type 0
GoesOn cfg profiles i c outcome =
    if ltb 0 cfg.max_cycles && leb cfg.max_cycles (suc c) && (i + 1 == length profiles)
    then ((name : String) × (error : Option String) × (outcome ≡ exceeded (suc c) name error))
    else ((s : State _) × (delay : ℕ) × (outcome ≡ turned s delay) × IsAt profiles i c s)

run_profile-GoesOn :
    {C : Type 0} (cfg : Config C) (profiles : List (Profile C)) (s : State C) (i c : ℕ)
    (wrapped : Bool) (p : Profile C) (input : Input C)
    → i < length profiles
    → get_elem? profiles i ≡ some p
    → (if wrapped then s.cycle + 1 else s.cycle) ≡ suc c
    → IsUndisturbed input
    → GoesOn cfg profiles i c (run_profile cfg s (static profiles) i wrapped (some p) input)
run_profile-GoesOn cfg profiles s i c wrapped p input h at cycle (_, in_run, in_wait) =
    elim (Bool-cases
      (ltb 0 cfg.max_cycles && leb cfg.max_cycles (suc c) && (i + 1 == length profiles))) [
        | inl last ↦
            rw
              (
                in_run,
                refresh-static profiles input.after,
                next_step_kept profiles p i h at,
                cycle,
                last,
              )
              (p.name, input.error, refl)
        | inr more ↦
            rw
              (
                in_run,
                refresh-static profiles input.after,
                next_step_kept profiles p i h at,
                cycle,
                more,
                in_wait,
              )
              (_, _, refl, (h, refl, refl, (p, (at, refl))))
      ]

some_profiles :
    {C : Type 0} (profiles : List (Profile C)) (i : ℕ)
    → i < length profiles
    → length profiles == 0 ≡ false
some_profiles profiles i h = ground (arith, h)

pub place_after_bound : (n i : ℕ) → i < n → place_after n i < n
place_after_bound n i h = omega (arith, h)

-- A turn that nothing cancels runs the profile at the place that nextStep names.
turn-run_profile :
    {C : Type 0} (cfg : Config C) (profiles : List (Profile C)) (s : State C) (last : LastProfile)
    (i : ℕ) (wrapped : Bool) (p : Profile C) (input : Input C)
    → input.cancelled ≡ false
    → s.list ≡ static profiles
    → length profiles == 0 ≡ false
    → s.last ≡ last
    → next_step profiles last ≡ (i, wrapped)
    → get_elem? profiles i ≡ some p
    → turn cfg s input ≡ run_profile cfg s (static profiles) i wrapped (some p) input
unfolding turn
turn-run_profile cfg profiles s last i wrapped p input calm list some_left is_last step at =
    rw (calm, list, refresh-static profiles input.before, some_left) refl
    ∙ ap
        (λ l.
          run_profile cfg s (static profiles) (next_step profiles l).0 (next_step profiles l).1
            (get_elem? profiles (next_step profiles l).0) input)
        is_last
    ∙ ap
        (λ next.
          run_profile cfg s (static profiles) next.0 next.1 (get_elem? profiles next.0) input)
        step
    ∙ ap (λ o. run_profile cfg s (static profiles) i wrapped o input) at

-- A turn at a place goes on at the next one, in the next pass if the list has ended.
pub turn-GoesOn :
    {C : Type 0} (cfg : Config C) (profiles : List (Profile C)) (s : State C) (i c : ℕ)
    (input : Input C)
    → IsAt profiles i c s
    → IsUndisturbed input
    → GoesOn cfg profiles
        (place_after (length profiles) i)
        (pass_after (length profiles) i c)
        (turn cfg s input)
turn-GoesOn cfg profiles s i c input (h, list, cycle, (p, (at, last))) calm =
    let n = length profiles in
    let bound = place_after_bound n i h in
    let (q, next_at) = get_elem?-some profiles (place_after n i) bound in
    let next_cycle : (if i + 1 == n then s.cycle + 1 else s.cycle) ≡ suc (pass_after n i c) =
      ground (arith, cycle) in
    subst (GoesOn cfg profiles (place_after n i) (pass_after n i c))
      (sym (
        turn-run_profile cfg profiles s (last_at p i) (place_after n i) (i + 1 == n) q input calm.0
          list (some_profiles profiles i h) last (next_step_kept profiles p i h at) next_at))
      (run_profile-GoesOn cfg profiles s (place_after n i) (pass_after n i c) (i + 1 == n) q input
        bound next_at next_cycle calm)

-- It runs the profile at the next place.
pub ran_at-next :
    {C : Type 0} (profiles : List (Profile C)) (s : State C) (i c : ℕ) (input : Input C)
    → IsAt profiles i c s
    → IsUndisturbed input
    → ran_at s input ≡ place_after (length profiles) i ∷ []
ran_at-next profiles s i c input (h, list, cycle, (p, (at, last))) calm =
    rw
      (
        calm.0,
        list,
        refresh-static profiles input.before,
        some_profiles profiles i h,
        last,
        next_step_kept profiles p i h at,
      )
      refl

next_step_first :
    {C : Type 0} (profiles : List (Profile C)) → next_step profiles no_last ≡ (0, false)
unfolding next_step
next_step_first profiles = refl

pub ran_at_first :
    {C : Type 0} (profiles : List (Profile C)) (s : State C) (input : Input C)
    → 0 < length profiles
    → s.list ≡ static profiles
    → s.last ≡ no_last
    → IsUndisturbed input
    → ran_at s input ≡ 0 ∷ []
ran_at_first profiles s input h list last calm =
    rw
      (
        calm.0,
        list,
        refresh-static profiles input.before,
        some_profiles profiles 0 h,
        last,
        next_step_first profiles,
      )
      refl

-- The first turn runs the head of the list.
pub turn_first :
    {C : Type 0} (cfg : Config C) (profiles : List (Profile C)) (s : State C) (input : Input C)
    → 0 < length profiles
    → s.list ≡ static profiles
    → s.cycle ≡ 1
    → s.last ≡ no_last
    → IsUndisturbed input
    → GoesOn cfg profiles 0 0 (turn cfg s input)
turn_first cfg profiles s input h list cycle last calm =
    let (q, next_at) = get_elem?-some profiles 0 h in
    subst (GoesOn cfg profiles 0 0)
      (sym (
        turn-run_profile cfg profiles s no_last 0 false q input calm.0 list
          (some_profiles profiles 0 h) last (next_step_first profiles) next_at))
      (run_profile-GoesOn cfg profiles s 0 0 false q input h next_at cycle calm)
