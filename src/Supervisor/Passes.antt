-- ===== src/Supervisor/Passes.antt =====
-- How many profiles Run starts before it gives up: internal/supervisor/supervisor.go, MaxCycles.
use Prim.Native.String.{String}
use native.Mathlib.Nat.{mod-eq_of_lt, mod_self, suc-mul, mul-le-mul_right, one-le-mul}
use olcrtc.Prelude.{
  ℕ, zero, suc, ◌+◌, ◌*◌, ◌%◌, ◌≤◌, ◌<◌, ◌≡◌, sym, ap, ◌∙◌, Bool, true, false, Bool-cases, inl, inr,
  ◌⊎◌, ◌&&◌, ◌++◌, refl, List, [], ◌∷◌, All, Option, some, subst, length, ltb, leb, ltb→lt, leb→le,
  ◌==◌, if◌then◌else◌, arith,
}
use olcrtc.Supervisor.{Profile, no_last, refresh}
use olcrtc.Supervisor.Run.{Config, State, Input, Outcome, exceeded, idle, turned, turn, begin}
use olcrtc.Supervisor.Turns.{
  run_loop, next_turns, next_places, places_run, ran_at-next, ran_at_first, place_after_bound,
  IsUndisturbed, IsAt, place_after, pass_after, GoesOn, turn-GoesOn, turn_first, static,
}

step_count : (n i c : ℕ) → i < n → pass_after n i c * n + place_after n i ≡ c * n + i + 1
step_count n i c h = elim (Bool-cases (i + 1 == n)) [
  | inl last ↦
      let ends : i + 1 ≡ n = ground (arith, last) in
      let again : (i + 1) % n ≡ 0 = ap (λ k. k % n) ends ∙ mod_self n in
      rw (last, again) (omega (arith, suc-mul c n, ends))
  | inr more ↦
      let inside : i + 1 < n = ground (arith, more, h) in
      rw (more, mod-eq_of_lt inside) (omega arith)
]

early_place : (n i c m : ℕ) → c * n + i + 1 < m * n → i + 1 ≡ n → suc c < m
early_place n i c m h e = elim (Bool-cases (ltb (suc c) m)) [
  | inl below ↦ ltb→lt (suc c) m below
  | inr above ↦
      let upto : m ≤ suc c = ground (arith, above) in
      omega (arith, mul-le-mul_right n upto, suc-mul c n, e)
]

last_pass : (n i c m : ℕ) → i < n → c * n + i + 1 ≡ m * n → suc c ≡ m
last_pass n i c m h e = elim (Bool-cases (leb m c)) [
  | inl below ↦ let before : m ≤ c = leb→le m c below in omega (arith, mul-le-mul_right n before, e)
  | inr above ↦ elim (Bool-cases (ltb (suc c) m)) [
    | inl later ↦
        let two : suc (suc c) ≤ m = ground (arith, later) in
        omega (arith, mul-le-mul_right n two, suc-mul (suc c) n, suc-mul c n, e, h)
    | inr upto ↦ ground (arith, above, upto)
  ]
]

last_place : (n i c m : ℕ) → i < n → c * n + i + 1 ≡ m * n → i + 1 ≡ n
last_place n i c m h e = omega (arith, ap (λ k. k * n) (last_pass n i c m h e), suc-mul c n, e)

-- The turn that goes to place `i` in pass `c + 1` ends the loop.
abbrev is_exceeded : {C : Type 0} → Config C → List (Profile C) → ℕ → ℕ → Bool
is_exceeded cfg profiles i c =
    ltb 0 cfg.max_cycles && leb cfg.max_cycles (suc c) && (i + 1 == length profiles)

GoesOn-exceeded :
    {C : Type 0} (cfg : Config C) (profiles : List (Profile C)) (i c : ℕ) (outcome : Outcome C)
    → is_exceeded cfg profiles i c ≡ true
    → GoesOn cfg profiles i c outcome
    → (name : String) × (error : Option String) × (outcome ≡ exceeded (suc c) name error)
GoesOn-exceeded cfg profiles i c outcome e g =
    subst
      (λ b.
        if b
        then ((name : String) × (error : Option String) × (outcome ≡ exceeded (suc c) name error))
        else ((s : State _) × (delay : ℕ) × (outcome ≡ turned s delay) × IsAt profiles i c s))
      e g

GoesOn-turned :
    {C : Type 0} (cfg : Config C) (profiles : List (Profile C)) (i c : ℕ) (outcome : Outcome C)
    → is_exceeded cfg profiles i c ≡ false
    → GoesOn cfg profiles i c outcome
    → (s : State C) × (delay : ℕ) × (outcome ≡ turned s delay) × IsAt profiles i c s
GoesOn-turned cfg profiles i c outcome e g =
    subst
      (λ b.
        if b
        then ((name : String) × (error : Option String) × (outcome ≡ exceeded (suc c) name error))
        else ((s : State _) × (delay : ℕ) × (outcome ≡ turned s delay) × IsAt profiles i c s))
      e g

-- The places from `i` on, one after the other and again from 0 after the last of `n`.
abbrev pub places_from : ℕ → ℕ → ℕ → List ℕ
places_from n i zero = []
places_from n i (suc left) = i ∷ places_from n (place_after n i) left

-- What the loop does over the turns from `outcome` on: it is exceeded, after `left` more profiles.
abbrev EndsIn :
    {C : Type 0} → Config C → List (Profile C) → ℕ → Outcome C → List (Input C) → ℕ → Type 0
EndsIn cfg profiles i outcome inputs left =
    (name : String) × (error : Option String) × (next_turns outcome (λ s. run_loop cfg s inputs)
      ≡ exceeded cfg.max_cycles name error)
    × (next_places outcome (λ s. places_run cfg s inputs)
        ≡ places_from (length profiles) (place_after (length profiles) i) left)

run_loop-exceeded :
    {C : Type 0} (cfg : Config C) (profiles : List (Profile C)) (i c left : ℕ) (outcome : Outcome C)
    (inputs : List (Input C))
    → i < length profiles
    → 0 < cfg.max_cycles
    → c * length profiles + i + 1 + left ≡ cfg.max_cycles * length profiles
    → left ≤ length inputs
    → All IsUndisturbed inputs
    → GoesOn cfg profiles i c outcome
    → EndsIn cfg profiles i outcome inputs left
unfolding run_loop places_run
run_loop-exceeded cfg profiles i c zero outcome inputs h some_cycles count enough calm g =
    let n = length profiles in
    let m = cfg.max_cycles in
    let full : c * n + i + 1 ≡ m * n = omega (arith, count) in
    let place = last_place n i c m h full in
    let pass = last_pass n i c m h full in
    let is_last : is_exceeded cfg profiles i c ≡ true = ground (arith, place, pass, some_cycles) in
    let (name, error, out) = GoesOn-exceeded cfg profiles i c outcome is_last g in
    (
      name,
      error,
      ap (λ o. next_turns o (λ s. run_loop cfg s inputs)) out
          ∙ ap (λ k. exceeded k name error) pass,
      ap (λ o. next_places o (λ s. places_run cfg s inputs)) out,
    )
run_loop-exceeded cfg profiles i c (suc left) outcome [] h some_cycles count enough calm g =
    absurd (omega arith)
run_loop-exceeded cfg profiles i c (suc left) outcome (input ∷ inputs) h some_cycles count enough
      calm g =
    let n = length profiles in
    let m = cfg.max_cycles in
    let early : c * n + i + 1 < m * n = omega (arith, count) in
    let not_last : is_exceeded cfg profiles i c ≡ false =
      ground (arith, early_place n i c m early) in
    let (s, delay, out, at) = GoesOn-turned cfg profiles i c outcome not_last g in
    let counted = step_count n i c h in
    let (name, error, ends, places) =
      run_loop-exceeded cfg profiles (place_after n i) (pass_after n i c) left (turn cfg s input)
        inputs (place_after_bound n i h) some_cycles (omega (arith, count, counted)) (omega arith)
        calm.1 (turn-GoesOn cfg profiles s i c input at calm.0) in
    let rest = next_places (turn cfg s input) (λ next. places_run cfg next inputs) in
    (
      name,
      error,
      ap (λ o. next_turns o (λ next. run_loop cfg next (input ∷ inputs))) out ∙ ends,
      ap (λ o. next_places o (λ next. places_run cfg next (input ∷ inputs))) out
          ∙ ap (λ first. first ++ rest) (ran_at-next profiles s i c input at calm.0)
          ∙ ap (λ more. place_after n i ∷ more) places,
    )

-- The loop is still running, at the place and in the pass that the count of the profiles run says.
abbrev pub StandsAt : {C : Type 0} → Config C → List (Profile C) → Outcome C → ℕ → Type 0
StandsAt cfg profiles outcome count =
    (s : State _) × (i : ℕ) × (c : ℕ) × (outcome ≡ idle s 0)
    × (c * length profiles + i + 1 ≡ count)
    × IsAt profiles i c s

abbrev pub IsFew : ℕ → ℕ → ℕ → Type 0
IsFew m n count = (m ≡ 0) ⊎ (count < m * n)

run_loop-stands :
    {C : Type 0} (cfg : Config C) (profiles : List (Profile C)) (i c : ℕ) (outcome : Outcome C)
    (inputs : List (Input C))
    → i < length profiles
    → IsFew cfg.max_cycles (length profiles) (c * length profiles + i + 1 + length inputs)
    → All IsUndisturbed inputs
    → GoesOn cfg profiles i c outcome
    → StandsAt cfg profiles
        (next_turns outcome (λ s. run_loop cfg s inputs))
        (c * length profiles + i + 1 + length inputs)
unfolding run_loop
run_loop-stands cfg profiles i c outcome [] h few calm g =
    let n = length profiles in
    let m = cfg.max_cycles in
    let not_last : is_exceeded cfg profiles i c ≡ false =
      ground (arith, few, early_place n i c m) in
    let (s, delay, out, at) = GoesOn-turned cfg profiles i c outcome not_last g in
    (s, i, c, ap (λ o. next_turns o (λ s. run_loop cfg s [])) out, omega arith, at)
run_loop-stands cfg profiles i c outcome (input ∷ inputs) h few calm g =
    let n = length profiles in
    let m = cfg.max_cycles in
    let not_last : is_exceeded cfg profiles i c ≡ false =
      ground (arith, few, early_place n i c m) in
    let (s, delay, out, at) = GoesOn-turned cfg profiles i c outcome not_last g in
    let counted = step_count n i c h in
    let next_count : pass_after n i c * n + place_after n i + 1 + length inputs
        ≡ c * n + i + 1 + suc (length inputs) =
      omega (arith, counted) in
    let (last, j, d, ends, count, there) =
      run_loop-stands cfg profiles (place_after n i) (pass_after n i c) (turn cfg s input) inputs
        (place_after_bound n i h) (subst (IsFew m n) (sym next_count) few) calm.1
        (turn-GoesOn cfg profiles s i c input at calm.0) in
    (
      last,
      j,
      d,
      ap (λ o. next_turns o (λ next. run_loop cfg next (input ∷ inputs))) out ∙ ends,
      count ∙ next_count,
      there,
    )

one_less : (k : ℕ) → 1 ≤ k → (left : ℕ) × (k ≡ suc left)
one_less zero h = absurd (omega arith)
one_less (suc left) h = (left, refl)

begin-static :
    {C : Type 0} (cfg : Config C) (next : Option (List (Profile C))) (s : State C)
    → cfg.reloads ≡ false
    → begin cfg next ≡ some s
    → (0 < length cfg.profiles)
      × (s.list ≡ static cfg.profiles)
      × (s.cycle ≡ 1)
      × (s.last ≡ no_last)
unfolding begin refresh
begin-static cfg next s fixed e = ground (arith, fixed, e)

-- With a list of `n` profiles that is not reloaded, a limit of `m` cycles and nothing cancelled, Run starts
-- `m * n` profiles, those at the places 0 to `n - 1` in order and again from 0, `m` times over, and returns
-- ErrMaxCyclesExceeded at the end of the last of them, whatever would come after.
pub run_exceeded :
    {C : Type 0} (cfg : Config C) (next : Option (List (Profile C))) (s : State C)
    (inputs : List (Input C))
    → cfg.reloads ≡ false
    → 0 < cfg.max_cycles
    → begin cfg next ≡ some s
    → All IsUndisturbed inputs
    → cfg.max_cycles * length cfg.profiles ≤ length inputs
    → (places_run cfg s inputs
        ≡ places_from (length cfg.profiles) 0 (cfg.max_cycles * length cfg.profiles))
      × ((name : String) × (error : Option String) × (run_loop cfg s inputs
            ≡ exceeded cfg.max_cycles name error))
unfolding run_loop places_run
run_exceeded cfg next s [] fixed some_cycles e calm enough =
    let (some_profiles, list, cycle, last) = begin-static cfg next s fixed e in
    let some_runs = one-le-mul some_cycles some_profiles in
    absurd (omega (arith, some_runs, enough))
run_exceeded cfg next s (input ∷ inputs) fixed some_cycles e calm enough =
    let (some_profiles, list, cycle, last) = begin-static cfg next s fixed e in
    let profiles = cfg.profiles in
    let n = length profiles in
    let (left, whole) = one_less (cfg.max_cycles * n) (one-le-mul some_cycles some_profiles) in
    let (name, error, ends, places) =
      run_loop-exceeded cfg profiles 0 0 left (turn cfg s input) inputs some_profiles some_cycles
        (omega (arith, whole)) (omega (arith, whole, enough)) calm.1
        (turn_first cfg profiles s input some_profiles list cycle last calm.0) in
    let rest = next_places (turn cfg s input) (λ next. places_run cfg next inputs) in
    (
      ap (λ first. first ++ rest) (ran_at_first profiles s input some_profiles list last calm.0)
          ∙ ap (λ more. 0 ∷ more) places
          ∙ ap (λ k. places_from n 0 k) (sym whole),
      (name, error, ends),
    )

-- With a list that is not reloaded and nothing cancelled, and as long as fewer profiles ran than the limit
-- of cycles allows, if there is one, Run goes on; after `c * n + i + 1` runs over `n` profiles the one at
-- place `i` ran last and the cycle is `c + 1`, even where names repeat.
pub run_stands :
    {C : Type 0} (cfg : Config C) (next : Option (List (Profile C))) (s : State C) (input : Input C)
    (inputs : List (Input C))
    → cfg.reloads ≡ false
    → begin cfg next ≡ some s
    → All IsUndisturbed (input ∷ inputs)
    → IsFew cfg.max_cycles (length cfg.profiles) (length (input ∷ inputs))
    → StandsAt cfg cfg.profiles (run_loop cfg s (input ∷ inputs)) (length (input ∷ inputs))
unfolding run_loop
run_stands cfg next s input inputs fixed e calm few =
    let (some_profiles, list, cycle, last) = begin-static cfg next s fixed e in
    let n = length cfg.profiles in
    let same : 0 * n + 0 + 1 + length inputs ≡ suc (length inputs) = omega arith in
    subst (StandsAt cfg cfg.profiles (run_loop cfg s (input ∷ inputs))) same (
      run_loop-stands cfg cfg.profiles 0 0 (turn cfg s input) inputs some_profiles
        (subst (IsFew cfg.max_cycles n) (sym same) few) calm.1
        (turn_first cfg cfg.profiles s input some_profiles list cycle last calm.0))
