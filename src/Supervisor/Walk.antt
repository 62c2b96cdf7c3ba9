-- ===== src/Supervisor/Walk.antt =====
-- The walk over a list of profiles: internal/supervisor/supervisor.go, nextStep.
use native.Mathlib.Nat.{mod-eq_of_lt}
use olcrtc.Prelude.{
  ℕ, zero, suc, ◌+◌, ◌%◌, ◌≤◌, ◌<◌, ◌≡◌, refl, ap, ◌∙◌, true, false, Bool-cases, inl, inr, List, [],
  ◌∷◌, some, length, get_elem?, ◌==◌, arith,
}
use olcrtc.Prelude.Maps.{string_eq, beq_refl}
use olcrtc.Supervisor.{Profile, LastProfile, is_named, find_last, next_step}

pub get_elem?-some :
    {C : Type 0} (xs : List C) (i : ℕ) → i < length xs → (x : C) × (get_elem? xs i ≡ some x)
get_elem?-some [] i h = ground (arith, h)
get_elem?-some (x ∷ xs) zero h = (x, refl)
get_elem?-some (x ∷ xs) (suc i) h = get_elem?-some xs i (omega (arith, h))

find_last_bound :
    {C : Type 0} (profiles : List (Profile C)) (last : LastProfile) (left offset : ℕ)
    → 1 ≤ length profiles
    → (find_last profiles last left offset).0 < length profiles
unfolding find_last
find_last_bound profiles last zero offset h = h
find_last_bound profiles last (suc left) offset h =
    let later = find_last_bound profiles last left (offset + 1) h in
    elim (Bool-cases
      (is_named last.name (get_elem? profiles ((last.index + offset) % length profiles)))) [
        | inl found ↦ rw found (omega (arith, h))
        | inr other ↦ rw other later
      ]

-- The next profile is one of the list.
pub next_step_bound :
    {C : Type 0} (profiles : List (Profile C)) (last : LastProfile)
    → 1 ≤ length profiles
    → (next_step profiles last).0 < length profiles
unfolding next_step
next_step_bound profiles last h =
    ground (arith, h, find_last_bound profiles last (length profiles) 0 h)

add_nothing : (i : ℕ) → i + 0 ≡ i
add_nothing i = omega arith

-- A profile that still stands where it ran: the one behind it is next, and the pass ends with the list.
pub next_step_kept :
    {C : Type 0} (profiles : List (Profile C)) (profile : Profile C) (i : ℕ)
    → i < length profiles
    → get_elem? profiles i ≡ some profile
    → next_step profiles (record { name = profile.name; index = i; ran = true })
      ≡ ((i + 1) % length profiles, i + 1 == length profiles)
unfolding next_step find_last
next_step_kept [] profile i h at = ground (arith, h)
next_step_kept (first ∷ rest) profile i h at =
    let place : (i + 0) % length (first ∷ rest) ≡ i =
      ap (λ n. n % length (first ∷ rest)) (add_nothing i) ∙ mod-eq_of_lt h in
    let some_left : length (first ∷ rest) == 0 ≡ false = ground arith in
    rw (some_left, place, at, beq_refl ⦃e = string_eq⦄ profile.name) refl

find_last_gone :
    {C : Type 0} (profiles : List (Profile C)) (last : LastProfile) (left offset : ℕ)
    → ((i : ℕ) → is_named last.name (get_elem? profiles i) ≡ false)
    → find_last profiles last left offset ≡ (0, false)
unfolding find_last
find_last_gone profiles last zero offset gone = refl
find_last_gone profiles last (suc left) offset gone =
    rw (gone ((last.index + offset) % length profiles))
      (find_last_gone profiles last left (offset + 1) gone)

-- A profile whose name the list no longer has: the head is next, and no pass ends.
pub next_step_gone :
    {C : Type 0} (profiles : List (Profile C)) (last : LastProfile)
    → ((i : ℕ) → is_named last.name (get_elem? profiles i) ≡ false)
    → next_step profiles last ≡ (0, false)
unfolding next_step
next_step_gone profiles last gone =
    rw (find_last_gone profiles last (length profiles) 0 gone) (ground arith)
