-- ===== src/Supervisor/Kept.antt =====
-- Every status is consistent and bounded: internal/supervisor/supervisor.go, statusTracker.
use Prim.Native.String.{String}
use olcrtc.Prelude.{
  ℕ, ◌+◌, ◌-◌, ◌≤◌, ◌≡◌, refl, sym, ap, subst, ◌∙◌, true, false, Option-cases, inl, inr, List, [],
  ◌∷◌, ◌++◌, Option, none, some, length, length-drop, if◌then◌else◌, arith,
}
use olcrtc.Prelude.Maps.{string_eq, lookup, insert, is_in, lookup-insert}
use olcrtc.Supervisor.Status.{
  ProfileStatus, Tracker, Event, max_tracked_profiles, forget_oldest, new_profile, profile,
  profile_of, change, started, ended, start, end, append_history, with_event, LastError,
  profile_start, profile_end, error_of, error_text,
}
use olcrtc.Supervisor.Tracked.{
  is_some, IsKnown, IsDistinct, lookup-forget, IsDistinct-forget, length-forget, IsDistinct-append,
  forget-last, is_in-append, forget-IsKnown,
}

-- 1 for the profile that runs.
abbrev pub runs : Option String → String → ℕ
runs none k = 0
runs (some a) k = if string_eq.beq a k then 1 else 0

abbrev pub IsCounted : Option String → List (String × ProfileStatus) → Type 0
IsCounted active by_name =
    (k : String) (s : ProfileStatus)
    → lookup k by_name ≡ some s
    → s.starts ≡ s.failures + s.clean_ends + runs active k

abbrev pub IsShort : Option ℕ → List Event → Type 0
IsShort none history = history ≡ []
IsShort (some limit) history = length history ≤ limit

-- The names are known, each once and 64 at most; each profile's starts are its failures and clean ends and
-- one more while it runs; and the history keeps to its limit.
pub record IsTracked (active : Option String) (t : Tracker) : Type 0 where
  pub known : IsKnown t.by_name t.order
  pub distinct : IsDistinct t.order
  pub few : length t.order ≤ max_tracked_profiles
  pub counted : IsCounted active t.by_name
  pub short : IsShort t.history_limit t.history

insert-IsKnown :
    (m : List (String × ProfileStatus)) (ks : List String) (name : String)
    → IsKnown m ks
    → IsKnown (insert name (new_profile name) m) (ks ++ name ∷ [])
unfolding is_in
insert-IsKnown m ks name known k = ground (
  arith,
  known k,
  is_in-append k ks (name ∷ []),
  lookup-insert k name (new_profile name) m,
  string_eq.beq_iff name k,
)

forget-IsCounted :
    (m : List (String × ProfileStatus)) (ks : List String) (name : String)
    → IsCounted none m
    → IsKnown (insert name (new_profile name) m) (ks ++ name ∷ [])
    → IsDistinct (ks ++ name ∷ [])
    → IsCounted none (forget_oldest (insert name (new_profile name) m) (ks ++ name ∷ [])).0
forget-IsCounted m ks name counted known distinct k s at = ground (
  arith,
  at,
  counted k s,
  lookup-forget k (insert name (new_profile name) m) (ks ++ name ∷ []) known distinct,
  lookup-insert k name (new_profile name) m,
  string_eq.beq_iff name k,
)

profile_of-IsTracked :
    (t : Tracker) (name : String) (o : Option ProfileStatus)
    → IsTracked none t
    → lookup name t.by_name ≡ o
    → IsTracked none (profile_of t name o) × (is_in name (profile_of t name o).order ≡ true)
profile_of-IsTracked t name none h at =
    let m = insert name (new_profile name) t.by_name in
    let ks = t.order ++ name ∷ [] in
    let fresh : is_in name t.order ≡ false = h.known name ∙ ap is_some at in
    let known = insert-IsKnown t.by_name t.order name h.known in
    let distinct = IsDistinct-append t.order name h.distinct fresh in
    (
      record {
        known = forget-IsKnown m ks known distinct;
        distinct = IsDistinct-forget m ks distinct;
        few = length-forget m ks;
        counted = forget-IsCounted t.by_name t.order name h.counted known distinct;
        short = h.short;
      },
      forget-last m t.order name,
    )
profile_of-IsTracked t name (some status) h at = (h, h.known name ∙ ap is_some at)

profile-IsTracked :
    (t : Tracker) (name : String)
    → IsTracked none t
    → IsTracked none (profile t name) × (is_in name (profile t name).order ≡ true)
unfolding profile
profile-IsTracked t name h = profile_of-IsTracked t name (lookup name t.by_name) h refl

-- A change of a profile that is there leaves the names as they are.
change-IsTracked :
    (t : Tracker) (name : String) (f : ProfileStatus → ProfileStatus) (old active : Option String)
    → IsTracked old t
    → is_in name t.order ≡ true
    → ((s : ProfileStatus)
        → s.starts ≡ s.failures + s.clean_ends + runs old name
        → (f s).starts ≡ (f s).failures + (f s).clean_ends + runs active name)
    → ((k : String) → string_eq.beq name k ≡ false → runs active k ≡ runs old k)
    → IsTracked active (change t name f)
unfolding change
change-IsTracked t name f old active h present counts others =
    elim (Option-cases (lookup name t.by_name)) [
      | inl missing ↦ ground (arith, h.known name, missing, present)
      | inr (s, at) ↦ rw at (record {
        known = λ k. ground (
          arith,
          h.known k,
          h.known name,
          present,
          lookup-insert k name (f s) t.by_name,
          string_eq.beq_iff name k,
        );
        distinct = h.distinct;
        few = h.few;
        counted = λ k status found. ground (
          arith,
          found,
          at,
          h.counted k status,
          h.counted name s at,
          counts s,
          others k,
          lookup-insert k name (f s) t.by_name,
          string_eq.beq_iff name k,
        );
        short = h.short;
      })
    ]

with_event-IsShort :
    (limit : Option ℕ) (history : List Event) (event : Event)
    → IsShort limit history
    → IsShort limit (with_event limit history event)
with_event-IsShort none history event h = h
with_event-IsShort (some limit) history event h =
    ground (arith, length-drop (length (history ++ event ∷ []) - limit) (history ++ event ∷ []))

append_history-IsTracked :
    (active : Option String) (t : Tracker) (event : Event)
    → IsTracked active t
    → IsTracked active (append_history t event)
unfolding append_history
append_history-IsTracked active t event h = record {
  known = h.known;
  distinct = h.distinct;
  few = h.few;
  counted = h.counted;
  short = with_event-IsShort t.history_limit t.history event h.short;
}

runs_other :
    (name : String) (active : Option String) (k : String)
    → string_eq.beq name k ≡ false
    → runs (some name) k ≡ runs none k
runs_other name active k h = rw h refl

runs_self : (name : String) → runs (some name) name ≡ 1
runs_self name = ground (arith, string_eq.beq_iff name name)

shown-IsTracked :
    (active : Option String) (t : Tracker) (cycle : ℕ) (name : String) (index : Option ℕ)
    (error : LastError)
    → IsTracked active t
    → IsTracked active (record t {
      cycle = cycle;
      active_profile = name;
      active_profile_index = index;
      last_error = error;
    })
shown-IsTracked active t cycle name index error h = record {
  known = h.known;
  distinct = h.distinct;
  few = h.few;
  counted = h.counted;
  short = h.short;
}

-- A start from an idle tracker counts it for the profile that starts, and keeps its name.
pub start-IsTracked :
    (t : Tracker) (name : String) (cycle idx now : ℕ)
    → IsTracked none t
    → IsTracked (some name) (start t name cycle idx now)
      × (is_in name (start t name cycle idx now).order ≡ true)
unfolding start append_history change
start-IsTracked t name cycle idx now h =
    let (kept, present) = profile-IsTracked t name h in
    let self = runs_self name in
    let next =
      change-IsTracked (profile t name) name (started now) none (some name) kept present
        (λ s e. omega (arith, e, self)) (λ k other. runs_other name none k other) in
    let shown =
      shown-IsTracked (some name) (change (profile t name) name (started now)) cycle name (some idx)
        (profile t name).last_error next in
    let event : Event = record {
      time = now;
      kind = profile_start;
      profile = name;
      cycle = cycle;
      error = "";
    } in
    (append_history-IsTracked (some name) _ event shown, present)

profile-there :
    (t : Tracker) (name : String)
    → IsKnown t.by_name t.order
    → is_in name t.order ≡ true
    → profile t name ≡ t
unfolding profile
profile-there t name known present = elim (Option-cases (lookup name t.by_name)) [
  | inl missing ↦ ground (arith, known name, missing, present)
  | inr (s, at) ↦ rw at refl
]

ended_counts :
    (name : String) (now : ℕ) (error : Option String) (s : ProfileStatus)
    → s.starts ≡ s.failures + s.clean_ends + runs (some name) name
    → (ended now error s).starts ≡ (ended now error s).failures + (ended now error s).clean_ends + 0
ended_counts name now none s e = omega (arith, e, runs_self name)
ended_counts name now (some text) s e = omega (arith, e, runs_self name)

-- The end of the profile that runs leaves every profile with as many ends as starts.
pub end-IsTracked :
    (t : Tracker) (name : String) (cycle : ℕ) (error : Option String) (now : ℕ)
    → IsTracked (some name) t
    → is_in name t.order ≡ true
    → IsTracked none (end t name cycle error now)
unfolding end change
end-IsTracked t name cycle error now h present =
    let next =
      change-IsTracked t name (ended now error) (some name) none h present
        (λ s e. ended_counts name now error s e) (λ k other. sym (runs_other name none k other)) in
    let event : Event = record {
      time = now;
      kind = profile_end;
      profile = name;
      cycle = cycle;
      error = error_text error;
    } in
    let shown =
      shown-IsTracked none (change t name (ended now error)) t.cycle "" none (error_of name error)
        next in
    subst
      (λ u. IsTracked none (
        append_history
          (record (change u name (ended now error)) {
            active_profile = "";
            active_profile_index = none;
            last_error = error_of name error;
          })
          event))
      (sym (profile-there t name h.known present)) (append_history-IsTracked none _ event shown)
