-- ===== src/Supervisor/Status.antt =====
-- internal/supervisor/supervisor.go: statusTracker. The texts of `fmt.Sprintf` are left as their parts, and
-- a limit below zero is `none`.
use Prim.Native.String.{String}
use olcrtc.Prelude.{
  ℕ, ◌+◌, ◌-◌, ◌==◌, List, [], ◌∷◌, ◌++◌, Option, none, some, length, drop, ltb, if◌then◌else◌,
}
use olcrtc.Prelude.Maps.{string_eq, lookup, insert, erase}

abbrev pub default_history_limit : ℕ
default_history_limit = 20

abbrev pub max_tracked_profiles : ℕ
max_tracked_profiles = 64

pub record ProfileStatus : Type 0 where
  pub name : String
  pub starts : ℕ
  pub failures : ℕ
  pub clean_ends : ℕ
  pub last_started : ℕ
  pub last_ended : ℕ
  pub last_error : String

pub data EventType : Type 0 where
  profile_start profile_end : EventType

pub record Event : Type 0 where
  pub time : ℕ
  pub kind : EventType
  pub profile : String
  pub cycle : ℕ
  pub error : String

pub data LastError : Type 0 where
  no_error : LastError
  profile_failed : (name error : String) → LastError
  profile_ended : (name : String) → LastError

pub record Tracker : Type 0 where
  pub cycle : ℕ
  pub active_profile : String
  pub active_profile_index : Option ℕ
  pub history : List Event
  pub last_error : LastError
  pub by_name : List (String × ProfileStatus)
  pub order : List String
  pub history_limit : Option ℕ

abbrev pub default_limit : Option ℕ → Option ℕ
default_limit none = none
default_limit (some limit) = some (if limit == 0 then default_history_limit else limit)

unfoldable pub new_status_tracker : Option ℕ → Tracker
new_status_tracker limit = record {
  cycle = 0;
  active_profile = "";
  active_profile_index = none;
  history = [];
  last_error = no_error;
  by_name = [];
  order = [];
  history_limit = default_limit limit;
}

unfoldable pub forget_oldest :
    List (String × ProfileStatus) → List String → List (String × ProfileStatus) × List String
forget_oldest by_name [] = (by_name, [])
forget_oldest by_name (name ∷ names) =
    let rest = forget_oldest (erase name by_name) names in
    if ltb max_tracked_profiles (length (name ∷ names)) then rest else (by_name, name ∷ names)

abbrev pub new_profile : String → ProfileStatus
new_profile name = record {
  name = name;
  starts = 0;
  failures = 0;
  clean_ends = 0;
  last_started = 0;
  last_ended = 0;
  last_error = "";
}

abbrev pub profile_of : Tracker → String → Option ProfileStatus → Tracker
profile_of t name none =
    let kept = forget_oldest (insert name (new_profile name) (t.by_name)) (t.order ++ name ∷ []) in
    record t { by_name = kept.0; order = kept.1 }
profile_of t name (some status) = t

-- The profile is found in the map afterwards.
unfoldable pub profile : Tracker → String → Tracker
profile t name = profile_of t name (lookup name (t.by_name))

-- What the handlers change through the pointer.
abbrev pub changed :
    String
    → (ProfileStatus → ProfileStatus)
    → Option ProfileStatus
    → List (String × ProfileStatus)
    → List (String × ProfileStatus)
changed name f none by_name = by_name
changed name f (some status) by_name = insert name (f status) by_name

unfoldable pub change : Tracker → String → (ProfileStatus → ProfileStatus) → Tracker
change t name f = record t { by_name = changed name f (lookup name (t.by_name)) (t.by_name) }

abbrev pub kept_history : ℕ → List Event → List Event
kept_history limit history =
    if ltb limit (length history) then drop (length history - limit) history else history

abbrev pub with_event : Option ℕ → List Event → Event → List Event
with_event none history event = history
with_event (some limit) history event = kept_history limit (history ++ event ∷ [])

unfoldable pub append_history : Tracker → Event → Tracker
append_history t event = record t { history = with_event (t.history_limit) (t.history) event }

abbrev pub started : ℕ → ProfileStatus → ProfileStatus
started now s = record s { starts = s.starts + 1; last_started = now }

unfoldable pub start : Tracker → String → ℕ → ℕ → ℕ → Tracker
start t name cycle idx now =
    append_history
      (record (change (profile t name) name (started now)) {
        cycle = cycle;
        active_profile = name;
        active_profile_index = some idx;
      })
      (record { time = now; kind = profile_start; profile = name; cycle = cycle; error = "" })

-- `none` is a profile that ended without an error.
abbrev pub ended : ℕ → Option String → ProfileStatus → ProfileStatus
ended now none s = record s { last_ended = now; clean_ends = s.clean_ends + 1; last_error = "" }
ended now (some error) s = record s {
  last_ended = now;
  failures = s.failures + 1;
  last_error = error;
}

abbrev pub error_of : String → Option String → LastError
error_of name none = profile_ended name
error_of name (some error) = profile_failed name error

abbrev pub error_text : Option String → String
error_text none = ""
error_text (some error) = error

unfoldable pub end : Tracker → String → ℕ → Option String → ℕ → Tracker
end t name cycle error now =
    append_history
      (record (change (profile t name) name (ended now error)) {
        active_profile = "";
        active_profile_index = none;
        last_error = error_of name error;
      })
      (record {
        time = now;
        kind = profile_end;
        profile = name;
        cycle = cycle;
        error = error_text error;
      })

-- The profiles of a snapshot; `none` is the nil pointer that `*t.byName[name]` would read.
abbrev pub with_status :
    Option ProfileStatus → Option (List ProfileStatus) → Option (List ProfileStatus)
with_status (some status) (some statuses) = some (status ∷ statuses)
with_status _ _ = none

unfoldable pub snapshot_profiles :
    List (String × ProfileStatus) → List String → Option (List ProfileStatus)
snapshot_profiles by_name [] = some []
snapshot_profiles by_name (name ∷ names) =
    with_status (lookup name by_name) (snapshot_profiles by_name names)
