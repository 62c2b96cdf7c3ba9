-- ===== src/Supervisor/Tracked.antt =====
-- What the status tracker keeps: internal/supervisor/supervisor.go, statusTracker.
use Prim.Native.String.{String}
use olcrtc.Prelude.{
  ℕ, ◌≤◌, ◌≡◌, refl, Bool, true, false, Bool-cases, inl, inr, List, [], ◌∷◌, ◌++◌, Option, none,
  some, length, ltb, if◌then◌else◌, arith,
}
use olcrtc.Prelude.Maps.{string_eq, lookup, erase, is_in, lookup-erase}
use olcrtc.Supervisor.Status.{ProfileStatus, max_tracked_profiles, forget_oldest}

abbrev pub is_some : {A : Type 0} → Option A → Bool
is_some none = false
is_some (some a) = true

-- The names of the order are the keys of the map, each once.
abbrev pub IsKnown : List (String × ProfileStatus) → List String → Type 0
IsKnown by_name order = (k : String) → is_in k order ≡ is_some (lookup k by_name)

unfoldable pub IsDistinct : List String → Type 0
IsDistinct [] = ℕ
IsDistinct (k ∷ ks) = (is_in k ks ≡ false) × IsDistinct ks

pub is_in-append :
    (k : String) (xs ys : List String)
    → is_in k (xs ++ ys) ≡ (if is_in k xs then true else is_in k ys)
unfolding is_in
is_in-append k [] ys = refl
is_in-append k (x ∷ xs) ys = ground (arith, is_in-append k xs ys)

is_in-forget :
    (k : String) (m : List (String × ProfileStatus)) (ks : List String)
    → is_in k (forget_oldest m ks).1 ≡ true
    → is_in k ks ≡ true
unfolding is_in forget_oldest
is_in-forget k m [] h = h
is_in-forget k m (name ∷ names) h = ground (arith, h, is_in-forget k (erase name m) names)

erase-IsKnown :
    (m : List (String × ProfileStatus)) (name : String) (names : List String)
    → IsKnown m (name ∷ names)
    → is_in name names ≡ false
    → IsKnown (erase name m) names
unfolding is_in
erase-IsKnown m name names known fresh k =
    ground (arith, known k, fresh, lookup-erase k name m, string_eq.beq_iff name k)

pub lookup-forget :
    (k : String) (m : List (String × ProfileStatus)) (ks : List String)
    → IsKnown m ks
    → IsDistinct ks
    → lookup k (forget_oldest m ks).0
      ≡ (if is_in k (forget_oldest m ks).1 then lookup k m else none)
unfolding is_in forget_oldest IsDistinct
lookup-forget k m [] known distinct = ground (arith, known k)
lookup-forget k m (name ∷ names) known distinct = ground (
  arith,
  known k,
  distinct.0,
  lookup-erase k name m,
  string_eq.beq_iff name k,
  is_in-forget k (erase name m) names,
  lookup-forget k (erase name m) names (erase-IsKnown m name names known distinct.0) distinct.1,
)

pub IsDistinct-forget :
    (m : List (String × ProfileStatus)) (ks : List String)
    → IsDistinct ks
    → IsDistinct (forget_oldest m ks).1
unfolding forget_oldest IsDistinct
IsDistinct-forget m [] h = h
IsDistinct-forget m (name ∷ names) h =
    elim (Bool-cases (ltb max_tracked_profiles (length (name ∷ names)))) [
      | inl long ↦ rw long (IsDistinct-forget (erase name m) names h.1)
      | inr short ↦ rw short h
    ]

pub length-forget :
    (m : List (String × ProfileStatus)) (ks : List String)
    → length (forget_oldest m ks).1 ≤ max_tracked_profiles
unfolding forget_oldest
length-forget m [] = omega arith
length-forget m (name ∷ names) = ground (arith, length-forget (erase name m) names)

pub IsDistinct-append :
    (ks : List String) (k : String) → IsDistinct ks → is_in k ks ≡ false → IsDistinct (ks ++ k ∷ [])
unfolding IsDistinct is_in
IsDistinct-append [] k h fresh = (refl, 0)
IsDistinct-append (x ∷ ks) k h fresh = (
  ground
      (arith, h, fresh, is_in-append x ks (k ∷ []), string_eq.beq_iff x k, string_eq.beq_iff k x),
  IsDistinct-append ks k h.1 (ground (arith, fresh)),
)

-- The last name is never the one that is forgotten.
pub forget-last :
    (m : List (String × ProfileStatus)) (ks : List String) (k : String)
    → is_in k (forget_oldest m (ks ++ k ∷ [])).1 ≡ true
unfolding forget_oldest is_in
forget-last m [] k = ground (arith, string_eq.beq_iff k k)
forget-last m (x ∷ ks) k =
    ground
      (arith, is_in-append k (x ∷ ks) (k ∷ []), string_eq.beq_iff k k, forget-last (erase x m) ks k)

pub forget-IsKnown :
    (m : List (String × ProfileStatus)) (ks : List String)
    → IsKnown m ks
    → IsDistinct ks
    → IsKnown (forget_oldest m ks).0 (forget_oldest m ks).1
forget-IsKnown m ks known distinct k =
    ground (arith, known k, lookup-forget k m ks known distinct, is_in-forget k m ks)
