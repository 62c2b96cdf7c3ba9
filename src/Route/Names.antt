-- ===== src/Route/Names.antt =====
-- Which names a suffix rule matches: internal/route/route.go, MatchDomain.
use olcrtc.Prelude.{
  ℕ, zero, suc, ◌≤◌, ◌≡◌, inl, inr, Bool, false, ◌||◌, List, [], ◌∷◌, Option, none, some,
  Option-cases, length, arith, ◌==◌, if◌then◌else◌,
}
use olcrtc.Prelude.Maps.{bytes_eq, is_in}
use olcrtc.Route.{cut_dot, under_suffix}

-- Some part of the name that stands behind one of its dots is among the suffixes.
unfoldable pub parent_in : List (List ℕ) → List ℕ → Bool
parent_in suffix [] = false
parent_in suffix (c ∷ cs) =
    let later = parent_in suffix cs in if c == 46 then is_in cs suffix || later else later

parent_in-cut_dot :
    (suffix : List (List ℕ)) (name : List ℕ) (o : Option (List ℕ))
    → cut_dot name ≡ o
    → parent_in suffix name
      ≡ elim o [ none ↦ false | some p ↦ is_in p suffix || parent_in suffix p ]
unfolding parent_in cut_dot
parent_in-cut_dot suffix [] o h = ground (arith, h)
parent_in-cut_dot suffix (c ∷ cs) o h = ground (arith, parent_in-cut_dot suffix cs o)

cut_dot_shorter : (name p : List ℕ) → cut_dot name ≡ some p → suc (length p) ≤ length name
unfolding cut_dot
cut_dot_shorter [] p h = ground (arith, h)
cut_dot_shorter (c ∷ cs) p h = ground (arith, cut_dot_shorter cs p)

-- The loop of MatchDomain over a name's parents, with more steps than the name has bytes, finds a
-- suffix just when the name or a part of it behind one of its dots is among them.
pub under_suffix_lem :
    (fuel : ℕ) (suffix : List (List ℕ)) (name : List ℕ)
    → suc (length name) ≤ fuel
    → under_suffix fuel suffix name ≡ (is_in name suffix || parent_in suffix name)
unfolding under_suffix
under_suffix_lem zero suffix name le = ground arith
under_suffix_lem (suc fuel) suffix name le = elim (Option-cases (cut_dot name)) [
  | inl last ↦ ground (arith, last, parent_in-cut_dot suffix name none last)
  | inr (p, parent) ↦ ground (
    arith,
    parent,
    parent_in-cut_dot suffix name (some p) parent,
    cut_dot_shorter name p parent,
    under_suffix_lem fuel suffix p,
  )
]
