-- ===== src/Route/Ranges.antt =====
-- Looking an address up in the merged ranges is asking every range: internal/route/route.go,
-- mergeRanges and MatchIP.
use olcrtc.Prelude.{
  ℕ, zero, suc, ◌+◌, ◌≤◌, ◌<◌, ◌≡◌, ◌⊎◌, refl, sym, ◌∙◌, inl, inr, Bool, true, false, Bool-cases,
  ◌&&◌, ◌||◌, List, [], ◌∷◌, All, arith, ltb, leb, ◌==◌, subst,
}
use olcrtc.Route.{
  Addr, no_addr, v4, v6, AddrRange, rank, next, insert_range, sort_ranges, joins, joined,
  merge_from, merge_sorted, merge_ranges, search_range, range_at, in_at, in_ranges,
}

abbrev pub covers : AddrRange → Addr → Bool
covers r ip = leb (rank r.lo) (rank ip) && leb (rank ip) (rank r.hi)

-- Some range of the list holds the address.
unfoldable pub any_covers : List AddrRange → Addr → Bool
any_covers [] ip = false
any_covers (r ∷ rs) ip = covers r ip || any_covers rs ip

-- A range ends where it starts or behind it.
abbrev pub IsRange : AddrRange → Type 0
IsRange r = rank r.lo ≤ rank r.hi

next_cases : (a : Addr) → (rank (next a) ≡ 0) ⊎ (rank (next a) ≡ rank a + 1)
unfolding rank next
next_cases no_addr = ground arith
next_cases (v4 n) = ground arith
next_cases (v6 n zone) = ground arith

-- The ranges stand in the order of their low ends.
abbrev IsSorted : List AddrRange → Type 0
IsSorted [] = Unit {0}
IsSorted (r ∷ rs) = All (λ s. rank r.lo ≤ rank s.lo) rs × IsSorted rs

-- Every range ends before the next one starts.
abbrev IsApart : List AddrRange → Type 0
IsApart [] = Unit {0}
IsApart (r ∷ rs) = IsRange r × All (λ s. rank r.hi < rank s.lo) rs × IsApart rs

any_covers-insert_range :
    (r : AddrRange) (rs : List AddrRange) (ip : Addr)
    → any_covers (insert_range r rs) ip ≡ any_covers (r ∷ rs) ip
unfolding any_covers insert_range
any_covers-insert_range r [] ip = refl
any_covers-insert_range r (s ∷ rs) ip = ground (arith, any_covers-insert_range r rs ip)

any_covers-sort_ranges :
    (rs : List AddrRange) (ip : Addr) → any_covers (sort_ranges rs) ip ≡ any_covers rs ip
unfolding any_covers sort_ranges
any_covers-sort_ranges [] ip = refl
any_covers-sort_ranges (r ∷ rs) ip =
    ground (arith, any_covers-insert_range r (sort_ranges rs) ip, any_covers-sort_ranges rs ip)

insert_range-All :
    (P : AddrRange → Type 0) (r : AddrRange) (rs : List AddrRange)
    → P r
    → All P rs
    → All P (insert_range r rs)
unfolding insert_range
insert_range-All P r [] p ps = (p, tt)
insert_range-All P r (s ∷ rs) p ps = elim (Bool-cases (leb (rank r.lo) (rank s.lo))) [
  | inl first ↦ rw first (p, ps)
  | inr later ↦ rw later (ps.0, insert_range-All P r rs p ps.1)
]

sort_ranges-All : (P : AddrRange → Type 0) (rs : List AddrRange) → All P rs → All P (sort_ranges rs)
unfolding sort_ranges
sort_ranges-All P [] ps = tt
sort_ranges-All P (r ∷ rs) ps =
    insert_range-All P r (sort_ranges rs) ps.0 (sort_ranges-All P rs ps.1)

All-map :
    {P Q : AddrRange → Type 0} (rs : List AddrRange)
    → ((r : AddrRange) → P r → Q r)
    → All P rs
    → All Q rs
All-map [] f ps = tt
All-map (r ∷ rs) f ps = (f r ps.0, All-map rs f ps.1)

insert_range-IsSorted :
    (r : AddrRange) (rs : List AddrRange) → IsSorted rs → IsSorted (insert_range r rs)
unfolding insert_range
insert_range-IsSorted r [] h = (tt, tt)
insert_range-IsSorted r (s ∷ rs) h = elim (Bool-cases (leb (rank r.lo) (rank s.lo))) [
  | inl first ↦
      let below : rank r.lo ≤ rank s.lo = ground arith in
      rw first ((below, All-map rs (λ t le. omega (arith, below)) h.0), h)
  | inr later ↦ rw later (
    insert_range-All (λ t. rank s.lo ≤ rank t.lo) r rs (ground arith) h.0,
    insert_range-IsSorted r rs h.1,
  )
]

sort_ranges-IsSorted : (rs : List AddrRange) → IsSorted (sort_ranges rs)
unfolding sort_ranges
sort_ranges-IsSorted [] = tt
sort_ranges-IsSorted (r ∷ rs) = insert_range-IsSorted r (sort_ranges rs) (sort_ranges-IsSorted rs)

-- Joining two ranges loses no address and takes in none.
covers-joined :
    (last cur : AddrRange) (ip : Addr)
    → IsRange cur
    → rank last.lo ≤ rank cur.lo
    → joins last cur ≡ true
    → covers (joined last cur) ip ≡ (covers last ip || covers cur ip)
unfolding joins joined
covers-joined last cur ip hc le h = ground (arith, next_cases last.hi)

joined_lo : (last cur : AddrRange) → (joined last cur).lo ≡ last.lo
unfolding joined
joined_lo last cur = ground arith

any_covers-merge_from :
    (last : AddrRange) (rs : List AddrRange) (ip : Addr)
    → All IsRange rs
    → All (λ s. rank last.lo ≤ rank s.lo) rs
    → IsSorted rs
    → any_covers (merge_from last rs) ip ≡ any_covers (last ∷ rs) ip
unfolding any_covers merge_from
any_covers-merge_from last [] ip valid above sorted = refl
any_covers-merge_from last (cur ∷ rs) ip valid above sorted =
    let above' = subst (λ a. All (λ s. rank a ≤ rank s.lo) rs) (sym (joined_lo last cur)) above.1 in
    elim (Bool-cases (joins last cur)) [
      | inl join ↦ rw join (
          ground (
            arith,
            any_covers-merge_from (joined last cur) rs ip valid.1 above' sorted.1,
            covers-joined last cur ip valid.0 above.0 join,
          ))
      | inr apart ↦
          rw apart (ground (arith, any_covers-merge_from cur rs ip valid.1 sorted.0 sorted.1))
    ]

merge_from-above :
    (b : ℕ) (last : AddrRange) (rs : List AddrRange)
    → b ≤ rank last.lo
    → All (λ s. b ≤ rank s.lo) rs
    → All (λ s. b ≤ rank s.lo) (merge_from last rs)
unfolding merge_from
merge_from-above b last [] le above = (le, tt)
merge_from-above b last (cur ∷ rs) le above = elim (Bool-cases (joins last cur)) [
  | inl join ↦ rw join (
      merge_from-above b (joined last cur) rs
        (subst (λ a. b ≤ rank a) (sym (joined_lo last cur)) le) above.1)
  | inr apart ↦ rw apart (le, merge_from-above b cur rs above.0 above.1)
]

joined-IsRange : (last cur : AddrRange) → IsRange last → IsRange (joined last cur)
unfolding joined
joined-IsRange last cur h = ground arith

joins_above : (last cur : AddrRange) → joins last cur ≡ false → rank last.hi < rank cur.lo
unfolding joins
joins_above last cur h = ground arith

merge_from-IsApart :
    (last : AddrRange) (rs : List AddrRange)
    → IsRange last
    → All IsRange rs
    → All (λ s. rank last.lo ≤ rank s.lo) rs
    → IsSorted rs
    → IsApart (merge_from last rs)
unfolding merge_from
merge_from-IsApart last [] h valid above sorted = (h, tt, tt)
merge_from-IsApart last (cur ∷ rs) h valid above sorted =
    let above' = subst (λ a. All (λ s. rank a ≤ rank s.lo) rs) (sym (joined_lo last cur)) above.1 in
    elim (Bool-cases (joins last cur)) [
      | inl join ↦ rw join (
          merge_from-IsApart (joined last cur) rs (joined-IsRange last cur h) valid.1 above'
            sorted.1)
      | inr apart ↦
          let gap = joins_above last cur apart in
          let far = All-map rs (λ s le. omega (arith, gap, le)) sorted.0 in
          rw apart (
            h,
            merge_from-above (suc (rank last.hi)) cur rs gap far,
            merge_from-IsApart cur rs valid.0 valid.1 sorted.0 sorted.1,
          )
    ]

none_cover :
    (rs : List AddrRange) (ip : Addr) → All (λ s. rank ip < rank s.lo) rs → any_covers rs ip ≡ false
unfolding any_covers
none_cover [] ip far = refl
none_cover (r ∷ rs) ip far = ground (arith, none_cover rs ip far.1)

search_positive :
    (b : ℕ) (rs : List AddrRange) (ip : Addr)
    → All (λ s. b < rank s.lo) rs
    → search_range rs ip == 0 ≡ false
    → b < rank ip
unfolding search_range
search_positive b [] ip far h = ground arith
search_positive b (r ∷ rs) ip far h = ground arith

in_at-suc :
    (r : AddrRange) (rs : List AddrRange) (ip : Addr) (idx : ℕ)
    → in_at (r ∷ rs) ip (suc idx) ≡ (in_at rs ip idx || (idx == 0 && leb (rank ip) (rank r.hi)))
unfolding range_at
in_at-suc r rs ip zero = ground arith
in_at-suc r rs ip (suc m) = ground arith

-- Of ranges that stand apart, the search's place and the one before it tell whether any holds the
-- address.
in_ranges_lem : (rs : List AddrRange) (ip : Addr) → IsApart rs → in_ranges rs ip ≡ any_covers rs ip
unfolding in_ranges any_covers search_range range_at
in_ranges_lem [] ip apart = refl
in_ranges_lem (r ∷ rs) ip apart = elim (Bool-cases (ltb (rank r.lo) (rank ip))) [
  | inl below ↦
      rw (below, in_at-suc r rs ip (search_range rs ip))
        (ground
          (arith, in_ranges_lem rs ip apart.2, search_positive (rank r.hi) rs ip apart.1, below))
  | inr above ↦
      let low : rank ip ≤ rank r.lo = ground arith in
      rw above (
        ground (
          arith,
          none_cover rs ip (All-map rs (λ s far. omega (arith, apart.0, low, far)) apart.1),
          low,
          apart.0,
        ))
]

in_ranges-merge_sorted :
    (rs : List AddrRange) (ip : Addr)
    → All IsRange rs
    → IsSorted rs
    → in_ranges (merge_sorted rs) ip ≡ any_covers rs ip
in_ranges-merge_sorted [] ip valid sorted = in_ranges_lem [] ip tt
in_ranges-merge_sorted (r ∷ rs) ip valid sorted =
    in_ranges_lem (merge_from r rs) ip (merge_from-IsApart r rs valid.0 valid.1 sorted.0 sorted.1)
    ∙ any_covers-merge_from r rs ip valid.1 sorted.0 sorted.1

-- An address lies in the merged ranges, as MatchIP looks it up, just when one of the ranges that were
-- added holds it, where no range ends before it starts.
pub in_ranges-merge_ranges :
    (rs : List AddrRange) (ip : Addr)
    → All IsRange rs
    → in_ranges (merge_ranges rs) ip ≡ any_covers rs ip
unfolding merge_ranges
in_ranges-merge_ranges rs ip valid =
    in_ranges-merge_sorted (sort_ranges rs) ip (sort_ranges-All IsRange rs valid)
      (sort_ranges-IsSorted rs)
    ∙ any_covers-sort_ranges rs ip
