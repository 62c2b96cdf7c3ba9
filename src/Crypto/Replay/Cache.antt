-- ===== src/Crypto/Replay/Cache.antt =====
-- The cache over every lane and sender: a record that was let in is not let in again while the
-- cache has room, whatever other records come between.
use mathlib.Core.Path.{ap₂, subst}
use mathlib.Core.Option.{some-injective}
use olcrtc.Prelude.{
  ℕ, suc, ◌-◌, ◌≤◌, ◌<◌, ◌≡◌, refl, ap, sym, ◌∙◌, inl, inr, true, false, ◌&&◌, List, ◌∷◌, length,
  none, some, arith, Bool-cases, Option-cases,
}
use olcrtc.Prelude.Maps.{same_bytes}
use olcrtc.Prelude.Bits.{bit, bit-pow}
use olcrtc.Prelude.Results.{is_ok, Result-cases}
use olcrtc.Crypto.Replay.{
  ReplayState, ReplayCache, find, remove, judge, make_room, settle, accept, new_state,
}
use olcrtc.Crypto.Replay.Window.{Spent, judge-Spent, Spent-accepted, Spent-judge}
use olcrtc.Crypto.Replay.Lookup.{
  judge_sender, is_sender_iff, none_ne_some, find_sender, length-remove, find-remove_ne, find_front,
  find_behind, accept_new, accept_ok, accept_err, length-make_room, make_room_fits,
}

Spent-new : (l p : List ℕ) (c : ℕ) → Spent (new_state l p c) c
Spent-new l p c = (omega arith, inr (ap (bit 1) self ∙ bit-pow 0 0))
  where
    self : c - c ≡ 0
    self = omega arith

module _ (l p : List ℕ) (c : ℕ) where
  -- The cache holds a state of the sender, and its window holds the counter.
  abbrev pub Holds : ReplayCache → Type 0
  Holds cache = (s : ReplayState) × (find l p cache ≡ some s) × Spent s c

  -- A held counter is refused, and the cache stays as it is.
  pub accept-Holds :
      (cache : ReplayCache)
      → Holds cache
      → (is_ok (accept cache l p c).0 ≡ false) × ((accept cache l p c).1 ≡ cache)
  unfolding accept settle
  accept-Holds cache (s, found, spent) = ground (arith, judge-Spent s c spent)

  Holds-front :
      (cache : ReplayCache) (t : ReplayState)
      → t.lane ≡ l
      → t.prefix ≡ p
      → Spent t c
      → Holds (t ∷ cache)
  Holds-front cache t h k spent = (t, find_front l p t cache h k, spent)

  -- Letting a record in makes the cache hold it.
  pub Holds-accepted :
      (cache : ReplayCache) → is_ok (accept cache l p c).0 ≡ true → Holds (accept cache l p c).1
  Holds-accepted cache h = elim (Option-cases (find l p cache)) [
    | inl none_yet ↦
        rw (accept_new cache l p c none_yet)
          (Holds-front (make_room cache) (new_state l p c) refl refl (Spent-new l p c))
    | inr (s, found) ↦ elim (Result-cases (judge s c)) [
      | inl (t, good) ↦
          let (sl, sp) = is_sender_iff l p s (find_sender l p cache s found) in
          let (tl, tp) = judge_sender s t c good in
          rw (accept_ok cache l p c s t found good) (
            Holds-front (remove t.lane t.prefix cache) t (tl ∙ sl) (tp ∙ sp)
              (Spent-accepted s t c good))
      | inr (e, bad) ↦ ground (arith, accept_err cache l p c s e found bad)
    ]
  ]

  Holds-behind :
      (cache : ReplayCache) (t : ReplayState)
      → same_bytes t.lane l && same_bytes t.prefix p ≡ false
      → Holds cache
      → Holds (t ∷ cache)
  Holds-behind cache t ne (s, found, spent) = (s, find_behind l p t cache ne ∙ found, spent)

  Holds-remove :
      (cache : ReplayCache) (lane prefix : List ℕ)
      → same_bytes lane l && same_bytes prefix p ≡ false
      → Holds cache
      → Holds (remove lane prefix cache)
  Holds-remove cache lane prefix ne (s, found, spent) =
      (s, find-remove_ne lane prefix l p cache ne ∙ found, spent)

  Holds-accept_found :
      (cache : ReplayCache) (lane prefix : List ℕ) (d : ℕ) (s : ReplayState)
      → find lane prefix cache ≡ some s
      → Holds cache
      → Holds (accept cache lane prefix d).1
  Holds-accept_found cache lane prefix d s found h = elim (Result-cases (judge s d)) [
    | inr (e, bad) ↦ rw (accept_err cache lane prefix d s e found bad) h
    | inl (t, good) ↦
        let (sl, sp) = is_sender_iff lane prefix s (find_sender lane prefix cache s found) in
        let (tl, tp) = judge_sender s t d good in
        rw (accept_ok cache lane prefix d s t found good)
          (elim (Bool-cases (same_bytes t.lane l && same_bytes t.prefix p)) [
            | inr other ↦
                Holds-behind (remove t.lane t.prefix cache) t other
                  (Holds-remove cache t.lane t.prefix other h)
            | inl same ↦
                let (al, ap') = is_sender_iff l p t same in
                Holds-front (remove t.lane t.prefix cache) t al ap' (
                  Spent-judge s t c d good (
                    let again : find l p cache ≡ some s =
                      ap₂ (λ x y. find x y cache) (sym al ∙ tl ∙ sl) (sym ap' ∙ tp ∙ sp) ∙ found in
                    subst (λ u. Spent u c) (some-injective h.0 s (sym h.1 ∙ again)) h.2))
          ])
  ]

  -- With room for one more sender, no record makes the cache let go of it.
  pub Holds-accept :
      (cache : ReplayCache) (lane prefix : List ℕ) (d : ℕ)
      → length cache < 1024
      → Holds cache
      → Holds (accept cache lane prefix d).1
  Holds-accept cache lane prefix d room h = elim (Option-cases (find lane prefix cache)) [
    | inr (s, found) ↦ Holds-accept_found cache lane prefix d s found h
    | inl none_yet ↦
        rw (accept_new cache lane prefix d none_yet, make_room_fits cache room)
          (elim (Bool-cases (same_bytes lane l && same_bytes prefix p)) [
            | inr other ↦ Holds-behind cache (new_state lane prefix d) other h
            | inl same ↦
                let (al, ap') = is_sender_iff l p (new_state lane prefix d) same in
                let again : find l p cache ≡ none =
                  ap₂ (λ x y. find x y cache) (sym al) (sym ap') ∙ none_yet in
                absurd (none_ne_some h.0 (sym again ∙ h.1))
          ])
  ]

pub length-accept :
    (cache : ReplayCache) (l p : List ℕ) (c : ℕ)
    → length (accept cache l p c).1 ≤ suc (length cache)
length-accept cache l p c = elim (Option-cases (find l p cache)) [
  | inl none_yet ↦ rw (accept_new cache l p c none_yet) (omega (arith, length-make_room cache))
  | inr (s, found) ↦ elim (Result-cases (judge s c)) [
    | inl (t, good) ↦
        rw (accept_ok cache l p c s t found good)
          (omega (arith, length-remove t.lane t.prefix cache))
    | inr (e, bad) ↦ rw (accept_err cache l p c s e found bad) (omega arith)
  ]
]
