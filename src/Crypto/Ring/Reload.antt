-- ===== src/Crypto/Ring/Reload.antt =====
-- What a ring keeps over a reload, and what it takes in: internal/crypto/ring.go, buildRing and Reload.
use olcrtc.Prelude.{
  ℕ, ◌≤◌, ◌<◌, ◌≡◌, ◌⊎◌, refl, sym, ap, ◌∙◌, inl, inr, true, false, List, [], ◌∷◌, ◌++◌, Option,
  none, some, All, arith, ◌==◌, subst,
}
use olcrtc.Prelude.Maps.{bytes_eq}
use olcrtc.Prelude.Results.{Result, ok, err, ok_inj}
use olcrtc.Crypto.Record.{Aead, KeySet, Role}
use olcrtc.Crypto.Ring.{
  Heap, RingEntry, KeyRing, RingError, Built, find, holds, allocated, built_ring, reload,
}
use olcrtc.Crypto.Ring.Entries.{holds_grows, holds_last, All-append, All-map, seen-All, find_id}
use olcrtc.Crypto.Ring.Loop.{step, loop, loop_ind, step_cases, IsMade, entry_for-IsMade, loop_sees}

-- The heap has grown, and what stood in it stands there still.
abbrev pub IsExtended : {K : Type 0} → Heap K → Heap K → Type 0
IsExtended before h = (before.next ≤ h.next) × ((a : ℕ) → a < before.next → h.at a ≡ before.at a)

allocated-IsExtended :
    {K : Type 0} (aead : Aead K) (before h : Heap K) (k : KeySet K)
    → IsExtended before h
    → IsExtended before (allocated aead h k)
allocated-IsExtended aead before h k x = (
  omega (arith, x.0),
  λ a lt. let older : a == h.next ≡ false = ground (arith, x.0) in rw older (x.1 a lt),
)

module _ {K : Type 0} (aead : Aead K) (decode_hex : List ℕ → Option (List ℕ))
    (key_id_of : List ℕ → List ℕ) (prev : KeyRing) (role : Role) where
  -- A key that the previous ring has is served with that ring's key set.
  abbrev IsKept : KeyRing → List ℕ → Type 0
  IsKept r raw = (e : RingEntry) → find prev (key_id_of raw) ≡ some e → holds r e.keys ≡ true

  IsKept-append : (r s : KeyRing) (raw : List ℕ) → IsKept r raw → IsKept (r ++ s) raw
  IsKept-append r s raw kept e found = holds_grows r s e.keys (kept e found)

  IsKept-last :
      (r : KeyRing) (h : Heap K) (raw : List ℕ) (e : RingEntry) (h' : Heap K)
      → IsMade aead decode_hex key_id_of prev role h raw (find prev (key_id_of raw)) e h'
      → IsKept (r ++ e ∷ []) raw
  IsKept-last r h raw e h' (inl made) f found =
      let same : e ≡ f = ground (arith, sym made.0 ∙ found) in
      subst (λ g. holds (r ++ e ∷ []) g.keys ≡ true) same (holds_last r e)
  IsKept-last r h raw e h' (inr made) f found = ground (arith, sym made.0 ∙ found)

  step-IsKept :
      (b : Built) (h : Heap K) (key_hex : List ℕ) (c : Built)
      → (step aead decode_hex key_id_of prev role b h key_hex).0 ≡ ok c
      → All (IsKept b.entries) b.seen
      → All (IsKept c.entries) c.seen
  step-IsKept b h key_hex c good kept =
      let s = step_cases aead decode_hex key_id_of prev role b h (decode_hex key_hex) c good in
      elim s.2 [
        | inl (again, same, left) ↦ subst (λ d. All (IsKept d.entries) d.seen) (sym same) kept
        | inr (e, same, made) ↦
            subst (λ d. All (IsKept d.entries) d.seen) (sym same)
              (
                IsKept-last b.entries h s.0 e
                    (step aead decode_hex key_id_of prev role b h key_hex).1
                    (entry_for-IsMade aead decode_hex key_id_of prev role h s.0 e
                      (step aead decode_hex key_id_of prev role b h key_hex).1 made),
                All-map b.seen (λ raw. IsKept-append b.entries (e ∷ []) raw) kept,
              )
      ]

  -- An entry of the new ring: the previous ring's under its identifier, or one with a new key set.
  abbrev pub IsOrigin : Heap K → Heap K → RingEntry → Type 0
  IsOrigin before h e =
      (find prev e.key_id ≡ some e)
      ⊎ ((find prev e.key_id ≡ none) × (before.next ≤ e.keys) × (e.keys < h.next))

  IsMade-IsOrigin :
      (before h : Heap K) (raw : List ℕ) (e : RingEntry) (h' : Heap K)
      → before.next ≤ h.next
      → IsMade aead decode_hex key_id_of prev role h raw (find prev (key_id_of raw)) e h'
      → IsOrigin before h' e
  IsMade-IsOrigin before h raw e h' le (inl made) =
      inl (subst (λ id. find prev id ≡ some e) (sym (find_id prev (key_id_of raw) e made.0)) made.0)
  IsMade-IsOrigin before h raw e h' le (inr (new, is, k, keyed, at)) = inr (
    ap (λ d. find prev d.key_id) is ∙ new,
    omega (arith, ap (λ d. d.keys) is, le),
    omega (arith, ap (λ d. d.keys) is, ap (λ g. g.next) at),
  )

  IsMade-IsExtended :
      (before h : Heap K) (raw : List ℕ) (e : RingEntry) (h' : Heap K)
      → IsExtended before h
      → IsMade aead decode_hex key_id_of prev role h raw (find prev (key_id_of raw)) e h'
      → IsExtended before h' × (h.next ≤ h'.next)
  IsMade-IsExtended before h raw e h' x (inl made) =
      (subst (IsExtended before) (sym made.1) x, omega (arith, ap (λ g. g.next) made.1))
  IsMade-IsExtended before h raw e h' x (inr (new, is, k, keyed, at)) = (
    subst (IsExtended before) (sym at) (allocated-IsExtended aead before h k x),
    omega (arith, ap (λ g. g.next) at),
  )

  IsOrigin-grows :
      (before h h' : Heap K) (e : RingEntry)
      → h.next ≤ h'.next
      → IsOrigin before h e
      → IsOrigin before h' e
  IsOrigin-grows before h h' e le (inl old) = inl old
  IsOrigin-grows before h h' e le (inr new) = inr (new.0, new.1, omega (arith, new.2))

  step-IsOrigin :
      (before : Heap K) (b : Built) (h : Heap K) (key_hex : List ℕ) (c : Built)
      → (step aead decode_hex key_id_of prev role b h key_hex).0 ≡ ok c
      → IsExtended before h × All (IsOrigin before h) b.entries
      → IsExtended before (step aead decode_hex key_id_of prev role b h key_hex).1
        × All (IsOrigin before (step aead decode_hex key_id_of prev role b h key_hex).1) c.entries
  step-IsOrigin before b h key_hex c good x =
      let s = step_cases aead decode_hex key_id_of prev role b h (decode_hex key_hex) c good in
      let h1 = (step aead decode_hex key_id_of prev role b h key_hex).1 in
      elim s.2 [
        | inl (again, same, left) ↦
            subst (λ g. IsExtended before g × All (IsOrigin before g) c.entries) (sym left)
              (x.0, subst (λ d. All (IsOrigin before h) d.entries) (sym same) x.1)
        | inr (e, same, made) ↦
            let m = entry_for-IsMade aead decode_hex key_id_of prev role h s.0 e h1 made in
            let grown = IsMade-IsExtended before h s.0 e h1 x.0 m in
            (
              grown.0,
              subst (λ d. All (IsOrigin before h1) d.entries) (sym same)
                  (All-append (IsOrigin before h1) b.entries e
                    (All-map b.entries (λ d. IsOrigin-grows before h h1 d grown.1) x.1)
                    (IsMade-IsOrigin before h s.0 e h1 x.0.0 m)),
            )
      ]

  built_ok :
      (state : Result RingError Built × Heap K) (r : KeyRing)
      → (built_ring aead decode_hex key_id_of state).0 ≡ ok r
      → (b : Built) × (state.0 ≡ ok b)
        × (b.entries ≡ r)
        × ((built_ring aead decode_hex key_id_of state).1 ≡ state.1)
  built_ok (err e, h) r good = ground (arith, good)
  built_ok (ok b, h) r good = (b, refl, ok_inj good, refl)

  -- A reload that succeeds came to the end of the loop.
  reload_ok :
      (keys : List (List ℕ)) (h : Heap K) (r : KeyRing)
      → (reload aead decode_hex key_id_of prev keys role h).0 ≡ ok r
      → (b : Built) × ((loop aead decode_hex key_id_of prev role keys
            (record { seen = []; entries = [] })
            h).0
          ≡ ok b)
        × (b.entries ≡ r)
        × ((reload aead decode_hex key_id_of prev keys role h).1
            ≡ (loop aead decode_hex key_id_of prev role keys
                (record { seen = []; entries = [] })
                h).1)
  unfolding reload
  reload_ok [] h r good = ground (arith, good)
  reload_ok (key_hex ∷ more) h r good =
      built_ok
        (loop aead decode_hex key_id_of prev role (key_hex ∷ more)
          (record { seen = []; entries = [] }) h)
        r good

  -- A configured key whose identifier the old ring has an entry for keeps that entry's key set: the
  -- reloaded ring holds it, so its replay windows and counters carry on.
  pub holds-reload :
      (keys : List (List ℕ)) (h : Heap K) (r : KeyRing)
      → (reload aead decode_hex key_id_of prev keys role h).0 ≡ ok r
      → All
          (λ key_hex.
            (raw : List ℕ)
            → decode_hex key_hex ≡ some raw
            → (e : RingEntry) → find prev (key_id_of raw) ≡ some e
            → holds r e.keys ≡ true)
          keys
  holds-reload keys h r good =
      let start : Built = record { seen = []; entries = [] } in
      let s = reload_ok keys h r good in
      let kept =
        loop_ind aead decode_hex key_id_of prev role (λ b g. All (IsKept b.entries) b.seen)
          step-IsKept keys start h s.0 s.1 tt in
      All-map keys
        (λ key_hex sees raw decoded e found.
          subst (λ q. holds q e.keys ≡ true) s.2
            (seen-All (IsKept s.0.entries) raw s.0.seen kept (sees raw decoded) e found))
        (loop_sees aead decode_hex key_id_of prev role keys start h s.0 s.1)

  -- Every entry of a reloaded ring is the old ring's entry under its identifier, or has a key set that
  -- the reload made; and no key set that stood in the heap before is changed.
  pub reload-IsOrigin :
      (keys : List (List ℕ)) (h : Heap K) (r : KeyRing)
      → (reload aead decode_hex key_id_of prev keys role h).0 ≡ ok r
      → let h' = (reload aead decode_hex key_id_of prev keys role h).1 in
        IsExtended h h' × All (IsOrigin h h') r
  reload-IsOrigin keys h r good =
      let start : Built = record { seen = []; entries = [] } in
      let s = reload_ok keys h r good in
      let ended =
        loop_ind aead decode_hex key_id_of prev role
          (λ b g. IsExtended h g × All (IsOrigin h g) b.entries) (step-IsOrigin h) keys start h s.0
          s.1 ((omega arith, λ a lt. refl), tt) in
      subst (λ g. IsExtended h g × All (IsOrigin h g) r) (sym s.3)
        (subst
          (λ q.
            IsExtended h (loop aead decode_hex key_id_of prev role keys start h).1
            × All (IsOrigin h (loop aead decode_hex key_id_of prev role keys start h).1) q)
          s.2 ended)
