-- ===== src/Crypto/Ring/Loop.antt =====
-- The loop of buildRing, one key after the other: internal/crypto/ring.go.
use olcrtc.Prelude.{
  ℕ, ◌≡◌, ◌⊎◌, refl, sym, ap, ◌∙◌, inl, inr, true, Bool-cases, List, [], ◌∷◌, ◌++◌, Option, none,
  some, All, arith, subst,
}
use olcrtc.Prelude.Maps.{bytes_eq, beq_refl, is_in}
use olcrtc.Prelude.Results.{Result, ok, err, ok_inj}
use olcrtc.Crypto.Record.{Aead, KeySet, Role, RecordError, new_key_set}
use olcrtc.Crypto.Ring.{
  Heap, RingEntry, KeyRing, RingError, Built, find, added, allocated, created, entry_found,
  entry_for, build_raw, build_from,
}

module _ {K : Type 0} (aead : Aead K) (decode_hex : List ℕ → Option (List ℕ))
    (key_id_of : List ℕ → List ℕ) (prev : KeyRing) (role : Role) where
  abbrev pub step : Built → Heap K → List ℕ → Result RingError Built × Heap K
  step b h key_hex = build_raw aead decode_hex key_id_of prev role b h (decode_hex key_hex)

  abbrev pub loop : List (List ℕ) → Built → Heap K → Result RingError Built × Heap K
  loop keys b h = build_from aead decode_hex key_id_of prev role keys (ok b, h)

  pub loop_err :
      (keys : List (List ℕ)) (e : RingError) (h : Heap K)
      → build_from aead decode_hex key_id_of prev role keys (err e, h) ≡ (err e, h)
  unfolding build_from
  loop_err [] e h = refl
  loop_err (key_hex ∷ more) e h = refl

  pub loop_went_on :
      (more : List (List ℕ)) (state : Result RingError Built × Heap K) (b' : Built)
      → let end = build_from aead decode_hex key_id_of prev role more state in
        end.0 ≡ ok b'
        → (c : Built) × (state.0 ≡ ok c)
          × ((loop more c state.1).0 ≡ ok b')
          × (end ≡ loop more c state.1)
  loop_went_on more (ok c, h) b' good = (c, refl, good, refl)
  loop_went_on more (err e, h) b' good =
      ground (arith, sym good ∙ ap (λ s. s.0) (loop_err more e h))

  pub loop_cons :
      (key_hex : List ℕ) (more : List (List ℕ)) (b : Built) (h : Heap K)
      → loop (key_hex ∷ more) b h
        ≡ build_from aead decode_hex key_id_of prev role more (step b h key_hex)
  unfolding build_from
  loop_cons key_hex more b h = refl

  pub loop_nil : (b : Built) (h : Heap K) → loop [] b h ≡ (ok b, h)
  unfolding build_from
  loop_nil b h = refl

  -- The loop that ends well went on from every key.
  pub loop-step :
      (key_hex : List ℕ) (more : List (List ℕ)) (b : Built) (h : Heap K) (b' : Built)
      → (loop (key_hex ∷ more) b h).0 ≡ ok b'
      → (c : Built) × ((step b h key_hex).0 ≡ ok c)
        × ((loop more c (step b h key_hex).1).0 ≡ ok b')
        × (loop (key_hex ∷ more) b h ≡ loop more c (step b h key_hex).1)
  loop-step key_hex more b h b' good =
      let first = loop_cons key_hex more b h in
      let on = loop_went_on more (step b h key_hex) b' (ap (λ s. s.0) (sym first) ∙ good) in
      (on.0, on.1, on.2, first ∙ on.3)

  pub loop_ind :
      (I : Built → Heap K → Type 0)
      → ((b : Built) (h : Heap K) (key_hex : List ℕ) (c : Built)
          → (step b h key_hex).0 ≡ ok c
          → I b h
          → I c (step b h key_hex).1)
      → (keys : List (List ℕ)) (b : Built) (h : Heap K) (b' : Built) → (loop keys b h).0 ≡ ok b'
      → I b h
      → I b' (loop keys b h).1
  loop_ind I keeps [] b h b' good i =
      let end = loop_nil b h in
      let same : b ≡ b' = ok_inj (ap (λ s. s.0) (sym end) ∙ good) in
      subst (λ g. I b' g) (ap (λ s. s.1) (sym end)) (subst (λ c. I c h) same i)
  loop_ind I keeps (key_hex ∷ more) b h b' good i =
      let s = loop-step key_hex more b h b' good in
      subst (I b') (ap (λ t. t.1) (sym s.3))
        (loop_ind I keeps more s.0 (step b h key_hex).1 b' s.2 (keeps b h key_hex s.0 s.1 i))

  pub added_ok :
      (raw : List ℕ) (b : Built) (r : Result RingError RingEntry × Heap K) (c : Built)
      → (added aead raw b r).0 ≡ ok c
      → (e : RingEntry) × (c ≡ record { seen = raw ∷ b.seen; entries = b.entries ++ e ∷ [] })
        × (r ≡ (ok e, (added aead raw b r).1))
  added_ok raw b (err f, h) c good = ground (arith, good)
  added_ok raw b (ok e, h) c good = (e, sym (ok_inj good), refl)

  -- What a step that goes on has done: the key was there already, or its entry stands last.
  pub step_cases :
      (b : Built) (h : Heap K) (raw : Option (List ℕ)) (c : Built)
      → let s = build_raw aead decode_hex key_id_of prev role b h raw in
        s.0 ≡ ok c
        → (bytes : List ℕ) × (raw ≡ some bytes)
          × (((is_in bytes b.seen ≡ true) × (c ≡ b) × (s.1 ≡ h))
              ⊎ ((e : RingEntry) × (c
                    ≡ record { seen = bytes ∷ b.seen; entries = b.entries ++ e ∷ [] })
                  × (entry_for aead decode_hex key_id_of prev role h bytes ≡ (ok e, s.1))))
  unfolding build_raw
  step_cases b h none c good = ground (arith, good)
  step_cases b h (some raw) c good = elim (Bool-cases (is_in raw b.seen)) [
    | inl again ↦ (raw, refl, inl (again, sym (ok_inj (rw again at good)), rw again refl))
    | inr first ↦
        let done =
          added_ok raw b (entry_for aead decode_hex key_id_of prev role h raw) c
            (rw first at good) in
        (raw, refl, inr (done.0, done.1, rw first done.2))
  ]

  pub created_ok :
      (h : Heap K) (raw : List ℕ) (r : Result RecordError (KeySet K)) (e : RingEntry) (h' : Heap K)
      → created aead decode_hex key_id_of h raw r ≡ (ok e, h')
      → (k : KeySet K) × (r ≡ ok k)
        × (e ≡ record { keys = h.next; key_id = key_id_of raw })
        × (h' ≡ allocated aead h k)
  created_ok h raw (err f) e h' good = ground (arith, ap (λ s. s.0) good)
  created_ok h raw (ok k) e h' good =
      (k, refl, sym (ok_inj (ap (λ s. s.0) good)), sym (ap (λ s. s.1) good))

  -- Where an entry comes from: the previous ring, or a new key set.
  abbrev pub IsMade : Heap K → List ℕ → Option RingEntry → RingEntry → Heap K → Type 0
  IsMade h raw o e h' =
      ((o ≡ some e) × (h' ≡ h))
      ⊎ ((o ≡ none)
          × (e ≡ record { keys = h.next; key_id = key_id_of raw })
          × (k : KeySet K) × (new_key_set aead raw role ≡ ok k)
          × (h' ≡ allocated aead h k))

  pub entry_found-IsMade :
      (h : Heap K) (raw : List ℕ) (o : Option RingEntry) (e : RingEntry) (h' : Heap K)
      → entry_found aead decode_hex key_id_of role h raw o ≡ (ok e, h')
      → IsMade h raw o e h'
  entry_found-IsMade h raw (some kept) e h' good =
      inl (ap some (ok_inj (ap (λ s. s.0) good)), sym (ap (λ s. s.1) good))
  entry_found-IsMade h raw none e h' good =
      let made = created_ok h raw (new_key_set aead raw role) e h' good in
      inr (refl, made.2, made.0, made.1, made.3)

  pub entry_for-IsMade :
      (h : Heap K) (raw : List ℕ) (e : RingEntry) (h' : Heap K)
      → entry_for aead decode_hex key_id_of prev role h raw ≡ (ok e, h')
      → IsMade h raw (find prev (key_id_of raw)) e h'
  unfolding entry_for
  entry_for-IsMade h raw e h' good = entry_found-IsMade h raw (find prev (key_id_of raw)) e h' good

  pub is_in_cons :
      (raw s : List ℕ) (seen : List (List ℕ)) → is_in raw seen ≡ true → is_in raw (s ∷ seen) ≡ true
  unfolding is_in
  is_in_cons raw s seen h = ground arith

  pub is_in_first : (raw : List ℕ) (seen : List (List ℕ)) → is_in raw (raw ∷ seen) ≡ true
  unfolding is_in
  is_in_first raw seen = ground (arith, beq_refl raw)

  pub step_seen :
      (raw : List ℕ) (b : Built) (h : Heap K) (key_hex : List ℕ) (c : Built)
      → (step b h key_hex).0 ≡ ok c
      → is_in raw b.seen ≡ true
      → is_in raw c.seen ≡ true
  step_seen raw b h key_hex c good seen =
      let s = step_cases b h (decode_hex key_hex) c good in
      elim s.2 [
        | inl (again, same, left) ↦ subst (λ d. is_in raw d.seen ≡ true) (sym same) seen
        | inr (e, same, made) ↦
            subst (λ d. is_in raw d.seen ≡ true) (sym same) (is_in_cons raw s.0 b.seen seen)
      ]

  pub step_adds :
      (b : Built) (h : Heap K) (key_hex raw : List ℕ) (c : Built)
      → (step b h key_hex).0 ≡ ok c
      → decode_hex key_hex ≡ some raw
      → is_in raw c.seen ≡ true
  step_adds b h key_hex raw c good decoded =
      let s = step_cases b h (decode_hex key_hex) c good in
      let at : s.0 ≡ raw = ground (arith, sym s.1 ∙ decoded) in
      subst (λ x. is_in x c.seen ≡ true) at
        (elim s.2 [
          | inl (again, same, left) ↦ subst (λ d. is_in s.0 d.seen ≡ true) (sym same) again
          | inr (e, same, made) ↦
              subst (λ d. is_in s.0 d.seen ≡ true) (sym same) (is_in_first s.0 b.seen)
        ])

  -- The loop sees every key it was given.
  pub loop_sees :
      (keys : List (List ℕ)) (b : Built) (h : Heap K) (b' : Built)
      → (loop keys b h).0 ≡ ok b'
      → All
          (λ key_hex. (raw : List ℕ) → decode_hex key_hex ≡ some raw → is_in raw b'.seen ≡ true)
          keys
  loop_sees [] b h b' good = tt
  loop_sees (key_hex ∷ more) b h b' good =
      let s = loop-step key_hex more b h b' good in
      let h1 = (step b h key_hex).1 in
      (
        λ raw decoded.
            loop_ind (λ c g. is_in raw c.seen ≡ true) (λ c g k. step_seen raw c g k) more s.0 h1 b'
              s.2 (step_adds b h key_hex raw s.0 s.1 decoded),
        loop_sees more s.0 h1 b' s.2,
      )
