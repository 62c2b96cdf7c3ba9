-- ===== src/Crypto/Record/Nonces.antt =====
-- No nonce is used twice under a key: internal/crypto/chacha.go, laneState, sealWith and nextCounter.
use mathlib.Core.Path.{subst}
use mathlib.Core.List.{append_cancel_left}
use olcrtc.Prelude.{
  ℕ, ◌+◌, ◌-◌, ◌^◌, ◌≤◌, ◌<◌, ◌≡◌, ◌⊎◌, refl, sym, ap, ◌∙◌, inl, inr, Option-cases, Bool-cases,
  false, List, [], ◌∷◌, ◌++◌, Option, some, arith, ◌==◌,
}
use olcrtc.Bytes.{u64_at, be64_round}
use olcrtc.Prelude.Maps.{lookup, bytes_eq, lookup-insert, beq_refl}
use olcrtc.Prelude.Results.{Result, ok, err, ok_inj}
use olcrtc.Crypto.Record.{
  Aead, KeySet, SealState, RecordError, counter_exhausted, record_of, next_counter, lane_state,
  nonce_of, bytes_of_u64, seal_with, seal_on, seal_into,
}

-- Two counters of 64 bits have two nonces.
nonce_of-less :
    (prefix : List ℕ) (m n : ℕ) → m < n → n < 2 ^ 64 → ¬ (nonce_of prefix m ≡ nonce_of prefix n)
nonce_of-less prefix m n less fits same =
    let bytes = append_cancel_left prefix (bytes_of_u64 m) (bytes_of_u64 n) same in
    omega (
      arith,
      be64_round m omega arith,
      be64_round n fits,
      ap (λ (read : List ℕ). u64_at read 0) bytes,
    )

-- A call of SealInto: the associated bytes name the lane, and `random` is what the random source would
-- give for a fresh lane.
pub record SealCall : Type 0 where
  pub dst : List ℕ
  pub plaintext : List ℕ
  pub aad : List ℕ
  pub random : Option (List ℕ)

below_end : (n : ℕ) → n < 2 ^ 64 → (n == 2 ^ 64 - 1) ≡ false → n + 1 < 2 ^ 64
below_end n fits left = ground arith

next_counter_cases :
    (s : SealState)
    → (next_counter s ≡ (err counter_exhausted, s))
      ⊎ ((next_counter s ≡ (ok (s.counter + 1), record s { counter = s.counter + 1 }))
          × ((s.counter == 2 ^ 64 - 1) ≡ false))
unfolding next_counter
next_counter_cases s = elim (Bool-cases (s.counter == 2 ^ 64 - 1)) [
  | inl spent ↦ inl (rw spent refl)
  | inr more ↦ inr (rw more refl, more)
]

module _ {K : Type 0} (aead : Aead K) where
  abbrev pub call : KeySet K → SealCall → Result RecordError (List ℕ) × KeySet K
  call k c = seal_into aead k c.dst c.plaintext c.aad c.random

  unfoldable pub call_all : KeySet K → List SealCall → KeySet K
  call_all k [] = k
  call_all k (c ∷ cs) = call_all (call k c).1 cs

  -- The lane has this prefix, and its counter, a uint64, has come to `c`.
  abbrev LaneAt : KeySet K → List ℕ → List ℕ → ℕ → Type 0
  LaneAt k aad prefix c =
      (s : SealState) × (lookup aad k.lanes ≡ some s)
      × (s.prefix ≡ prefix)
      × (c ≤ s.counter)
      × (s.counter < 2 ^ 64)

  seal_with_state :
      (key : K) (s : SealState) (dst plaintext aad : List ℕ)
      → s.counter < 2 ^ 64
      → let s' = (seal_with aead key s dst plaintext aad).1 in
        (s'.prefix ≡ s.prefix) × (s.counter ≤ s'.counter) × (s'.counter < 2 ^ 64)
  unfolding seal_with
  seal_with_state key s dst plaintext aad fits = elim (next_counter_cases s) [
    | inl spent ↦ rw spent (refl, omega arith, fits)
    | inr (more, left) ↦ rw more (refl, omega arith, below_end s.counter fits left)
  ]

  seal_on-LaneAt :
      (k : KeySet K) (dst plaintext lane aad prefix : List ℕ) (c : ℕ)
      (r : Result RecordError SealState)
      → ((s : SealState)
          → r ≡ ok s
          → lane ≡ aad
          → (s.prefix ≡ prefix) × (c ≤ s.counter) × (s.counter < 2 ^ 64))
      → LaneAt k aad prefix c
      → LaneAt (seal_on aead k dst plaintext lane r).1 aad prefix c
  seal_on-LaneAt k dst plaintext lane aad prefix c (err e) own h = h
  seal_on-LaneAt k dst plaintext lane aad prefix c (ok s) own h =
      let s' = (seal_with aead k.send_key s dst plaintext lane).1 in
      elim (Bool-cases (bytes_eq.beq lane aad)) [
        | inl same ↦
            let at = own s refl ((bytes_eq.beq_iff lane aad).0 same) in
            let kept = seal_with_state k.send_key s dst plaintext lane at.2 in
            (
              s',
              ground (arith, lookup-insert aad lane s' k.lanes, same),
              kept.0 ∙ at.0,
              omega (arith, kept.1, at.1),
              kept.2,
            )
        | inr other ↦
            (h.0, ground (arith, lookup-insert aad lane s' k.lanes, other, h.1), h.2, h.3, h.4)
      ]

  lane_state_found :
      (k : KeySet K) (aad : List ℕ) (random : Option (List ℕ)) (s t : SealState)
      → lookup aad k.lanes ≡ some s
      → lane_state aead k aad random ≡ ok t
      → t ≡ s
  unfolding lane_state
  lane_state_found k aad random s t e h = ground (arith, e, h)

  call-LaneAt :
      (k : KeySet K) (c : SealCall) (aad prefix : List ℕ) (n : ℕ)
      → LaneAt k aad prefix n
      → LaneAt (call k c).1 aad prefix n
  unfolding seal_into
  call-LaneAt k c aad prefix n h =
      let (s, found, same, far, fits) = h in
      seal_on-LaneAt k c.dst c.plaintext c.aad aad prefix n (lane_state aead k c.aad c.random)
        (λ t e lane.
          let t_s =
            lane_state_found k c.aad c.random s t (ap (λ l. lookup l k.lanes) lane ∙ found) e in
          (
            ap (λ u. u.prefix) t_s ∙ same,
            subst (λ u. n ≤ u.counter) (sym t_s) far,
            subst (λ u. u.counter < 2 ^ 64) (sym t_s) fits,
          ))
        h

  call_all-LaneAt :
      (k : KeySet K) (cs : List SealCall) (aad prefix : List ℕ) (n : ℕ)
      → LaneAt k aad prefix n
      → LaneAt (call_all k cs) aad prefix n
  unfolding call_all
  call_all-LaneAt k [] aad prefix n h = h
  call_all-LaneAt k (c ∷ cs) aad prefix n h =
      call_all-LaneAt (call k c).1 cs aad prefix n (call-LaneAt k c aad prefix n h)

  seal_on_key :
      (k : KeySet K) (dst plaintext lane : List ℕ) (r : Result RecordError SealState)
      → (seal_on aead k dst plaintext lane r).1.send_key ≡ k.send_key
  seal_on_key k dst plaintext lane (err e) = refl
  seal_on_key k dst plaintext lane (ok s) = refl

  call_key : (k : KeySet K) (c : SealCall) → (call k c).1.send_key ≡ k.send_key
  unfolding seal_into
  call_key k c = seal_on_key k c.dst c.plaintext c.aad (lane_state aead k c.aad c.random)

  call_all_key : (k : KeySet K) (cs : List SealCall) → (call_all k cs).send_key ≡ k.send_key
  unfolding call_all
  call_all_key k [] = refl
  call_all_key k (c ∷ cs) = call_all_key (call k c).1 cs ∙ call_key k c

  -- The call returned a record of the lane with this prefix and counter.
  abbrev pub IsNumbered : KeySet K → SealCall → List ℕ → List ℕ → ℕ → Type 0
  IsNumbered k c bytes prefix n =
      bytes ≡ c.dst ++ record_of aead k.send_key prefix n c.plaintext c.aad

  seal_with_ok :
      (key : K) (s : SealState) (dst plaintext aad bytes : List ℕ)
      → (seal_with aead key s dst plaintext aad).0 ≡ ok bytes
      → let s' = (seal_with aead key s dst plaintext aad).1 in
        (bytes ≡ dst ++ record_of aead key s.prefix (s.counter + 1) plaintext aad)
        × (s'.prefix ≡ s.prefix)
        × (s'.counter ≡ s.counter + 1)
        × ((s.counter == 2 ^ 64 - 1) ≡ false)
  unfolding seal_with
  seal_with_ok key s dst plaintext aad bytes h = elim (next_counter_cases s) [
    | inl spent ↦ ground (arith, rw spent at h)
    | inr (more, left) ↦ rw more (ok_inj (sym (rw more at h)), refl, refl, left)
  ]

  seal_on_ok :
      (k : KeySet K) (dst plaintext aad bytes : List ℕ) (r : Result RecordError SealState)
      → (seal_on aead k dst plaintext aad r).0 ≡ ok bytes
      → ((t : SealState) → r ≡ ok t → t.counter < 2 ^ 64)
      → (s : SealState) × (r ≡ ok s)
        × (bytes ≡ dst ++ record_of aead k.send_key s.prefix (s.counter + 1) plaintext aad)
        × LaneAt (seal_on aead k dst plaintext aad r).1 aad s.prefix (s.counter + 1)
        × (s.counter + 1 < 2 ^ 64)
  seal_on_ok k dst plaintext aad bytes (err e) h fits = ground (arith, h)
  seal_on_ok k dst plaintext aad bytes (ok s) h fits =
      let s' = (seal_with aead k.send_key s dst plaintext aad).1 in
      let done = seal_with_ok k.send_key s dst plaintext aad bytes h in
      (
        s,
        refl,
        done.0,
        (
          s',
          ground (arith, lookup-insert aad aad s' k.lanes, beq_refl aad),
          done.1,
          omega (arith, done.2),
          omega (arith, done.2, below_end s.counter (fits s refl) done.3),
        ),
        below_end s.counter (fits s refl) done.3,
      )

  -- The sender that a call finds or makes has a counter of 64 bits when the lane's one has.
  lane_state_fits :
      (k : KeySet K) (aad : List ℕ) (random : Option (List ℕ)) (t : SealState)
      → ((s : SealState) → lookup aad k.lanes ≡ some s → s.counter < 2 ^ 64)
      → lane_state aead k aad random ≡ ok t
      → t.counter < 2 ^ 64
  unfolding lane_state
  lane_state_fits k aad random t fits e = elim (Option-cases (lookup aad k.lanes)) [
    | inl unknown ↦ ground (arith, unknown, e)
    | inr (s, found) ↦
        subst (λ u. u.counter < 2 ^ 64) (sym (lane_state_found k aad random s t found e))
          (fits s found)
  ]

  -- A nonce is the lane's prefix and the record's counter in eight bytes. When two calls on one lane
  -- succeed, with any calls between them, and the counter that the lane has at the start is a uint64,
  -- their records have the lane's one prefix and a growing counter that stays below 2 ^ 64, so that
  -- the two nonces differ.
  pub nonce_never_repeats :
      (k : KeySet K) (a : SealCall) (between : List SealCall) (b : SealCall) (x y : List ℕ)
      → ((s : SealState) → lookup a.aad k.lanes ≡ some s → s.counter < 2 ^ 64)
      → a.aad ≡ b.aad
      → (call k a).0 ≡ ok x
      → (call (call_all (call k a).1 between) b).0 ≡ ok y
      → (prefix : List ℕ) × (m : ℕ) × (n : ℕ) × (m < n)
        × (n < 2 ^ 64)
        × ¬ (nonce_of prefix m ≡ nonce_of prefix n)
        × IsNumbered k a x prefix m
        × IsNumbered k b y prefix n
  unfolding seal_into
  nonce_never_repeats k a between b x y fits same first second =
      let k' = call_all (call k a).1 between in
      let one =
        seal_on_ok k a.dst a.plaintext a.aad x (lane_state aead k a.aad a.random) first
          (λ t. lane_state_fits k a.aad a.random t fits) in
      let at = call_all-LaneAt (call k a).1 between a.aad one.0.prefix (one.0.counter + 1) one.3 in
      let found = ap (λ l. lookup l k'.lanes) (sym same) ∙ at.1 in
      let t_at = λ (t : SealState). lane_state_found k' b.aad b.random at.0 t found in
      let two =
        seal_on_ok k' b.dst b.plaintext b.aad y (lane_state aead k' b.aad b.random) second
          (λ t e. subst (λ u. u.counter < 2 ^ 64) (sym (t_at t e)) at.4) in
      let t_s = t_at two.0 two.1 in
      let key : k'.send_key ≡ k.send_key = call_all_key (call k a).1 between ∙ call_key k a in
      let grows : one.0.counter + 1 < two.0.counter + 1 =
        omega (arith, ap (λ s. s.counter) t_s, at.3) in
      (
        one.0.prefix,
        one.0.counter + 1,
        two.0.counter + 1,
        grows,
        two.4,
        nonce_of-less one.0.prefix (one.0.counter + 1) (two.0.counter + 1) grows two.4,
        one.2,
        two.2
            ∙ ap (λ q. b.dst ++ record_of aead q two.0.prefix (two.0.counter + 1) b.plaintext b.aad)
                key
            ∙ ap (λ p. b.dst ++ record_of aead k.send_key p (two.0.counter + 1) b.plaintext b.aad)
                (ap (λ s. s.prefix) t_s ∙ at.2),
      )
