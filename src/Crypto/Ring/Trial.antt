-- ===== src/Crypto/Ring/Trial.antt =====
-- Which entry of a ring opens a record: internal/crypto/ring.go, TryOpen.
use mathlib.Core.Path.{fun_ext}
use olcrtc.Prelude.{
  ℕ, ◌≡◌, refl, sym, ap, ◌∙◌, inl, inr, true, false, Bool-cases, List, [], ◌∷◌, ◌++◌, All, arith,
  ◌==◌, ==_iff, subst,
}
use olcrtc.Prelude.Results.{Result, ok, err, err_inj, Result-cases}
use olcrtc.Crypto.Record.{Aead, KeySet, RecordError, authentication, open_into}
use olcrtc.Crypto.Record.Open.{open_into_refused}
use olcrtc.Crypto.Ring.{
  Heap, RingEntry, KeyRing, RingError, no_ring_match, record_error, put, is_authentication, tried,
  try_open,
}

authentication_only : (g : RecordError) → is_authentication g ≡ true → g ≡ authentication
authentication_only g auth = ground (arith, auth)

module _ {K : Type 0} (aead : Aead K) where
  -- What the key set of an entry says of a record.
  abbrev pub answer : Heap K → List ℕ → List ℕ → List ℕ → RingEntry → Result RecordError (List ℕ)
  answer h dst bytes aad e = (open_into aead (h.at e.keys) dst bytes aad).0

  put_same : (h : Heap K) (a : ℕ) (k : KeySet K) → k ≡ h.at a → put aead h a k ≡ h
  put_same h a k same =
      ap (λ f. record h { at = f })
        (fun_ext (λ b. elim (Bool-cases (b == a)) [
          | inl here ↦ rw here (same ∙ ap h.at (sym ((==_iff b a).0 here)))
          | inr there ↦ rw there refl
        ]))

  tried_next :
      (e : RingEntry) (h : Heap K) (attempt : Result RecordError (List ℕ) × KeySet K)
      (rest : Result RingError (List ℕ × RingEntry) × Heap K)
      → attempt.0 ≡ err authentication
      → tried aead e h attempt rest ≡ rest
  tried_next e h (ok p, k) rest refused = ground (arith, refused)
  tried_next e h (err f, k) rest refused =
      let auth : is_authentication f ≡ true = ap is_authentication (err_inj refused) in rw auth refl

  -- An entry that does not authenticate the record is passed over, and the heap is the one before it.
  try_open_next :
      (e : RingEntry) (r : KeyRing) (h : Heap K) (dst bytes aad : List ℕ)
      → answer h dst bytes aad e ≡ err authentication
      → try_open aead (e ∷ r) h dst bytes aad ≡ try_open aead r h dst bytes aad
  unfolding try_open
  try_open_next e r h dst bytes aad refused =
      let attempt = open_into aead (h.at e.keys) dst bytes aad in
      let same =
        put_same h e.keys attempt.1
          (open_into_refused aead (h.at e.keys) dst bytes aad authentication refused) in
      tried_next e h attempt (try_open aead r (put aead h e.keys attempt.1) dst bytes aad) refused
      ∙ ap (λ g. try_open aead r g dst bytes aad) same

  try_open_skip :
      (before r : KeyRing) (h : Heap K) (dst bytes aad : List ℕ)
      → All (λ e. answer h dst bytes aad e ≡ err authentication) before
      → try_open aead (before ++ r) h dst bytes aad ≡ try_open aead r h dst bytes aad
  try_open_skip [] r h dst bytes aad refuse = refl
  try_open_skip (e ∷ before) r h dst bytes aad refuse =
      try_open_next e (before ++ r) h dst bytes aad refuse.0
      ∙ try_open_skip before r h dst bytes aad refuse.1

  -- The answer that decides the trial: a plaintext with its entry, or an error other than
  -- authentication.
  abbrev pub decided :
      RingEntry → Result RecordError (List ℕ) → Result RingError (List ℕ × RingEntry)
  decided e (ok plaintext) = ok (plaintext, e)
  decided e (err f) = err (record_error f)

  abbrev pub IsDecisive : Result RecordError (List ℕ) → Type 0
  IsDecisive (ok plaintext) = Unit {0}
  IsDecisive (err f) = is_authentication f ≡ false

  tried-decided :
      (e : RingEntry) (h : Heap K) (attempt : Result RecordError (List ℕ) × KeySet K)
      (rest : Result RingError (List ℕ × RingEntry) × Heap K)
      → IsDecisive attempt.0
      → tried aead e h attempt rest ≡ (decided e attempt.0, put aead h e.keys attempt.1)
  tried-decided e h (ok p, k) rest decisive = refl
  tried-decided e h (err f, k) rest decisive = rw decisive refl

  try_open-decided :
      (e : RingEntry) (r : KeyRing) (h : Heap K) (dst bytes aad : List ℕ)
      → IsDecisive (answer h dst bytes aad e)
      → try_open aead (e ∷ r) h dst bytes aad ≡ (
        decided e (answer h dst bytes aad e),
        put aead h e.keys (open_into aead (h.at e.keys) dst bytes aad).1,
      )
  unfolding try_open
  try_open-decided e r h dst bytes aad decisive =
      let attempt = open_into aead (h.at e.keys) dst bytes aad in
      tried-decided e h attempt (try_open aead r (put aead h e.keys attempt.1) dst bytes aad)
        decisive

  -- The first entry that does not fail authentication decides: its answer, a plaintext or an error, is
  -- the trial's, the entries behind it are not asked, and of the heap only its own key set is written.
  pub try_open_first :
      (before : KeyRing) (e : RingEntry) (after : KeyRing) (h : Heap K) (dst bytes aad : List ℕ)
      → All (λ d. answer h dst bytes aad d ≡ err authentication) before
      → IsDecisive (answer h dst bytes aad e)
      → try_open aead (before ++ e ∷ after) h dst bytes aad ≡ (
        decided e (answer h dst bytes aad e),
        put aead h e.keys (open_into aead (h.at e.keys) dst bytes aad).1,
      )
  try_open_first before e after h dst bytes aad refuse decisive =
      try_open_skip before (e ∷ after) h dst bytes aad refuse
      ∙ try_open-decided e after h dst bytes aad decisive

  try_open_nil :
      (h : Heap K) (dst bytes aad : List ℕ)
      → try_open aead [] h dst bytes aad ≡ (err no_ring_match, h)
  unfolding try_open
  try_open_nil h dst bytes aad = refl

  -- A trial that gives an error leaves every key set in the heap as it was, replay windows included.
  pub try_open_refused :
      (r : KeyRing) (h : Heap K) (dst bytes aad : List ℕ) (f : RingError)
      → (try_open aead r h dst bytes aad).0 ≡ err f
      → (try_open aead r h dst bytes aad).1 ≡ h
  try_open_refused [] h dst bytes aad f failed = ap (λ t. t.1) (try_open_nil h dst bytes aad)
  try_open_refused (e ∷ r) h dst bytes aad f failed =
      let k = open_into aead (h.at e.keys) dst bytes aad in
      elim (Result-cases (answer h dst bytes aad e)) [
        | inl (p, opened) ↦
            let at = try_open-decided e r h dst bytes aad (subst IsDecisive (sym opened) tt) in
            ground (arith, sym failed ∙ ap (λ t. t.0) at ∙ ap (decided e) opened)
        | inr (g, refused) ↦ elim (Bool-cases (is_authentication g)) [
          | inl skip ↦
              let at =
                try_open_next e r h dst bytes aad (refused ∙ ap err (authentication_only g skip)) in
              ap (λ t. t.1) at
              ∙ try_open_refused r h dst bytes aad f (ap (λ t. t.0) (sym at) ∙ failed)
          | inr stop ↦
              let at = try_open-decided e r h dst bytes aad (subst IsDecisive (sym refused) stop) in
              ap (λ t. t.1) at
              ∙ put_same h e.keys k.1 (open_into_refused aead (h.at e.keys) dst bytes aad g refused)
        ]
      ]
