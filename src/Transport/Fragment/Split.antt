-- ===== src/Transport/Fragment/Split.antt =====
-- FragmentPayload: the chunks make up the payload, and each has the size asked for but the last.
use olcrtc.Prelude.{
  ℕ, zero, suc, ◌+◌, ◌-◌, ◌*◌, ◌≤◌, ◌<◌, ◌≡◌, refl, ap, ◌∙◌, List, [], ◌∷◌, ◌++◌, length, take,
  drop, take-append-drop, length-take, length-drop, All, max, min, ◌/◌, arith,
}
use native.Mathlib.Nat.{div-eq_of_lt, div-eq_of_lt-le}
use olcrtc.Transport.Fragment.{chunks, fragment_payload}

abbrev pub joined : List (List ℕ) → List ℕ
joined [] = []
joined (x ∷ xs) = x ++ joined xs

joined-chunks :
    (fuel n : ℕ) (bytes : List ℕ)
    → 1 ≤ n
    → length bytes ≤ fuel
    → joined (chunks fuel n bytes) ≡ bytes
unfolding chunks
joined-chunks zero n [] h k = refl
joined-chunks zero n (b ∷ bs) h k = absurd (omega arith)
joined-chunks (suc fuel) n [] h k = refl
joined-chunks (suc fuel) n (b ∷ bs) h k =
    ap (λ xs. take n (b ∷ bs) ++ xs)
      (joined-chunks fuel n (drop n (b ∷ bs)) h (omega (arith, length-drop n (b ∷ bs))))
    ∙ take-append-drop n (b ∷ bs)

chunks_sized :
    (least fuel n : ℕ) (bytes : List ℕ)
    → least ≤ 1
    → 1 ≤ n
    → length bytes ≤ fuel
    → All (λ c. (least ≤ length c) × (length c ≤ n)) (chunks fuel n bytes)
unfolding chunks
chunks_sized least zero n bytes l h k = tt
chunks_sized least (suc fuel) n [] l h k = tt
chunks_sized least (suc fuel) n (b ∷ bs) l h k = (
  (omega (arith, length-take n (b ∷ bs)), omega (arith, length-take n (b ∷ bs))),
  chunks_sized least fuel n (drop n (b ∷ bs)) l h (omega (arith, length-drop n (b ∷ bs))),
)

count_step :
    (m n len rest : ℕ)
    → 1 ≤ n
    → rest ≡ suc len - n
    → m * n < rest + n
    → rest ≤ m * n
    → (suc m * n < suc len + n) × (suc len ≤ suc m * n)
count_step zero n len rest h e lt le = (omega arith, omega arith)
count_step (suc m) n len rest h e lt le = (grind arith, grind arith)

length-chunks :
    (fuel n : ℕ) (bytes : List ℕ)
    → 1 ≤ n
    → length bytes ≤ fuel
    → (length (chunks fuel n bytes) * n < length bytes + n)
      × (length bytes ≤ length (chunks fuel n bytes) * n)
unfolding chunks
length-chunks zero n bytes h k = (omega arith, omega arith)
length-chunks (suc fuel) n [] h k = (omega arith, omega arith)
length-chunks (suc fuel) n (b ∷ bs) h k =
    let rest = drop n (b ∷ bs) in
    let (lt, le) = length-chunks fuel n rest h (omega (arith, length-drop n (b ∷ bs))) in
    count_step (length (chunks fuel n rest)) n (length bs) (length rest) h (length-drop n (b ∷ bs))
      lt le

count_rounded :
    (k n len : ℕ)
    → 1 ≤ n
    → k * n < suc len + n
    → suc len ≤ k * n
    → k ≡ max ((suc len + n - 1) / n) 1
count_rounded zero n len h lt le = absurd (omega arith)
count_rounded (suc k) n len h lt le =
    omega (arith, div-eq_of_lt-le {k = suc k} n {m = suc len + n - 1} (omega arith) (omega arith))

whole_chunks :
    (b : ℕ) (bs : List ℕ) (n : ℕ)
    → 1 ≤ n
    → fragment_payload (b ∷ bs) n ≡ chunks (suc (length bs)) n (b ∷ bs)
unfolding fragment_payload
whole_chunks b bs n h = ground arith

-- The fragments in order make up the payload again, each is of at most the size asked for, and none
-- is empty unless the payload is. They are as many as the sender's window makes of it: the length over
-- the size, rounded up, and at least 1.
pub fragment_payload_lem :
    (bytes : List ℕ) (max_size : ℕ)
    → 1 ≤ max_size
    → (joined (fragment_payload bytes max_size) ≡ bytes)
      × (length (fragment_payload bytes max_size)
          ≡ max ((length bytes + max_size - 1) / max_size) 1)
      × All
          (λ c. (min 1 (length bytes) ≤ length c) × (length c ≤ max_size))
          (fragment_payload bytes max_size)
unfolding fragment_payload
fragment_payload_lem [] n h =
    (refl, ground (arith, div-eq_of_lt {n = 0 + n - 1} {m = n}), omega arith)
fragment_payload_lem (b ∷ bs) n h = rw (whole_chunks b bs n h) (
  joined-chunks (suc (length bs)) n (b ∷ bs) h (omega arith),
  (let c = length-chunks (suc (length bs)) n (b ∷ bs) h (omega arith) in
      count_rounded (length (chunks (suc (length bs)) n (b ∷ bs))) n (length bs) h c.0 c.1),
  chunks_sized (min 1 (suc (length bs))) (suc (length bs)) n (b ∷ bs) (omega arith) h (omega arith),
)
