-- ===== src/Transport/Fragment/Assemble.antt =====
-- `assemble` and `storeChunk`: a message is the concatenation of its slots, cut off at the length
-- that was announced, and a slot that is taken stays as it is.
use olcrtc.Prelude.{
  ℕ, zero, suc, ◌+◌, ◌-◌, ◌≤◌, ◌≡◌, refl, sym, ap, ◌∙◌, List, [], ◌∷◌, ◌++◌, Option, length, take,
  length-append, ltb, if◌then◌else◌, Bool-cases, inl, inr, min, arith,
}
use mathlib.Core.List.{append-nil, append_assoc}
use olcrtc.Transport.Fragment.{InboundMessage, bytes_of_slot, held_bytes, assemble_loop, assemble}

-- The bytes of the slots in order.
unfoldable pub content : List (Option (List ℕ)) → List ℕ
content [] = []
content (s ∷ rest) = bytes_of_slot s ++ content rest

pub length-content : (frags : List (Option (List ℕ))) → length (content frags) ≡ held_bytes frags
unfolding content held_bytes
length-content [] = refl
length-content (s ∷ rest) =
    omega (arith, length-append (bytes_of_slot s) (content rest), length-content rest)

pub take_all : (n : ℕ) (xs : List ℕ) → length xs ≤ n → take n xs ≡ xs
take_all zero [] h = refl
take_all zero (x ∷ xs) h = absurd (omega arith)
take_all (suc n) [] h = refl
take_all (suc n) (x ∷ xs) h = ap (λ zs. x ∷ zs) (take_all n xs (omega arith))

take-append_short : (n : ℕ) (xs ys : List ℕ) → n ≤ length xs → take n (xs ++ ys) ≡ take n xs
take-append_short zero xs ys h = refl
take-append_short (suc n) [] ys h = absurd (omega arith)
take-append_short (suc n) (x ∷ xs) ys h =
    ap (λ zs. x ∷ zs) (take-append_short n xs ys (omega arith))

take-append_long :
    (n : ℕ) (xs ys : List ℕ) → length xs ≤ n → take n (xs ++ ys) ≡ xs ++ take (n - length xs) ys
take-append_long n [] ys h = ap (λ m. take m ys) (omega arith)
take-append_long zero (x ∷ xs) ys h = absurd (omega arith)
take-append_long (suc n) (x ∷ xs) ys h =
    ap (λ zs. x ∷ zs)
      (take-append_long n xs ys (omega arith) ∙ ap (λ m. xs ++ take m ys) (omega arith))

loop_lem :
    (size : ℕ) (out : List ℕ) (frags : List (Option (List ℕ)))
    → length out ≤ size
    → assemble_loop size out frags ≡ take size (out ++ content frags)
unfolding assemble_loop content
loop_lem size out [] h = sym (ap (take size) (append-nil out) ∙ take_all size out h)
loop_lem size out (s ∷ rest) h =
    let frag = bytes_of_slot s in
    elim (Bool-cases (ltb size (length out + length frag))) [
      | inl full ↦ rw full (
          sym (
            take-append_long size out (frag ++ content rest) h
            ∙ ap (λ xs. out ++ xs)
                (take-append_short (size - length out) frag (content rest) (ground (arith, full)))))
      | inr fits ↦ rw fits (
          loop_lem size (out ++ frag) rest (ground (arith, fits, length-append out frag))
          ∙ ap (take size) (append_assoc out frag (content rest)))
    ]

-- The message is what the slots hold in order, cut off at the announced length where they hold more.
pub assemble_lem :
    (msg : InboundMessage)
    → assemble msg ≡ take (min msg.total_len (length (content msg.frags))) (content msg.frags)
unfolding assemble
assemble_lem msg =
    loop_lem
      (if ltb msg.total_len (held_bytes msg.frags) then msg.total_len else held_bytes msg.frags) []
      msg.frags (omega arith)
    ∙ ap (λ n. take n (content msg.frags)) (ground (arith, length-content msg.frags))
