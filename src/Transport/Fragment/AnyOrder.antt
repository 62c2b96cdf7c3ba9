-- ===== src/Transport/Fragment/AnyOrder.antt =====
-- The fragments of a message may come in any order and more than once.
use mathlib.Core.Path.{ap₂, subst}
use olcrtc.Prelude.{
  contains, ℕ, zero, suc, ◌≤◌, ◌<◌, ◌≡◌, ◌≢◌, ◌⊎◌, refl, sym, ap, ◌∙◌, true, false, List, [], ◌∷◌,
  ◌++◌, Option, none, some, length, get_elem?, get_or, set, replicate, length-replicate, length-set,
  Bool-cases, inl, inr, min, arith, take,
}
use olcrtc.Transport.Fragment.{
  Fragment, InboundMessage, assemble, slot_free, store_chunk, new_message, fragment_payload,
}
use olcrtc.Transport.Fragment.Assemble.{content, assemble_lem, take_all}
use olcrtc.Transport.Fragment.Split.{joined, fragment_payload_lem}

true_ne_false : true ≡ false → ⊥
true_ne_false h = cc

-- Each slot is free or holds the chunk of its index.
pub PartOf : List (List ℕ) → List (Option (List ℕ)) → Type 0
PartOf [] [] = Unit
PartOf [] (s ∷ ss) = ⊥
PartOf (c ∷ cs) [] = ⊥
PartOf (c ∷ cs) (s ∷ ss) = ((s ≡ none) ⊎ (s ≡ some c)) × PartOf cs ss

pub free_slots : List (Option (List ℕ)) → ℕ
free_slots [] = 0
free_slots (none ∷ ss) = suc (free_slots ss)
free_slots (some c ∷ ss) = free_slots ss

PartOf-replicate : (cs : List (List ℕ)) → PartOf cs (replicate (length cs) none)
unfolding PartOf
PartOf-replicate [] = tt
PartOf-replicate (c ∷ cs) = (inl refl, PartOf-replicate cs)

free_slots-replicate : (n : ℕ) → free_slots (replicate n none) ≡ n
unfolding free_slots
free_slots-replicate zero = refl
free_slots-replicate (suc n) = ap suc (free_slots-replicate n)

PartOf-set :
    (cs : List (List ℕ)) (ss : List (Option (List ℕ))) (i : ℕ)
    → PartOf cs ss
    → PartOf cs (set ss i (some (get_or cs i [])))
unfolding PartOf
PartOf-set [] [] i h = tt
PartOf-set [] (s ∷ ss) i h = absurd h
PartOf-set (c ∷ cs) [] i h = absurd h
PartOf-set (c ∷ cs) (s ∷ ss) zero h = (inr refl, h.1)
PartOf-set (c ∷ cs) (s ∷ ss) (suc i) h = (h.0, PartOf-set cs ss i h.1)

-- A free slot that is filled is one free slot less.
free_slots-set :
    (ss : List (Option (List ℕ))) (i : ℕ) (c : List ℕ)
    → get_elem? ss i ≡ some none
    → suc (free_slots (set ss i (some c))) ≡ free_slots ss
unfolding free_slots
free_slots-set [] i c h = cc
free_slots-set (none ∷ ss) zero c h = refl
free_slots-set (some d ∷ ss) zero c h = ground (arith, h)
free_slots-set (none ∷ ss) (suc i) c h = ap suc (free_slots-set ss i c h)
free_slots-set (some d ∷ ss) (suc i) c h = free_slots-set ss i c h

held_chunk : (c d : List ℕ) → (some d ≡ none) ⊎ (some d ≡ some c) → d ≡ c
held_chunk c d h = ground arith

joined-content :
    (cs : List (List ℕ)) (ss : List (Option (List ℕ)))
    → PartOf cs ss
    → free_slots ss ≡ 0
    → content ss ≡ joined cs
unfolding PartOf free_slots content
joined-content [] [] h z = refl
joined-content [] (s ∷ ss) h z = absurd h
joined-content (c ∷ cs) [] h z = absurd h
joined-content (c ∷ cs) (none ∷ ss) h z = absurd (omega arith)
joined-content (c ∷ cs) (some d ∷ ss) h z =
    ap₂ ◌++◌ (held_chunk c d h.0) (joined-content cs ss h.1 z)

slot_free_get :
    (msg : InboundMessage) (i : ℕ) → slot_free msg i ≡ true → get_elem? msg.frags i ≡ some none
unfolding slot_free
slot_free_get msg i h = ground arith

slot_taken_get :
    (msg : InboundMessage) (i : ℕ) → slot_free msg i ≡ false → get_elem? msg.frags i ≢ some none
unfolding slot_free
slot_taken_get msg i h = ground arith

get_elem?-set-some :
    (ss : List (Option (List ℕ))) (i j : ℕ) (c : List ℕ)
    → get_elem? (set ss j (some c)) i ≡ some none
    → (get_elem? ss i ≡ some none) × (i ≢ j)
get_elem?-set-some [] i j c h = cc
get_elem?-set-some (s ∷ ss) zero zero c h = cc
get_elem?-set-some (s ∷ ss) zero (suc j) c h = (h, λ e. omega arith)
get_elem?-set-some (s ∷ ss) (suc i) zero c h = (h, λ e. omega arith)
get_elem?-set-some (s ∷ ss) (suc i) (suc j) c h =
    let (kept, ne) = get_elem?-set-some ss i j c h in (kept, λ e. ne (omega arith))

all_taken :
    (ss : List (Option (List ℕ)))
    → ((i : ℕ) → i < length ss → get_elem? ss i ≢ some none)
    → free_slots ss ≡ 0
unfolding free_slots
all_taken [] h = refl
all_taken (none ∷ ss) h = absurd (h 0 (omega arith) refl)
all_taken (some c ∷ ss) h = all_taken ss (λ i lt. h (suc i) (omega arith))

-- Fragment `i` of a message with the chunks `cs`, under the header of `f`.
abbrev pub fragment_at : Fragment → List (List ℕ) → ℕ → Fragment
fragment_at f cs i = record f { frag_idx = i; payload = get_or cs i [] }

-- The fragments that come, by their indexes.
unfoldable pub store_all : Fragment → List (List ℕ) → InboundMessage → List ℕ → InboundMessage
store_all f cs msg [] = msg
store_all f cs msg (i ∷ is) = store_all f cs (store_chunk msg (fragment_at f cs i)) is

module _ (f : Fragment) (cs : List (List ℕ)) where
  pub record IsFilling (msg : InboundMessage) : Type 0 where
    pub part : PartOf cs msg.frags
    pub counted : msg.remain ≡ free_slots msg.frags
    pub slots : length msg.frags ≡ length cs
    pub announced : msg.total_len ≡ f.total_len

  pub store_chunk-IsFilling :
      (msg : InboundMessage) (i : ℕ)
      → IsFilling msg
      → IsFilling (store_chunk msg (fragment_at f cs i))
  unfolding store_chunk
  store_chunk-IsFilling msg i v = ground (
    arith,
    PartOf-set cs msg.frags i v.part,
    slot_free_get msg i,
    free_slots-set msg.frags i (get_or cs i []),
    length-set msg.frags i (some (get_or cs i [])),
  )

  -- A slot that is free after a fragment was free before it, and is not the fragment's own.
  store_chunk_free :
      (msg : InboundMessage) (i j : ℕ)
      → get_elem? (store_chunk msg (fragment_at f cs j)).frags i ≡ some none
      → (get_elem? msg.frags i ≡ some none) × (i ≢ j)
  unfolding store_chunk
  store_chunk_free msg i j h = elim (Bool-cases (slot_free msg j)) [
    | inl free ↦ get_elem?-set-some msg.frags i j (get_or cs j []) (ground (arith, free, h))
    | inr taken ↦
        let kept : get_elem? msg.frags i ≡ some none = ground (arith, taken, h) in
        (
          kept,
          λ e. slot_taken_get msg j taken (subst (λ k. get_elem? msg.frags k ≡ some none) e kept),
        )
  ]

  store_all-IsFilling :
      (msg : InboundMessage) (is : List ℕ) → IsFilling msg → IsFilling (store_all f cs msg is)
  unfolding store_all
  store_all-IsFilling msg [] v = v
  store_all-IsFilling msg (i ∷ is) v =
      store_all-IsFilling (store_chunk msg (fragment_at f cs i)) is (store_chunk-IsFilling msg i v)

  store_all_free :
      (msg : InboundMessage) (is : List ℕ) (i : ℕ)
      → get_elem? (store_all f cs msg is).frags i ≡ some none
      → (get_elem? msg.frags i ≡ some none) × (contains i is ≡ false)
  unfolding store_all contains
  store_all_free msg [] i h = (h, refl)
  store_all_free msg (j ∷ is) i h =
      let (mid, rest) = store_all_free (store_chunk msg (fragment_at f cs j)) is i h in
      let (kept, ne) = store_chunk_free msg i j mid in (kept, ground arith)

pub new_message-IsFilling :
    (f : Fragment) (cs : List (List ℕ)) (added : ℕ)
    → f.frag_total ≡ length cs
    → IsFilling f cs (new_message f added)
new_message-IsFilling f cs added e = record {
  part = subst (λ n. PartOf cs (replicate n none)) (sym e) (PartOf-replicate cs);
  counted = sym (free_slots-replicate f.frag_total);
  slots = length-replicate f.frag_total none ∙ e;
  announced = refl;
}

-- A filled message with no slot free is put together as the bytes that were split.
pub IsFilling-assemble :
    (f : Fragment) (bytes : List ℕ) (n : ℕ) (msg : InboundMessage)
    → 1 ≤ n
    → f.total_len ≡ length bytes
    → IsFilling f (fragment_payload bytes n) msg
    → msg.remain ≡ 0
    → assemble msg ≡ bytes
IsFilling-assemble f bytes n msg hn ht v done =
    let whole : content msg.frags ≡ bytes =
      joined-content (fragment_payload bytes n) msg.frags v.part (omega (arith, v.counted))
      ∙ (fragment_payload_lem bytes n hn).0 in
    assemble_lem msg
    ∙ ap (take (min msg.total_len (length (content msg.frags)))) whole
    ∙ take_all (min msg.total_len (length (content msg.frags))) bytes
        (omega (arith, v.announced, ap length whole))

-- A message that was split and whose fragments all come, in any order and some of them again, is
-- complete, and is put together as it was: its header announces its length and its chunks.
pub any_order :
    (bytes : List ℕ) (max_size : ℕ) (f : Fragment) (added : ℕ) (is : List ℕ)
    → 1 ≤ max_size
    → f.total_len ≡ length bytes
    → f.frag_total ≡ length (fragment_payload bytes max_size)
    → ((i : ℕ) → i < length (fragment_payload bytes max_size) → contains i is ≡ true)
    → let msg = store_all f (fragment_payload bytes max_size) (new_message f added) is in
      (msg.remain ≡ 0) × (assemble msg ≡ bytes)
any_order bytes n f added is hn ht hf covers =
    let cs = fragment_payload bytes n in
    let start = new_message f added in
    let msg = store_all f cs start is in
    let v = store_all-IsFilling f cs start is (new_message-IsFilling f cs added hf) in
    let full : free_slots msg.frags ≡ 0 = all_taken msg.frags (λ i lt h.
      true_ne_false
        (sym (covers i (omega (arith, v.slots))) ∙ (store_all_free f cs start is i h).1)) in
    let none_left : msg.remain ≡ 0 = omega (arith, v.counted) in
    (none_left, IsFilling-assemble f bytes n msg hn ht v none_left)
