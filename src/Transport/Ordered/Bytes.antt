-- ===== src/Transport/Ordered/Bytes.antt =====
-- The count of bytes an ordered receiver keeps: internal/transport/common/ordered.go, field bytes.
use olcrtc.Prelude.{
  ℕ, zero, suc, ◌+◌, ◌-◌, ◌^◌, ◌%◌, ◌≤◌, ◌≡◌, refl, List, [], ◌∷◌, Option, none, some, length,
  arith, if◌then◌else◌, set, get_elem?, replicate,
}
use olcrtc.Prelude.Maps.{lookup, insert, erase, nat_eq}
use olcrtc.Transport.Frame.{Frame}
use olcrtc.Transport.Fragment.{
  Fragment, InboundMessage, slot_free, store_chunk, held_bytes, assemble,
}
use olcrtc.Transport.Ordered.{
  Ordered, take_held, advance, drain_loop, drain, skip_loop, skip_to, drop, adopt, current, stored,
  complete, store, push, fragment_of,
}

module _ {V : Type 0} (size : V → ℕ) where
  abbrev pub total : List (ℕ × V) → ℕ
  total [] = 0
  total ((k, v) ∷ m) = size v + total m

  abbrev pub size_of : Option V → ℕ
  size_of none = 0
  size_of (some v) = size v

  total-erase : (k : ℕ) (m : List (ℕ × V)) → total (erase k m) + size_of (lookup k m) ≤ total m
  unfolding erase lookup
  total-erase k [] = omega arith
  total-erase k ((j, w) ∷ m) = ground (arith, total-erase k m)

  pub total-insert :
      (k : ℕ) (v : V) (m : List (ℕ × V))
      → total (insert k v m) + size_of (lookup k m) ≡ total m + size v
  unfolding insert lookup
  total-insert k v [] = omega arith
  total-insert k v ((j, w) ∷ m) = ground (arith, total-insert k v m)

abbrev pub in_partial : InboundMessage → ℕ
in_partial msg = held_bytes msg.frags

-- What the receiver keeps: the chunks of the messages in part, and the whole messages held.
abbrev pub kept : Ordered → ℕ
kept o = total in_partial o.partial + total (λ whole. length whole) o.held

-- The count is at least what is kept, so that what is taken off it was added to it.
unfoldable pub IsCovered : Ordered → Type 0
IsCovered o = kept o ≤ o.bytes

held_bytes-set :
    (frags : List (Option (List ℕ))) (i : ℕ) (chunk : List ℕ)
    → get_elem? frags i ≡ some none
    → held_bytes (set frags i (some chunk)) ≡ held_bytes frags + length chunk
unfolding held_bytes
held_bytes-set [] i chunk e = ground arith
held_bytes-set (s ∷ frags) zero chunk e = ground arith
held_bytes-set (s ∷ frags) (suc i) chunk e = ground (arith, held_bytes-set frags i chunk)

held_bytes-store_chunk :
    (msg : InboundMessage) (f : Fragment)
    → held_bytes (store_chunk msg f).frags
      ≡ held_bytes msg.frags + (if slot_free msg f.frag_idx then length f.payload else 0)
unfolding store_chunk slot_free
held_bytes-store_chunk msg f = ground (arith, held_bytes-set msg.frags f.frag_idx f.payload)

held_bytes-replicate : (n : ℕ) → held_bytes (replicate n none) ≡ 0
unfolding held_bytes
held_bytes-replicate zero = refl
held_bytes-replicate (suc n) = omega (arith, held_bytes-replicate n)

drop-IsCovered : (o : Ordered) (seq : ℕ) → IsCovered o → IsCovered (drop o seq)
unfolding IsCovered drop
drop-IsCovered o seq h = ground (arith, total-erase in_partial seq o.partial)

take_held-IsCovered : (o : Ordered) → IsCovered o → IsCovered (take_held o)
unfolding IsCovered take_held
take_held-IsCovered o h = ground (arith, total-erase (λ whole. length whole) o.next o.held)

advance-IsCovered : (o : Ordered) → IsCovered o → IsCovered (advance o)
unfolding IsCovered
advance-IsCovered o h = h

drain_loop-IsCovered : (fuel : ℕ) (o : Ordered) → IsCovered o → IsCovered (drain_loop fuel o).0
unfolding drain_loop
drain_loop-IsCovered zero o h = h
drain_loop-IsCovered (suc fuel) o h = ground (
  arith,
  take_held-IsCovered o,
  advance-IsCovered (take_held o),
  drain_loop-IsCovered fuel (advance (take_held o)),
)

skip_loop-IsCovered :
    (fuel : ℕ) (o : Ordered) (floor : ℕ) → IsCovered o → IsCovered (skip_loop fuel o floor).0
unfolding skip_loop
skip_loop-IsCovered zero o floor h = h
skip_loop-IsCovered (suc fuel) o floor h =
    let dropped = drop (take_held o) o.next in
    ground (
      arith,
      take_held-IsCovered o,
      advance-IsCovered dropped,
      drop-IsCovered (take_held o) o.next,
      skip_loop-IsCovered fuel (advance dropped) floor,
    )

skip_to-IsCovered : (o : Ordered) (floor : ℕ) → IsCovered o → IsCovered (skip_to o floor).0
unfolding skip_to drain
skip_to-IsCovered o floor h =
    let turns = (floor + 2 ^ 32 - o.next) % 2 ^ 32 in
    let o' = (skip_loop turns o floor).0 in
    ground (arith, skip_loop-IsCovered turns o floor, drain_loop-IsCovered (length o'.held) o')

adopt-IsCovered : (o : Ordered) (frame : Frame) → IsCovered o → IsCovered (adopt o frame).1
unfolding IsCovered adopt
adopt-IsCovered o frame h = ground arith

stored-IsCovered : (o : Ordered) (f : Fragment) → IsCovered o → IsCovered (stored o f)
unfolding IsCovered stored current
stored-IsCovered o f h = ground (
  arith,
  held_bytes-store_chunk (current o f) f,
  held_bytes-replicate f.frag_total,
  total-insert in_partial f.seq (store_chunk (current o f) f) o.partial,
)

module _ (crc32 : List ℕ → ℕ) where
  complete-IsCovered :
      (o : Ordered) (seq crc : ℕ) (whole : List ℕ)
      → IsCovered o
      → IsCovered (complete crc32 o seq crc whole).0
  unfolding IsCovered complete drain
  complete-IsCovered o seq crc whole h = ground (
    arith,
    drain_loop-IsCovered (length o.held) (advance o),
    total-insert (λ whole. length whole) seq whole o.held,
  )

  store-IsCovered : (o : Ordered) (f : Fragment) → IsCovered o → IsCovered (store crc32 o f).0
  unfolding store
  store-IsCovered o f h =
      let msg = store_chunk (current o f) f in
      let o' = stored o f in
      ground (
        arith,
        stored-IsCovered o f,
        drop-IsCovered o' f.seq,
        complete-IsCovered (drop o' f.seq) f.seq msg.crc (assemble msg),
      )

  -- Push keeps the count of bytes at or above what the receiver keeps, whatever frame comes.
  pub push-IsCovered :
      (o : Ordered) (frame : Frame) → IsCovered o → IsCovered (push crc32 o frame).0
  unfolding push
  push-IsCovered o frame h =
      let o1 = (adopt o frame).1 in
      let o2 = (skip_to o1 frame.floor).0 in
      ground (
        arith,
        adopt-IsCovered o frame,
        skip_to-IsCovered o1 frame.floor,
        store-IsCovered o2 (fragment_of frame),
      )
