-- ===== src/Transport/Ordered/Stream/Kept.antt =====
-- What the receiver of a stream keeps is what its sender means: internal/transport/common/ordered.go.
use olcrtc.Prelude.{
  ℕ, ◌≡◌, refl, sym, subst, ap, ◌∙◌, inl, inr, List, Option, none, some, arith, Option-cases,
  Bool-cases, ◌==◌,
}
use olcrtc.Prelude.Maps.{lookup, insert, erase, nat_eq, lookup-insert, lookup-erase}
use olcrtc.Transport.Frame.{Frame}
use olcrtc.Transport.Fragment.{Fragment, InboundMessage, same_message, new_message, store_chunk}
use olcrtc.Transport.Fragment.AnyOrder.{
  fragment_at, IsFilling, store_chunk-IsFilling, new_message-IsFilling,
}
use olcrtc.Transport.Ordered.{
  Ordered, drop, take_held, advance, current_of, current, stored, fragment_of,
}
use olcrtc.Transport.Ordered.Stream.{
  chunks_of, IsSent, header, InPart, AllInPart, AllWhole, IsFollowing,
}

none_ne_some : {A : Type 0} {a : A} → none ≡ some a → ⊥
none_ne_some e = cc

module _ (crc32 : List ℕ → ℕ) (message : ℕ → List ℕ) (size : ℕ) (stream : ℕ) where
  pub AllInPart-erase :
      (j : ℕ) (m : List (ℕ × InboundMessage))
      → AllInPart crc32 message size stream m
      → AllInPart crc32 message size stream (erase j m)
  AllInPart-erase j m v = λ k msg e. v k msg (ground (arith, lookup-erase k j m, e))

  pub AllInPart-insert :
      (j : ℕ) (new : InboundMessage) (m : List (ℕ × InboundMessage))
      → InPart crc32 message size stream j new
      → AllInPart crc32 message size stream m
      → AllInPart crc32 message size stream (insert j new m)
  AllInPart-insert j new m fresh v = λ k msg e. elim (Bool-cases (j == k)) [
    | inl same ↦
        let here : new ≡ msg = ground (arith, lookup-insert k j new m, e, same) in
        subst (InPart crc32 message size stream k) here
          (subst (λ i. InPart crc32 message size stream i new) (ground (arith, same)) fresh)
    | inr other ↦ v k msg (ground (arith, lookup-insert k j new m, e, other))
  ]

  pub AllWhole-erase :
      (j : ℕ) (m : List (ℕ × List ℕ))
      → AllWhole crc32 message size stream m
      → AllWhole crc32 message size stream (erase j m)
  AllWhole-erase j m v = λ k bytes e. v k bytes (ground (arith, lookup-erase k j m, e))

  pub AllWhole-insert :
      (j : ℕ) (m : List (ℕ × List ℕ))
      → AllWhole crc32 message size stream m
      → AllWhole crc32 message size stream (insert j (message j) m)
  AllWhole-insert j m v = λ k bytes e. elim (Bool-cases (j == k)) [
    | inl same ↦
        let here : message j ≡ bytes = ground (arith, lookup-insert k j (message j) m, e, same) in
        sym here ∙ ap message (ground (arith, same))
    | inr other ↦ v k bytes (ground (arith, lookup-insert k j (message j) m, e, other))
  ]

  pub take_held-IsFollowing :
      (o : Ordered) (bytes : List ℕ)
      → lookup o.next o.held ≡ some bytes
      → IsFollowing crc32 message size stream o
      → IsFollowing crc32 message size stream (advance (take_held o))
  unfolding take_held
  take_held-IsFollowing o bytes e v = rw e (record {
    follows = v.follows;
    of_stream = v.of_stream;
    next_lt = omega arith;
    in_part = v.in_part;
    whole = AllWhole-erase o.next o.held v.whole;
  })

  pub drop-IsFollowing :
      (o : Ordered) (k : ℕ)
      → IsFollowing crc32 message size stream o
      → IsFollowing crc32 message size stream (drop o k)
  unfolding drop
  drop-IsFollowing o k v = elim (Option-cases (lookup k o.partial)) [
    | inl e ↦ rw e v
    | inr (msg, e) ↦ rw e (record {
      follows = v.follows;
      of_stream = v.of_stream;
      next_lt = v.next_lt;
      in_part = AllInPart-erase k o.partial v.in_part;
      whole = v.whole;
    })
  ]

  pub fresh_message :
      (frame : Frame)
      → IsSent crc32 message size stream frame
      → new_message (fragment_of frame) 0
        ≡ new_message (header crc32 message size stream frame.seq) 0
  fresh_message frame sent = ground arith

  pub header-InPart :
      (k : ℕ)
      → InPart crc32 message size stream k (new_message (header crc32 message size stream k) 0)
  header-InPart k = (
    new_message-IsFilling (header crc32 message size stream k)
        (chunks_of crc32 message size stream k) 0 refl,
    refl,
  )

  pub current_of-InPart :
      (frame : Frame) (o : Option InboundMessage)
      → IsSent crc32 message size stream frame
      → ((msg : InboundMessage) → o ≡ some msg → InPart crc32 message size stream frame.seq msg)
      → InPart crc32 message size stream frame.seq (current_of (fragment_of frame) o)
  current_of-InPart frame none sent h =
      subst (InPart crc32 message size stream frame.seq) (sym (fresh_message frame sent))
        (header-InPart frame.seq)
  current_of-InPart frame (some msg) sent h =
      elim (Bool-cases (same_message msg (fragment_of frame))) [
        | inl same ↦ rw same (h msg refl)
        | inr other ↦ rw other (
            subst (InPart crc32 message size stream frame.seq) (sym (fresh_message frame sent))
              (header-InPart frame.seq))
      ]

  pub current-InPart :
      (o : Ordered) (frame : Frame)
      → IsSent crc32 message size stream frame
      → IsFollowing crc32 message size stream o
      → InPart crc32 message size stream frame.seq (current o (fragment_of frame))
  unfolding current
  current-InPart o frame sent v =
      current_of-InPart frame (lookup frame.seq o.partial) sent (v.in_part frame.seq)

  pub same_chunk :
      (frame : Frame) (msg : InboundMessage)
      → IsSent crc32 message size stream frame
      → store_chunk msg (fragment_of frame)
        ≡ store_chunk msg (
            fragment_at
              (header crc32 message size stream frame.seq)
              (chunks_of crc32 message size stream frame.seq)
              frame.frag_idx)
  unfolding store_chunk
  same_chunk frame msg sent = ground arith

  pub store_chunk-crc : (msg : InboundMessage) (f : Fragment) → (store_chunk msg f).crc ≡ msg.crc
  unfolding store_chunk
  store_chunk-crc msg f = ground arith

  pub store_chunk-InPart :
      (frame : Frame) (msg : InboundMessage)
      → IsSent crc32 message size stream frame
      → InPart crc32 message size stream frame.seq msg
      → InPart crc32 message size stream frame.seq (store_chunk msg (fragment_of frame))
  store_chunk-InPart frame msg sent v =
      let k = frame.seq in
      (
        subst
            (IsFilling (header crc32 message size stream k) (chunks_of crc32 message size stream k))
            (sym (same_chunk frame msg sent))
            (store_chunk-IsFilling (header crc32 message size stream k)
              (chunks_of crc32 message size stream k) msg frame.frag_idx v.0),
        store_chunk-crc msg (fragment_of frame) ∙ v.1,
      )

  pub stored-IsFollowing :
      (o : Ordered) (frame : Frame)
      → IsSent crc32 message size stream frame
      → IsFollowing crc32 message size stream o
      → IsFollowing crc32 message size stream (stored o (fragment_of frame))
  unfolding stored
  stored-IsFollowing o frame sent v =
      let msg = current o (fragment_of frame) in
      record {
        follows = v.follows;
        of_stream = v.of_stream;
        next_lt = v.next_lt;
        whole = v.whole;
        in_part =
            AllInPart-insert frame.seq (store_chunk msg (fragment_of frame)) o.partial
              (store_chunk-InPart frame msg sent (current-InPart o frame sent v)) v.in_part;
      }

  pub advance-IsFollowing :
      (o : Ordered)
      → IsFollowing crc32 message size stream o
      → IsFollowing crc32 message size stream (advance o)
  advance-IsFollowing o v = record {
    follows = v.follows;
    of_stream = v.of_stream;
    next_lt = omega arith;
    in_part = v.in_part;
    whole = v.whole;
  }
