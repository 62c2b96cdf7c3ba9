-- ===== src/Transport/Ordered/Stream/InOrder.antt =====
-- What the receiver hands up over a whole sequence of frames: internal/transport/common/ordered.go.
use mathlib.Core.Path.{ap₂}
use olcrtc.Prelude.{
  ℕ, zero, suc, ◌+◌, ◌^◌, ◌%◌, ◌≤◌, ◌<◌, ◌≡◌, refl, sym, subst, ap, ◌∙◌, ◌⊎◌, inl, inr, Bool, true,
  false, List, [], ◌∷◌, ◌++◌, none, some, length, arith, Option-cases, Bool-cases, ltb, ◌==◌,
}
use olcrtc.Prelude.Maps.{lookup, insert, nat_eq}
use olcrtc.Transport.Frame.{Frame}
use olcrtc.Transport.Fragment.{Fragment, store_chunk, assemble}
use olcrtc.Transport.Fragment.AnyOrder.{IsFilling-assemble}
use olcrtc.Transport.Ordered.Drain.{take_held-next, drop-next}
use olcrtc.Transport.Ordered.{
  Ordered, before, adopt, drop, take_held, advance, drain_loop, drain, skip_to, current, stored,
  fragment_of, complete, store, push,
}
use olcrtc.Transport.Ordered.Stream.{
  messages_from, IsSent, header, AllWhole, IsFollowing, Hands, push_all, Level,
}
use olcrtc.Transport.Ordered.Stream.Kept.{
  AllWhole-insert, take_held-IsFollowing, drop-IsFollowing, current-InPart, store_chunk-InPart,
  stored-IsFollowing, advance-IsFollowing,
}

-- The receiver and what it hands up, without the answer to the frame.
abbrev outcome : Ordered × Bool × List (List ℕ) → Ordered × List (List ℕ)
outcome (o, answer, ready) = (o, ready)

module _ (crc32 : List ℕ → ℕ) (message : ℕ → List ℕ) (size : ℕ) (stream : ℕ) where
  messages_from-append :
      (n m k : ℕ)
      → k < 2 ^ 32
      → messages_from crc32 message size stream n k
          ++ messages_from crc32 message size stream m ((k + n) % 2 ^ 32)
        ≡ messages_from crc32 message size stream (n + m) k
  messages_from-append zero m k h =
      let same : (k + 0) % 2 ^ 32 ≡ k = omega arith in
      let count : m ≡ 0 + m = omega arith in
      ap (messages_from crc32 message size stream m) same
      ∙ ap (λ i. messages_from crc32 message size stream i k) count
  messages_from-append (suc n) m k h =
      let next = (k + 1) % 2 ^ 32 in
      let place : (k + suc n) % 2 ^ 32 ≡ (next + n) % 2 ^ 32 = omega arith in
      let count : suc (n + m) ≡ suc n + m = omega arith in
      ap (λ rest. message k ∷ rest)
        (ap
            (λ i.
              messages_from crc32 message size stream n next
              ++ messages_from crc32 message size stream m i)
            place
          ∙ messages_from-append n m next (omega arith))
      ∙ ap (λ i. messages_from crc32 message size stream i k) count

  -- What a step hands up, followed by what the rest hands up.
  Hands-append :
      (o o' o'' : Ordered) (first more : List (List ℕ))
      → o.next < 2 ^ 32
      → Hands crc32 message size stream o o' first
      → Hands crc32 message size stream o' o'' more
      → Hands crc32 message size stream o o'' (first ++ more)
  Hands-append o o' o'' first more lt h k =
      let (n, here, there) = h in
      let (m, rest, last) = k in
      (
        n + m,
        ap₂ ◌++◌ here (rest ∙ ap (messages_from crc32 message size stream m) there)
            ∙ messages_from-append n m o.next lt,
        omega (arith, last, there),
      )

  -- What a loop or an operation leaves: the receiver, and what it hands up.
  abbrev Leaves : Ordered → Ordered × List (List ℕ) → Type 0
  Leaves o r = IsFollowing crc32 message size stream r.0 × Hands crc32 message size stream o r.0 r.1

  drain_loop-stop :
      (fuel : ℕ) (o : Ordered) → lookup o.next o.held ≡ none → drain_loop (suc fuel) o ≡ (o, [])
  unfolding drain_loop
  drain_loop-stop fuel o e = ground (arith, e)

  drain_loop-step :
      (fuel : ℕ) (o : Ordered) (bytes : List ℕ)
      → lookup o.next o.held ≡ some bytes
      → let (o', ready) = drain_loop fuel (advance (take_held o)) in
        drain_loop (suc fuel) o ≡ (o', bytes ∷ ready)
  unfolding drain_loop
  drain_loop-step fuel o bytes e = ground (arith, e)

  -- One message handed up, and then the rest.
  Leaves-cons :
      (o o' : Ordered) (bytes : List ℕ) (r : Ordered × List (List ℕ))
      → bytes ≡ message o.next
      → o.next < 2 ^ 32
      → o'.next ≡ (o.next + 1) % 2 ^ 32
      → Leaves o' r
      → Leaves o (r.0, bytes ∷ r.1)
  Leaves-cons o o' bytes r whole lt on h =
      let (n, ready, last) = h.1 in
      (
        h.0,
        (
          suc n,
          ap₂ (λ x xs. x ∷ xs) whole (ready ∙ ap (messages_from crc32 message size stream n) on),
          omega (arith, last, on),
        ),
      )

  Leaves-none : (o : Ordered) → IsFollowing crc32 message size stream o → Leaves o (o, [])
  Leaves-none o v = (v, (0, refl, omega (arith, v.next_lt)))

  drain_loop-Leaves :
      (fuel : ℕ) (o : Ordered)
      → IsFollowing crc32 message size stream o
      → Leaves o (drain_loop fuel o)
  drain_loop-Leaves zero o v = unfold drain_loop in Leaves-none o v
  drain_loop-Leaves (suc fuel) o v = elim (Option-cases (lookup o.next o.held)) [
    | inl e ↦ subst (Leaves o) (sym (drain_loop-stop fuel o e)) (Leaves-none o v)
    | inr (bytes, e) ↦
        let o' = advance (take_held o) in
        let on : o'.next ≡ (o.next + 1) % 2 ^ 32 = ap (λ n. (n + 1) % 2 ^ 32) (take_held-next o) in
        subst (Leaves o) (sym (drain_loop-step fuel o bytes e)) (
          Leaves-cons o o' bytes (drain_loop fuel o') (v.whole o.next bytes e) v.next_lt on (
            drain_loop-Leaves fuel o'
              (take_held-IsFollowing crc32 message size stream o bytes e v)))
  ]

  complete-Leaves :
      (o : Ordered) (seq crc : ℕ) (bytes : List ℕ)
      → bytes ≡ message seq
      → IsFollowing crc32 message size stream o
      → Leaves o (complete crc32 o seq crc bytes)
  unfolding complete drain
  complete-Leaves o seq crc bytes e v = elim (Bool-cases (crc32 bytes == crc)) [
    | inr bad ↦ rw bad (Leaves-none o v)
    | inl good ↦ elim (Bool-cases (seq == o.next)) [
      | inl here ↦
          let at : seq ≡ o.next = ground (arith, here) in
          rw (good, here)
            (Leaves-cons o (advance o) bytes (drain_loop (length o.held) (advance o))
              (e ∙ ap message at) v.next_lt refl
              (drain_loop-Leaves (length o.held) (advance o)
                (advance-IsFollowing crc32 message size stream o v)))
      | inr ahead ↦
          let kept =
            subst (λ b. AllWhole crc32 message size stream (insert seq b o.held)) (sym e)
              (AllWhole-insert crc32 message size stream seq o.held v.whole) in
          rw (good, ahead)
            (
              record {
                follows = v.follows;
                of_stream = v.of_stream;
                next_lt = v.next_lt;
                in_part = v.in_part;
                whole = kept;
              },
              (0, refl, omega (arith, v.next_lt)),
            )
    ]
  ]

  -- Only the receiver's place counts for what it hands up.
  Leaves-from :
      (o o' : Ordered) (r : Ordered × List (List ℕ)) → o'.next ≡ o.next → Leaves o' r → Leaves o r
  Leaves-from o o' r same h =
      let (n, ready, last) = h.1 in
      (
        h.0,
        (n, ready ∙ ap (messages_from crc32 message size stream n) same, omega (arith, last, same)),
      )

  stored-next : (o : Ordered) (f : Fragment) → (stored o f).next ≡ o.next
  unfolding stored
  stored-next o f = refl

  store-Leaves :
      (o : Ordered) (frame : Frame)
      → 1 ≤ size
      → IsSent crc32 message size stream frame
      → IsFollowing crc32 message size stream o
      → Leaves o (store crc32 o (fragment_of frame))
  unfolding store
  store-Leaves o frame size_pos sent v =
      let k = frame.seq in
      let msg = store_chunk (current o (fragment_of frame)) (fragment_of frame) in
      let o' = stored o (fragment_of frame) in
      let v' = stored-IsFollowing crc32 message size stream o frame sent v in
      let part =
        store_chunk-InPart crc32 message size stream frame (current o (fragment_of frame)) sent
          (current-InPart crc32 message size stream o frame sent v) in
      elim (Bool-cases (ltb 0 msg.remain)) [
        | inl more ↦
            rw more
              (Leaves-from o o' (o', []) (stored-next o (fragment_of frame)) (Leaves-none o' v'))
        | inr full ↦
            let bytes =
              IsFilling-assemble (header crc32 message size stream k) (message k) size msg size_pos
                refl part.0 (ground (arith, full)) in
            let dropped = drop o' k in
            rw full (
              Leaves-from o dropped (complete crc32 dropped k msg.crc (assemble msg))
                (drop-next o' k ∙ stored-next o (fragment_of frame))
                (complete-Leaves dropped k msg.crc (assemble msg) bytes
                  (drop-IsFollowing crc32 message size stream o' k v')))
      ]

  adopt-same :
      (o : Ordered) (frame : Frame)
      → IsSent crc32 message size stream frame
      → IsFollowing crc32 message size stream o
      → adopt o frame ≡ (true, o)
  unfolding adopt
  adopt-same o frame sent v = ground (arith, sent.of_stream, v.of_stream, v.follows)

  skip_to-none : (o : Ordered) (floor : ℕ) → before o.next floor ≡ false → skip_to o floor ≡ (o, [])
  unfolding skip_to
  skip_to-none o floor e = ground (arith, e)

  -- Push leaves the receiver as it is and hands up nothing, or does what store does.
  push_settled :
      (o : Ordered) (frame : Frame)
      → adopt o frame ≡ (true, o)
      → skip_to o frame.floor ≡ (o, [])
      → (outcome (push crc32 o frame) ≡ (o, []))
        ⊎ (outcome (push crc32 o frame) ≡ store crc32 o (fragment_of frame))
  unfolding push
  push_settled o frame a s =
      let (o', more) = store crc32 o (fragment_of frame) in ground (arith, a, s)

  push-Leaves :
      (o : Ordered) (frame : Frame)
      → 1 ≤ size
      → IsSent crc32 message size stream frame
      → before o.next frame.floor ≡ false
      → IsFollowing crc32 message size stream o
      → Leaves o (outcome (push crc32 o frame))
  push-Leaves o frame size_pos sent level v =
      let floor_kept = skip_to-none o frame.floor level in
      elim (push_settled o frame (adopt-same o frame sent v) floor_kept) [
        | inl none_yet ↦ subst (Leaves o) (sym none_yet) (Leaves-none o v)
        | inr taken ↦ subst (Leaves o) (sym taken) (store-Leaves o frame size_pos sent v)
      ]

  -- Frames of the stream that the receiver follows come in any order, some of them again and some never.
  -- As long as no frame asks to skip a message, that is, as its floor is not past the receiver's next
  -- message when it arrives, so that skipTo does not run, the receiver hands up the sender's messages from
  -- its next one on: in order, each once and none left out. It then waits for the message after them.
  pub stream_in_order :
      (o : Ordered) (frames : List Frame)
      → 1 ≤ size
      → IsFollowing crc32 message size stream o
      → Level crc32 message size stream o frames
      → Hands crc32 message size stream o
          (push_all crc32 message size stream o frames).0
          (push_all crc32 message size stream o frames).1
  unfolding push_all
  stream_in_order o [] size_pos v h = (0, refl, omega (arith, v.next_lt))
  stream_in_order o (frame ∷ frames) size_pos v h =
      let first = push-Leaves o frame size_pos h.0 h.1 v in
      let (o', answer, ready) = push crc32 o frame in
      Hands-append o o' (push_all crc32 message size stream o' frames).0 ready
        (push_all crc32 message size stream o' frames).1 v.next_lt first.1
        (stream_in_order o' frames size_pos first.0 h.2)
