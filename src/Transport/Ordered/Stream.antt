-- ===== src/Transport/Ordered/Stream.antt =====
pub mod Kept
pub mod InOrder
use mathlib.Core.Path.{ap₂}
use olcrtc.Prelude.{
  ℕ, zero, suc, ◌+◌, ◌^◌, ◌%◌, ◌≤◌, ◌<◌, ◌≡◌, refl, sym, subst, ap, ◌∙◌, ◌⊎◌, inl, inr, Bool, true,
  false, List, [], ◌∷◌, ◌++◌, Option, none, some, length, get_or, arith, Option-cases, Bool-cases,
  ltb, ◌==◌,
}
use olcrtc.Prelude.Maps.{lookup, insert, erase, nat_eq, lookup-insert, lookup-erase}
use olcrtc.Transport.Frame.{Frame}
use olcrtc.Transport.Fragment.{
  Fragment, InboundMessage, same_message, new_message, store_chunk, assemble, fragment_payload,
}
use olcrtc.Transport.Fragment.AnyOrder.{
  fragment_at, IsFilling, store_chunk-IsFilling, new_message-IsFilling, IsFilling-assemble,
}
use olcrtc.Transport.Ordered.Drain.{take_held-next, drop-next}
use olcrtc.Transport.Ordered.{
  Ordered, before, adopt, drop, take_held, advance, drain_loop, drain, skip_to, current_of, current,
  stored, fragment_of, complete, store, push,
}

module _ (crc32 : List ℕ → ℕ) (message : ℕ → List ℕ) (size : ℕ) (stream : ℕ) where
  abbrev pub chunks_of : ℕ → List (List ℕ)
  chunks_of k = fragment_payload (message k) size

  -- The messages with the `n` numbers from `k` on.
  abbrev pub messages_from : ℕ → ℕ → List (List ℕ)
  messages_from zero k = []
  messages_from (suc n) k = message k ∷ messages_from n ((k + 1) % 2 ^ 32)

  -- A frame that the sender made: a fragment of the message of its number.
  pub record IsSent (frame : Frame) : Type 0 where
    pub of_stream : frame.stream ≡ stream
    pub of_crc : frame.crc ≡ crc32 (message frame.seq)
    pub of_len : frame.total_len ≡ length (message frame.seq)
    pub of_count : frame.frag_total ≡ length (chunks_of frame.seq)
    pub of_chunk : frame.payload ≡ get_or (chunks_of frame.seq) frame.frag_idx []

  -- The header that the fragments of message `k` share.
  abbrev pub header : ℕ → Fragment
  header k = record {
    seq = k;
    crc = crc32 (message k);
    total_len = length (message k);
    frag_idx = 0;
    frag_total = length (chunks_of k);
    frag_crc = 0;
    payload = [];
  }

  abbrev pub InPart : ℕ → InboundMessage → Type 0
  InPart k msg = IsFilling (header k) (chunks_of k) msg × (msg.crc ≡ crc32 (message k))

  abbrev pub AllInPart : List (ℕ × InboundMessage) → Type 0
  AllInPart m = (k : ℕ) (msg : InboundMessage) → lookup k m ≡ some msg → InPart k msg

  abbrev pub AllWhole : List (ℕ × List ℕ) → Type 0
  AllWhole m = (k : ℕ) (bytes : List ℕ) → lookup k m ≡ some bytes → bytes ≡ message k

  -- The receiver follows the stream, and what it keeps is what the sender meant.
  pub record IsFollowing (o : Ordered) : Type 0 where
    pub follows : o.started ≡ true
    pub of_stream : o.stream ≡ stream
    pub next_lt : o.next < 2 ^ 32
    pub in_part : AllInPart o.partial
    pub whole : AllWhole o.held

  -- `ready` are the next messages, and the receiver has moved past them.
  abbrev pub Hands : Ordered → Ordered → List (List ℕ) → Type 0
  Hands o o' ready = (n : ℕ) × (ready ≡ messages_from n o.next) × (o'.next ≡ (o.next + n) % 2 ^ 32)

  -- The frames in the order in which they come, and all that they make the receiver hand up.
  unfoldable pub push_all : Ordered → List Frame → Ordered × List (List ℕ)
  push_all o [] = (o, [])
  push_all o (frame ∷ frames) =
      let (o', answer, ready) = push crc32 o frame in
      let (o'', more) = push_all o' frames in (o'', ready ++ more)

  -- Every frame is one of the sender's, and none asks to skip a message: its floor does not come after
  -- the next message of the receiver that it meets.
  abbrev pub Level : Ordered → List Frame → Type 0
  Level o [] = Unit
  Level o (frame ∷ frames) =
      IsSent frame × (before o.next frame.floor ≡ false) × Level (push crc32 o frame).0 frames
