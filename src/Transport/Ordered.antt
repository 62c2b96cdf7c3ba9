-- ===== src/Transport/Ordered.antt =====
-- internal/transport/common/ordered.go: the receiving half of an ordered stream. The sequence
-- numbers are uint32, so every next one is taken modulo 2 ^ 32. `bytes` is an int of the source: the
-- subtractions here stop at 0, and Ordered/Bytes.antt is about what they subtract. The lock of the
-- source makes each operation one step.
pub mod Bytes
pub mod Drain
pub mod Repeats
pub mod Stream
use olcrtc.Prelude.{
  ℕ, zero, suc, ◌+◌, ◌-◌, ◌^◌, ◌%◌, Bool, true, false, ◌&&◌, ◌||◌, not, List, [], ◌∷◌, ◌++◌, Option,
  none, some, length, set, ltb, leb, ◌==◌, if◌then◌else◌, contains, replicate,
}
use olcrtc.Prelude.Maps.{lookup, insert, erase, nat_eq}
use olcrtc.Transport.Frame.{Frame}
use olcrtc.Transport.Fragment.{
  Fragment, InboundMessage, valid, same_message, new_message, store_chunk, held_bytes, slot_free,
  assemble,
}

abbrev pub default_ahead : ℕ
default_ahead = 128

abbrev pub default_bytes : ℕ
default_bytes = 2 ^ 20

abbrev pub retired_streams : ℕ
retired_streams = 4

pub record Ordered : Type 0 where
  pub stream : ℕ
  pub next : ℕ
  pub started : Bool
  pub partial : List (ℕ × InboundMessage)
  pub held : List (ℕ × List ℕ)
  pub retired : List ℕ
  pub retire_at : ℕ
  pub ahead : ℕ
  pub max_bytes : ℕ
  pub bytes : ℕ

-- An ahead or max_bytes of 0 stands for a non-positive one.
unfoldable pub new_ordered : ℕ → ℕ → Ordered
new_ordered ahead max_bytes = record {
  stream = 0;
  next = 0;
  started = false;
  partial = [];
  held = [];
  retired = replicate retired_streams 0;
  retire_at = 0;
  ahead = if ahead == 0 then default_ahead else ahead;
  max_bytes = if max_bytes == 0 then default_bytes else max_bytes;
  bytes = 0;
}

-- The difference as an int32 is negative: its top bit is set.
unfoldable pub before : ℕ → ℕ → Bool
before a b = leb (2 ^ 31) ((a + 2 ^ 32 - b) % 2 ^ 32)

unfoldable pub has_retired : List ℕ → ℕ → Bool
has_retired [] stream = false
has_retired (id ∷ rest) stream = (not (id == 0) && id == stream) || has_retired rest stream

-- adopt, with the answer whether the frame is of the stream followed.
unfoldable pub adopt : Ordered → Frame → Bool × Ordered
unfolding has_retired
adopt o frame =
    let left =
      if o.started
      then record o {
        retired = set o.retired o.retire_at o.stream;
        retire_at = (o.retire_at + 1) % retired_streams;
      }
      else o in
    if o.started && o.stream == frame.stream
    then (true, o)
    else if has_retired o.retired frame.stream
    then (false, o)
    else (
      true,
      record left {
        partial = [];
        held = [];
        bytes = 0;
        stream = frame.stream;
        next = frame.floor;
        started = true;
      },
    )

abbrev drop_of : Ordered → ℕ → Option InboundMessage → Ordered
drop_of o seq none = o
drop_of o seq (some msg) = record o {
  bytes = o.bytes - held_bytes msg.frags;
  partial = erase seq o.partial;
}

unfoldable pub drop : Ordered → ℕ → Ordered
drop o seq = drop_of o seq (lookup seq o.partial)

abbrev taken : Ordered → Option (List ℕ) → Ordered
taken o none = o
taken o (some whole) = record o { held = erase o.next o.held; bytes = o.bytes - length whole }

-- Hands up the held message at `next`, if there is one.
unfoldable pub take_held : Ordered → Ordered
take_held o = taken o (lookup o.next o.held)

abbrev pub advance : Ordered → Ordered
advance o = record o { next = (o.next + 1) % 2 ^ 32 }

-- The loop of drain, on fuel.
unfoldable pub drain_loop : ℕ → Ordered → Ordered × List (List ℕ)
unfolding take_held
drain_loop zero o = (o, [])
drain_loop (suc fuel) o =
    let (o', ready) = drain_loop fuel (advance (take_held o)) in
    elim (lookup o.next o.held) [ none ↦ (o, []) | some whole ↦ (o', whole ∷ ready) ]

-- Each turn takes one of the messages held.
unfoldable pub drain : Ordered → Ordered × List (List ℕ)
unfolding drain_loop
drain o = drain_loop (length o.held) o

abbrev found : Option (List ℕ) → List (List ℕ)
found none = []
found (some whole) = whole ∷ []

unfoldable pub skip_loop : ℕ → Ordered → ℕ → Ordered × List (List ℕ)
unfolding before take_held drop
skip_loop zero o floor = (o, [])
skip_loop (suc fuel) o floor =
    let (o', ready) = skip_loop fuel (advance (drop (take_held o) o.next)) floor in
    if before o.next floor then (o', found (lookup o.next o.held) ++ ready) else (o, [])

-- One turn for each sequence number up to the floor.
unfoldable pub skip_to : Ordered → ℕ → Ordered × List (List ℕ)
unfolding before skip_loop drain
skip_to o floor =
    let (o', ready) = skip_loop ((floor + 2 ^ 32 - o.next) % 2 ^ 32) o floor in
    let (o'', more) = drain o' in if before o.next floor then (o'', ready ++ more) else (o, [])

abbrev pub current_of : Fragment → Option InboundMessage → InboundMessage
current_of f none = new_message f 0
current_of f (some msg) = if same_message msg f then msg else new_message f 0

-- The message the fragment belongs to, a fresh one if there is none of its shape.
unfoldable pub current : Ordered → Fragment → InboundMessage
current o f = current_of f (lookup f.seq o.partial)

-- The receiver with the fragment stored in its message.
unfoldable pub stored : Ordered → Fragment → Ordered
unfolding current slot_free store_chunk
stored o f =
    let msg = current o f in
    record o {
      partial = insert f.seq (store_chunk msg f) o.partial;
      bytes = if slot_free msg f.frag_idx then o.bytes + length f.payload else o.bytes;
    }

abbrev pub fragment_of : Frame → Fragment
fragment_of frame = record {
  seq = frame.seq;
  crc = frame.crc;
  total_len = frame.total_len;
  frag_idx = frame.frag_idx;
  frag_total = frame.frag_total;
  frag_crc = frame.frag_crc;
  payload = frame.payload;
}

module _ (crc32 : List ℕ → ℕ) where
  -- store from the check of the whole message on.
  unfoldable pub complete : Ordered → ℕ → ℕ → List ℕ → Ordered × List (List ℕ)
  unfolding drain
  complete o seq crc whole =
      let (o', more) = drain (advance o) in
      if not (crc32 whole == crc)
      then (o, [])
      else if not (seq == o.next)
      then (record o { held = insert seq whole o.held; bytes = o.bytes + length whole }, [])
      else (o', whole ∷ more)

  unfoldable pub store : Ordered → Fragment → Ordered × List (List ℕ)
  unfolding stored current drop complete
  store o f =
      let msg = store_chunk (current o f) f in
      let o' = stored o f in
      let done = complete (drop o' f.seq) f.seq msg.crc (assemble msg) in
      if ltb 0 msg.remain then (o', []) else done

  -- The receiver, whether to acknowledge the fragment, and what is deliverable.
  unfoldable pub push : Ordered → Frame → Ordered × Bool × List (List ℕ)
  unfolding adopt before skip_to store
  push o frame =
      let (ours, o1) = adopt o frame in
      let (o2, ready) = skip_to o1 frame.floor in
      let (o3, more) = store o2 (fragment_of frame) in
      if not (valid crc32 (fragment_of frame))
      then (o, false, [])
      else if not ours
      then (o, false, [])
      else if before frame.seq o1.next
      then (o1, true, [])
      else if not (before frame.seq ((o1.next + o1.ahead) % 2 ^ 32))
      then (o1, false, [])
      else if not (frame.seq == o1.next) && ltb o1.max_bytes (o1.bytes + length frame.payload)
      then (o1, false, [])
      else (o3, true, ready ++ more)

unfoldable pub reset : Ordered → Ordered
reset o = record o {
  started = false;
  stream = 0;
  next = 0;
  bytes = 0;
  retired = replicate retired_streams 0;
  retire_at = 0;
  partial = [];
  held = [];
}
