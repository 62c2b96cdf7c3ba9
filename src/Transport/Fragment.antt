-- ===== src/Transport/Fragment.antt =====
-- internal/transport/common/common.go: splitting a message into fragments, the checks on a fragment
-- off the wire, and putting a message together again.
pub mod Split
pub mod Assemble
pub mod AnyOrder
use olcrtc.Prelude.{
  ℕ, zero, suc, ◌+◌, ◌-◌, ◌*◌, ◌%◌, ◌^◌, Bool, true, false, ◌&&◌, ◌||◌, not, List, [], ◌∷◌, ◌++◌,
  Option, none, some, length, take, drop, replicate, set, get_elem?, max, min, ltb, leb, ◌==◌,
  if◌then◌else◌,
}

-- The loop `for start := 0; start < len(data); start += maxSize`, on fuel: `bytes` is what is left.
unfoldable pub chunks : ℕ → ℕ → List ℕ → List (List ℕ)
chunks zero max_size bytes = []
chunks (suc fuel) max_size [] = []
chunks (suc fuel) max_size (b ∷ bs) =
    take max_size (b ∷ bs) ∷ chunks fuel max_size (drop max_size (b ∷ bs))

-- A round takes a byte at least, so `length bytes` rounds are enough. A max_size of 0 stands for a
-- non-positive one.
unfoldable pub fragment_payload : List ℕ → ℕ → List (List ℕ)
unfolding chunks
fragment_payload bytes max_size =
    if length bytes == 0
    then [] ∷ []
    else if max_size == 0
    then bytes ∷ []
    else chunks (length bytes) max_size bytes

abbrev pub max_message_len : ℕ
max_message_len = 256 * 1024

abbrev pub max_fragments : ℕ
max_fragments = 4096

pub record Fragment : Type 0 where
  pub seq : ℕ
  pub crc : ℕ
  pub total_len : ℕ
  pub frag_idx : ℕ
  pub frag_total : ℕ
  pub frag_crc : ℕ
  pub payload : List ℕ

-- One message being put together. A slot is `none` until its fragment came.
pub record InboundMessage : Type 0 where
  pub total_len : ℕ
  pub crc : ℕ
  pub frags : List (Option (List ℕ))
  pub remain : ℕ
  pub added : ℕ

module _ (crc32 : List ℕ → ℕ) where
  unfoldable pub with_payload_crc : Fragment → Fragment
  with_payload_crc f = record f { frag_crc = crc32 f.payload }

  unfoldable pub valid : Fragment → Bool
  valid f =
      if f.frag_total == 0 || ltb max_fragments f.frag_total || leb f.frag_total f.frag_idx
      then false
      else if ltb max_message_len f.total_len
      then false
      else if ltb (max f.total_len 1) f.frag_total
      then false
      else if ltb f.total_len (length f.payload)
      then false
      else crc32 f.payload == f.frag_crc

-- `msg.CRC == fragment.CRC && msg.TotalLen == fragment.TotalLen && len(msg.frags) == …`
unfoldable pub same_message : InboundMessage → Fragment → Bool
same_message msg f =
    msg.crc == f.crc && msg.total_len == f.total_len && length msg.frags == f.frag_total

abbrev pub new_message : Fragment → ℕ → InboundMessage
new_message f added = record {
  total_len = f.total_len;
  crc = f.crc;
  frags = replicate f.frag_total none;
  remain = f.frag_total;
  added = added;
}

-- The slot of a fragment; one out of range reads as taken, and the check `valid` keeps it away.
unfoldable pub slot_free : InboundMessage → ℕ → Bool
slot_free msg idx = elim (get_elem? msg.frags idx) [
  | none ↦ false
  | some slot ↦ elim slot [ none ↦ true | some chunk ↦ false ]
]

-- `remain` is above 0 while a slot is free.
unfoldable pub store_chunk : InboundMessage → Fragment → InboundMessage
unfolding slot_free
store_chunk msg f =
    if slot_free msg f.frag_idx
    then record msg { frags = set msg.frags f.frag_idx (some f.payload); remain = msg.remain - 1 }
    else msg

abbrev pub bytes_of_slot : Option (List ℕ) → List ℕ
bytes_of_slot none = []
bytes_of_slot (some chunk) = chunk

-- The sum of the lengths of the fragments held.
unfoldable pub held_bytes : List (Option (List ℕ)) → ℕ
held_bytes [] = 0
held_bytes (s ∷ rest) = length (bytes_of_slot s) + held_bytes rest

-- The second loop of `assemble`: `out` is what was appended so far.
unfoldable pub assemble_loop : ℕ → List ℕ → List (Option (List ℕ)) → List ℕ
assemble_loop size out [] = out
assemble_loop size out (s ∷ rest) =
    let frag = bytes_of_slot s in
    let more = assemble_loop size (out ++ frag) rest in
    if ltb size (length out + length frag) then out ++ take (size - length out) frag else more

unfoldable pub assemble : InboundMessage → List ℕ
unfolding assemble_loop held_bytes
assemble msg =
    let held = held_bytes msg.frags in
    let size = if ltb msg.total_len held then msg.total_len else held in
    assemble_loop size [] msg.frags
