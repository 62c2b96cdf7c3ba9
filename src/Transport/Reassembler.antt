-- ===== src/Transport/Reassembler.antt =====
-- internal/transport/common/common.go, Reassembler: messages put together one by one, and a memory
-- of those delivered, so that a fragment that comes again is acknowledged and not delivered again.
-- A message in `inbound` is shared by pointer in the source; here it is written back when it changes.
pub mod Dedup
use olcrtc.Prelude.{
  ℕ, suc, ◌+◌, ◌^◌, ◌%◌, Bool, true, false, ◌&&◌, ◌||◌, not, List, [], ◌∷◌, Option, none, some,
  length, ltb, leb, ◌==◌, if◌then◌else◌,
}
use olcrtc.Prelude.Maps.{lookup, insert, erase, nat_eq}
use olcrtc.Transport.Fragment.{
  Fragment, InboundMessage, valid, same_message, new_message, store_chunk, assemble,
}

pub record Reassembler : Type 0 where
  pub inbound : List (ℕ × InboundMessage)
  pub delivered : List (ℕ × ℕ)
  pub previous : List (ℕ × ℕ)
  pub max_recent : ℕ
  pub max_pending : ℕ
  pub add_counter : ℕ

-- A max_recent of 0 stands for a non-positive one.
unfoldable pub new_reassembler : ℕ → Reassembler
new_reassembler max_recent =
    let cap = if max_recent == 0 then 256 else max_recent in
    record {
      inbound = [];
      delivered = [];
      previous = [];
      max_recent = cap;
      max_pending = cap;
      add_counter = 0;
    }

unfoldable pub reset : Reassembler → Reassembler
reset r = record r { inbound = []; delivered = []; previous = []; add_counter = 0 }

pub data PushResult : Type 0 where
  ignore partial duplicate : PushResult
  deliver_data : List ℕ → PushResult

abbrev pub is_crc : ℕ → Option ℕ → Bool
is_crc crc none = false
is_crc crc (some c) = c == crc

abbrev delivered_of : ℕ → Option ℕ → Option ℕ → Bool
delivered_of crc none previous = is_crc crc previous
delivered_of crc (some c) previous = c == crc

unfoldable pub already_delivered : Reassembler → Fragment → Bool
already_delivered r f = delivered_of f.crc (lookup f.seq r.delivered) (lookup f.seq r.previous)

abbrev older : ℕ → ℕ → Option (ℕ × ℕ) → Option (ℕ × ℕ)
older seq added none = some (seq, added)
older seq added (some (s, a)) = if ltb added a then some (seq, added) else some (s, a)

-- The loop over the map keeps the entry with the least `added`. The entries have different ones, so
-- the order of the loop does not matter.
unfoldable pub oldest : ℕ → List (ℕ × InboundMessage) → Option (ℕ × ℕ) → Option (ℕ × ℕ)
oldest keep [] best = best
oldest keep ((seq, m) ∷ rest) best =
    oldest keep rest (if seq == keep then best else older seq m.added best)

abbrev erase_found : List (ℕ × InboundMessage) → Option (ℕ × ℕ) → List (ℕ × InboundMessage)
erase_found inbound none = inbound
erase_found inbound (some (seq, added)) = erase seq inbound

unfoldable pub evict_oldest_if_full : Reassembler → ℕ → Reassembler
unfolding oldest
evict_oldest_if_full r keep =
    if r.max_pending == 0 || leb (length r.inbound) r.max_pending
    then r
    else record r { inbound = erase_found r.inbound (oldest keep r.inbound none) }

unfoldable pub upsert_fresh : Reassembler → Fragment → Reassembler × InboundMessage
upsert_fresh r f =
    let counter = (r.add_counter + 1) % 2 ^ 64 in
    let msg = new_message f counter in
    (
      evict_oldest_if_full
          (record r { add_counter = counter; inbound = insert f.seq msg r.inbound }) f.seq,
      msg,
    )

unfoldable pub upsert_of :
    Reassembler → Fragment → Option InboundMessage → Reassembler × InboundMessage
upsert_of r f none = upsert_fresh r f
upsert_of r f (some msg) = if same_message msg f then (r, msg) else upsert_fresh r f

unfoldable pub upsert : Reassembler → Fragment → Reassembler × InboundMessage
unfolding upsert_of
upsert r f = upsert_of r f (lookup f.seq r.inbound)

-- The two halves of the memory of what was delivered, with one more entry.
unfoldable pub remember : Reassembler → ℕ → ℕ → Reassembler
remember r seq crc =
    if leb r.max_recent (length r.delivered)
    then record r { previous = r.delivered; delivered = insert seq crc [] }
    else record r { delivered = insert seq crc r.delivered }

module _ (crc32 : List ℕ → ℕ) where
  unfoldable pub deliver : Reassembler → ℕ → InboundMessage → Reassembler × PushResult
  deliver r seq msg =
      let r' = record r { inbound = erase seq r.inbound } in
      let whole = assemble msg in
      if not (crc32 whole == msg.crc)
      then (r', ignore)
      else (remember r' seq msg.crc, deliver_data whole)

  -- Push from the message on, with the fragment's chunk stored in it.
  unfoldable pub push_stored : Reassembler → Fragment → InboundMessage → Reassembler × PushResult
  push_stored r f msg =
      if ltb 0 msg.remain
      then (record r { inbound = insert f.seq msg r.inbound }, partial)
      else deliver r f.seq msg

  unfoldable pub push : Reassembler → Fragment → Reassembler × PushResult
  push r f =
      let (r', msg) = upsert r f in
      if not (valid crc32 f)
      then (r, ignore)
      else if already_delivered r f
      then (r, duplicate)
      else push_stored r' f (store_chunk msg f)
