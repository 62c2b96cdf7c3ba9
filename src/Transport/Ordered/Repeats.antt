-- ===== src/Transport/Ordered/Repeats.antt =====
-- A fragment that comes again after its message is whole and waits for an earlier one:
-- internal/transport/common/ordered.go, store.
use olcrtc.Prelude.{ℕ, ◌+◌, ◌≤◌, ◌≡◌, ◌≢◌, true, List, [], ◌∷◌, none, some, length, arith}
use olcrtc.Prelude.Maps.{lookup, insert, erase, nat_eq, beq_refl, lookup-insert}
use olcrtc.Transport.Fragment.{
  Fragment, slot_free, store_chunk, held_bytes, assemble, assemble_loop,
}
use olcrtc.Transport.Ordered.{Ordered, drop, current, stored, complete, store}
use olcrtc.Transport.Ordered.Bytes.{total, total-insert, in_partial, kept}

total-erase-insert :
    {V : Type 0} (size : V → ℕ) (k : ℕ) (v : V) (m : List (ℕ × V))
    → lookup k m ≡ none
    → total size (erase k (insert k v m)) ≡ total size m
unfolding lookup insert erase
total-erase-insert size k v [] e = ground (arith, beq_refl k)
total-erase-insert size k v ((j, w) ∷ m) e =
    ground (arith, beq_refl k, total-erase-insert size k v m)

-- The one chunk of a message in one fragment, put together.
assemble_one :
    (o : Ordered) (f : Fragment)
    → lookup f.seq o.partial ≡ none
    → f.frag_total ≡ 1
    → f.frag_idx ≡ 0
    → length f.payload ≤ f.total_len
    → let msg = store_chunk (current o f) f in
      (assemble msg ≡ f.payload)
      × (msg.remain ≡ 0)
      × (msg.crc ≡ f.crc)
      × (slot_free (current o f) f.frag_idx ≡ true)
      × (held_bytes msg.frags ≡ length f.payload)
unfolding current store_chunk slot_free assemble held_bytes assemble_loop
assemble_one o f absent total idx fits = ground arith

module _ (crc32 : List ℕ → ℕ) where
  -- A message in one fragment that is already held (not the next one) is taken again when its
  -- fragment comes again: what the receiver keeps stays the same size, the count of bytes grows by
  -- the length of the message, and nothing is handed up.
  pub store_again :
      (o : Ordered) (f : Fragment)
      → lookup f.seq o.partial ≡ none
      → lookup f.seq o.held ≡ some f.payload
      → f.seq ≢ o.next
      → f.frag_total ≡ 1
      → f.frag_idx ≡ 0
      → length f.payload ≤ f.total_len
      → crc32 f.payload ≡ f.crc
      → let (o', ready) = store crc32 o f in
        (kept o' ≡ kept o) × (o'.bytes ≡ o.bytes + length f.payload) × (ready ≡ [])
  unfolding store stored complete drop
  store_again o f absent held ahead total idx fits crc =
      let msg = store_chunk (current o f) f in
      ground (
        arith,
        assemble_one o f absent total idx fits,
        total-erase-insert in_partial f.seq msg o.partial absent,
        total-insert (λ whole. length whole) f.seq f.payload o.held,
        lookup-insert f.seq f.seq msg o.partial,
        beq_refl f.seq,
      )
