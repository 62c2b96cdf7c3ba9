-- ===== src/Transport/Reassembler/Dedup.antt =====
-- No message is delivered twice while the memory of deliveries reaches back to it.
use olcrtc.Prelude.{ℕ, ◌≡◌, sym, subst, Bool, true, List, [], some, arith}
use olcrtc.Prelude.Maps.{lookup, erase, nat_eq, lookup-insert, beq_refl}
use olcrtc.Transport.Fragment.{Fragment, InboundMessage, valid, store_chunk, same_message}
use olcrtc.Transport.Reassembler.{
  Reassembler, duplicate, deliver_data, already_delivered, delivered_of, evict_oldest_if_full,
  upsert, upsert_fresh, remember, deliver, push_stored, push,
}

upsert-crc : (r : Reassembler) (f : Fragment) → (upsert r f).1.crc ≡ f.crc
unfolding upsert upsert_fresh same_message
upsert-crc r f = ground arith

store_chunk-crc : (msg : InboundMessage) (f : Fragment) → (store_chunk msg f).crc ≡ msg.crc
unfolding store_chunk
store_chunk-crc msg f = ground arith

upsert-memory :
    (r : Reassembler) (f : Fragment)
    → let r' = (upsert r f).0 in
      (r'.delivered ≡ r.delivered) × (r'.previous ≡ r.previous) × (r'.max_recent ≡ r.max_recent)
unfolding upsert upsert_fresh evict_oldest_if_full
upsert-memory r f = ground arith

abbrev remembered : ℕ → ℕ → Reassembler → Bool
remembered seq crc r = delivered_of crc (lookup seq r.delivered) (lookup seq r.previous)

remembered_now :
    (r : Reassembler) (seq crc : ℕ) → lookup seq (remember r seq crc).delivered ≡ some crc
unfolding remember
remembered_now r seq crc =
    ground
      (arith, lookup-insert seq seq crc [], lookup-insert seq seq crc r.delivered, beq_refl seq)

module _ (crc32 : List ℕ → ℕ) where
  deliver_lem :
      (r : Reassembler) (seq : ℕ) (msg : InboundMessage) (bytes : List ℕ)
      → (deliver crc32 r seq msg).1 ≡ deliver_data bytes
      → (crc32 bytes ≡ msg.crc) × (lookup seq (deliver crc32 r seq msg).0.delivered ≡ some msg.crc)
  unfolding deliver
  deliver_lem r seq msg bytes h =
      ground (arith, remembered_now (record r { inbound = erase seq r.inbound }) seq msg.crc)

  push_delivers :
      (r : Reassembler) (f : Fragment) (bytes : List ℕ)
      → (push crc32 r f).1 ≡ deliver_data bytes
      → (crc32 bytes ≡ f.crc) × (lookup f.seq (push crc32 r f).0.delivered ≡ some f.crc)
  unfolding push push_stored
  push_delivers r f bytes h =
      let (r', msg) = upsert r f in
      ground (
        arith,
        upsert-crc r f,
        store_chunk-crc msg f,
        deliver_lem r' f.seq (store_chunk msg f) bytes,
      )

  known :
      (r : Reassembler) (f : Fragment) (crc : ℕ)
      → lookup f.seq r.delivered ≡ some crc
      → f.crc ≡ crc
      → already_delivered r f ≡ true
  unfolding already_delivered
  known r f crc e same = ground (arith, e, same)

  push-duplicate :
      (r : Reassembler) (f : Fragment)
      → valid crc32 f ≡ true
      → already_delivered r f ≡ true
      → push crc32 r f ≡ (r, duplicate)
  unfolding push
  push-duplicate r f hv hd = ground arith

  -- What is delivered carries the checksum that its fragments announced.
  pub delivered-crc :
      (r : Reassembler) (f : Fragment) (bytes : List ℕ)
      → (push crc32 r f).1 ≡ deliver_data bytes
      → crc32 bytes ≡ f.crc
  delivered-crc r f bytes h = (push_delivers r f bytes h).0

  -- After a message is delivered, every valid fragment of it (one with its number and checksum) that
  -- comes next is answered as a duplicate and changes nothing.
  pub push_again :
      (r : Reassembler) (f again : Fragment) (bytes : List ℕ)
      → (push crc32 r f).1 ≡ deliver_data bytes
      → again.seq ≡ f.seq
      → again.crc ≡ f.crc
      → valid crc32 again ≡ true
      → push crc32 (push crc32 r f).0 again ≡ ((push crc32 r f).0, duplicate)
  push_again r f again bytes h same_seq same_crc hv =
      let r' = (push crc32 r f).0 in
      push-duplicate r' again hv (
        known r' again f.crc
          (subst (λ k. lookup k r'.delivered ≡ some f.crc) (sym same_seq)
            (push_delivers r f bytes h).1)
          same_crc)
