-- ===== src/Tests/Receive.antt =====
-- Fragments and receivers at concrete inputs.
use olcrtc.Prelude.{
  ℕ, zero, suc, ◌+◌, ◌^◌, ◌%◌, ◌<◌, ◌≡◌, refl, true, List, [], ◌∷◌, length, contains, none, arith,
}
use olcrtc.Prelude.Maps.{lookup, nat_eq}
use olcrtc.Transport.Frame.{Frame, zero_frame, type_stream}
use olcrtc.Transport.Fragment.{
  Fragment, fragment_payload, chunks, new_message, assemble, valid, store_chunk,
}
use olcrtc.Transport.Fragment.Split.{fragment_payload_lem}
use olcrtc.Transport.Fragment.AnyOrder.{store_all, any_order}
use olcrtc.Transport.Reassembler.{
  new_reassembler, push, deliver_data, already_delivered, push_stored, upsert, upsert_fresh,
  deliver,
}
use olcrtc.Transport.Ordered.{Ordered, before, drain, skip_loop, store, push as push_frame}
use olcrtc.Transport.Ordered.Bytes.{IsCovered, kept, push-IsCovered}
use olcrtc.Transport.Ordered.Drain.{InOrder, held_after, drain_lem, skip_loop_reaches}
use olcrtc.Transport.Ordered.Repeats.{store_again}

-- A checksum of one value, in the place of crc32.
abbrev checksum : List ℕ → ℕ
checksum xs = 9

abbrev three : List ℕ
three = 20 ∷ 21 ∷ 22 ∷ []

abbrev three_header : Fragment
three_header = record {
  seq = 4;
  crc = 9;
  total_len = 3;
  frag_idx = 0;
  frag_total = 2;
  frag_crc = 0;
  payload = [];
}

three_covered : (i : ℕ) → i < length (fragment_payload three 2) → contains i (1 ∷ 0 ∷ 1 ∷ []) ≡ true
unfolding contains
three_covered zero h = refl
three_covered (suc zero) h = refl
three_covered (suc (suc i)) h = absurd (omega (arith, (fragment_payload_lem three 2 omega arith).1))

any_order_example :
    let msg =
      store_all three_header
        (fragment_payload three 2)
        (new_message three_header 1)
        (1 ∷ 0 ∷ 1 ∷ []) in
    (msg.remain ≡ 0) × (assemble msg ≡ three)
unfolding fragment_payload chunks
any_order_example =
    any_order three 2 three_header 1 (1 ∷ 0 ∷ 1 ∷ []) omega arith refl refl three_covered

-- A message in one fragment.
abbrev single : Fragment
single = record {
  seq = 4;
  crc = 9;
  total_len = 2;
  frag_idx = 0;
  frag_total = 1;
  frag_crc = 9;
  payload = 20 ∷ 21 ∷ [];
}

single-delivered : (push checksum (new_reassembler 2) single).1 ≡ deliver_data (20 ∷ 21 ∷ [])
unfolding push valid already_delivered lookup new_reassembler push_stored store_chunk upsert
    upsert_fresh deliver assemble
single-delivered = refl

single-valid : valid checksum single ≡ true
unfolding valid
single-valid = refl

-- Two whole messages wait for message 3.
abbrev receiver : Ordered
receiver = record {
  stream = 8;
  next = 3;
  started = true;
  partial = [];
  held = (4, 20 ∷ 21 ∷ []) ∷ (5, 22 ∷ []) ∷ [];
  retired = 0 ∷ 0 ∷ 0 ∷ 0 ∷ [];
  retire_at = 0;
  ahead = 128;
  max_bytes = 1000;
  bytes = 3;
}

drain_lem_example :
    let (o', ready) = drain receiver in
    InOrder 3 ready receiver.held
    × (o'.next ≡ (3 + length ready) % 2 ^ 32)
    × (o'.held ≡ held_after 3 ready receiver.held)
    × (lookup o'.next o'.held ≡ none)
drain_lem_example = drain_lem receiver omega arith

skip_loop_reaches_example : (skip_loop 10 receiver 5).0.next ≡ 5
unfolding before
skip_loop_reaches_example = skip_loop_reaches 10 receiver 5 omega arith omega arith refl omega arith

receiver-IsCovered : IsCovered receiver
unfolding IsCovered
receiver-IsCovered = omega arith

abbrev stream_frame : Frame
stream_frame = record zero_frame {
  kind = type_stream;
  stream = 8;
  floor = 3;
  seq = 3;
  crc = 9;
  total_len = 1;
  frag_total = 1;
  frag_crc = 9;
  payload = 30 ∷ [];
}

push-IsCovered_example : IsCovered (push_frame checksum receiver stream_frame).0
push-IsCovered_example = push-IsCovered checksum receiver stream_frame receiver-IsCovered

store_again_example :
    let (o', ready) = store checksum receiver single in
    (kept o' ≡ kept receiver) × (o'.bytes ≡ receiver.bytes + 2) × (ready ≡ [])
unfolding lookup
store_again_example =
    store_again checksum receiver single refl refl (λ e. absurd (omega (arith, e))) refl refl omega
      arith refl
