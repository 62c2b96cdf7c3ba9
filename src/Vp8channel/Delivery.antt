-- ===== src/Vp8channel/Delivery.antt =====
-- A sample gives back the packets it was built from: internal/transport/vp8channel/writer.go and wire.go.
use mathlib.Core.List.{append_assoc}
use olcrtc.Prelude.{
  ℕ, ◌+◌, ◌-◌, ◌≤◌, ◌<◌, ◌≡◌, refl, sym, ap, ◌∙◌, true, List, [], ◌∷◌, ◌++◌, All, Option, length,
  take, drop, length-append, length-drop, length-take, take_prefix, drop_prefix, arith,
}
use olcrtc.Vp8channel.{
  epoch_hdr_len, default_max_payload_size, kcp_batch_magic, can_batch, first_packet,
  batch_sample_up_to, split_kcp_payload,
}
use olcrtc.Vp8channel.Batches.{
  encoded, IsPacket, append_batch_packet-encoded, encoded-append, length-append_batch_packet,
  split_kcp_payload-encoded,
}
use olcrtc.Vp8channel.Samples.{held, payloads, batch_loop-IsBatch}

first_packet-encoded :
    (magic first : List ℕ)
    → length (drop epoch_hdr_len first) < 65536
    → first_packet magic first
      ≡ take epoch_hdr_len first ++ (magic ++ encoded (drop epoch_hdr_len first ∷ []))
first_packet-encoded magic first small =
    append_batch_packet-encoded (take epoch_hdr_len first ++ magic) (drop epoch_hdr_len first) small
    ∙ append_assoc (take epoch_hdr_len first) magic (encoded (drop epoch_hdr_len first ∷ []))

-- The bytes of a batch: the first frame's header, the mark and the packets.
batch_bytes :
    (header magic packet : List ℕ) (packets : List (List ℕ))
    → (header ++ (magic ++ encoded (packet ∷ []))) ++ encoded packets
      ≡ header ++ (magic ++ encoded (packet ∷ packets))
batch_bytes header magic packet packets =
    append_assoc header (magic ++ encoded (packet ∷ [])) (encoded packets)
    ∙ ap (λ bytes. header ++ bytes)
        (append_assoc magic (encoded (packet ∷ [])) (encoded packets)
          ∙ ap (λ bytes. magic ++ bytes) (sym (encoded-append (packet ∷ []) packets)))

-- A frame that has a packet and, with the mark, fits a sample.
abbrev pub IsFirst : List ℕ → Type 0
IsFirst first = (epoch_hdr_len < length first) × (length first + 6 ≤ default_max_payload_size)

first_fits :
    (magic first : List ℕ)
    → length magic ≡ 4
    → IsFirst first
    → length (first_packet magic first) ≤ default_max_payload_size
first_fits magic first four h =
    let small : length (drop epoch_hdr_len first) < 65536 =
      omega (arith, h, length-drop epoch_hdr_len first) in
    omega (
      arith,
      h,
      four,
      length-append_batch_packet (take epoch_hdr_len first ++ magic) (drop epoch_hdr_len first)
          small,
      length-append (take epoch_hdr_len first) magic,
      length-drop epoch_hdr_len first,
      length-take epoch_hdr_len first,
    )

-- The bytes of a sample, and what is taken from the queue and left in it.
pub batch_sample-bytes :
    (batch_size : ℕ) (src : List (List ℕ)) (first : List ℕ) (limit : ℕ)
    → 1 < batch_size
    → IsFirst first
    → let result = batch_sample_up_to batch_size src first limit in
      (taken : List (List ℕ)) × ((src ≡ taken ++ (held result.1 ++ result.2))
        × (result.0
            ≡ take epoch_hdr_len first
              ++ (kcp_batch_magic ++ encoded (drop epoch_hdr_len first ∷ payloads taken)))
        × (length result.0 ≤ default_max_payload_size)
        × (length taken ≤ limit - 1)
        × All IsPacket (drop epoch_hdr_len first ∷ payloads taken))
unfolding batch_sample_up_to
batch_sample-bytes batch_size src first limit many h =
    let packet = drop epoch_hdr_len first in
    let header = take epoch_hdr_len first in
    let small : length packet < 65536 = omega (arith, h, length-drop epoch_hdr_len first) in
    let some_bytes : 1 ≤ length packet = omega (arith, h, length-drop epoch_hdr_len first) in
    let batched : can_batch batch_size first ≡ true = ground (arith, many, h) in
    let (taken, (whole, built, bounded, count, packets)) =
      batch_loop-IsBatch (limit - 1) (first_packet kcp_batch_magic first) src
        (first_fits kcp_batch_magic first refl h) in
    rw batched (
      taken,
      (
        whole,
        built
            ∙ ap (λ s. s ++ encoded (payloads taken))
                (first_packet-encoded kcp_batch_magic first small)
            ∙ batch_bytes header kcp_batch_magic packet (payloads taken),
        bounded,
        count,
        ((some_bytes, small), packets),
      ),
    )

-- What a sample carries: the header of its first frame, that frame's packet, and those of the frames that it
-- takes from the head of the queue, in order; the rest of the queue stays, at most one frame aside.
abbrev pub IsSample : ℕ → List (List ℕ) → List ℕ → List ℕ × Option (List ℕ) × List (List ℕ) → Type 0
IsSample limit src first result =
    (taken : List (List ℕ)) × ((src ≡ taken ++ (held result.1 ++ result.2))
      × (take epoch_hdr_len result.0 ≡ take epoch_hdr_len first)
      × (split_kcp_payload (drop epoch_hdr_len result.0)
          ≡ drop epoch_hdr_len first ∷ payloads taken)
      × (length result.0 ≤ default_max_payload_size)
      × (length taken ≤ limit - 1))

-- With batches of two packets or more, a sample built from a frame and its queue is split into the frame's
-- packet and the packets of the frames taken from the queue, each whole and in order. It is no longer than a
-- sample may be, and no frame of the queue is lost.
pub batch_sample_up_to-IsSample :
    (batch_size : ℕ) (src : List (List ℕ)) (first : List ℕ) (limit : ℕ)
    → 1 < batch_size
    → IsFirst first
    → IsSample limit src first (batch_sample_up_to batch_size src first limit)
batch_sample_up_to-IsSample batch_size src first limit many h =
    let packet = drop epoch_hdr_len first in
    let header = take epoch_hdr_len first in
    let size : length header ≡ epoch_hdr_len = omega (arith, h, length-take epoch_hdr_len first) in
    let (taken, (whole, bytes, bounded, count, packets)) =
      batch_sample-bytes batch_size src first limit many h in
    let body = kcp_batch_magic ++ encoded (packet ∷ payloads taken) in
    (
      taken,
      (
        whole,
        ap (take epoch_hdr_len) bytes ∙ take_prefix epoch_hdr_len header body size,
        ap (λ s. split_kcp_payload (drop epoch_hdr_len s)) bytes
            ∙ ap split_kcp_payload (drop_prefix epoch_hdr_len header body size)
            ∙ split_kcp_payload-encoded (packet ∷ payloads taken) packets,
        bounded,
        count,
      ),
    )
