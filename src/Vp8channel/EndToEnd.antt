-- ===== src/Vp8channel/EndToEnd.antt =====
-- A sample of one node read by another: internal/transport/vp8channel, writer.go and inbound.go together.
use olcrtc.Prelude.{
  ℕ, ◌^◌, ◌<◌, ◌≡◌, ◌≢◌, ap, ◌∙◌, subst, ◌⊎◌, true, false, ◌||◌, List, [], ◌∷◌, ◌++◌, All, none,
  drop, take_prefix, drop_prefix, arith, ◌==◌, if◌then◌else◌,
}
use olcrtc.Prelude.Maps.{same_bytes}
use olcrtc.Vp8channel.{
  epoch_hdr_len, kcp_batch_magic, epoch_crc, build_epoch_header_to, batch_sample_up_to,
  split_kcp_payload, split_datagram_payload, split_datagram_batch_payload,
}
use olcrtc.Vp8channel.Header.{parse_epoch_header-build, length-build_epoch_header_to}
use olcrtc.Vp8channel.Batches.{encoded, IsPacket, split_kcp_payload-encoded}
use olcrtc.Vp8channel.Samples.{held, payloads}
use olcrtc.Vp8channel.Delivery.{IsFirst, batch_sample-bytes}
use olcrtc.Vp8channel.Inbound.{
  Node, Delivery, to_data, to_peer, control_epoch, is_control, accepts_dst, handle_single_peer_data,
  handle_reliable, handle_parsed, handle_header, handle_incoming_frame,
}

-- No batch of KCP packets is taken for datagrams.
not_datagrams :
    (rest : List ℕ)
    → (split_datagram_batch_payload (kcp_batch_magic ++ rest) ≡ none)
      × (split_datagram_payload (kcp_batch_magic ++ rest) ≡ none)
unfolding split_datagram_batch_payload split_datagram_payload same_bytes
not_datagrams rest = ground arith

-- Where the packets of a frame from `src` go: a server takes them from any peer, a client from its own.
abbrev pub Hears : Node → ℕ → Type 0
Hears p src =
    (p.server_mode ≡ true)
    ⊎ ((p.server_mode ≡ false) × (p.peer_confirmed ≡ true) × (src ≡ p.peer_epoch))

abbrev pub delivery_of : Node → ℕ → List (List ℕ) → List Delivery
delivery_of p src packets = (if p.server_mode then to_peer src packets else to_data packets) ∷ []

handle_reliable-delivery :
    (p : Node) (now src : ℕ) (rest : List ℕ) (packets : List (List ℕ))
    → Hears p src
    → split_kcp_payload (kcp_batch_magic ++ rest) ≡ packets
    → (handle_reliable p now src (kcp_batch_magic ++ rest)).1 ≡ delivery_of p src packets
unfolding handle_single_peer_data
handle_reliable-delivery p now src rest packets hears e = ground (arith, hears, e)

handle_parsed-delivery :
    (p : Node) (now src dst : ℕ) (rest : List ℕ) (packets : List (List ℕ))
    → src ≢ p.local_epoch
    → src ≢ control_epoch p.local_epoch
    → accepts_dst p dst ≡ true
    → is_control src ≡ false
    → Hears p src
    → split_kcp_payload (kcp_batch_magic ++ rest) ≡ packets
    → (handle_parsed p now (p.binding_token, src, dst) (kcp_batch_magic ++ rest)).1
      ≡ delivery_of p src packets
handle_parsed-delivery p now src dst rest packets other other_control accepted bulk hears e =
    let body = kcp_batch_magic ++ rest in
    let seen = record p { peer_seen = true } in
    let (batch, datagram) = not_datagrams rest in
    let token : p.binding_token == p.binding_token ≡ true = ground arith in
    let foreign : ((src == p.local_epoch) || (src == control_epoch p.local_epoch)) ≡ false =
      ground (arith, other, other_control) in
    rw (token, foreign, accepted, bulk, batch, datagram)
      (handle_reliable-delivery seen now src rest packets hears e)

-- The frames of a peer's queue, under one header that names the peer's session and a destination the node
-- accepts, reach the node's reliable plane as they went into the sample: the first frame's packet and the
-- packets of the frames taken from the queue, whole, in order and nothing else.
pub batch_sample-delivered :
    (crc : List ℕ → ℕ) (p : Node) (now src dst batch_size limit : ℕ) (packet : List ℕ)
    (queue : List (List ℕ))
    → 1 < batch_size
    → IsFirst (build_epoch_header_to crc p.binding_token src dst ++ packet)
    → p.binding_token < 2 ^ 32
    → src < 2 ^ 32
    → dst < 2 ^ 32
    → epoch_crc crc p.binding_token src dst < 2 ^ 32
    → src ≢ p.local_epoch
    → src ≢ control_epoch p.local_epoch
    → accepts_dst p dst ≡ true
    → is_control src ≡ false
    → Hears p src
    → let result =
        batch_sample_up_to batch_size queue
          (build_epoch_header_to crc p.binding_token src dst ++ packet)
          limit in
      (taken : List (List ℕ)) × ((queue ≡ taken ++ (held result.1 ++ result.2))
        × ((handle_incoming_frame crc p now result.0).1
            ≡ delivery_of p src (packet ∷ payloads taken)))
unfolding handle_incoming_frame
batch_sample-delivered crc p now src dst batch_size limit packet queue many h t s d c other
      other_control accepted bulk hears =
    let header = build_epoch_header_to crc p.binding_token src dst in
    let size = length-build_epoch_header_to crc p.binding_token src dst in
    let first = header ++ packet in
    let result = batch_sample_up_to batch_size queue first limit in
    let (taken, (whole, bytes, bounded, count, packets)) =
      batch_sample-bytes batch_size queue first limit many h in
    let head = take_prefix epoch_hdr_len header packet size in
    let tail = drop_prefix epoch_hdr_len header packet size in
    let all = packet ∷ payloads taken in
    let body = kcp_batch_magic ++ encoded all in
    let sample : result.0 ≡ header ++ body =
      bytes
      ∙ ap (λ b. b ++ (kcp_batch_magic ++ encoded (drop epoch_hdr_len first ∷ payloads taken))) head
      ∙ ap (λ q. header ++ (kcp_batch_magic ++ encoded (q ∷ payloads taken))) tail in
    let split =
      split_kcp_payload-encoded all (subst (λ q. All IsPacket (q ∷ payloads taken)) tail packets) in
    (
      taken,
      (
        whole,
        ap (λ frame. (handle_incoming_frame crc p now frame).1) sample
            ∙ ap (λ o. (handle_header p now o (drop epoch_hdr_len (header ++ body))).1)
                (parse_epoch_header-build crc p.binding_token src dst body t s d c)
            ∙ ap (λ payload. (handle_parsed p now (p.binding_token, src, dst) payload).1)
                (drop_prefix epoch_hdr_len header body size)
            ∙ handle_parsed-delivery p now src dst (encoded all) all other other_control accepted
                bulk hears split,
      ),
    )
