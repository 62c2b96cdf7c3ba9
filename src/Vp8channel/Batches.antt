-- ===== src/Vp8channel/Batches.antt =====
-- Packets split out of a batch again: internal/transport/vp8channel/wire.go, datagram.go, writer.go.
use mathlib.Core.List.{append-nil, append_assoc}
use olcrtc.Prelude.{
  ℕ, zero, suc, ◌+◌, ◌/◌, ◌%◌, ◌^◌, ◌≤◌, ◌<◌, ◌≡◌, refl, sym, ap, ◌∙◌, true, false, ◌||◌, List, [],
  ◌∷◌, ◌++◌, All, some, length, length-append, take-length_append, drop-length_append, arith, ltb,
  ◌==◌,
}
use olcrtc.Prelude.Maps.{same_bytes, same_bytes_iff}
use olcrtc.Bytes.{be16_round}
use olcrtc.Vp8channel.{
  kcp_batch_magic, datagram_batch_magic, split_packets, split_kcp_payload, with_packet,
  split_datagrams, split_datagram_batch_payload, append_batch_packet, has_magic,
}

-- Packets, each behind its length on two bytes.
unfoldable pub encoded : List (List ℕ) → List ℕ
encoded [] = []
encoded (packet ∷ packets) =
    length packet / 2 ^ 8 % 256 ∷ length packet % 256 ∷ (packet ++ encoded packets)

-- A packet that a batch can carry.
abbrev pub IsPacket : List ℕ → Type 0
IsPacket packet = (1 ≤ length packet) × (length packet < 2 ^ 16)

whole_packet :
    (packet : List ℕ) (rest : List ℕ)
    → IsPacket packet
    → ((length packet == 0) || ltb (length (packet ++ rest)) (length packet)) ≡ false
whole_packet packet rest h = ground (arith, h, length-append packet rest)

split_packets-encoded :
    (fuel : ℕ) (packets : List (List ℕ))
    → length packets < fuel
    → All IsPacket packets
    → split_packets fuel (encoded packets) ≡ packets
unfolding split_packets encoded
split_packets-encoded zero packets h ok = ground (arith, h)
split_packets-encoded (suc fuel) [] h ok = refl
split_packets-encoded (suc fuel) (packet ∷ packets) h ok =
    rw
      (
        be16_round (length packet) (ok.0.1),
        whole_packet packet (encoded packets) ok.0,
        take-length_append packet (encoded packets),
        drop-length_append packet (encoded packets),
      )
      (ap (λ ps. packet ∷ ps) (split_packets-encoded fuel packets (omega arith) ok.1))

split_datagrams-encoded :
    (fuel : ℕ) (packets : List (List ℕ))
    → length packets < fuel
    → All IsPacket packets
    → split_datagrams fuel (encoded packets) ≡ some packets
unfolding split_datagrams encoded
split_datagrams-encoded zero packets h ok = ground (arith, h)
split_datagrams-encoded (suc fuel) [] h ok = refl
split_datagrams-encoded (suc fuel) (packet ∷ packets) h ok =
    rw
      (
        be16_round (length packet) (ok.0.1),
        whole_packet packet (encoded packets) ok.0,
        take-length_append packet (encoded packets),
        drop-length_append packet (encoded packets),
      )
      (ap (with_packet packet) (split_datagrams-encoded fuel packets (omega arith) ok.1))

length-encoded : (packets : List (List ℕ)) → length packets ≤ length (encoded packets)
unfolding encoded
length-encoded [] = omega arith
length-encoded (packet ∷ packets) =
    omega (arith, length-append packet (encoded packets), length-encoded packets)

same_bytes_refl : (xs : List ℕ) → same_bytes xs xs ≡ true
same_bytes_refl xs = (same_bytes_iff xs xs).1 refl

pub has_magic-append : (magic rest : List ℕ) → has_magic magic (magic ++ rest) ≡ true
has_magic-append magic rest =
    let long : ltb (length (magic ++ rest)) (length magic) ≡ false =
      ground (arith, length-append magic rest) in
    rw (long, take-length_append magic rest, same_bytes_refl magic) refl

-- The packets behind the batch's mark are those that were written.
pub split_kcp_payload-encoded :
    (packets : List (List ℕ))
    → All IsPacket packets
    → split_kcp_payload (kcp_batch_magic ++ encoded packets) ≡ packets
unfolding split_kcp_payload
split_kcp_payload-encoded packets ok = rw (has_magic-append kcp_batch_magic (encoded packets)) (
    split_packets-encoded (suc (length (kcp_batch_magic ++ encoded packets))) packets
      (omega (arith, length-encoded packets)) ok)

pub split_datagram_batch_payload-encoded :
    (packets : List (List ℕ))
    → All IsPacket packets
    → split_datagram_batch_payload (datagram_batch_magic ++ encoded packets) ≡ some packets
unfolding split_datagram_batch_payload
split_datagram_batch_payload-encoded packets ok =
    rw (has_magic-append datagram_batch_magic (encoded packets)) (
      split_datagrams-encoded (suc (length (datagram_batch_magic ++ encoded packets))) packets
        (omega (arith, length-encoded packets)) ok)

pub encoded-append : (xs ys : List (List ℕ)) → encoded (xs ++ ys) ≡ encoded xs ++ encoded ys
unfolding encoded
encoded-append [] ys = refl
encoded-append (x ∷ xs) ys =
    ap (λ rest. length x / 2 ^ 8 % 256 ∷ length x % 256 ∷ (x ++ rest)) (encoded-append xs ys)
    ∙ ap (λ rest. length x / 2 ^ 8 % 256 ∷ length x % 256 ∷ rest)
        (sym (append_assoc x (encoded xs) (encoded ys)))

pub append_batch_packet-encoded :
    (dst packet : List ℕ)
    → length packet < 2 ^ 16
    → append_batch_packet dst packet ≡ dst ++ encoded (packet ∷ [])
unfolding append_batch_packet encoded
append_batch_packet-encoded dst packet h =
    let fits : ltb 0xffff (length packet) ≡ false = ground (arith, h) in
    rw (fits, append-nil packet) refl

pub length-append_batch_packet :
    (dst packet : List ℕ)
    → length packet < 2 ^ 16
    → length (append_batch_packet dst packet) ≡ length dst + 2 + length packet
unfolding append_batch_packet
length-append_batch_packet dst packet h =
    let size = length packet in
    let fits : ltb 0xffff size ≡ false = ground (arith, h) in
    rw fits (omega (arith, length-append dst (size / 2 ^ 8 % 256 ∷ size % 256 ∷ packet)))
