-- ===== src/Seichannel/Packets/Fragments.antt =====
-- A NAL unit split over packets is joined again, or dropped whole:
-- internal/transport/seichannel/rtp.go, appendFUAPayloads.
use mathlib.Core.List.{append-nil, append_assoc}
use olcrtc.Prelude.{
  ℕ, zero, suc, ◌+◌, ◌*◌, ◌/◌, ◌%◌, ◌≤◌, ◌≡◌, ◌≢◌, ◌⊎◌, inl, inr, refl, sym, ap, ◌∙◌, true, false,
  List, [], ◌∷◌, ◌++◌, All, length, arith, ◌==◌,
}
use olcrtc.Seichannel.{payloads_of}
use olcrtc.Seichannel.Packets.{
  RtpPacket, rtp_packet, PacketReader, packet_reader, append_nal_payloads, nal_type, is_start,
  append_fua_payloads, payloads,
}

-- The packets of a reader's track, one after the other.
unfoldable pub read_packets :
    PacketReader → List RtpPacket → List (List ℕ) → PacketReader × List (List ℕ)
read_packets r [] out = (r, out)
read_packets r (packet ∷ packets) out =
    let step = payloads r packet out in read_packets (step.0) packets (step.1)

-- The pieces of a NAL unit after its first (RFC 6184, section 5.8): the last has the end bit.
unfoldable pub later_pieces : ℕ → ℕ → List (List ℕ) → List RtpPacket
later_pieces seq indicator [] = []
later_pieces seq indicator (piece ∷ []) = rtp_packet seq (indicator ∷ (64 + 6) ∷ piece) ∷ []
later_pieces seq indicator (piece ∷ next ∷ pieces) =
    rtp_packet seq (indicator ∷ 6 ∷ piece)
    ∷ later_pieces ((seq + 1) % 65536) indicator (next ∷ pieces)

-- The packets of an SEI NAL unit, `nri` its two reference bits.
abbrev pub nal_pieces : ℕ → ℕ → List ℕ → List (List ℕ) → List RtpPacket
nal_pieces seq nri piece pieces =
    let indicator = nri * 32 + 28 in
    rtp_packet seq (indicator ∷ (128 + 6) ∷ piece)
    ∷ later_pieces ((seq + 1) % 65536) indicator pieces

abbrev pub join : List (List ℕ) → List ℕ
join [] = []
join (piece ∷ pieces) = piece ++ join pieces

abbrev pub HasBytes : List ℕ → Type 0
HasBytes piece = 1 ≤ length piece

payloads-start :
    (r : PacketReader) (seq nri : ℕ) (piece : List ℕ) (out : List (List ℕ))
    → HasBytes piece
    → payloads r (rtp_packet seq ((nri * 32 + 28) ∷ (128 + 6) ∷ piece)) out
      ≡ (packet_reader ((nri * 32 + 6) ∷ piece) seq true, out)
unfolding payloads append_fua_payloads
payloads-start r seq nri [] out h = ground (arith, h)
payloads-start r seq nri (b ∷ piece) out h =
    let kind : (nri * 32 + 28) % 32 ≡ 28 = omega arith in
    let high : (nri * 32 + 28) / 32 ≡ nri = omega arith in rw (kind, high) refl

payloads-next :
    (fu : List ℕ) (seq nri : ℕ) (piece : List ℕ) (out : List (List ℕ))
    → HasBytes piece
    → payloads
        (packet_reader fu seq true)
        (rtp_packet ((seq + 1) % 65536) ((nri * 32 + 28) ∷ 6 ∷ piece))
        out
      ≡ (packet_reader (fu ++ piece) ((seq + 1) % 65536) true, out)
unfolding payloads append_fua_payloads
payloads-next fu seq nri [] out h = ground (arith, h)
payloads-next fu seq nri (b ∷ piece) out h =
    let kind : (nri * 32 + 28) % 32 ≡ 28 = omega arith in
    let same : (seq + 1) % 65536 == (seq + 1) % 65536 ≡ true = ground arith in rw (kind, same) refl

payloads-last :
    (fu : List ℕ) (seq nri : ℕ) (piece : List ℕ) (out : List (List ℕ))
    → HasBytes piece
    → payloads
        (packet_reader fu seq true)
        (rtp_packet ((seq + 1) % 65536) ((nri * 32 + 28) ∷ (64 + 6) ∷ piece))
        out
      ≡ (packet_reader (fu ++ piece) ((seq + 1) % 65536) false, out ++ payloads_of (fu ++ piece))
unfolding payloads append_fua_payloads append_nal_payloads
payloads-last fu seq nri [] out h = ground (arith, h)
payloads-last fu seq nri (b ∷ piece) out h =
    let kind : (nri * 32 + 28) % 32 ≡ 28 = omega arith in
    let same : (seq + 1) % 65536 == (seq + 1) % 65536 ≡ true = ground arith in rw (kind, same) refl

read_packets-later_pieces :
    (fu : List ℕ) (seq nri : ℕ) (piece : List ℕ) (pieces : List (List ℕ)) (out : List (List ℕ))
    → All HasBytes (piece ∷ pieces)
    → (read_packets
        (packet_reader fu seq true)
        (later_pieces ((seq + 1) % 65536) (nri * 32 + 28) (piece ∷ pieces))
        out).1
      ≡ out ++ payloads_of (fu ++ join (piece ∷ pieces))
unfolding read_packets later_pieces
read_packets-later_pieces fu seq nri piece [] out h =
    ap (λ step. (read_packets step.0 [] step.1).1) (payloads-last fu seq nri piece out h.0)
    ∙ ap (λ rest. out ++ payloads_of (fu ++ rest)) (sym (append-nil piece))
read_packets-later_pieces fu seq nri piece (next ∷ pieces) out h =
    let behind = later_pieces (((seq + 1) % 65536 + 1) % 65536) (nri * 32 + 28) (next ∷ pieces) in
    ap (λ step. (read_packets step.0 behind step.1).1) (payloads-next fu seq nri piece out h.0)
    ∙ read_packets-later_pieces (fu ++ piece) ((seq + 1) % 65536) nri next pieces out h.1
    ∙ ap (λ nal. out ++ payloads_of nal) (append_assoc fu piece (join (next ∷ pieces)))

-- An SEI NAL unit that is split into two or more packets with consecutive numbers, each with a byte at
-- least, gives the payloads of the whole unit, whatever the reader held before.
pub read_packets-nal_pieces :
    (r : PacketReader) (seq nri : ℕ) (first second : List ℕ) (pieces : List (List ℕ))
    (out : List (List ℕ))
    → All HasBytes (first ∷ second ∷ pieces)
    → (read_packets r (nal_pieces seq nri first (second ∷ pieces)) out).1
      ≡ out ++ payloads_of ((nri * 32 + 6) ∷ join (first ∷ second ∷ pieces))
unfolding read_packets
read_packets-nal_pieces r seq nri first second pieces out h =
    let behind = later_pieces ((seq + 1) % 65536) (nri * 32 + 28) (second ∷ pieces) in
    ap (λ step. (read_packets step.0 behind step.1).1) (payloads-start r seq nri first out h.0)
    ∙ read_packets-later_pieces ((nri * 32 + 6) ∷ first) seq nri second pieces out h.1

-- A piece that neither starts a unit nor follows the piece before it, and the pieces of a unit that is
-- given up.
abbrev pub IsPiece : RtpPacket → Type 0
IsPiece packet =
    (indicator : ℕ) × (header : ℕ) × (piece : List ℕ) × (packet.payload
      ≡ indicator ∷ header ∷ piece)
    × (nal_type indicator ≡ 28)
    × (is_start header ≡ false)

abbrev IsBroken : PacketReader → RtpPacket → Type 0
IsBroken r packet = (r.fu_ok ≡ false) ⊎ (packet.sequence_number ≢ (r.fu_seq + 1) % 65536)

append_fua_payloads-broken :
    (r : PacketReader) (seq indicator header : ℕ) (piece : List ℕ) (out : List (List ℕ))
    → is_start header ≡ false
    → (r.fu_ok ≡ false) ⊎ (seq ≢ (r.fu_seq + 1) % 65536)
    → let step = append_fua_payloads r seq (indicator ∷ header ∷ piece) out in
      (step.0.fu_ok ≡ false) × (step.1 ≡ out)
unfolding append_fua_payloads
append_fua_payloads-broken r seq indicator header [] out start h = (refl, refl)
append_fua_payloads-broken r seq indicator header (b ∷ piece) out start h = ground (arith, start, h)

payloads-broken :
    (r : PacketReader) (packet : RtpPacket) (out : List (List ℕ))
    → IsPiece packet
    → IsBroken r packet
    → ((payloads r packet out).0.fu_ok ≡ false) × ((payloads r packet out).1 ≡ out)
unfolding payloads
payloads-broken r packet out (indicator, header, piece, bytes, kind, start) h =
    rw (bytes, kind)
      (append_fua_payloads-broken r (packet.sequence_number) indicator header piece out start h)

read_packets_broken :
    (r : PacketReader) (packets : List RtpPacket) (out : List (List ℕ))
    → r.fu_ok ≡ false
    → All IsPiece packets
    → (read_packets r packets out).1 ≡ out
unfolding read_packets
read_packets_broken r [] out h pieces = refl
read_packets_broken r (packet ∷ packets) out h pieces =
    let step = payloads-broken r packet out pieces.0 (inl h) in
    read_packets_broken (payloads r packet out).0 packets (payloads r packet out).1 step.0 pieces.1
    ∙ step.1

-- A number that does not follow gives the unit up until another one starts.
read_packets_gap :
    (r : PacketReader) (packet : RtpPacket) (packets : List RtpPacket) (out : List (List ℕ))
    → IsBroken r packet
    → All IsPiece (packet ∷ packets)
    → (read_packets r (packet ∷ packets) out).1 ≡ out
unfolding read_packets
read_packets_gap r packet packets out gap pieces =
    let step = payloads-broken r packet out pieces.0 gap in
    read_packets_broken (payloads r packet out).0 packets (payloads r packet out).1 step.0 pieces.1
    ∙ step.1

later_pieces-IsPiece :
    (seq nri : ℕ) (pieces : List (List ℕ)) → All IsPiece (later_pieces seq (nri * 32 + 28) pieces)
unfolding later_pieces
later_pieces-IsPiece seq nri [] = tt
later_pieces-IsPiece seq nri (piece ∷ []) =
    ((nri * 32 + 28, 70, piece, refl, omega arith, refl), tt)
later_pieces-IsPiece seq nri (piece ∷ next ∷ pieces) = (
  (nri * 32 + 28, 6, piece, refl, omega arith, refl),
  later_pieces-IsPiece ((seq + 1) % 65536) nri (next ∷ pieces),
)

-- The reader does not hold the piece before the one numbered `seq`.
abbrev pub IsApart : PacketReader → ℕ → Type 0
IsApart r seq = (r.fu_ok ≡ false) ⊎ (seq ≢ (r.fu_seq + 1) % 65536)

later_pieces_apart :
    (r : PacketReader) (seq nri : ℕ) (piece : List ℕ) (pieces : List (List ℕ)) (out : List (List ℕ))
    → IsApart r seq
    → (read_packets r (later_pieces seq (nri * 32 + 28) (piece ∷ pieces)) out).1 ≡ out
unfolding later_pieces
later_pieces_apart r seq nri piece [] out apart =
    read_packets_gap r (rtp_packet seq ((nri * 32 + 28) ∷ 70 ∷ piece)) [] out apart
      (later_pieces-IsPiece seq nri (piece ∷ []))
later_pieces_apart r seq nri piece (next ∷ pieces) out apart =
    read_packets_gap r (rtp_packet seq ((nri * 32 + 28) ∷ 6 ∷ piece))
      (later_pieces ((seq + 1) % 65536) (nri * 32 + 28) (next ∷ pieces)) out apart
      (later_pieces-IsPiece seq nri (piece ∷ next ∷ pieces))

-- What arrives when the packet at a place is lost.
unfoldable pub lose : ℕ → List RtpPacket → List RtpPacket
lose i [] = []
lose zero (packet ∷ packets) = packets
lose (suc i) (packet ∷ packets) = packet ∷ lose i packets

later_pieces_lost :
    (fu : List ℕ) (seq nri i : ℕ) (piece : List ℕ) (pieces : List (List ℕ)) (out : List (List ℕ))
    → All HasBytes (piece ∷ pieces)
    → i ≤ length pieces
    → (read_packets
        (packet_reader fu seq true)
        (lose i (later_pieces ((seq + 1) % 65536) (nri * 32 + 28) (piece ∷ pieces)))
        out).1
      ≡ out
unfolding read_packets later_pieces lose
later_pieces_lost fu seq nri zero piece [] out h le = refl
later_pieces_lost fu seq nri (suc i) piece [] out h le = absurd (omega arith)
later_pieces_lost fu seq nri zero piece (next ∷ pieces) out h le =
    later_pieces_apart (packet_reader fu seq true) (((seq + 1) % 65536 + 1) % 65536) nri next pieces
      out (inr (λ e. omega (arith, e)))
later_pieces_lost fu seq nri (suc i) piece (next ∷ pieces) out h le =
    let behind =
      lose i (later_pieces (((seq + 1) % 65536 + 1) % 65536) (nri * 32 + 28) (next ∷ pieces)) in
    ap (λ step. (read_packets step.0 behind step.1).1) (payloads-next fu seq nri piece out h.0)
    ∙ later_pieces_lost (fu ++ piece) ((seq + 1) % 65536) nri i next pieces out h.1 omega arith

-- An SEI NAL unit that is split into two or more packets, each with a byte at least, gives no payload
-- when one of its packets is lost, whichever that is, and the others come in order. When the first is the lost
-- one, the reader must not be in a unit whose last piece has the number of the packet that is lost.
pub read_packets_lost :
    (r : PacketReader) (seq nri i : ℕ) (first second : List ℕ) (pieces : List (List ℕ))
    (out : List (List ℕ))
    → All HasBytes (first ∷ second ∷ pieces)
    → i ≤ suc (length pieces)
    → (1 ≤ i) ⊎ IsApart r ((seq + 1) % 65536)
    → (read_packets r (lose i (nal_pieces seq nri first (second ∷ pieces))) out).1 ≡ out
unfolding read_packets lose
read_packets_lost r seq nri zero first second pieces out h le (inl late) = absurd (omega arith)
read_packets_lost r seq nri zero first second pieces out h le (inr apart) =
    later_pieces_apart r ((seq + 1) % 65536) nri second pieces out apart
read_packets_lost r seq nri (suc i) first second pieces out h le where_lost =
    let behind = lose i (later_pieces ((seq + 1) % 65536) (nri * 32 + 28) (second ∷ pieces)) in
    ap (λ step. (read_packets step.0 behind step.1).1) (payloads-start r seq nri first out h.0)
    ∙ later_pieces_lost ((nri * 32 + 6) ∷ first) seq nri i second pieces out h.1 omega arith
