-- ===== src/Seichannel/Packets.antt =====
-- internal/transport/seichannel/rtp.go: the payloads of RTP packets as they arrive. A sequence number is
-- below 65536.
pub mod Fragments
pub mod Aggregate
use olcrtc.Prelude.{
  ℕ, zero, suc, ◌+◌, ◌*◌, ◌/◌, ◌%◌, ◌≤◌, ◌<◌, ◌≡◌, ◌≢◌, refl, sym, ap, ◌∙◌, Bool, true, false, not,
  ◌&&◌, ◌||◌, List, [], ◌∷◌, ◌++◌, All, length, take, drop, arith, ltb, leb, ◌==◌, if◌then◌else◌,
}
use olcrtc.Seichannel.{payloads_of}

pub record RtpPacket : Type 0 where
  pub sequence_number : ℕ
  pub payload : List ℕ

abbrev pub rtp_packet : ℕ → List ℕ → RtpPacket
rtp_packet seq body = record { sequence_number = seq; payload = body }

pub record PacketReader : Type 0 where
  pub fu : List ℕ
  pub fu_seq : ℕ
  pub fu_ok : Bool

abbrev pub packet_reader : List ℕ → ℕ → Bool → PacketReader
packet_reader fu seq ok = record { fu = fu; fu_seq = seq; fu_ok = ok }

unfoldable pub append_nal_payloads : List ℕ → List (List ℕ) → List (List ℕ)
append_nal_payloads nal out = out ++ payloads_of nal

-- The loop over an aggregation packet, on its length.
unfoldable pub append_stapa_loop : ℕ → List ℕ → List (List ℕ) → List (List ℕ)
append_stapa_loop zero body out = out
append_stapa_loop (suc fuel) [] out = out
append_stapa_loop (suc fuel) (high ∷ []) out = out
append_stapa_loop (suc fuel) (high ∷ low ∷ body) out =
    let size = high * 256 + low in
    let rest = append_stapa_loop fuel (drop size body) (append_nal_payloads (take size body) out) in
    if size == 0 then out else if ltb (length body) size then out else rest

unfoldable pub append_stapa_payloads : List ℕ → List (List ℕ) → List (List ℕ)
append_stapa_payloads body out = append_stapa_loop (length body) (drop 1 body) out

-- The bits of a byte: `header & 0x1f`, `& 0x80`, `& 0x40`, and `body[0] & 0xe0 | naluType`.
abbrev pub nal_type : ℕ → ℕ
nal_type header = header % 32

abbrev pub is_start : ℕ → Bool
is_start header = header / 128 % 2 == 1

abbrev pub is_last : ℕ → Bool
is_last header = header / 64 % 2 == 1

abbrev pub nal_header : ℕ → ℕ → ℕ
nal_header indicator header = indicator / 32 * 32 + nal_type header

-- The reader after the pieces are joined.
abbrev pub join_piece : PacketReader → ℕ → ℕ → ℕ → List ℕ → PacketReader
join_piece r seq indicator header piece =
    if is_start header
    then packet_reader (nal_header indicator header ∷ piece) seq (nal_type header == 6)
    else if r.fu_ok && seq == (r.fu_seq + 1) % 65536
    then packet_reader (r.fu ++ piece) seq true
    else packet_reader r.fu seq false

abbrev pub finish_piece : PacketReader → ℕ → List (List ℕ) → PacketReader × List (List ℕ)
finish_piece r header out =
    if not (r.fu_ok) || not (is_last header)
    then (r, out)
    else (packet_reader (r.fu) (r.fu_seq) false, append_nal_payloads (r.fu) out)

unfoldable pub append_fua_payloads :
    PacketReader → ℕ → List ℕ → List (List ℕ) → PacketReader × List (List ℕ)
append_fua_payloads r seq (indicator ∷ header ∷ b ∷ piece) out =
    finish_piece (join_piece r seq indicator header (b ∷ piece)) header out
append_fua_payloads r seq body out = (packet_reader (r.fu) (r.fu_seq) false, out)

abbrev pub payloads_in : PacketReader → ℕ → List ℕ → List (List ℕ) → PacketReader × List (List ℕ)
payloads_in r seq [] out = (r, out)
payloads_in r seq (b ∷ body) out =
    let fragments = append_fua_payloads r seq (b ∷ body) out in
    if nal_type b == 24
    then (r, append_stapa_payloads (b ∷ body) out)
    else if nal_type b == 28
    then fragments
    else (r, append_nal_payloads (b ∷ body) out)

unfoldable pub payloads : PacketReader → RtpPacket → List (List ℕ) → PacketReader × List (List ℕ)
payloads r packet out = payloads_in r (packet.sequence_number) (packet.payload) out
