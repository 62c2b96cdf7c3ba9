-- ===== src/Tests/Video.antt =====
-- The theorems on the SEI messages at concrete inputs.
use olcrtc.Prelude.{ℕ, ◌≡◌, inl, true, List, [], ◌∷◌, ◌++◌, arith}
use olcrtc.Seichannel.{build_video_access_unit, extract_video_payloads, payloads_of}
use olcrtc.Seichannel.RoundTrip.{extract_video_payloads-build}
use olcrtc.Seichannel.Packets.{packet_reader}
use olcrtc.Seichannel.Packets.Fragments.{
  read_packets, nal_pieces, lose, read_packets-nal_pieces, read_packets_lost,
}

-- A payload that has a start code in it, an empty one and one of zeros.
abbrev three_payloads : List (List ℕ)
three_payloads = (0 ∷ 0 ∷ 1 ∷ 9 ∷ []) ∷ [] ∷ (0 ∷ 0 ∷ 0 ∷ []) ∷ []

extract_video_payloads-build_example :
    extract_video_payloads (build_video_access_unit three_payloads) ≡ three_payloads
extract_video_payloads-build_example = extract_video_payloads-build three_payloads

-- Two pieces, the second after the sequence number has wrapped.
read_packets-nal_pieces_example :
    (read_packets
      (packet_reader [] 7 true)
      (nal_pieces 65535 2 (5 ∷ 16 ∷ []) ((1 ∷ 2 ∷ []) ∷ []))
      []).1
    ≡ [] ++ payloads_of (70 ∷ 5 ∷ 16 ∷ 1 ∷ 2 ∷ [])
read_packets-nal_pieces_example =
    read_packets-nal_pieces (packet_reader [] 7 true) 65535 2 (5 ∷ 16 ∷ []) (1 ∷ 2 ∷ []) [] []
      (omega arith, (omega arith, tt))

-- The last of three pieces is lost, so that no packet with the end bit comes.
read_packets_lost_example :
    (read_packets
      (packet_reader (6 ∷ 5 ∷ []) 10 true)
      (lose 2 (nal_pieces 65535 2 (5 ∷ 3 ∷ []) ((1 ∷ []) ∷ (2 ∷ 128 ∷ []) ∷ [])))
      []).1
    ≡ []
read_packets_lost_example =
    read_packets_lost (packet_reader (6 ∷ 5 ∷ []) 10 true) 65535 2 2 (5 ∷ 3 ∷ []) (1 ∷ [])
      ((2 ∷ 128 ∷ []) ∷ []) [] (omega arith, (omega arith, (omega arith, tt))) (omega arith)
      (inl omega arith)
