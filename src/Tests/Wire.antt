-- ===== src/Tests/Wire.antt =====
-- The wire format at concrete frames.
use olcrtc.Prelude.{ℕ, ◌^◌, ◌<◌, ◌≡◌, refl, List, [], ◌∷◌, arith}
use olcrtc.Prelude.Maps.{nat_eq}
use olcrtc.Prelude.Results.{ok}
use olcrtc.Bytes.{byte_at, u32_at}
use olcrtc.Transport.Frame.{
  Frame, zero_frame, frame_magic, frame_version, type_stream, encode_stream_data, decode_frame,
  validate_frame_header, decode_body,
}
use olcrtc.Transport.Frame.RoundTrip.{decode_frame-encode_stream_data}
use olcrtc.Transport.Frame.Accepts.{Fits, decode_frame-ok}

-- A checksum of one value, in the place of crc32.
abbrev checksum : List ℕ → ℕ
checksum xs = 9

checksum-lt : (xs : List ℕ) → checksum xs < 2 ^ 32
checksum-lt xs = omega arith

decode_frame-encode_stream_data_example :
    decode_frame (encode_stream_data checksum 1 7 4 3 5 9 2 0 1 (20 ∷ 21 ∷ []))
    ≡ ok (record zero_frame {
      kind = type_stream;
      role = 1;
      binding = 7;
      seq = 5;
      crc = 9;
      total_len = 2;
      frag_idx = 0;
      frag_total = 1;
      frag_crc = 9;
      stream = 4;
      floor = 3;
      payload = 20 ∷ 21 ∷ [];
    })
decode_frame-encode_stream_data_example =
    decode_frame-encode_stream_data checksum checksum-lt 1 7 4 3 5 9 2 0 1 (20 ∷ 21 ∷ []) omega
      arith omega arith omega arith omega arith omega arith omega arith

abbrev hello_bytes : List ℕ
hello_bytes = 0x4f ∷ 0x4c ∷ 0x56 ∷ 0x43 ∷ 5 ∷ 3 ∷ 1 ∷ 0 ∷ 0 ∷ 0 ∷ 7 ∷ []

abbrev hello_frame : Frame
hello_frame = record zero_frame { kind = 3; role = 1; binding = 7 }

hello_bytes-decoded : decode_frame hello_bytes ≡ ok hello_frame
unfolding decode_frame validate_frame_header decode_body
hello_bytes-decoded = refl

decode_frame-ok_example :
    (u32_at hello_bytes 0 ≡ frame_magic)
    × (byte_at hello_bytes 4 ≡ frame_version)
    × (hello_frame.kind ≡ byte_at hello_bytes 5)
    × Fits hello_frame hello_bytes
decode_frame-ok_example = decode_frame-ok hello_bytes hello_frame hello_bytes-decoded
