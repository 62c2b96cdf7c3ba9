-- ===== src/Transport/Frame/Accepts.antt =====
-- Which byte strings DecodeFrame accepts.
use olcrtc.Prelude.{ℕ, ◌+◌, ◌≤◌, ◌≡◌, ◌⊎◌, List, length, length-drop, arith}
use olcrtc.Prelude.Results.{ok}
use olcrtc.Bytes.{byte_at, u32_at}
use olcrtc.Transport.Frame.{
  Frame, zero_frame, frame_magic, frame_version, validate_frame_header, decode_body, decode_frame,
  decode_ack_body, decode_data_body, decode_stream_body, take_data_body,
}

-- The type of a frame agrees with the length of the bytes that it came from: nothing is read past
-- their end, and a fragment's payload is all that follows its header.
abbrev pub Fits : Frame → List ℕ → Type 0
Fits f bytes =
    ((f.kind ≡ 3) × (11 ≤ length bytes))
    ⊎ ((f.kind ≡ 2) × (21 ≤ length bytes))
    ⊎ ((f.kind ≡ 1) × (31 + length f.payload ≡ length bytes))
    ⊎ ((f.kind ≡ 4) × (39 + length f.payload ≡ length bytes))

validate_frame_header-ok :
    (bytes : List ℕ)
    → validate_frame_header bytes ≡ ok tt
    → (u32_at bytes 0 ≡ frame_magic) × (byte_at bytes 4 ≡ frame_version)
unfolding validate_frame_header
validate_frame_header-ok bytes h = ground arith

decode_ack_body-ok :
    (frame f : Frame) (bytes : List ℕ)
    → decode_ack_body frame bytes ≡ ok f
    → (f.kind ≡ frame.kind) × (21 ≤ length bytes)
unfolding decode_ack_body
decode_ack_body-ok frame f bytes h = ground arith

decode_data_body-ok :
    (frame f : Frame) (bytes : List ℕ)
    → decode_data_body frame bytes ≡ ok f
    → (f.kind ≡ frame.kind) × (31 + length f.payload ≡ length bytes)
unfolding decode_data_body take_data_body
decode_data_body-ok frame f bytes h = ground (arith, length-drop 31 bytes)

decode_stream_body-ok :
    (frame f : Frame) (bytes : List ℕ)
    → decode_stream_body frame bytes ≡ ok f
    → (f.kind ≡ frame.kind) × (39 + length f.payload ≡ length bytes)
unfolding decode_stream_body take_data_body
decode_stream_body-ok frame f bytes h = ground (arith, length-drop 39 bytes)

decode_body-Fits :
    (frame f : Frame) (bytes : List ℕ)
    → 11 ≤ length bytes
    → decode_body frame bytes ≡ ok f
    → (f.kind ≡ frame.kind) × Fits f bytes
unfolding decode_body
decode_body-Fits frame f bytes len h = ground (
  arith,
  decode_ack_body-ok frame f bytes,
  decode_data_body-ok frame f bytes,
  decode_stream_body-ok frame f bytes,
)

-- A decoded frame came from bytes with the magic and the version, carries the type byte that
-- stands in them, and fits them: its header lies inside them and a fragment's payload ends them.
pub decode_frame-ok :
    (bytes : List ℕ) (f : Frame)
    → decode_frame bytes ≡ ok f
    → (u32_at bytes 0 ≡ frame_magic)
      × (byte_at bytes 4 ≡ frame_version)
      × (f.kind ≡ byte_at bytes 5)
      × Fits f bytes
unfolding decode_frame
decode_frame-ok bytes f h =
    let start = record zero_frame {
      kind = byte_at bytes 5;
      role = byte_at bytes 6;
      binding = u32_at bytes 7;
    } in
    ground (arith, validate_frame_header-ok bytes, decode_body-Fits start f bytes)
