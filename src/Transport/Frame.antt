-- ===== src/Transport/Frame.antt =====
-- internal/transport/common/frame.go: the wire format of the ack-based video transports.
-- A byte is a number below 256, a uint16 or uint32 a number below 2 ^ 16 or 2 ^ 32. crc32 is a
-- parameter, as the standard library's hash/crc32 is not code of the repository.
pub mod RoundTrip
pub mod Accepts
use Prim.Native.String.{String}
use text.Mathlib.Text.{◌==◌ as str_eq}
use olcrtc.Prelude.{
  ℕ, ◌+◌, ◌*◌, ◌%◌, ◌^◌, Bool, true, ◌&&◌, ◌||◌, not, List, [], ◌++◌, length, drop, replicate, set,
  ltb, leb, ◌==◌, if◌then◌else◌,
}
use olcrtc.Prelude.Results.{Result, ok, err, ◌>>=◌, ◌>>◌}
use olcrtc.Bytes.{byte_at, put_u16, put_u32, u16_at, u32_at}

abbrev pub frame_magic : ℕ
frame_magic = 0x4f4c5643

abbrev pub frame_version : ℕ
frame_version = 5

abbrev pub type_data : ℕ
type_data = 1

abbrev pub type_ack : ℕ
type_ack = 2

abbrev pub type_hello : ℕ
type_hello = 3

abbrev pub type_stream : ℕ
type_stream = 4

abbrev pub role_any : ℕ
role_any = 0

abbrev pub role_server : ℕ
role_server = 1

abbrev pub role_client : ℕ
role_client = 2

pub data FrameError : Type 0 where
  frame_too_short unexpected_magic unexpected_version ack_too_short : FrameError
  data_too_short hello_too_short stream_too_short unexpected_frame_type : FrameError

-- The server runs without a device ID; the client always has one.
unfoldable pub local_role : String → ℕ
local_role device_id = if str_eq device_id "" then role_server else role_client

unfoldable pub remote_role : String → ℕ
remote_role device_id = if str_eq device_id "" then role_client else role_server

pub record Frame : Type 0 where
  pub kind : ℕ
  pub role : ℕ
  pub binding : ℕ
  pub seq : ℕ
  pub crc : ℕ
  pub total_len : ℕ
  pub frag_idx : ℕ
  pub frag_total : ℕ
  pub frag_crc : ℕ
  pub stream : ℕ
  pub floor : ℕ
  pub features : ℕ
  pub payload : List ℕ

-- `Frame{}`.
abbrev pub zero_frame : Frame
zero_frame = record {
  kind = 0;
  role = 0;
  binding = 0;
  seq = 0;
  crc = 0;
  total_len = 0;
  frag_idx = 0;
  frag_total = 0;
  frag_crc = 0;
  stream = 0;
  floor = 0;
  features = 0;
  payload = [];
}

unfoldable pub accepted_by : Frame → ℕ → ℕ → Bool
accepted_by f remote binding =
    let role_ok = f.role == role_any || f.role == remote in
    let binding_ok = f.binding == 0 || f.binding == binding in role_ok && binding_ok

-- `make([]byte, n)`.
abbrev make : ℕ → List ℕ
make n = replicate n 0

abbrev put_frame_header : List ℕ → ℕ → ℕ → ℕ → List ℕ
put_frame_header out typ role binding =
    put_u32 (set (set (set (put_u32 out 0 frame_magic) 4 frame_version) 5 typ) 6 role) 7 binding

module _ (crc32 : List ℕ → ℕ) where
  -- uint32(totalLen), uint16(fragIdx) and uint16(fragTotal) wrap.
  abbrev put_data_body : List ℕ → ℕ → ℕ → ℕ → ℕ → ℕ → List ℕ → List ℕ
  put_data_body out seq crc total_len frag_idx frag_total payload =
      let a = put_u32 (put_u32 out 11 seq) 15 crc in
      let b = put_u32 a 19 (total_len % 2 ^ 32) in
      let c = put_u16 (put_u16 b 23 (frag_idx % 2 ^ 16)) 25 (frag_total % 2 ^ 16) in
      put_u32 c 27 (crc32 payload)

  -- The header fields go into the first bytes of the buffer, and `copy` puts the payload in
  -- the rest of it.
  unfoldable pub encode_data : ℕ → ℕ → ℕ → ℕ → ℕ → ℕ → ℕ → List ℕ → List ℕ
  encode_data role binding seq crc total_len frag_idx frag_total payload =
      put_data_body (put_frame_header (make 31) type_data role binding) seq crc total_len frag_idx
        frag_total payload
      ++ payload

  unfoldable pub encode_stream_data : ℕ → ℕ → ℕ → ℕ → ℕ → ℕ → ℕ → ℕ → ℕ → List ℕ → List ℕ
  encode_stream_data role binding stream floor seq crc total_len frag_idx frag_total payload =
      let out = put_frame_header (make 39) type_stream role binding in
      let body = put_data_body out seq crc total_len frag_idx frag_total payload in
      put_u32 (put_u32 body 31 stream) 35 floor ++ payload

unfoldable pub encode_ack : ℕ → ℕ → ℕ → ℕ → ℕ → List ℕ
encode_ack role binding seq crc frag_idx =
    let out = put_frame_header (make 21) type_ack role binding in
    put_u16 (put_u32 (put_u32 out 11 seq) 15 crc) 19 frag_idx

unfoldable pub encode_hello : ℕ → ℕ → List ℕ
encode_hello role binding = put_frame_header (make 11) type_hello role binding

unfoldable pub encode_hello_features : ℕ → ℕ → ℕ → List ℕ
encode_hello_features role binding features =
    set (put_frame_header (make 12) type_hello role binding) 11 features

unfoldable pub validate_frame_header : List ℕ → Result FrameError (Unit {0})
validate_frame_header bytes =
    if ltb (length bytes) 6
    then err frame_too_short
    else if not (u32_at bytes 0 == frame_magic)
    then err unexpected_magic
    else if not (byte_at bytes 4 == frame_version)
    then err unexpected_version
    else ok tt

unfoldable pub short_frame_error : ℕ → FrameError
short_frame_error typ =
    if typ == type_ack
    then ack_too_short
    else if typ == type_data
    then data_too_short
    else if typ == type_stream
    then stream_too_short
    else if typ == type_hello
    then hello_too_short
    else unexpected_frame_type

unfoldable pub take_data_body : Frame → List ℕ → Frame
take_data_body frame bytes = record frame {
  seq = u32_at bytes 11;
  crc = u32_at bytes 15;
  total_len = u32_at bytes 19;
  frag_idx = u16_at bytes 23;
  frag_total = u16_at bytes 25;
  frag_crc = u32_at bytes 27;
}

unfoldable pub decode_ack_body : Frame → List ℕ → Result FrameError Frame
decode_ack_body frame bytes =
    if ltb (length bytes) 21
    then err ack_too_short
    else ok
        (record frame { seq = u32_at bytes 11; crc = u32_at bytes 15; frag_idx = u16_at bytes 19 })

unfoldable pub decode_data_body : Frame → List ℕ → Result FrameError Frame
decode_data_body frame bytes =
    if ltb (length bytes) 31
    then err data_too_short
    else ok (record (take_data_body frame bytes) { payload = drop 31 bytes })

unfoldable pub decode_stream_body : Frame → List ℕ → Result FrameError Frame
decode_stream_body frame bytes =
    if ltb (length bytes) 39
    then err stream_too_short
    else ok (record (take_data_body frame bytes) {
      stream = u32_at bytes 31;
      floor = u32_at bytes 35;
      payload = drop 39 bytes;
    })

-- The `switch frame.Type` of `DecodeFrame`, over a frame with its role and binding read.
unfoldable pub decode_body : Frame → List ℕ → Result FrameError Frame
decode_body frame bytes =
    if frame.kind == type_hello
    then ok (if leb 12 (length bytes) then record frame { features = byte_at bytes 11 } else frame)
    else if frame.kind == type_ack
    then decode_ack_body frame bytes
    else if frame.kind == type_data
    then decode_data_body frame bytes
    else if frame.kind == type_stream
    then decode_stream_body frame bytes
    else err unexpected_frame_type

unfoldable pub decode_frame : List ℕ → Result FrameError Frame
decode_frame bytes = do
  validate_frame_header bytes
  let frame = record zero_frame { kind = byte_at bytes 5 }
  if ltb (length bytes) 11
      then err (short_frame_error frame.kind)
      else decode_body (record frame { role = byte_at bytes 6; binding = u32_at bytes 7 }) bytes
