-- ===== src/Udpwire.antt =====
-- internal/udpwire/wire.go: the messages of the lossy UDP path. Bytes and text are lists of numbers;
-- netip's parser and printer of addresses and strings.TrimSpace are parameters. A rune above 0x7e is one
-- with a byte above 0x7e, so the tests on runes are tests on bytes.
pub mod RoundTrip
use olcrtc.Prelude.{
  ℕ, ◌+◌, ◌-◌, ◌*◌, ◌/◌, ◌%◌, ◌^◌, Bool, true, false, not, ◌&&◌, ◌||◌, List, [], ◌∷◌, ◌++◌, Option,
  none, some, length, take, drop, ltb, leb, ◌==◌, if◌then◌else◌,
}
use olcrtc.Prelude.Maps.{bytes_eq}
use olcrtc.Prelude.Results.{Result, ok, err}
use olcrtc.Bytes.{byte_at, u16_at, u64_at}

abbrev pub version : ℕ
version = 1

abbrev pub max_payload_size : ℕ
max_payload_size = 1200

abbrev pub max_host_len : ℕ
max_host_len = 255

abbrev pub header_len : ℕ
header_len = 16

pub data WireError : Type 0 where
  frame_too_short bad_magic unsupported_version unknown_frame_type : WireError
  invalid_flow_id invalid_endpoint payload_too_large : WireError

-- FrameType is a byte.
abbrev pub type_packet : ℕ
type_packet = 1

abbrev pub type_close : ℕ
type_close = 2

abbrev pub addr_none : ℕ
addr_none = 0

abbrev pub addr_ipv4 : ℕ
addr_ipv4 = 1

abbrev pub addr_domain : ℕ
addr_domain = 3

abbrev pub addr_ipv6 : ℕ
addr_ipv6 = 4

pub record Endpoint : Type 0 where
  pub host : List ℕ
  pub port : ℕ

pub record Frame : Type 0 where
  pub frame_type : ℕ
  pub flow_id : ℕ
  pub endpoint : Endpoint
  pub payload : List ℕ

-- An address with its bytes.
pub data IpAddr : Type 0 where
  ipv4 ipv6 : List ℕ → IpAddr

pub record Netip : Type 0 where
  pub parse_addr : List ℕ → Option IpAddr
  pub addr_string : IpAddr → List ℕ
  pub trim_space : List ℕ → List ℕ

-- The bytes a name may have.
unfoldable pub is_printable : List ℕ → Bool
is_printable [] = true
is_printable (c ∷ cs) = ltb 0x20 c && leb c 0x7e && is_printable cs

abbrev pub is_known : ℕ → Bool
is_known t = t == type_packet || t == type_close

module _ (netip : Netip) where
  unfoldable pub validate_frame : Frame → Option WireError
  validate_frame f =
      if not (is_known f.frame_type)
      then some unknown_frame_type
      else if f.flow_id == 0
      then some invalid_flow_id
      else if ltb max_payload_size (length f.payload)
      then some payload_too_large
      else if f.frame_type == type_close
      then (if not (bytes_eq.beq f.endpoint.host [])
            || not (f.endpoint.port == 0)
            || not (length f.payload == 0)
          then some invalid_endpoint
          else none)
      else if f.endpoint.port == 0 || bytes_eq.beq (netip.trim_space f.endpoint.host) []
      then some invalid_endpoint
      else none

  abbrev pub address_bytes : IpAddr → ℕ × List ℕ
  address_bytes (ipv4 bytes) = (addr_ipv4, bytes)
  address_bytes (ipv6 bytes) = (addr_ipv6, bytes)

  -- A host that is an address, or one that is not.
  abbrev pub encode_name : List ℕ → Option IpAddr → Result WireError (ℕ × List ℕ)
  encode_name host (some addr) = ok (address_bytes addr)
  encode_name host none =
      if ltb max_host_len (length host)
      then err invalid_endpoint
      else if is_printable host
      then ok (addr_domain, host)
      else err invalid_endpoint

  unfoldable pub encode_host : List ℕ → Result WireError (ℕ × List ℕ)
  encode_host [] = ok (addr_none, [])
  encode_host (c ∷ cs) = encode_name (c ∷ cs) (netip.parse_addr (c ∷ cs))

  -- The bytes that Encode writes, the copies at their places.
  abbrev pub frame_bytes : Frame → ℕ → List ℕ → List ℕ
  frame_bytes f addr_type addr =
      0x4f
      ∷ 0x55
      ∷ version
      ∷ f.frame_type % 256
      ∷ f.flow_id / 2 ^ 56 % 256
      ∷ f.flow_id / 2 ^ 48 % 256
      ∷ f.flow_id / 2 ^ 40 % 256
      ∷ f.flow_id / 2 ^ 32 % 256
      ∷ f.flow_id / 2 ^ 24 % 256
      ∷ f.flow_id / 2 ^ 16 % 256
      ∷ f.flow_id / 2 ^ 8 % 256
      ∷ f.flow_id % 256
      ∷ addr_type
      ∷ f.endpoint.port / 2 ^ 8 % 256
      ∷ f.endpoint.port % 256
      ∷ length addr % 256
      ∷ (addr ++ f.payload)

  abbrev pub encode_addressed : Frame → Result WireError (ℕ × List ℕ) → Result WireError (List ℕ)
  encode_addressed f (err e) = err e
  encode_addressed f (ok (addr_type, addr)) =
      if f.frame_type == type_close
      then ok (frame_bytes f addr_none [])
      else ok (frame_bytes f addr_type addr)

  abbrev pub encode_checked : Frame → Option WireError → Result WireError (List ℕ)
  encode_checked f (some e) = err e
  encode_checked f none = encode_addressed f (encode_host f.endpoint.host)

  unfoldable pub encode : Frame → Result WireError (List ℕ)
  encode f = encode_checked f (validate_frame f)

  unfoldable pub decode_host : ℕ → List ℕ → Result WireError (List ℕ)
  decode_host addr_type raw =
      if addr_type == addr_none
      then (if not (length raw == 0) then err invalid_endpoint else ok [])
      else if addr_type == addr_ipv4
      then (if not (length raw == 4)
          then err invalid_endpoint
          else ok (netip.addr_string (ipv4 raw)))
      else if addr_type == addr_ipv6
      then (if not (length raw == 16)
          then err invalid_endpoint
          else ok (netip.addr_string (ipv6 raw)))
      else if addr_type == addr_domain
      then (if bytes_eq.beq raw [] || ltb max_host_len (length raw)
          then err invalid_endpoint
          else if is_printable raw
          then ok raw
          else err invalid_endpoint)
      else err invalid_endpoint

  abbrev pub decode_checked : Frame → Option WireError → Result WireError Frame
  decode_checked f (some e) = err e
  decode_checked f none = ok f

  -- Decode from the host on.
  abbrev pub decode_hosted : ℕ → ℕ → ℕ → List ℕ → Result WireError (List ℕ) → Result WireError Frame
  decode_hosted frame_type flow_id port payload (err e) = err e
  decode_hosted frame_type flow_id port payload (ok host) =
      let f : Frame = record {
        frame_type = frame_type;
        flow_id = flow_id;
        endpoint = record { host = host; port = port };
        payload = payload;
      } in
      if ltb max_payload_size (length payload)
      then err payload_too_large
      else decode_checked f (validate_frame f)

  unfoldable pub decode : List ℕ → Result WireError Frame
  decode bytes =
      let addr_len = byte_at bytes 15 in
      if ltb (length bytes) header_len
      then err frame_too_short
      else if not (byte_at bytes 0 == 0x4f) || not (byte_at bytes 1 == 0x55)
      then err bad_magic
      else if not (byte_at bytes 2 == version)
      then err unsupported_version
      else if not (is_known (byte_at bytes 3))
      then err unknown_frame_type
      else if u64_at bytes 4 == 0
      then err invalid_flow_id
      else if ltb (length bytes) (header_len + addr_len)
      then err frame_too_short
      else decode_hosted (byte_at bytes 3) (u64_at bytes 4) (u16_at bytes 13)
          (drop addr_len (drop header_len bytes))
          (decode_host (byte_at bytes 12) (take addr_len (drop header_len bytes)))
