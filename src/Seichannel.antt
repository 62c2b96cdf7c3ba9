-- ===== src/Seichannel.antt =====
-- internal/transport/seichannel/h264.go: payloads carried in the SEI messages of an H.264 access unit. A
-- byte string is a list of numbers below 256; a position in one is the list of the bytes from it on.
pub mod Escape
pub mod Messages
pub mod Units
pub mod RoundTrip
pub mod Packets
use olcrtc.Prelude.{
  ℕ, zero, suc, ◌+◌, ◌-◌, ◌%◌, Bool, true, false, not, ◌&&◌, ◌||◌, List, [], ◌∷◌, ◌++◌, Option,
  none, some, length, take, drop, ltb, leb, ◌==◌, if◌then◌else◌,
}
use olcrtc.Prelude.Maps.{same_bytes}
use olcrtc.Prelude.Results.{Result, ok, err}

pub data SeiError : Type 0 where
  payload_truncated value_truncated : SeiError

abbrev pub video_sei_uuid : List ℕ
video_sei_uuid =
    0x5d ∷ 0xc0 ∷ 0x3b ∷ 0xa8 ∷ 0x45 ∷ 0x0f ∷ 0x4b ∷ 0x55 ∷ 0x9a ∷ 0x77 ∷ 0x1f ∷ 0x91 ∷ 0x6c ∷ 0x5b
    ∷ 0x07 ∷ 0x39 ∷ []

abbrev pub base_sps : List ℕ
base_sps =
    0x67 ∷ 0x42 ∷ 0xc0 ∷ 0x0a ∷ 0xdd ∷ 0xec ∷ 0x04 ∷ 0x40 ∷ 0x00 ∷ 0x00 ∷ 0x03 ∷ 0x00 ∷ 0x40 ∷ 0x00
    ∷ 0x00 ∷ 0x03 ∷ 0x00 ∷ 0xa3 ∷ 0xc4 ∷ 0x89 ∷ 0xe0 ∷ []

abbrev pub base_pps : List ℕ
base_pps = 0x68 ∷ 0xce ∷ 0x0f ∷ 0xc8 ∷ []

abbrev pub base_idr : List ℕ
base_idr = 0x65 ∷ 0x88 ∷ 0x84 ∷ 0x3a ∷ 0x26 ∷ 0x28 ∷ 0x00 ∷ 0x09 ∷ 0x02 ∷ 0xe0 ∷ []

abbrev pub sei_nal_budget : ℕ
sei_nal_budget = 1000

-- A buffer that is written to, and the zero bytes that it ends with.
abbrev pub Escaped : Type 0
Escaped = List ℕ × ℕ

abbrev pub zeros_behind : ℕ → ℕ → ℕ
zeros_behind count value = if value == 0 then count + 1 else 0

unfoldable pub append_escaped_byte : Escaped → ℕ → Escaped
append_escaped_byte (dst, run) value =
    if leb 2 run && leb value 3
    then (dst ++ 3 ∷ value ∷ [], zeros_behind 0 value)
    else (dst ++ value ∷ [], zeros_behind run value)

unfoldable pub append_escaped_bytes : Escaped → List ℕ → Escaped
append_escaped_bytes out [] = out
append_escaped_bytes out (value ∷ src) = append_escaped_bytes (append_escaped_byte out value) src

-- The loop runs on the value, which every turn makes smaller.
unfoldable pub append_sei_loop : ℕ → Escaped → ℕ → Escaped
append_sei_loop zero out value = append_escaped_byte out value
append_sei_loop (suc fuel) out value =
    let more = append_sei_loop fuel (append_escaped_byte out 0xff) (value - 0xff) in
    if leb 0xff value then more else append_escaped_byte out value

unfoldable pub append_escaped_sei_value : Escaped → ℕ → Escaped
append_escaped_sei_value out value = append_sei_loop value out value

unfoldable pub append_escaped_sei_message : Escaped → List ℕ → Escaped
append_escaped_sei_message out payload =
    let typed = append_escaped_sei_value out 5 in
    let sized = append_escaped_sei_value typed (length video_sei_uuid + length payload) in
    append_escaped_bytes (append_escaped_bytes sized video_sei_uuid) payload

unfoldable pub append_messages : Escaped → List (List ℕ) → Escaped
append_messages out [] = out
append_messages out (payload ∷ payloads) =
    append_messages (append_escaped_sei_message out payload) payloads

abbrev pub append_sei_nal : List ℕ → List (List ℕ) → List ℕ
append_sei_nal dst payloads =
    (append_escaped_byte (append_messages (dst ++ 0 ∷ 0 ∷ 0 ∷ 1 ∷ 6 ∷ [], 0) payloads) 0x80).0

abbrev pub append_start_code : List ℕ → List ℕ → List ℕ
append_start_code dst nalu = dst ++ 0 ∷ 0 ∷ 0 ∷ 1 ∷ nalu

-- How many payloads go into the next SEI NAL, with `n` of `size` bytes taken.
unfoldable pub group_size : ℕ → ℕ → List (List ℕ) → ℕ
group_size size n [] = n
group_size size n (payload ∷ payloads) =
    let more = group_size (size + length payload) (n + 1) payloads in
    if ltb 0 n && ltb sei_nal_budget (size + length payload) then n else more

abbrev pub next_sei_group : List (List ℕ) → List (List ℕ) × List (List ℕ)
next_sei_group payloads = let n = group_size 0 0 payloads in (take n payloads, drop n payloads)

-- The loop over the groups, on the number of payloads.
unfoldable pub append_groups : ℕ → List ℕ → List (List ℕ) → List ℕ
append_groups zero out payloads = out
append_groups (suc fuel) out [] = out
append_groups (suc fuel) out (payload ∷ payloads) =
    let (group, rest) = next_sei_group (payload ∷ payloads) in
    append_groups fuel (append_sei_nal out group) rest

unfoldable pub build_video_access_unit : List (List ℕ) → List ℕ
build_video_access_unit payloads =
    let out = append_start_code (append_start_code [] base_sps) base_pps in
    append_start_code (append_groups (length payloads) out payloads) base_idr

-- The place and the length of the first start code.
abbrev pub one_on : Option (ℕ × ℕ) → Option (ℕ × ℕ)
one_on none = none
one_on (some (i, n)) = some (suc i, n)

abbrev pub starts_one : List ℕ → Bool
starts_one [] = false
starts_one (d ∷ r) = d == 1

unfoldable pub find_start_code : List ℕ → Option (ℕ × ℕ)
find_start_code [] = none
find_start_code (a ∷ []) = none
find_start_code (a ∷ b ∷ []) = none
find_start_code (a ∷ b ∷ c ∷ r) =
    let later = one_on (find_start_code (b ∷ c ∷ r)) in
    if not (a == 0) || not (b == 0)
    then later
    else if c == 1
    then some (0, 3)
    else if c == 0 && starts_one r
    then some (0, 4)
    else later

-- A NAL unit and what stands behind it.
abbrev pub cut_nal : List ℕ → Option (ℕ × ℕ) → List ℕ × List ℕ
cut_nal bytes none = (bytes, [])
cut_nal bytes (some (i, n)) = (take i bytes, drop i bytes)

abbrev pub nal_behind : List ℕ → Option (ℕ × ℕ) → Option (List ℕ × List ℕ)
nal_behind bytes none = none
nal_behind bytes (some (i, n)) =
    let rest = drop (i + n) bytes in some (cut_nal rest (find_start_code rest))

unfoldable pub next_annexb_nal : List ℕ → Option (List ℕ × List ℕ)
next_annexb_nal bytes = nal_behind bytes (find_start_code bytes)

-- escapeRBSP, with `run` zero bytes before.
unfoldable pub escape_from : ℕ → List ℕ → List ℕ
escape_from run [] = []
escape_from run (b ∷ bs) =
    let escaped = escape_from (zeros_behind 0 b) bs in
    let plain = escape_from (zeros_behind run b) bs in
    if leb 2 run && leb b 3 then 3 ∷ b ∷ escaped else b ∷ plain

abbrev pub escape_rbsp : List ℕ → List ℕ
escape_rbsp rbsp = escape_from 0 rbsp

-- The bytes with the emulation prevention taken out; `p` and `q` stand before them. Before the first byte
-- stands nothing, and 1 is as good.
unfoldable pub unescape_from : ℕ → ℕ → List ℕ → List ℕ
unescape_from p q [] = []
unescape_from p q (b ∷ bs) =
    let rest = unescape_from q b bs in if b == 3 && q == 0 && p == 0 then rest else b ∷ rest

unfoldable pub unescape_rbsp : List ℕ → List ℕ
unescape_rbsp rbsp = unescape_from 1 1 rbsp

unfoldable pub consume_from : ℕ → List ℕ → Result SeiError (ℕ × List ℕ)
consume_from value [] = err value_truncated
consume_from value (b ∷ bs) =
    let more = consume_from (value + b) bs in if b == 0xff then more else ok (value + b, bs)

abbrev pub consume_sei_value : List ℕ → Result SeiError (ℕ × List ℕ)
consume_sei_value bytes = consume_from 0 bytes

abbrev pub is_transport : ℕ → List ℕ → Bool
is_transport kind payload =
    kind == 5
    && leb (length video_sei_uuid) (length payload)
    && same_bytes (take (length video_sei_uuid) payload) video_sei_uuid

-- One message: its payload, if it is the transport's, and what stands behind it.
abbrev pub sized_message :
    ℕ → Result SeiError (ℕ × List ℕ) → Result SeiError (List (List ℕ) × List ℕ)
sized_message kind (err e) = err e
sized_message kind (ok (size, bytes)) =
    let payload = take size bytes in
    if ltb (length bytes) size
    then err payload_truncated
    else ok (
      if is_transport kind payload then drop (length video_sei_uuid) payload ∷ [] else [],
      drop size bytes,
    )

abbrev pub typed_message : Result SeiError (ℕ × List ℕ) → Result SeiError (List (List ℕ) × List ℕ)
typed_message (err e) = err e
typed_message (ok (kind, bytes)) = sized_message kind (consume_sei_value bytes)

unfoldable pub read_message : List ℕ → Result SeiError (List (List ℕ) × List ℕ)
read_message bytes = typed_message (consume_sei_value bytes)

-- Nothing is left, or the trailing bits alone.
abbrev pub is_end : List ℕ → Bool
is_end [] = true
is_end (b ∷ bs) = b == 0x80 && length bs == 0

-- The loop of extractTransportSEI, on more steps than there are bytes.
unfoldable pub read_messages : ℕ → List (List ℕ) → List ℕ → Result SeiError (List (List ℕ))
read_messages zero out bytes = ok out
read_messages (suc fuel) out bytes = if is_end bytes then ok out else elim (read_message bytes) [
  | err e ↦ err e
  | ok (found, rest) ↦ read_messages fuel (out ++ found) rest
]

unfoldable pub extract_transport_sei : List ℕ → Result SeiError (List (List ℕ))
extract_transport_sei rbsp =
    let bytes = unescape_rbsp rbsp in read_messages (suc (length bytes)) [] bytes

abbrev pub found_in : Result SeiError (List (List ℕ)) → List (List ℕ)
found_in (err e) = []
found_in (ok found) = found

-- What one NAL unit adds.
unfoldable pub payloads_of : List ℕ → List (List ℕ)
payloads_of [] = []
payloads_of (header ∷ []) = []
payloads_of (header ∷ b ∷ bs) =
    if header % 32 == 6 then found_in (extract_transport_sei (b ∷ bs)) else []

-- The loop over the NAL units, on more steps than there are bytes.
unfoldable pub extract_units : ℕ → List (List ℕ) → List ℕ → List (List ℕ)
extract_units zero payloads bytes = payloads
extract_units (suc fuel) payloads bytes = elim (next_annexb_nal bytes) [
  | none ↦ payloads
  | some (nal, rest) ↦ extract_units fuel (payloads ++ payloads_of nal) rest
]

unfoldable pub extract_video_payloads : List ℕ → List (List ℕ)
extract_video_payloads bytes = extract_units (suc (length bytes)) [] bytes
