-- ===== src/Vp8channel.antt =====
-- internal/transport/vp8channel: KCP packets and datagrams in the frames of a VP8 track. A uint32 is a number
-- below 2 ^ 32, and `crc` stands for crc32.ChecksumIEEE.
pub mod Header
pub mod Batches
pub mod Samples
pub mod Inbound
pub mod Delivery
pub mod EndToEnd
pub mod Peers
use olcrtc.Prelude.{
  ℕ, zero, suc, ◌+◌, ◌-◌, ◌*◌, Bool, true, false, not, ◌&&◌, ◌||◌, List, [], ◌∷◌, ◌++◌, Option,
  none, some, length, take, drop, replicate, ltb, leb, ◌==◌, if◌then◌else◌,
}
use olcrtc.Prelude.Maps.{same_bytes}
use olcrtc.Bytes.{put_u16, put_u32, u32_at}

abbrev pub vp8_keepalive : List ℕ
vp8_keepalive =
    0x30 ∷ 0x01 ∷ 0x00 ∷ 0x9d ∷ 0x01 ∷ 0x2a ∷ 0x10 ∷ 0x00 ∷ 0x10 ∷ 0x00 ∷ 0x00 ∷ 0x47 ∷ 0x08 ∷ 0x85
    ∷ 0x85 ∷ 0x88 ∷ 0x99 ∷ 0x84 ∷ 0x88 ∷ 0xfc ∷ []

abbrev pub token_off : ℕ
token_off = 20

abbrev pub src_off : ℕ
src_off = 24

abbrev pub dst_off : ℕ
dst_off = 28

abbrev pub crc_off : ℕ
crc_off = 32

abbrev pub epoch_hdr_len : ℕ
epoch_hdr_len = 36

abbrev pub default_max_payload_size : ℕ
default_max_payload_size = 60 * 1024

-- 'OLKB', 'OLUD', 'OLUB'.
abbrev pub kcp_batch_magic : List ℕ
kcp_batch_magic = 79 ∷ 76 ∷ 75 ∷ 66 ∷ []

abbrev pub datagram_magic : List ℕ
datagram_magic = 79 ∷ 76 ∷ 85 ∷ 68 ∷ []

abbrev pub datagram_batch_magic : List ℕ
datagram_batch_magic = 79 ∷ 76 ∷ 85 ∷ 66 ∷ []

module _ (crc : List ℕ → ℕ) where
  unfoldable pub epoch_crc : ℕ → ℕ → ℕ → ℕ
  epoch_crc token src dst = crc (put_u32 (put_u32 (put_u32 (replicate 12 0) 0 token) 4 src) 8 dst)

  unfoldable pub build_epoch_header_to : ℕ → ℕ → ℕ → List ℕ
  build_epoch_header_to token src dst =
      put_u32
        (put_u32 (put_u32 (put_u32 (vp8_keepalive ++ replicate 16 0) token_off token) src_off src)
          dst_off dst)
        crc_off (epoch_crc token src dst)

  abbrev pub build_epoch_header : ℕ → ℕ → List ℕ
  build_epoch_header token src = build_epoch_header_to token src 0

  -- The token, the source and the destination, where the header is whole and its checksum holds; the callers
  -- use nothing else.
  unfoldable pub parse_epoch_header : List ℕ → Option (ℕ × ℕ × ℕ)
  parse_epoch_header frame =
      let token = u32_at frame token_off in
      let src = u32_at frame src_off in
      let dst = u32_at frame dst_off in
      if ltb (length frame) epoch_hdr_len
      then none
      else if u32_at frame crc_off == epoch_crc token src dst
      then some (token, src, dst)
      else none

-- The loop of splitKCPPayload, on more steps than there are bytes: the packets it delivers.
unfoldable pub split_packets : ℕ → List ℕ → List (List ℕ)
split_packets zero rest = []
split_packets (suc fuel) [] = []
split_packets (suc fuel) (high ∷ []) = []
split_packets (suc fuel) (high ∷ low ∷ rest) =
    let size = high * 256 + low in
    let more = take size rest ∷ split_packets fuel (drop size rest) in
    if size == 0 || ltb (length rest) size then [] else more

abbrev pub has_magic : List ℕ → List ℕ → Bool
has_magic magic payload =
    not (ltb (length payload) (length magic)) && same_bytes (take (length magic) payload) magic

unfoldable pub split_kcp_payload : List ℕ → List (List ℕ)
split_kcp_payload payload =
    if has_magic kcp_batch_magic payload
    then split_packets (suc (length payload)) (drop (length kcp_batch_magic) payload)
    else payload ∷ []

unfoldable pub split_datagram_payload : List ℕ → Option (List ℕ)
split_datagram_payload payload =
    if has_magic datagram_magic payload then some (drop (length datagram_magic) payload) else none

abbrev pub with_packet : List ℕ → Option (List (List ℕ)) → Option (List (List ℕ))
with_packet packet none = none
with_packet packet (some packets) = some (packet ∷ packets)

-- The loop of splitDatagramBatchPayload, which a malformed packet ends without any.
unfoldable pub split_datagrams : ℕ → List ℕ → Option (List (List ℕ))
split_datagrams zero rest = none
split_datagrams (suc fuel) [] = some []
split_datagrams (suc fuel) (high ∷ []) = none
split_datagrams (suc fuel) (high ∷ low ∷ rest) =
    let size = high * 256 + low in
    let more = with_packet (take size rest) (split_datagrams fuel (drop size rest)) in
    if size == 0 || ltb (length rest) size then none else more

unfoldable pub split_datagram_batch_payload : List ℕ → Option (List (List ℕ))
split_datagram_batch_payload payload =
    if has_magic datagram_batch_magic payload
    then split_datagrams (suc (length payload)) (drop (length datagram_batch_magic) payload)
    else none

unfoldable pub same_epoch_header : List ℕ → List ℕ → Bool
same_epoch_header a b =
    leb epoch_hdr_len (length a)
    && leb epoch_hdr_len (length b)
    && same_bytes (take epoch_hdr_len a) (take epoch_hdr_len b)

unfoldable pub append_batch_packet : List ℕ → List ℕ → List ℕ
append_batch_packet dst packet =
    if ltb 0xffff (length packet)
    then dst
    else dst ++ (put_u16 (0 ∷ 0 ∷ []) 0 (length packet) ++ packet)

-- A sample, the frame that waits for the next one, and what is left of the queue. The loop runs on the
-- packets that still may be added.
unfoldable pub batch_loop : ℕ → List ℕ → List (List ℕ) → List ℕ × Option (List ℕ) × List (List ℕ)
batch_loop zero sample src = (sample, none, src)
batch_loop (suc left) sample [] = (sample, none, [])
batch_loop (suc left) sample (frame ∷ src) =
    let payload = drop epoch_hdr_len frame in
    let skipped = batch_loop left sample src in
    let added = batch_loop left (append_batch_packet sample payload) src in
    if leb (length frame) epoch_hdr_len
    then skipped
    else if ltb default_max_payload_size (length sample + 2 + length payload)
    then (sample, some frame, src)
    else added

abbrev pub can_batch : ℕ → List ℕ → Bool
can_batch batch_size frame = ltb epoch_hdr_len (length frame) && ltb 1 batch_size

abbrev pub first_packet : List ℕ → List ℕ → List ℕ
first_packet magic first =
    append_batch_packet (take epoch_hdr_len first ++ magic) (drop epoch_hdr_len first)

unfoldable pub batch_sample_up_to :
    ℕ → List (List ℕ) → List ℕ → ℕ → List ℕ × Option (List ℕ) × List (List ℕ)
batch_sample_up_to batch_size src first limit =
    let batch = batch_loop (limit - 1) (first_packet kcp_batch_magic first) src in
    if can_batch batch_size first then batch else (first, none, src)

-- The same for datagrams, which are not mixed with those of another header; `none` is a queue that ran out
-- before a second packet.
unfoldable pub datagram_loop :
    ℕ → List ℕ → List ℕ → List (List ℕ) → List ℕ × Option (List ℕ) × List (List ℕ)
datagram_loop zero first sample src = (sample, none, src)
datagram_loop (suc left) first sample [] = (sample, none, [])
datagram_loop (suc left) first sample (frame ∷ src) =
    let payload = drop epoch_hdr_len frame in
    let added = datagram_loop left first (append_batch_packet sample payload) src in
    if not (same_epoch_header first frame)
    then (sample, some frame, src)
    else if ltb default_max_payload_size (length sample + 2 + length payload)
    then (sample, some frame, src)
    else added

-- A queue that is empty from the start sends the first datagram as it is.
abbrev pub batch_datagrams : ℕ → List ℕ → List (List ℕ) → List ℕ × Option (List ℕ) × List (List ℕ)
batch_datagrams batch_size first [] = (first, none, [])
batch_datagrams batch_size first (frame ∷ src) =
    datagram_loop (batch_size - 1) first (first_packet datagram_batch_magic first) (frame ∷ src)

unfoldable pub batch_datagram_sample_from :
    ℕ → List (List ℕ) → List ℕ → List ℕ × Option (List ℕ) × List (List ℕ)
batch_datagram_sample_from batch_size src first =
    if leb (length first) epoch_hdr_len || leb batch_size 1
    then (first, none, src)
    else batch_datagrams batch_size first src
