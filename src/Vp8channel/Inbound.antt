-- ===== src/Vp8channel/Inbound.antt =====
-- internal/transport/vp8channel/inbound.go, with handleControlFrame of control.go and the handling of
-- datagrams of datagram.go: where the payload of a frame goes. A plane that is down takes nothing.
pub mod Meant
use olcrtc.Prelude.{
  ℕ, zero, suc, ◌+◌, ◌-◌, ◌%◌, ◌^◌, Bool, true, false, not, ◌&&◌, ◌||◌, List, [], ◌∷◌, ◌++◌, Option,
  none, some, length, drop, ltb, leb, ◌==◌, if◌then◌else◌,
}
use olcrtc.Vp8channel.{
  epoch_hdr_len, parse_epoch_header, split_kcp_payload, split_datagram_payload,
  split_datagram_batch_payload,
}

-- The fields of streamTransport that the handlers read; `last_peer_frame` is 0 before the first frame.
pub record Node : Type 0 where
  pub binding_token : ℕ
  pub local_epoch : ℕ
  pub server_mode : Bool
  pub peer_seen : Bool
  pub peer_confirmed : Bool
  pub peer_epoch : ℕ
  pub link_unhealthy : Bool
  pub peer_restart_grace : ℕ
  pub last_peer_frame : ℕ
  pub peer_restarting : Bool

-- The packets for a plane, the datagrams for a callback, and the rebuild of the provider. A frame for a peer
-- refreshes the peer's session even if it has no packet.
pub data Delivery : Type 0 where
  to_control to_data : (packets : List (List ℕ)) → Delivery
  to_peer_control to_peer : (epoch : ℕ) (packets : List (List ℕ)) → Delivery
  to_datagram : (bytes : List ℕ) → Delivery
  to_peer_datagram : (epoch : ℕ) (bytes : List ℕ) → Delivery
  reconnect : Delivery

-- Epochs with `controlEpochFlag` set and cleared.
abbrev pub control_epoch : ℕ → ℕ
control_epoch epoch = epoch % 2 ^ 31 + 2 ^ 31

abbrev pub data_epoch : ℕ → ℕ
data_epoch epoch = epoch % 2 ^ 31

abbrev pub is_control : ℕ → Bool
is_control epoch = leb (2 ^ 31) (epoch % 2 ^ 32)

unfoldable pub accepts_dst : Node → ℕ → Bool
accepts_dst p dst = dst == 0 || dst == p.local_epoch || dst == control_epoch (p.local_epoch)

-- deliverKCPPayload.
abbrev pub kcp_packets : List ℕ → List (List ℕ)
kcp_packets [] = []
kcp_packets (b ∷ payload) = split_kcp_payload (b ∷ payload)

unfoldable pub handle_control_frame : Node → ℕ → ℕ → List ℕ → List Delivery
handle_control_frame p src dst payload =
    let packets = kcp_packets payload in
    if length payload == 0
    then []
    else if p.server_mode
    then to_peer_control (data_epoch src) packets ∷ []
    else if not (dst == control_epoch (p.local_epoch))
    then []
    else to_control packets ∷ []

unfoldable pub maybe_peer_restart : Node → ℕ → Node × List Delivery
maybe_peer_restart p now =
    if not (p.link_unhealthy)
    then (p, [])
    else if p.peer_restart_grace == 0
    then (p, [])
    else if p.last_peer_frame == 0 || ltb (now - p.last_peer_frame) (p.peer_restart_grace)
    then (p, [])
    else if p.peer_restarting
    then (p, [])
    else (record p { peer_restarting = true }, reconnect ∷ [])

unfoldable pub handle_single_peer_data : Node → ℕ → ℕ → List ℕ → Node × List Delivery
handle_single_peer_data p now src payload =
    if not (p.peer_confirmed)
    then (p, [])
    else if not (src == p.peer_epoch)
    then maybe_peer_restart p now
    else (
      record p { last_peer_frame = now },
      if length payload == 0 then [] else to_data (kcp_packets payload) ∷ [],
    )

unfoldable pub handle_datagram_frame : Node → ℕ → ℕ → List ℕ → Node × List Delivery
handle_datagram_frame p now src payload =
    if p.server_mode
    then (p, to_peer_datagram src payload ∷ [])
    else if not (p.peer_confirmed) || not (src == p.peer_epoch)
    then (p, [])
    else (record p { last_peer_frame = now }, to_datagram payload ∷ [])

abbrev pub handle_packet : Node → ℕ → ℕ → Option (List ℕ) → Node × List Delivery
handle_packet p now src none = (p, [])
handle_packet p now src (some payload) = handle_datagram_frame p now src payload

unfoldable pub handle_datagram_batch_frame : Node → ℕ → ℕ → List (List ℕ) → Node × List Delivery
handle_datagram_batch_frame p now src [] = (p, [])
handle_datagram_batch_frame p now src (packet ∷ packets) =
    let step = handle_packet p now src (split_datagram_payload packet) in
    let rest = handle_datagram_batch_frame (step.0) now src packets in (rest.0, step.1 ++ rest.1)

-- The frame after its datagrams: one for the reliable plane.
abbrev pub handle_reliable : Node → ℕ → ℕ → List ℕ → Node × List Delivery
handle_reliable p now src payload =
    if p.server_mode
    then (p, to_peer src (kcp_packets payload) ∷ [])
    else handle_single_peer_data p now src payload

abbrev pub handle_datagram : Node → ℕ → ℕ → List ℕ → Option (List ℕ) → Node × List Delivery
handle_datagram p now src payload none = handle_reliable p now src payload
handle_datagram p now src payload (some datagram) = handle_datagram_frame p now src datagram

abbrev pub handle_batch : Node → ℕ → ℕ → List ℕ → Option (List (List ℕ)) → Node × List Delivery
handle_batch p now src payload none =
    handle_datagram p now src payload (split_datagram_payload payload)
handle_batch p now src payload (some packets) = handle_datagram_batch_frame p now src packets

-- A frame with a good header.
abbrev pub handle_parsed : Node → ℕ → ℕ × ℕ × ℕ → List ℕ → Node × List Delivery
handle_parsed p now (token, src, dst) payload =
    let seen = record p { peer_seen = true } in
    if not (token == p.binding_token)
    then (p, [])
    else if src == p.local_epoch || src == control_epoch (p.local_epoch)
    then (p, [])
    else if not (accepts_dst p dst)
    then (seen, [])
    else if is_control src
    then (seen, handle_control_frame seen src dst payload)
    else handle_batch seen now src payload (split_datagram_batch_payload payload)

abbrev pub handle_header : Node → ℕ → Option (ℕ × ℕ × ℕ) → List ℕ → Node × List Delivery
handle_header p now none payload = (p, [])
handle_header p now (some header) payload = handle_parsed p now header payload

unfoldable pub handle_incoming_frame : (List ℕ → ℕ) → Node → ℕ → List ℕ → Node × List Delivery
handle_incoming_frame crc p now frame =
    handle_header p now (parse_epoch_header crc frame) (drop epoch_hdr_len frame)
