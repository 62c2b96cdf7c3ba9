-- ===== src/Vp8channel/Inbound/Meant.antt =====
-- Only frames that are meant for a node reach its planes: internal/transport/vp8channel/inbound.go.
use olcrtc.Prelude.{
  ℕ, ◌≡◌, ◌≢◌, refl, sym, ap, subst, inl, inr, Option-cases, ◌⊎◌, Bool, true, false, List, [], ◌∷◌,
  ◌++◌, All, Option, none, some, drop, arith, if◌then◌else◌,
}
use olcrtc.Vp8channel.{
  epoch_hdr_len, parse_epoch_header, split_datagram_payload, split_datagram_batch_payload,
}
use olcrtc.Vp8channel.Inbound.{
  Node, Delivery, to_control, to_data, to_peer_control, to_peer, to_datagram, to_peer_datagram,
  reconnect, control_epoch, data_epoch, is_control, accepts_dst, handle_control_frame,
  maybe_peer_restart, handle_single_peer_data, handle_datagram_frame, handle_packet,
  handle_datagram_batch_frame, handle_reliable, handle_datagram, handle_batch, handle_parsed,
  handle_header, handle_incoming_frame,
}

-- The confirmed peer of a client.
abbrev pub IsPeer : Node → ℕ → Type 0
IsPeer p src = (p.server_mode ≡ false) × (p.peer_confirmed ≡ true) × (src ≡ p.peer_epoch)

-- Which source and destination a delivery needs.
abbrev pub IsFor : Node → ℕ → ℕ → Delivery → Type 0
IsFor p src dst (to_control packets) =
    (p.server_mode ≡ false) × (is_control src ≡ true) × (dst ≡ control_epoch p.local_epoch)
IsFor p src dst (to_data packets) = IsPeer p src
IsFor p src dst (to_peer_control epoch packets) =
    (p.server_mode ≡ true) × (is_control src ≡ true) × (epoch ≡ data_epoch src)
IsFor p src dst (to_peer epoch packets) = (p.server_mode ≡ true) × (epoch ≡ src)
IsFor p src dst (to_datagram bytes) = IsPeer p src
IsFor p src dst (to_peer_datagram epoch bytes) = (p.server_mode ≡ true) × (epoch ≡ src)
IsFor p src dst reconnect =
    (p.server_mode ≡ false)
    × (p.link_unhealthy ≡ true)
    × (src ≢ p.peer_epoch)
    × (p.peer_restarting ≡ false)

handle_control_frame-IsFor :
    (p : Node) (src dst : ℕ) (payload : List ℕ)
    → is_control src ≡ true
    → All (IsFor p src dst) (handle_control_frame p src dst payload)
unfolding handle_control_frame
handle_control_frame-IsFor p src dst payload c = ground (arith, c)

handle_single_peer_data-IsFor :
    (p : Node) (now src dst : ℕ) (payload : List ℕ)
    → p.server_mode ≡ false
    → All (IsFor p src dst) (handle_single_peer_data p now src payload).1
unfolding handle_single_peer_data maybe_peer_restart
handle_single_peer_data-IsFor p now src dst payload c = ground (arith, c)

handle_datagram_frame-IsFor :
    (p : Node) (now src dst : ℕ) (payload : List ℕ)
    → All (IsFor p src dst) (handle_datagram_frame p now src payload).1
unfolding handle_datagram_frame
handle_datagram_frame-IsFor p now src dst payload = ground arith

All-append :
    (p : Node) (src dst : ℕ) (xs ys : List Delivery)
    → All (IsFor p src dst) xs
    → All (IsFor p src dst) ys
    → All (IsFor p src dst) (xs ++ ys)
All-append p src dst [] ys f g = g
All-append p src dst (x ∷ xs) ys f g = (f.0, All-append p src dst xs ys f.1 g)

-- A datagram changes the time of the last frame alone.
handle_datagram_frame-state :
    (p : Node) (now src : ℕ) (payload : List ℕ)
    → ((handle_datagram_frame p now src payload).0 ≡ p)
      ⊎ ((handle_datagram_frame p now src payload).0 ≡ record p { last_peer_frame = now })
unfolding handle_datagram_frame
handle_datagram_frame-state p now src payload = ground arith

handle_packet-state :
    (p : Node) (now src : ℕ) (o : Option (List ℕ))
    → ((handle_packet p now src o).0 ≡ p)
      ⊎ ((handle_packet p now src o).0 ≡ record p { last_peer_frame = now })
handle_packet-state p now src none = inl refl
handle_packet-state p now src (some payload) = handle_datagram_frame-state p now src payload

handle_packet-IsFor :
    (p : Node) (now src dst : ℕ) (o : Option (List ℕ))
    → All (IsFor p src dst) (handle_packet p now src o).1
handle_packet-IsFor p now src dst none = tt
handle_packet-IsFor p now src dst (some payload) = handle_datagram_frame-IsFor p now src dst payload

handle_datagram_batch_frame-IsFor :
    (p : Node) (now src dst : ℕ) (packets : List (List ℕ))
    → All (IsFor p src dst) (handle_datagram_batch_frame p now src packets).1
unfolding handle_datagram_batch_frame
handle_datagram_batch_frame-IsFor p now src dst [] = tt
handle_datagram_batch_frame-IsFor p now src dst (packet ∷ packets) =
    let o = split_datagram_payload packet in
    let step = handle_packet p now src o in
    let rest = (handle_datagram_batch_frame step.0 now src packets).1 in
    let later : All (IsFor step.0 src dst) rest =
      handle_datagram_batch_frame-IsFor step.0 now src dst packets in
    let same : All (IsFor p src dst) rest = elim (handle_packet-state p now src o) [
      | inl e ↦ subst (λ q. All (IsFor q src dst) rest) e later
      | inr e ↦ subst (λ q. All (IsFor q src dst) rest) e later
    ] in
    All-append p src dst step.1 rest (handle_packet-IsFor p now src dst o) same

if-IsFor :
    (p : Node) (src dst : ℕ) (b : Bool) (x y : Node × List Delivery)
    → (b ≡ true → All (IsFor p src dst) x.1)
    → (b ≡ false → All (IsFor p src dst) y.1)
    → All (IsFor p src dst) (if b then x else y).1
if-IsFor p src dst true x y f g = f refl
if-IsFor p src dst false x y f g = g refl

handle_reliable-IsFor :
    (p : Node) (now src dst : ℕ) (payload : List ℕ)
    → All (IsFor p src dst) (handle_reliable p now src payload).1
handle_reliable-IsFor p now src dst payload =
    if-IsFor p src dst p.server_mode _ (handle_single_peer_data p now src payload)
      (λ e. ((e, refl), tt)) (handle_single_peer_data-IsFor p now src dst payload)

handle_datagram-IsFor :
    (p : Node) (now src dst : ℕ) (payload : List ℕ) (o : Option (List ℕ))
    → All (IsFor p src dst) (handle_datagram p now src payload o).1
handle_datagram-IsFor p now src dst payload none = handle_reliable-IsFor p now src dst payload
handle_datagram-IsFor p now src dst payload (some datagram) =
    handle_datagram_frame-IsFor p now src dst datagram

handle_batch-IsFor :
    (p : Node) (now src dst : ℕ) (payload : List ℕ) (o : Option (List (List ℕ)))
    → All (IsFor p src dst) (handle_batch p now src payload o).1
handle_batch-IsFor p now src dst payload none =
    handle_datagram-IsFor p now src dst payload (split_datagram_payload payload)
handle_batch-IsFor p now src dst payload (some packets) =
    handle_datagram_batch_frame-IsFor p now src dst packets

-- A frame that a node may take: of its session, from another node, and for it.
abbrev pub IsTaken : Node → ℕ × ℕ × ℕ → Type 0
IsTaken p (token, src, dst) =
    (token ≡ p.binding_token)
    × (src ≢ p.local_epoch)
    × (src ≢ control_epoch p.local_epoch)
    × (accepts_dst p dst ≡ true)

abbrev pub OnlyTaken : Node → ℕ × ℕ × ℕ → List Delivery → Type 0
OnlyTaken p header deliveries =
    (deliveries ≡ []) ⊎ (IsTaken p header × All (IsFor p header.1 header.2) deliveries)

handle_parsed-OnlyTaken :
    (p : Node) (now token src dst : ℕ) (payload : List ℕ)
    → OnlyTaken p (token, src, dst) (handle_parsed p now (token, src, dst) payload).1
handle_parsed-OnlyTaken p now token src dst payload =
    let seen = record p { peer_seen = true } in
    ground (
      arith,
      handle_batch-IsFor seen now src dst payload (split_datagram_batch_payload payload),
      handle_control_frame-IsFor seen src dst payload,
    )

-- A frame whose header does not hold is given to nothing. A frame of another session, from the node itself
-- or for another node is given to nothing; of any other each delivery is as the mode says: a client takes
-- data and datagrams from its confirmed peer alone, control packets for its own control epoch alone, and
-- rebuilds only for another peer's frame when its link is unhealthy and no rebuild is in flight; a server's
-- deliveries carry the sender's epoch.
pub handle_incoming_frame-OnlyTaken :
    (crc : List ℕ → ℕ) (p : Node) (now : ℕ) (frame : List ℕ)
    → ((parse_epoch_header crc frame ≡ none) × ((handle_incoming_frame crc p now frame).1 ≡ []))
      ⊎ ((header : ℕ × ℕ × ℕ) × ((parse_epoch_header crc frame ≡ some header)
            × OnlyTaken p header (handle_incoming_frame crc p now frame).1))
unfolding handle_incoming_frame
handle_incoming_frame-OnlyTaken crc p now frame =
    elim (Option-cases (parse_epoch_header crc frame)) [
      | inl bad ↦ inl (bad, ap (λ o. (handle_header p now o (drop epoch_hdr_len frame)).1) bad)
      | inr (header, good) ↦ inr (
        header,
        (
          good,
          subst (λ o. OnlyTaken p header (handle_header p now o (drop epoch_hdr_len frame)).1)
              (sym good)
              (handle_parsed-OnlyTaken p now header.0 header.1 header.2 (drop epoch_hdr_len frame)),
        ),
      )
    ]
