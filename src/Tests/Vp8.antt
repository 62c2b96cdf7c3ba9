-- ===== src/Tests/Vp8.antt =====
-- The theorems on the VP8 channel at concrete inputs.
use olcrtc.Prelude.{
  zero, suc, All, ℕ, ◌+◌, ◌≡◌, ◌⊎◌, inr, refl, true, false, List, [], ◌∷◌, ◌++◌, none, some, length,
  ◌*◌, ◌≤◌, arith,
}
use olcrtc.Vp8channel.{build_epoch_header_to, parse_epoch_header, batch_sample_up_to, epoch_crc}
use olcrtc.Prelude.Maps.{nat_eq, lookup, insert}
use olcrtc.Vp8channel.Peers.{
  PeerSession, PeerTable, get, add, create, close, PeerCall, looked, made, retired_at, swept_at,
  closing, after_events, peer_session_for,
}
use olcrtc.Vp8channel.Peers.Bounded.{IsBounded, IsKeyed}
use olcrtc.Vp8channel.Peers.Events.{after_events-IsBounded}
use olcrtc.Vp8channel.Peers.Kept.{IsAnswered, peer_session_for_kept, peer_session_for_raced}
use olcrtc.Vp8channel.Samples.{held, payloads}
use olcrtc.Vp8channel.Inbound.{Node, handle_incoming_frame, accepts_dst}
use olcrtc.Vp8channel.Inbound.Meant.{handle_incoming_frame-OnlyTaken, OnlyTaken}
use olcrtc.Vp8channel.EndToEnd.{batch_sample-delivered, delivery_of}

abbrev checksum : List ℕ → ℕ
checksum xs = 5

-- A client that knows its peer.
abbrev client : Node
client = record {
  binding_token = 77;
  local_epoch = 9;
  server_mode = false;
  peer_seen = false;
  peer_confirmed = true;
  peer_epoch = 4;
  link_unhealthy = false;
  peer_restart_grace = 0;
  last_peer_frame = 0;
  peer_restarting = false;
}

abbrev frame_with : List ℕ → List ℕ
frame_with packet = build_epoch_header_to checksum 77 4 9 ++ packet

abbrev queue : List (List ℕ)
queue = frame_with (2 ∷ 3 ∷ []) ∷ frame_with (6 ∷ []) ∷ []

checksum_small : epoch_crc checksum 77 4 9 ≡ 5
unfolding epoch_crc
checksum_small = refl

accepted : accepts_dst client 9 ≡ true
unfolding accepts_dst
accepted = refl

length_first :
    (36 + 1 ≤ length (frame_with (1 ∷ []))) × (length (frame_with (1 ∷ [])) + 6 ≤ 60 * 1024)
unfolding build_epoch_header_to
length_first = (omega arith, omega arith)

batch_sample-delivered_example :
    (taken : List (List ℕ)) × ((queue
        ≡ taken
          ++ (held (batch_sample_up_to 8 queue (frame_with (1 ∷ [])) 2).1
              ++ (batch_sample_up_to 8 queue (frame_with (1 ∷ [])) 2).2))
      × ((handle_incoming_frame checksum client 50
            (batch_sample_up_to 8 queue (frame_with (1 ∷ [])) 2).0).1
          ≡ delivery_of client 4 ((1 ∷ []) ∷ payloads taken)))
batch_sample-delivered_example =
    let small = checksum_small in
    batch_sample-delivered checksum client 50 4 9 8 2 (1 ∷ []) queue (omega arith) length_first
      (omega arith) (omega arith) (omega arith) (omega (arith, small)) (omega arith) (omega arith)
      accepted refl (inr (refl, refl, refl))

handle_incoming_frame-OnlyTaken_example :
    ((parse_epoch_header checksum (frame_with (1 ∷ [])) ≡ none)
      × ((handle_incoming_frame checksum client 50 (frame_with (1 ∷ []))).1 ≡ []))
    ⊎ ((header : ℕ × ℕ × ℕ) × ((parse_epoch_header checksum (frame_with (1 ∷ [])) ≡ some header)
          × OnlyTaken client header
              (handle_incoming_frame checksum client 50 (frame_with (1 ∷ []))).1))
handle_incoming_frame-OnlyTaken_example =
    handle_incoming_frame-OnlyTaken checksum client 50 (frame_with (1 ∷ []))

-- A table that is full, a peer that it does not know, and one that it knows.
abbrev full_sessions : ℕ → List (ℕ × PeerSession)
full_sessions zero = []
full_sessions (suc n) =
    (n, record { number = n; epoch = n; last_seen = n + 5; retired = false }) ∷ full_sessions n

abbrev full_table : PeerTable
full_table = record {
  sessions = full_sessions 64;
  closed = false;
  closed_sessions = [];
  next_number = 64;
}

full_sessions-IsKeyed : (n : ℕ) → All IsKeyed (full_sessions n)
full_sessions-IsKeyed zero = tt
full_sessions-IsKeyed (suc n) = (refl, full_sessions-IsKeyed n)

after_events-IsBounded_example : IsBounded (
    after_events full_table
      (made 99 100 true ∷ retired_at 7 10 200 ∷ looked 7 201 ∷ swept_at 50 10 300 ∷ closing ∷ []))
after_events-IsBounded_example =
    after_events-IsBounded full_table
      (made 99 100 true ∷ retired_at 7 10 200 ∷ looked 7 201 ∷ swept_at 50 10 300 ∷ closing ∷ [])
      (full_sessions-IsKeyed 64, omega arith)

abbrev one_session : PeerSession
one_session = record { number = 0; epoch = 99; last_seen = 100; retired = false }

abbrev empty_table : PeerTable
empty_table = record { sessions = []; closed = false; closed_sessions = []; next_number = 0 }

abbrev one_table : PeerTable
one_table = record {
  sessions = (99, one_session) ∷ [];
  closed = false;
  closed_sessions = [];
  next_number = 1;
}

-- Nothing happens between the steps.
abbrev alone : ℕ → PeerCall
alone now = record {
  looked_at = now;
  waiting = [];
  locked_at = now;
  building = [];
  made_at = now;
  starts = true;
}

-- Another call for the epoch makes the session while this one waits.
abbrev overtaken : PeerCall
overtaken = record (alone 110) { waiting = looked 99 100 ∷ made 99 100 true ∷ looked 98 105 ∷ [] }

first_frame : peer_session_for empty_table 99 (alone 100) ≡ (one_table, some one_session)
unfolding peer_session_for after_events get create add lookup insert
first_frame = refl

-- Two creations, one of them for the epoch that has its session, and a sweep that finds nothing stale.
peer_session_for_kept_example :
    IsAnswered 0
      (after_events one_table (made 99 110 true ∷ made 98 111 true ∷ swept_at 50 10 120 ∷ []))
      (peer_session_for
        (after_events one_table (made 99 110 true ∷ made 98 111 true ∷ swept_at 50 10 120 ∷ []))
        99
        (alone 130))
unfolding after_events create add lookup insert close
peer_session_for_kept_example =
    peer_session_for_kept empty_table one_table 99 (alone 100) one_session
      (made 99 110 true ∷ made 98 111 true ∷ swept_at 50 10 120 ∷ []) (alone 130) first_frame
      ((λ e. ground (arith, e)), ((λ e. ground (arith, e)), ((λ s e. ground (arith, e)), tt)))

peer_session_for_raced_example :
    IsAnswered 0
      (after_events one_table (looked 98 105 ∷ []))
      (peer_session_for empty_table 99 overtaken)
unfolding after_events create add lookup insert get
peer_session_for_raced_example =
    peer_session_for_raced empty_table 99 overtaken (looked 99 100 ∷ []) (looked 98 105 ∷ []) 100
      true one_table one_session refl refl refl ((λ e. ground (arith, e)), tt)
