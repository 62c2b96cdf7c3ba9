-- ===== src/Tests/Stream.antt =====
-- A stream whose second message comes first.
use olcrtc.Prelude.{ℕ, ◌≡◌, refl, true, List, [], ◌∷◌, none, some, arith}
use olcrtc.Prelude.Maps.{lookup, nat_eq}
use olcrtc.Transport.Frame.{Frame, zero_frame, type_stream}
use olcrtc.Transport.Fragment.{fragment_payload, valid}
use olcrtc.Transport.Ordered.{Ordered, before, push}
use olcrtc.Transport.Ordered.Stream.{IsSent, IsFollowing, Hands, push_all}
use olcrtc.Transport.Ordered.Stream.InOrder.{stream_in_order}

abbrev checksum : List ℕ → ℕ
checksum xs = 9

-- Every message is its number.
abbrev message : ℕ → List ℕ
message k = k ∷ []

abbrev following : Ordered
following = record {
  stream = 8;
  next = 3;
  started = true;
  partial = [];
  held = [];
  retired = [];
  retire_at = 0;
  ahead = 10;
  max_bytes = 100;
  bytes = 0;
}

abbrev frame_of : ℕ → Frame
frame_of k = record zero_frame {
  kind = type_stream;
  stream = 8;
  floor = 3;
  seq = k;
  crc = 9;
  total_len = 1;
  frag_idx = 0;
  frag_total = 1;
  payload = k ∷ [];
}

following-IsFollowing : IsFollowing checksum message 4 8 following
unfolding lookup
following-IsFollowing = record {
  follows = refl;
  of_stream = refl;
  next_lt = omega arith;
  in_part = λ k msg e. absurd (none_some e);
  whole = λ k bytes e. absurd (none_some e);
}
  where
    none_some : {A : Type 0} {a : A} → none ≡ some a → ⊥
    none_some e = cc

frame_of-IsSent : (k : ℕ) → IsSent checksum message 4 8 (frame_of k)
unfolding fragment_payload
frame_of-IsSent k = record {
  of_stream = refl;
  of_crc = refl;
  of_len = refl;
  of_count = refl;
  of_chunk = refl;
}

stream_in_order_example :
    let frames = frame_of 4 ∷ frame_of 3 ∷ [] in
    Hands checksum message 4 8 following
      (push_all checksum message 4 8 following frames).0
      (push_all checksum message 4 8 following frames).1
unfolding before push valid
stream_in_order_example =
    stream_in_order checksum message 4 8 following (frame_of 4 ∷ frame_of 3 ∷ []) omega arith
      following-IsFollowing (frame_of-IsSent 4, refl, (frame_of-IsSent 3, refl, tt))
