-- ===== src/Vp8channel/Samples.antt =====
-- Samples built from a queue: internal/transport/vp8channel/writer.go.
use mathlib.Core.List.{append-nil, append_assoc}
use olcrtc.Prelude.{
  ℕ, zero, suc, ◌+◌, ◌≤◌, ◌<◌, ◌≡◌, refl, sym, ap, ◌∙◌, inl, inr, Bool-cases, true, false, List, [],
  ◌∷◌, ◌++◌, All, Option, none, some, length, drop, length-drop, arith, ltb, leb, if◌then◌else◌,
}
use olcrtc.Vp8channel.{epoch_hdr_len, default_max_payload_size, append_batch_packet, batch_loop}
use olcrtc.Vp8channel.Batches.{
  encoded, IsPacket, append_batch_packet-encoded, encoded-append, length-append_batch_packet,
}

abbrev pub held : Option (List ℕ) → List (List ℕ)
held none = []
held (some frame) = frame ∷ []

-- The packets of the frames that have one.
unfoldable pub payloads : List (List ℕ) → List (List ℕ)
payloads [] = []
payloads (frame ∷ frames) =
    let rest = payloads frames in
    if leb (length frame) epoch_hdr_len then rest else drop epoch_hdr_len frame ∷ rest

-- What a batch takes from the queue, in order, and what it leaves.
abbrev pub IsBatch : ℕ → List ℕ → List (List ℕ) → List ℕ × Option (List ℕ) × List (List ℕ) → Type 0
IsBatch left sample src result =
    (taken : List (List ℕ)) × ((src ≡ taken ++ (held result.1 ++ result.2))
      × (result.0 ≡ sample ++ encoded (payloads taken))
      × (length result.0 ≤ default_max_payload_size)
      × (length taken ≤ left)
      × All IsPacket (payloads taken))

IsBatch-skip :
    (left : ℕ) (sample frame : List ℕ) (src : List (List ℕ))
    (result : List ℕ × Option (List ℕ) × List (List ℕ))
    → leb (length frame) epoch_hdr_len ≡ true
    → IsBatch left sample src result
    → IsBatch (suc left) sample (frame ∷ src) result
unfolding payloads
IsBatch-skip left sample frame src result empty (taken, (whole, built, size, count, packets)) = (
  frame ∷ taken,
  rw empty (ap (λ rest. frame ∷ rest) whole, built, size, omega (arith, count), packets),
)

IsBatch-add :
    (left : ℕ) (sample frame : List ℕ) (src : List (List ℕ))
    (result : List ℕ × Option (List ℕ) × List (List ℕ))
    → leb (length frame) epoch_hdr_len ≡ false
    → length (drop epoch_hdr_len frame) < 65536
    → IsBatch left (append_batch_packet sample (drop epoch_hdr_len frame)) src result
    → IsBatch (suc left) sample (frame ∷ src) result
unfolding payloads encoded
IsBatch-add left sample frame src result full small (taken, (whole, built, size, count, packets)) =
    let packet = drop epoch_hdr_len frame in
    let some_bytes : 1 ≤ length packet = ground (arith, full, length-drop epoch_hdr_len frame) in
    (
      frame ∷ taken,
      rw full (
        ap (λ rest. frame ∷ rest) whole,
        built
            ∙ ap (λ bytes. bytes ++ encoded (payloads taken))
                (append_batch_packet-encoded sample packet small)
            ∙ append_assoc sample (encoded (packet ∷ [])) (encoded (payloads taken))
            ∙ ap (λ bytes. sample ++ bytes) (sym (encoded-append (packet ∷ []) (payloads taken))),
        size,
        omega (arith, count),
        ((some_bytes, small), packets),
      ),
    )

pub batch_loop-IsBatch :
    (left : ℕ) (sample : List ℕ) (src : List (List ℕ))
    → length sample ≤ default_max_payload_size
    → IsBatch left sample src (batch_loop left sample src)
unfolding batch_loop payloads encoded
batch_loop-IsBatch zero sample src h = ([], (refl, sym (append-nil sample), h, omega arith, tt))
batch_loop-IsBatch (suc left) sample [] h =
    ([], (refl, sym (append-nil sample), h, omega arith, tt))
batch_loop-IsBatch (suc left) sample (frame ∷ src) h =
    let packet = drop epoch_hdr_len frame in
    elim (Bool-cases (leb (length frame) epoch_hdr_len)) [
      | inl empty ↦ rw empty (
          IsBatch-skip left sample frame src (batch_loop left sample src) empty
            (batch_loop-IsBatch left sample src h))
      | inr full ↦
          elim (Bool-cases (ltb default_max_payload_size (length sample + 2 + length packet))) [
            | inl large ↦ rw (full, large) ([], (refl, sym (append-nil sample), h, omega arith, tt))
            | inr fits ↦
                let small : length packet < 65536 = ground (arith, fits) in
                let room : length (append_batch_packet sample packet) ≤ default_max_payload_size =
                  ground (arith, fits, length-append_batch_packet sample packet small) in
                rw (full, fits)
                  (IsBatch-add left sample frame src
                    (batch_loop left (append_batch_packet sample packet) src) full small
                    (batch_loop-IsBatch left (append_batch_packet sample packet) src room))
          ]
    ]
