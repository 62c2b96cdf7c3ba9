-- ===== src/Framing.antt =====
-- internal/framing/framing.go: frames with a length before them on a byte stream. The writer's error is
-- left to its caller, and JSON is not modelled. A limit below 1 is no limit; it is written 0 here.
use olcrtc.Prelude.{
  ℕ, ◌/◌, ◌%◌, ◌^◌, ◌<◌, ◌≡◌, refl, sym, ap, ◌∙◌, inl, inr, Bool-cases, subst, false, ◌&&◌, List,
  ◌∷◌, ◌++◌, length, take, drop, take-length_append, drop-length_append, length-append, arith, ltb,
  if◌then◌else◌,
}
use olcrtc.Prelude.Results.{Result, ok, err, ok_inj}
use olcrtc.Bytes.{u32_at, be32_round}

abbrev pub header_size : ℕ
header_size = 4

pub data FramingError : Type 0 where
  frame_too_large read_header read_body : FramingError

-- The length, cut to 32 bits, and the body.
abbrev pub frame_of : List ℕ → List ℕ
frame_of body =
    let n = length body % 2 ^ 32 in
    n / 2 ^ 24 % 256 ∷ n / 2 ^ 16 % 256 ∷ n / 2 ^ 8 % 256 ∷ n % 256 ∷ body

-- What WriteBytes hands to its one Write.
unfoldable pub write_bytes : List ℕ → ℕ → Result FramingError (List ℕ)
write_bytes body max_size =
    if ltb 0 max_size && ltb max_size (length body) then err frame_too_large else ok (frame_of body)

-- io.ReadFull of the body; a stream that ends early is an error.
unfoldable pub read_body_of : List ℕ → ℕ → ℕ → Result FramingError (List ℕ × List ℕ)
read_body_of stream max_size n =
    if ltb 0 max_size && ltb (max_size % 2 ^ 32) n
    then err frame_too_large
    else if ltb (length stream) n
    then err read_body
    else ok (take n stream, drop n stream)

-- ReadBytes with what it leaves on the stream.
unfoldable pub read_bytes : List ℕ → ℕ → Result FramingError (List ℕ × List ℕ)
read_bytes stream max_size =
    if ltb (length stream) header_size
    then err read_header
    else read_body_of (drop header_size stream) max_size (u32_at stream 0)

write_bytes_ok :
    (body frame : List ℕ) (max_size : ℕ)
    → write_bytes body max_size ≡ ok frame
    → (frame_of body ≡ frame) × ((ltb 0 max_size && ltb max_size (length body)) ≡ false)
unfolding write_bytes
write_bytes_ok body frame max_size h =
    elim (Bool-cases (ltb 0 max_size && ltb max_size (length body))) [
      | inl large ↦ ground (arith, rw large at h)
      | inr fits ↦ (ok_inj (rw fits at h), fits)
    ]

read_body_of_lem :
    (body rest : List ℕ) (max_size : ℕ)
    → (ltb 0 max_size && ltb (max_size % 2 ^ 32) (length body)) ≡ false
    → read_body_of (body ++ rest) max_size (length body) ≡ ok (body, rest)
unfolding read_body_of
read_body_of_lem body rest max_size fits =
    let long : ltb (length (body ++ rest)) (length body) ≡ false =
      ground (arith, length-append body rest) in
    rw (fits, long, take-length_append body rest, drop-length_append body rest) refl

read_bytes-frame_of :
    (body rest : List ℕ) (max_size : ℕ)
    → length body < 2 ^ 32
    → read_bytes (frame_of body ++ rest) max_size
      ≡ read_body_of (body ++ rest) max_size (length body)
unfolding read_bytes
read_bytes-frame_of body rest max_size short =
    let whole : length body % 2 ^ 32 ≡ length body = omega arith in
    let long : ltb (length (frame_of body ++ rest)) header_size ≡ false = ground arith in
    rw (long, whole, be32_round (length body) short) refl

-- The frame that WriteBytes writes is read back as its body, and what follows it is left on the stream,
-- for a body and a limit below 4 GiB.
pub read_bytes-write_bytes :
    (body frame rest : List ℕ) (max_size : ℕ)
    → length body < 2 ^ 32
    → max_size < 2 ^ 32
    → write_bytes body max_size ≡ ok frame
    → read_bytes (frame ++ rest) max_size ≡ ok (body, rest)
read_bytes-write_bytes body frame rest max_size short limit h =
    let w = write_bytes_ok body frame max_size h in
    let bound : max_size % 2 ^ 32 ≡ max_size = omega arith in
    ap (λ f. read_bytes (f ++ rest) max_size) (sym w.0)
    ∙ read_bytes-frame_of body rest max_size short
    ∙ read_body_of_lem body rest max_size
        (subst (λ m. (ltb 0 max_size && ltb m (length body)) ≡ false) (sym bound) w.1)
