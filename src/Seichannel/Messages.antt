-- ===== src/Seichannel/Messages.antt =====
-- SEI messages read back from their bytes: internal/transport/seichannel/h264.go.
use mathlib.Core.List.{append-nil, append_assoc}
use olcrtc.Prelude.{
  ℕ, zero, suc, ◌+◌, ◌-◌, ◌≤◌, ◌<◌, ◌≡◌, refl, sym, ap, ◌∙◌, inl, inr, true, false, Bool-cases,
  List, [], ◌∷◌, ◌++◌, length, length-append, take_prefix, drop_prefix, arith, ltb, leb, ◌==◌,
  if◌then◌else◌,
}
use olcrtc.Prelude.Maps.{same_bytes}
use olcrtc.Prelude.Results.{ok}
use olcrtc.Seichannel.{
  Escaped, video_sei_uuid, append_escaped_byte, append_escaped_bytes, append_sei_loop,
  append_escaped_sei_value, append_escaped_sei_message, append_messages, consume_from,
  sized_message, typed_message, read_message, is_end, read_messages,
}
use olcrtc.Seichannel.Escape.{append_escaped_bytes-append}

-- The bytes of a value: 255 as often as it goes in, and the rest.
unfoldable pub value_bytes : ℕ → ℕ → List ℕ
value_bytes zero value = value ∷ []
value_bytes (suc fuel) value =
    let more = value_bytes fuel (value - 0xff) in if leb 0xff value then 0xff ∷ more else value ∷ []

append_sei_loop-value_bytes :
    (fuel : ℕ) (out : Escaped) (value : ℕ)
    → append_sei_loop fuel out value ≡ append_escaped_bytes out (value_bytes fuel value)
unfolding append_sei_loop value_bytes append_escaped_bytes
append_sei_loop-value_bytes zero out value = refl
append_sei_loop-value_bytes (suc fuel) out value = elim (Bool-cases (leb 0xff value)) [
  | inl large ↦
      rw large (append_sei_loop-value_bytes fuel (append_escaped_byte out 0xff) (value - 0xff))
  | inr small ↦ rw small refl
]

consume_from-value_bytes :
    (fuel value sum : ℕ) (rest : List ℕ)
    → value ≤ fuel
    → consume_from sum (value_bytes fuel value ++ rest) ≡ ok (sum + value, rest)
unfolding consume_from value_bytes
consume_from-value_bytes zero value sum rest h = ground (arith, h)
consume_from-value_bytes (suc fuel) value sum rest h = elim (Bool-cases (leb 0xff value)) [
  | inl large ↦
      let same : sum + 0xff + (value - 0xff) ≡ sum + value = ground (arith, large) in
      rw large (
        consume_from-value_bytes fuel (value - 0xff) (sum + 0xff) rest (omega arith)
        ∙ ap (λ n. ok (n, rest)) same)
  | inr small ↦ let last : value == 0xff ≡ false = ground (arith, small) in rw (small, last) refl
]

consume_value :
    (value : ℕ) (rest : List ℕ)
    → consume_from 0 (value_bytes value value ++ rest) ≡ ok (value, rest)
consume_value value rest =
    let same : 0 + value ≡ value = omega arith in
    consume_from-value_bytes value value 0 rest omega arith ∙ ap (λ n. ok (n, rest)) same

-- A message before it is escaped, and those of a NAL unit.
abbrev pub message_bytes : List ℕ → List ℕ
message_bytes payload =
    let size = length video_sei_uuid + length payload in
    value_bytes 5 5 ++ (value_bytes size size ++ (video_sei_uuid ++ payload))

unfoldable pub all_bytes : List (List ℕ) → List ℕ
all_bytes [] = []
all_bytes (payload ∷ payloads) = message_bytes payload ++ all_bytes payloads

append_message-message_bytes :
    (out : Escaped) (payload : List ℕ)
    → append_escaped_sei_message out payload ≡ append_escaped_bytes out (message_bytes payload)
unfolding append_escaped_sei_message append_escaped_sei_value
append_message-message_bytes out payload =
    let size = length video_sei_uuid + length payload in
    let kind = value_bytes 5 5 in
    let sized = value_bytes size size in
    let typed = append_sei_loop-value_bytes 5 out 5 in
    ap
      (λ o.
        append_escaped_bytes (append_escaped_bytes (append_sei_loop size o size) video_sei_uuid)
          payload)
      typed
    ∙ ap (λ o. append_escaped_bytes (append_escaped_bytes o video_sei_uuid) payload)
        (append_sei_loop-value_bytes size (append_escaped_bytes out kind) size)
    ∙ sym (
        append_escaped_bytes-append (append_escaped_bytes (append_escaped_bytes out kind) sized)
          video_sei_uuid payload)
    ∙ sym (
        append_escaped_bytes-append (append_escaped_bytes out kind) sized
          (video_sei_uuid ++ payload))
    ∙ sym (append_escaped_bytes-append out kind (sized ++ (video_sei_uuid ++ payload)))

pub append_messages-all_bytes :
    (out : Escaped) (payloads : List (List ℕ))
    → append_messages out payloads ≡ append_escaped_bytes out (all_bytes payloads)
unfolding append_messages all_bytes append_escaped_bytes
append_messages-all_bytes out [] = refl
append_messages-all_bytes out (payload ∷ payloads) =
    append_messages-all_bytes (append_escaped_sei_message out payload) payloads
    ∙ ap (λ o. append_escaped_bytes o (all_bytes payloads))
        (append_message-message_bytes out payload)
    ∙ sym (append_escaped_bytes-append out (message_bytes payload) (all_bytes payloads))

sized_message_lem :
    (payload rest : List ℕ)
    → sized_message 5
        (ok (length video_sei_uuid + length payload, (video_sei_uuid ++ payload) ++ rest))
      ≡ ok (payload ∷ [], rest)
unfolding same_bytes
sized_message_lem payload rest =
    let whole = video_sei_uuid ++ payload in
    let size : length whole ≡ length video_sei_uuid + length payload = omega arith in
    let fits : ltb (length (whole ++ rest)) (length video_sei_uuid + length payload) ≡ false =
      ground (arith, length-append whole rest, size) in
    let long : leb (length video_sei_uuid) (length whole) ≡ true = ground (arith, size) in
    rw
      (
        fits,
        take_prefix (length video_sei_uuid + length payload) whole rest size,
        drop_prefix (length video_sei_uuid + length payload) whole rest size,
        long,
      )
      refl

read_message-message_bytes :
    (payload rest : List ℕ) → read_message (message_bytes payload ++ rest) ≡ ok (payload ∷ [], rest)
unfolding read_message
read_message-message_bytes payload rest =
    let size = length video_sei_uuid + length payload in
    let whole = video_sei_uuid ++ payload in
    let sized = value_bytes size size in
    ap (λ bytes. typed_message (consume_from 0 bytes))
      (append_assoc (value_bytes 5 5) (sized ++ whole) rest)
    ∙ ap typed_message (consume_value 5 ((sized ++ whole) ++ rest))
    ∙ ap (λ bytes. sized_message 5 (consume_from 0 bytes)) (append_assoc sized whole rest)
    ∙ ap (sized_message 5) (consume_value size (whole ++ rest))
    ∙ sized_message_lem payload rest

is_end-message_bytes : (payload rest : List ℕ) → is_end (message_bytes payload ++ rest) ≡ false
unfolding value_bytes
is_end-message_bytes payload rest = refl

pub read_messages-all_bytes :
    (fuel : ℕ) (out payloads : List (List ℕ))
    → length payloads < fuel
    → read_messages fuel out (all_bytes payloads ++ 0x80 ∷ []) ≡ ok (out ++ payloads)
unfolding read_messages all_bytes
read_messages-all_bytes zero out payloads h = ground (arith, h)
read_messages-all_bytes (suc fuel) out [] h = ap ok (sym (append-nil out))
read_messages-all_bytes (suc fuel) out (payload ∷ payloads) h =
    let rest = all_bytes payloads ++ 0x80 ∷ [] in
    rw
      (
        append_assoc (message_bytes payload) (all_bytes payloads) (0x80 ∷ []),
        is_end-message_bytes payload rest,
        read_message-message_bytes payload rest,
      )
      (read_messages-all_bytes fuel (out ++ payload ∷ []) payloads (omega arith)
        ∙ ap ok (append_assoc out (payload ∷ []) payloads))

length-message_bytes : (payload : List ℕ) → 1 ≤ length (message_bytes payload)
unfolding value_bytes
length-message_bytes payload = omega arith

-- Every message takes a byte at least.
pub length-all_bytes : (payloads : List (List ℕ)) → length payloads ≤ length (all_bytes payloads)
unfolding all_bytes
length-all_bytes [] = omega arith
length-all_bytes (payload ∷ payloads) =
    let whole = message_bytes payload in
    let some_bytes = length-message_bytes payload in
    omega (arith, some_bytes, length-append whole (all_bytes payloads), length-all_bytes payloads)
