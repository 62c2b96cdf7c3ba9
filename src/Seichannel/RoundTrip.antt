-- ===== src/Seichannel/RoundTrip.antt =====
-- An access unit gives back the payloads it was built from: internal/transport/seichannel/h264.go.
use mathlib.Core.List.{append-nil, append_assoc}
use olcrtc.Prelude.{
  ℕ, zero, suc, ◌+◌, ◌≤◌, ◌≡◌, refl, sym, ap, ◌∙◌, List, [], ◌∷◌, ◌++◌, All, length, take, drop,
  length-append, length-drop, take-append-drop, arith,
}
use olcrtc.Prelude.Results.{ok}
use olcrtc.Seichannel.{
  base_sps, base_pps, base_idr, append_escaped_byte, append_escaped_bytes, append_sei_nal,
  append_start_code, group_size, next_sei_group, append_groups, build_video_access_unit,
  escape_from, zeros_behind, found_in, payloads_of, read_messages, extract_transport_sei,
  extract_video_payloads, extract_units,
}
use olcrtc.Seichannel.Escape.{
  append_escaped_bytes-escape_from, append_escaped_bytes-append, unescape_rbsp-escape_rbsp,
  is_quiet, is_quiet-escape_from,
}
use olcrtc.Seichannel.Messages.{
  all_bytes, append_messages-all_bytes, read_messages-all_bytes, length-all_bytes,
}
use olcrtc.Seichannel.Units.{IsQuiet, stream, length-stream, all_payloads, extract_units-stream}

-- The NAL unit that carries a group of payloads.
abbrev sei_unit : List (List ℕ) → List ℕ
sei_unit payloads = 6 ∷ escape_from 0 (all_bytes payloads ++ 0x80 ∷ [])

append_last :
    (out : List ℕ × ℕ) → append_escaped_byte out 0x80 ≡ append_escaped_bytes out (0x80 ∷ [])
unfolding append_escaped_bytes
append_last out = refl

append_sei_nal-sei_unit :
    (dst : List ℕ) (payloads : List (List ℕ))
    → append_sei_nal dst payloads ≡ dst ++ 0 ∷ 0 ∷ 0 ∷ 1 ∷ sei_unit payloads
append_sei_nal-sei_unit dst payloads =
    let start = dst ++ 0 ∷ 0 ∷ 0 ∷ 1 ∷ 6 ∷ [] in
    let body = all_bytes payloads in
    ap (λ out. (append_escaped_byte out 0x80).0) (append_messages-all_bytes (start, 0) payloads)
    ∙ ap (λ out. out.0) (append_last (append_escaped_bytes (start, 0) body))
    ∙ ap (λ out. out.0) (sym (append_escaped_bytes-append (start, 0) body (0x80 ∷ [])))
    ∙ ap (λ out. out.0) (append_escaped_bytes-escape_from start (body ++ 0x80 ∷ []) 0)
    ∙ append_assoc dst (0 ∷ 0 ∷ 0 ∷ 1 ∷ 6 ∷ []) (escape_from 0 (body ++ 0x80 ∷ []))

sei_unit-IsQuiet : (payloads : List (List ℕ)) → IsQuiet (sei_unit payloads)
unfolding is_quiet
sei_unit-IsQuiet payloads = is_quiet-escape_from 0 (all_bytes payloads) (omega arith)

extract_transport_sei_lem :
    (payloads : List (List ℕ))
    → extract_transport_sei (escape_from 0 (all_bytes payloads ++ 0x80 ∷ [])) ≡ ok payloads
unfolding extract_transport_sei
extract_transport_sei_lem payloads =
    let body = all_bytes payloads ++ 0x80 ∷ [] in
    ap (λ bytes. read_messages (suc (length bytes)) [] bytes) (unescape_rbsp-escape_rbsp body)
    ∙ read_messages-all_bytes (suc (length body)) [] payloads
        (omega (arith, length-append (all_bytes payloads) (0x80 ∷ []), length-all_bytes payloads))

length-escape_from : (run : ℕ) (bs : List ℕ) → length bs ≤ length (escape_from run bs)
unfolding escape_from
length-escape_from run [] = omega arith
length-escape_from run (b ∷ bs) =
    ground
      (arith, length-escape_from (zeros_behind 0 b) bs, length-escape_from (zeros_behind run b) bs)

payloads_of_lem :
    (body : List ℕ)
    → 1 ≤ length body
    → payloads_of (6 ∷ body) ≡ found_in (extract_transport_sei body)
unfolding payloads_of
payloads_of_lem [] h = ground (arith, h)
payloads_of_lem (b ∷ bs) h = refl

payloads_of-sei_unit : (payloads : List (List ℕ)) → payloads_of (sei_unit payloads) ≡ payloads
payloads_of-sei_unit payloads =
    let body = all_bytes payloads ++ 0x80 ∷ [] in
    let some_bytes = length-append (all_bytes payloads) (0x80 ∷ []) in
    let more_bytes = length-escape_from 0 body in
    payloads_of_lem (escape_from 0 body) (omega (arith, some_bytes, more_bytes))
    ∙ ap found_in (extract_transport_sei_lem payloads)

-- The units of the groups.
unfoldable sei_units : ℕ → List (List ℕ) → List (List ℕ)
sei_units zero payloads = []
sei_units (suc fuel) [] = []
sei_units (suc fuel) (payload ∷ payloads) =
    let (group, rest) = next_sei_group (payload ∷ payloads) in sei_unit group ∷ sei_units fuel rest

append_groups-sei_units :
    (fuel : ℕ) (out : List ℕ) (payloads : List (List ℕ))
    → append_groups fuel out payloads ≡ out ++ stream (sei_units fuel payloads)
unfolding append_groups sei_units stream
append_groups-sei_units zero out payloads = sym (append-nil out)
append_groups-sei_units (suc fuel) out [] = sym (append-nil out)
append_groups-sei_units (suc fuel) out (payload ∷ payloads) =
    let n = group_size 0 0 (payload ∷ payloads) in
    let group = take n (payload ∷ payloads) in
    let rest = drop n (payload ∷ payloads) in
    ap (λ bytes. append_groups fuel bytes rest) (append_sei_nal-sei_unit out group)
    ∙ append_groups-sei_units fuel (out ++ 0 ∷ 0 ∷ 0 ∷ 1 ∷ sei_unit group) rest
    ∙ append_assoc out (0 ∷ 0 ∷ 0 ∷ 1 ∷ sei_unit group) (stream (sei_units fuel rest))

sei_units-IsQuiet : (fuel : ℕ) (payloads : List (List ℕ)) → All IsQuiet (sei_units fuel payloads)
unfolding sei_units
sei_units-IsQuiet zero payloads = tt
sei_units-IsQuiet (suc fuel) [] = tt
sei_units-IsQuiet (suc fuel) (payload ∷ payloads) =
    let n = group_size 0 0 (payload ∷ payloads) in
    (
      sei_unit-IsQuiet (take n (payload ∷ payloads)),
      sei_units-IsQuiet fuel (drop n (payload ∷ payloads)),
    )

group_size-grows : (size n : ℕ) (payloads : List (List ℕ)) → n ≤ group_size size n payloads
unfolding group_size
group_size-grows size n [] = omega arith
group_size-grows size n (payload ∷ payloads) =
    ground (arith, group_size-grows (size + length payload) (n + 1) payloads)

-- A group takes one payload at least.
group_size_positive :
    (payload : List ℕ) (payloads : List (List ℕ)) → 1 ≤ group_size 0 0 (payload ∷ payloads)
unfolding group_size
group_size_positive payload payloads = group_size-grows (0 + length payload) 1 payloads

all_payloads-sei_units :
    (fuel : ℕ) (payloads : List (List ℕ))
    → length payloads ≤ fuel
    → all_payloads (sei_units fuel payloads) ≡ payloads
unfolding sei_units all_payloads
all_payloads-sei_units zero [] h = refl
all_payloads-sei_units zero (payload ∷ payloads) h = ground (arith, h)
all_payloads-sei_units (suc fuel) [] h = refl
all_payloads-sei_units (suc fuel) (payload ∷ payloads) h =
    let whole = payload ∷ payloads in
    let n = group_size 0 0 whole in
    let positive = group_size_positive payload payloads in
    ap (λ found. found ++ all_payloads (sei_units fuel (drop n whole)))
      (payloads_of-sei_unit (take n whole))
    ∙ ap (λ found. take n whole ++ found)
        (all_payloads-sei_units fuel (drop n whole) (omega (arith, positive, length-drop n whole)))
    ∙ take-append-drop n whole

stream-append : (xs ys : List (List ℕ)) → stream (xs ++ ys) ≡ stream xs ++ stream ys
unfolding stream
stream-append [] ys = refl
stream-append (x ∷ xs) ys =
    ap (λ rest. 0 ∷ 0 ∷ 0 ∷ 1 ∷ (x ++ rest)) (stream-append xs ys)
    ∙ ap (λ rest. 0 ∷ 0 ∷ 0 ∷ 1 ∷ rest) (sym (append_assoc x (stream xs) (stream ys)))

-- The units of an access unit.
abbrev access_units : List (List ℕ) → List (List ℕ)
access_units payloads =
    base_sps ∷ base_pps ∷ (sei_units (length payloads) payloads ++ base_idr ∷ [])

build_video_access_unit-stream :
    (payloads : List (List ℕ)) → build_video_access_unit payloads ≡ stream (access_units payloads)
unfolding build_video_access_unit stream
build_video_access_unit-stream payloads =
    let units = sei_units (length payloads) payloads in
    let start = append_start_code (append_start_code [] base_sps) base_pps in
    ap (λ out. append_start_code out base_idr)
      (append_groups-sei_units (length payloads) start payloads)
    ∙ append_assoc start (stream units) (stream (base_idr ∷ []))
    ∙ ap (λ rest. start ++ rest) (sym (stream-append units (base_idr ∷ [])))

All-append : (xs ys : List (List ℕ)) → All IsQuiet xs → All IsQuiet ys → All IsQuiet (xs ++ ys)
All-append [] ys p q = q
All-append (x ∷ xs) ys p q = (p.0, All-append xs ys p.1 q)

access_units-IsQuiet : (payloads : List (List ℕ)) → All IsQuiet (access_units payloads)
unfolding is_quiet
access_units-IsQuiet payloads =
    let units = sei_units (length payloads) payloads in
    (
      refl,
      (
        refl,
        All-append units (base_idr ∷ []) (sei_units-IsQuiet (length payloads) payloads) (refl, tt),
      ),
    )

all_payloads-append :
    (xs ys : List (List ℕ)) → all_payloads (xs ++ ys) ≡ all_payloads xs ++ all_payloads ys
unfolding all_payloads
all_payloads-append [] ys = refl
all_payloads-append (x ∷ xs) ys =
    ap (λ rest. payloads_of x ++ rest) (all_payloads-append xs ys)
    ∙ sym (append_assoc (payloads_of x) (all_payloads xs) (all_payloads ys))

all_payloads-access_units :
    (payloads : List (List ℕ)) → all_payloads (access_units payloads) ≡ payloads
unfolding all_payloads payloads_of
all_payloads-access_units payloads =
    let units = sei_units (length payloads) payloads in
    all_payloads-append units (base_idr ∷ [])
    ∙ ap (λ found. found ++ []) (all_payloads-sei_units (length payloads) payloads (omega arith))
    ∙ append-nil payloads

-- The payloads read from a built access unit are those it was built from, each whole and all in order, for
-- any number of payloads of any length and content, the empty ones and those with start codes included.
pub extract_video_payloads-build :
    (payloads : List (List ℕ))
    → extract_video_payloads (build_video_access_unit payloads) ≡ payloads
unfolding extract_video_payloads
extract_video_payloads-build payloads =
    let units = access_units payloads in
    ap (λ bytes. extract_units (suc (length bytes)) [] bytes)
      (build_video_access_unit-stream payloads)
    ∙ extract_units-stream (suc (length (stream units))) [] units
        (omega (arith, length-stream units)) (access_units-IsQuiet payloads)
    ∙ all_payloads-access_units payloads
