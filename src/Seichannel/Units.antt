-- ===== src/Seichannel/Units.antt =====
-- NAL units found in a stream of them: internal/transport/seichannel/h264.go, nextAnnexBNAL.
use mathlib.Core.List.{append-nil, append_assoc}
use olcrtc.Prelude.{
  ℕ, zero, suc, ◌≤◌, ◌<◌, ◌≡◌, refl, sym, ap, ◌∙◌, true, List, [], ◌∷◌, ◌++◌, none, some, All,
  length, length-append, take-length_append, drop-length_append, arith,
}
use olcrtc.Seichannel.{
  zeros_behind, find_start_code, cut_nal, next_annexb_nal, payloads_of, extract_units,
}
use olcrtc.Seichannel.Escape.{is_quiet}

abbrev pub IsQuiet : List ℕ → Type 0
IsQuiet nal = is_quiet 0 nal ≡ true

-- Fewer zero bytes before them make no start code.
is_quiet_less : (m n : ℕ) (bs : List ℕ) → m ≤ n → is_quiet n bs ≡ true → is_quiet m bs ≡ true
unfolding is_quiet
is_quiet_less m n [] h q = ground (arith, q)
is_quiet_less m n (b ∷ bs) h q =
    ground (arith, q, is_quiet_less (zeros_behind m b) (zeros_behind n b) bs)

find_start_code-none : (bs : List ℕ) → is_quiet 0 bs ≡ true → find_start_code bs ≡ none
unfolding is_quiet find_start_code
find_start_code-none [] q = refl
find_start_code-none (a ∷ []) q = refl
find_start_code-none (a ∷ b ∷ []) q = refl
find_start_code-none (a ∷ b ∷ c ∷ bs) q =
    ground
      (arith, q, find_start_code-none (b ∷ c ∷ bs), is_quiet_less 0 (zeros_behind 0 a) (b ∷ c ∷ bs))

find_start_code-some :
    (bs rest : List ℕ)
    → is_quiet 0 bs ≡ true
    → find_start_code (bs ++ 0 ∷ 0 ∷ 0 ∷ 1 ∷ rest) ≡ some (length bs, 4)
unfolding is_quiet find_start_code
find_start_code-some [] rest q = refl
find_start_code-some (a ∷ []) rest q = ground (arith, q)
find_start_code-some (a ∷ b ∷ []) rest q = ground (arith, q)
find_start_code-some (a ∷ b ∷ c ∷ bs) rest q = ground (
  arith,
  q,
  find_start_code-some (b ∷ c ∷ bs) rest,
  is_quiet_less 0 (zeros_behind 0 a) (b ∷ c ∷ bs),
)

-- Units, each behind its start code.
unfoldable pub stream : List (List ℕ) → List ℕ
stream [] = []
stream (nal ∷ nals) = 0 ∷ 0 ∷ 0 ∷ 1 ∷ (nal ++ stream nals)

stream-nil : stream [] ≡ []
unfolding stream
stream-nil = refl

pub length-stream : (nals : List (List ℕ)) → length nals ≤ length (stream nals)
unfolding stream
length-stream [] = omega arith
length-stream (nal ∷ nals) = omega (arith, length-append nal (stream nals), length-stream nals)

find_start_code-stream : (rest : List ℕ) → find_start_code (0 ∷ 0 ∷ 0 ∷ 1 ∷ rest) ≡ some (0, 4)
unfolding find_start_code
find_start_code-stream rest = refl

-- A quiet unit is cut off before the next start code, or where the stream ends.
cut_nal-quiet :
    (nal : List ℕ) (nals : List (List ℕ))
    → IsQuiet nal
    → cut_nal (nal ++ stream nals) (find_start_code (nal ++ stream nals)) ≡ (nal, stream nals)
unfolding stream
cut_nal-quiet nal [] q = rw (append-nil nal, find_start_code-none nal q) refl
cut_nal-quiet nal (next ∷ nals) q =
    let behind = stream (next ∷ nals) in
    rw
      (
        find_start_code-some nal (next ++ stream nals) q,
        take-length_append nal behind,
        drop-length_append nal behind,
      )
      refl

next_annexb_nal-stream :
    (nal : List ℕ) (nals : List (List ℕ))
    → IsQuiet nal
    → next_annexb_nal (stream (nal ∷ nals)) ≡ some (nal, stream nals)
unfolding next_annexb_nal stream
next_annexb_nal-stream nal nals q =
    rw (find_start_code-stream (nal ++ stream nals)) (ap some (cut_nal-quiet nal nals q))

-- The payloads of all units, in order.
unfoldable pub all_payloads : List (List ℕ) → List (List ℕ)
all_payloads [] = []
all_payloads (nal ∷ nals) = payloads_of nal ++ all_payloads nals

next_annexb_nal-nil : next_annexb_nal [] ≡ none
unfolding next_annexb_nal find_start_code
next_annexb_nal-nil = refl

-- The loop over a stream of quiet units finds their payloads.
pub extract_units-stream :
    (fuel : ℕ) (out nals : List (List ℕ))
    → length nals < fuel
    → All IsQuiet nals
    → extract_units fuel out (stream nals) ≡ out ++ all_payloads nals
unfolding extract_units all_payloads
extract_units-stream zero out nals h q = ground (arith, h)
extract_units-stream (suc fuel) out [] h q =
    rw (stream-nil, extract_units, next_annexb_nal-nil) (sym (append-nil out))
extract_units-stream (suc fuel) out (nal ∷ nals) h q =
    rw (extract_units, next_annexb_nal-stream nal nals (q.0))
      (extract_units-stream fuel (out ++ payloads_of nal) nals (omega arith) (q.1)
        ∙ append_assoc out (payloads_of nal) (all_payloads nals))
