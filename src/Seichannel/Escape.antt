-- ===== src/Seichannel/Escape.antt =====
-- The escaped bytes of a NAL unit read back, and what they can not contain:
-- internal/transport/seichannel/h264.go.
use mathlib.Core.List.{append-nil, append_assoc}
use olcrtc.Prelude.{
  ℕ, ◌≤◌, ◌≡◌, ◌≢◌, ◌⊎◌, refl, sym, ap, ◌∙◌, inl, inr, Bool, true, false, Bool-cases, ◌&&◌, List,
  [], ◌∷◌, ◌++◌, arith, leb, ◌==◌, if◌then◌else◌,
}
use olcrtc.Seichannel.{
  zeros_behind, append_escaped_byte, append_escaped_bytes, escape_from, unescape_from,
  unescape_rbsp,
}

-- The zero bytes that a text ends with, when `run` stand before it and an escape breaks their run.
unfoldable pub zeros_after : ℕ → List ℕ → ℕ
zeros_after run [] = run
zeros_after run (b ∷ bs) =
    let escaped = zeros_after (zeros_behind 0 b) bs in
    let plain = zeros_after (zeros_behind run b) bs in
    if leb 2 run && leb b 3 then escaped else plain

-- The writer that goes byte by byte writes what escapeRBSP gives.
pub append_escaped_bytes-escape_from :
    (dst src : List ℕ) (run : ℕ)
    → append_escaped_bytes (dst, run) src ≡ (dst ++ escape_from run src, zeros_after run src)
unfolding append_escaped_bytes append_escaped_byte escape_from zeros_after
append_escaped_bytes-escape_from dst [] run = ap (λ out. (out, run)) (sym (append-nil dst))
append_escaped_bytes-escape_from dst (b ∷ src) run = elim (Bool-cases (leb 2 run && leb b 3)) [
  | inl escaped ↦ rw escaped (
      append_escaped_bytes-escape_from (dst ++ 3 ∷ b ∷ []) src (zeros_behind 0 b)
      ∙ ap (λ out. (out, zeros_after (zeros_behind 0 b) src))
          (append_assoc dst (3 ∷ b ∷ []) (escape_from (zeros_behind 0 b) src)))
  | inr plain ↦ rw plain (
      append_escaped_bytes-escape_from (dst ++ b ∷ []) src (zeros_behind run b)
      ∙ ap (λ out. (out, zeros_after (zeros_behind run b) src))
          (append_assoc dst (b ∷ []) (escape_from (zeros_behind run b) src)))
]

pub append_escaped_bytes-append :
    (out : List ℕ × ℕ) (xs ys : List ℕ)
    → append_escaped_bytes out (xs ++ ys) ≡ append_escaped_bytes (append_escaped_bytes out xs) ys
unfolding append_escaped_bytes
append_escaped_bytes-append out [] ys = refl
append_escaped_bytes-append out (x ∷ xs) ys =
    append_escaped_bytes-append (append_escaped_byte out x) xs ys

-- The count of zeros says what stood before: none, one or two of them.
abbrev IsCount : ℕ → ℕ → ℕ → Type 0
IsCount run p q =
    ((run ≡ 0) × (q ≢ 0)) ⊎ ((run ≡ 1) × (q ≡ 0) × (p ≢ 0)) ⊎ ((run ≡ 2) × (q ≡ 0) × (p ≡ 0))

unescape_from-escape_from :
    (run p q : ℕ) (bs : List ℕ) → IsCount run p q → unescape_from p q (escape_from run bs) ≡ bs
unfolding unescape_from escape_from
unescape_from-escape_from run p q [] h = refl
unescape_from-escape_from run p q (b ∷ bs) h = ground (
  arith,
  h,
  unescape_from-escape_from (zeros_behind 0 b) 3 b bs,
  unescape_from-escape_from (zeros_behind run b) q b bs,
)

-- Taking the escapes out gives back what was escaped.
pub unescape_rbsp-escape_rbsp : (bs : List ℕ) → unescape_rbsp (escape_from 0 bs) ≡ bs
unfolding unescape_rbsp
unescape_rbsp-escape_rbsp bs = unescape_from-escape_from 0 1 1 bs (inl (refl, omega arith))

-- No start code begins in these bytes, with `run` zero bytes before them and more bytes behind them, and
-- they do not end with a zero.
unfoldable pub is_quiet : ℕ → List ℕ → Bool
is_quiet run [] = run == 0
is_quiet run (b ∷ bs) =
    let more = is_quiet (zeros_behind run b) bs in if leb 2 run && leb b 1 then false else more

-- Escaped bytes with a last one that is not zero are quiet.
pub is_quiet-escape_from :
    (run : ℕ) (bs : List ℕ) → run ≤ 2 → is_quiet run (escape_from run (bs ++ 0x80 ∷ [])) ≡ true
unfolding is_quiet escape_from
is_quiet-escape_from run [] h = ground arith
is_quiet-escape_from run (b ∷ bs) h = ground (
  arith,
  h,
  is_quiet-escape_from (zeros_behind 0 b) bs,
  is_quiet-escape_from (zeros_behind run b) bs,
)
