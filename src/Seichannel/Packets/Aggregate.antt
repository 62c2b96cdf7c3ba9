-- ===== src/Seichannel/Packets/Aggregate.antt =====
-- Aggregation packets give the payloads of the NAL units in them: internal/transport/seichannel/rtp.go.
use mathlib.Core.List.{append-nil, append_assoc}
use olcrtc.Prelude.{
  ℕ, zero, suc, ◌+◌, ◌*◌, ◌/◌, ◌%◌, ◌≤◌, ◌<◌, ◌≡◌, sym, ◌∙◌, false, List, [], ◌∷◌, ◌++◌, All,
  length, length-append, take-length_append, drop-length_append, arith, ltb, ◌==◌,
}
use olcrtc.Seichannel.{payloads_of}
use olcrtc.Seichannel.Units.{all_payloads}
use olcrtc.Seichannel.Packets.{append_nal_payloads, append_stapa_loop, append_stapa_payloads}

-- NAL units, each behind its length on two bytes.
unfoldable aggregate : List (List ℕ) → List ℕ
aggregate [] = []
aggregate (nal ∷ nals) = length nal / 256 ∷ length nal % 256 ∷ (nal ++ aggregate nals)

abbrev IsSized : List ℕ → Type 0
IsSized nal = (1 ≤ length nal) × (length nal < 65536)

append_stapa_loop-aggregate :
    (fuel : ℕ) (nals out : List (List ℕ))
    → length nals ≤ fuel
    → All IsSized nals
    → append_stapa_loop fuel (aggregate nals) out ≡ out ++ all_payloads nals
unfolding append_stapa_loop aggregate all_payloads append_nal_payloads
append_stapa_loop-aggregate zero [] out h s = sym (append-nil out)
append_stapa_loop-aggregate zero (nal ∷ nals) out h s = ground (arith, h)
append_stapa_loop-aggregate (suc fuel) [] out h s = sym (append-nil out)
append_stapa_loop-aggregate (suc fuel) (nal ∷ nals) out h s =
    let sized : length nal / 256 * 256 + length nal % 256 ≡ length nal = omega (arith, s.0) in
    let some_bytes : length nal == 0 ≡ false = ground (arith, s.0) in
    let fits : ltb (length (nal ++ aggregate nals)) (length nal) ≡ false =
      ground (arith, length-append nal (aggregate nals)) in
    rw
      (
        sized,
        some_bytes,
        fits,
        take-length_append nal (aggregate nals),
        drop-length_append nal (aggregate nals),
      )
      (append_stapa_loop-aggregate fuel nals (out ++ payloads_of nal) (omega arith) s.1
        ∙ append_assoc out (payloads_of nal) (all_payloads nals))

length-aggregate : (nals : List (List ℕ)) → length nals ≤ length (aggregate nals)
unfolding aggregate
length-aggregate [] = omega arith
length-aggregate (nal ∷ nals) =
    omega (arith, length-append nal (aggregate nals), length-aggregate nals)

-- An aggregation packet of NAL units, each of 1 to 65535 bytes, gives the payloads of all of them, in order.
append_stapa_payloads-aggregate :
    (indicator : ℕ) (nals out : List (List ℕ))
    → All IsSized nals
    → append_stapa_payloads (indicator ∷ aggregate nals) out ≡ out ++ all_payloads nals
unfolding append_stapa_payloads
append_stapa_payloads-aggregate indicator nals out s =
    append_stapa_loop-aggregate (suc (length (aggregate nals))) nals out
      (omega (arith, length-aggregate nals)) s
