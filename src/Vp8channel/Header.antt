-- ===== src/Vp8channel/Header.antt =====
-- The epoch header: internal/transport/vp8channel/epoch.go.
use olcrtc.Prelude.{
  ℕ, ◌^◌, ◌<◌, ◌≡◌, refl, true, false, List, ◌++◌, some, length, length-append, arith, ltb, ◌==◌,
}
use olcrtc.Bytes.{be32_round}
use olcrtc.Vp8channel.{epoch_hdr_len, epoch_crc, build_epoch_header_to, parse_epoch_header}

module _ (crc : List ℕ → ℕ) where
  pub length-build_epoch_header_to :
      (token src dst : ℕ) → length (build_epoch_header_to crc token src dst) ≡ 36
  unfolding build_epoch_header_to
  length-build_epoch_header_to token src dst = refl

  -- A header that is built and then parsed, with any bytes behind it, gives its three numbers.
  pub parse_epoch_header-build :
      (token src dst : ℕ) (payload : List ℕ)
      → token < 2 ^ 32
      → src < 2 ^ 32
      → dst < 2 ^ 32
      → epoch_crc crc token src dst < 2 ^ 32
      → parse_epoch_header crc (build_epoch_header_to crc token src dst ++ payload)
        ≡ some (token, src, dst)
  unfolding parse_epoch_header build_epoch_header_to
  parse_epoch_header-build token src dst payload t s d c =
      let same : epoch_crc crc token src dst == epoch_crc crc token src dst ≡ true = ground arith in
      let hdr = build_epoch_header_to crc token src dst in
      let whole : ltb (length (hdr ++ payload)) epoch_hdr_len ≡ false =
        ground (arith, length-append hdr payload, length-build_epoch_header_to token src dst) in
      rw
        (
          whole,
          be32_round token t,
          be32_round src s,
          be32_round dst d,
          be32_round (epoch_crc crc token src dst) c,
          same,
        )
        refl
