-- ===== src/Udpwire/RoundTrip.antt =====
-- What Encode writes, Decode reads back: internal/udpwire/wire.go.
use olcrtc.Prelude.{
  ℕ, ◌+◌, ◌%◌, ◌^◌, ◌≤◌, ◌<◌, ◌≡◌, refl, sym, ap, ◌∙◌, inl, inr, true, false, Bool-cases, List, [],
  ◌∷◌, Option, none, some, length, take-length_append, drop-length_append, length-append, arith,
  ltb, ◌==◌, subst,
}
use olcrtc.Prelude.Maps.{bytes_eq, same_bytes, same_bytes_iff}
use olcrtc.Prelude.Results.{Result, ok, err, ok_inj}
use olcrtc.Bytes.{be16_round, be64_round}
use olcrtc.Udpwire.{
  Netip, IpAddr, ipv4, ipv6, address_bytes, Frame, WireError, type_close, is_known, is_printable,
  max_payload_size, validate_frame, encode_name, encode_host, frame_bytes, encode_addressed,
  encode_checked, encode, decode_host, decode_hosted, decode,
}

-- A valid frame stays valid with another host, where that one is empty or blank no sooner.
validate_host :
    (netip : Netip) (f : Frame) (host : List ℕ)
    → validate_frame netip f ≡ none
    → (bytes_eq.beq f.endpoint.host [] ≡ true → bytes_eq.beq host [] ≡ true)
    → (bytes_eq.beq (netip.trim_space f.endpoint.host) [] ≡ false
        → bytes_eq.beq (netip.trim_space host) [] ≡ false)
    → validate_frame netip (record f { endpoint = record { host = host; port = f.endpoint.port } })
      ≡ none
unfolding validate_frame
validate_host netip f host h empty blank = ground (arith, h, empty, blank)

validate_close :
    (netip : Netip) (f : Frame)
    → validate_frame netip f ≡ none
    → f.frame_type == type_close ≡ true
    → bytes_eq.beq f.endpoint.host [] ≡ true
unfolding validate_frame
validate_close netip f h closing = ground (arith, h, closing)

validate_known :
    (netip : Netip) (f : Frame)
    → validate_frame netip f ≡ none
    → (is_known f.frame_type ≡ true)
      × (f.flow_id == 0 ≡ false)
      × (ltb max_payload_size (length f.payload) ≡ false)
unfolding validate_frame
validate_known netip f h = ground (arith, h)

module _ (netip : Netip)
    (four : (host bytes : List ℕ) → netip.parse_addr host ≡ some (ipv4 bytes) → length bytes ≡ 4)
    (sixteen : (host bytes : List ℕ)
      → netip.parse_addr host ≡ some (ipv6 bytes)
      → length bytes ≡ 16)
    (shown : (a : IpAddr) → bytes_eq.beq (netip.trim_space (netip.addr_string a)) [] ≡ false) where
  -- An address is printed the way netip prints it; any other host stays.
  abbrev pub shown_as : List ℕ → Option IpAddr → List ℕ
  shown_as host none = host
  shown_as host (some a) = netip.addr_string a

  abbrev pub canonical : List ℕ → List ℕ
  canonical [] = []
  canonical (c ∷ cs) = shown_as (c ∷ cs) (netip.parse_addr (c ∷ cs))

  abbrev pub canonical_frame : Frame → Frame
  canonical_frame f = record f {
    endpoint = record { host = canonical f.endpoint.host; port = f.endpoint.port };
  }

  -- The bytes of a host that Decode reads back as this text.
  abbrev IsReadAs : List ℕ → ℕ × List ℕ → Type 0
  IsReadAs text (t, addr) = (length addr ≤ 255) × (decode_host netip t addr ≡ ok text)

  name-IsReadAs :
      (host : List ℕ)
      → bytes_eq.beq host [] ≡ false
      → length host ≤ 255
      → is_printable host ≡ true
      → IsReadAs host (3, host)
  unfolding decode_host
  name-IsReadAs host named short clean =
      let fits : ltb 255 (length host) ≡ false = ground arith in
      (short, rw (named, fits, clean) refl)

  address-IsReadAs :
      (host : List ℕ) (a : IpAddr)
      → netip.parse_addr host ≡ some a
      → IsReadAs (netip.addr_string a) (address_bytes netip a)
  unfolding decode_host
  address-IsReadAs host (ipv4 bytes) parsed =
      let n = four host bytes parsed in (omega (arith, n), rw n refl)
  address-IsReadAs host (ipv6 bytes) parsed =
      let n = sixteen host bytes parsed in (omega (arith, n), rw n refl)

  encode_name-IsReadAs :
      (host : List ℕ) (o : Option IpAddr) (p : ℕ × List ℕ)
      → netip.parse_addr host ≡ o
      → bytes_eq.beq host [] ≡ false
      → encode_name netip host o ≡ ok p
      → IsReadAs (shown_as host o) p
  encode_name-IsReadAs host none p parsed named h =
      let same : (3, host) ≡ p = ground (arith, h) in
      subst (IsReadAs host) same (name-IsReadAs host named (ground (arith, h)) (ground (arith, h)))
  encode_name-IsReadAs host (some a) p parsed named h =
      subst (IsReadAs (netip.addr_string a)) (ok_inj h) (address-IsReadAs host a parsed)

  none-IsReadAs : IsReadAs [] (0, [])
  unfolding decode_host
  none-IsReadAs = (omega arith, refl)

  encode_host-IsReadAs :
      (host : List ℕ) (p : ℕ × List ℕ) → encode_host netip host ≡ ok p → IsReadAs (canonical host) p
  unfolding encode_host decode_host same_bytes
  encode_host-IsReadAs [] p h = subst (IsReadAs []) (ok_inj h) (omega arith, refl)
  encode_host-IsReadAs (c ∷ cs) p h =
      encode_name-IsReadAs (c ∷ cs) (netip.parse_addr (c ∷ cs)) p refl refl h

  shown_as_blank :
      (host : List ℕ) (o : Option IpAddr)
      → bytes_eq.beq (netip.trim_space host) [] ≡ false
      → bytes_eq.beq (netip.trim_space (shown_as host o)) [] ≡ false
  shown_as_blank host none h = h
  shown_as_blank host (some a) h = shown a

  canonical_blank :
      (host : List ℕ)
      → bytes_eq.beq (netip.trim_space host) [] ≡ false
      → bytes_eq.beq (netip.trim_space (canonical host)) [] ≡ false
  canonical_blank [] h = h
  canonical_blank (c ∷ cs) h = shown_as_blank (c ∷ cs) (netip.parse_addr (c ∷ cs)) h

  canonical_nil :
      (host : List ℕ) → bytes_eq.beq host [] ≡ true → bytes_eq.beq (canonical host) [] ≡ true
  canonical_nil host h =
      subst (λ x. bytes_eq.beq (canonical x) [] ≡ true) (sym ((same_bytes_iff host []).0 h)) h0
    where
      h0 : bytes_eq.beq [] [] ≡ true
      h0 = (same_bytes_iff [] []).1 refl

  validate_frame-canonical_frame :
      (f : Frame) → validate_frame netip f ≡ none → validate_frame netip (canonical_frame f) ≡ none
  validate_frame-canonical_frame f h =
      validate_host netip f (canonical f.endpoint.host) h (canonical_nil f.endpoint.host)
        (canonical_blank f.endpoint.host)

  decode-frame_bytes :
      (f : Frame) (t : ℕ) (addr host : List ℕ)
      → is_known f.frame_type ≡ true
      → f.flow_id == 0 ≡ false
      → f.flow_id < 2 ^ 64
      → f.endpoint.port < 2 ^ 16
      → IsReadAs host (t, addr)
      → decode netip (frame_bytes netip f t addr)
        ≡ decode_hosted netip f.frame_type f.flow_id f.endpoint.port f.payload (ok host)
  unfolding decode
  decode-frame_bytes f t addr host known flow small port read =
      let kind : f.frame_type % 256 ≡ f.frame_type = ground arith in
      let len : length addr % 256 ≡ length addr = omega (arith, read.0) in
      let known' : is_known (f.frame_type % 256) ≡ true =
        subst (λ k. is_known k ≡ true) (sym kind) known in
      let long : ltb (length (frame_bytes netip f t addr)) (16 + length addr) ≡ false =
        ground (arith, length-append addr f.payload) in
      let head : ltb (length (frame_bytes netip f t addr)) 16 ≡ false = ground (arith) in
      rw
        (
          head,
          known',
          kind,
          be64_round f.flow_id small,
          flow,
          be16_round f.endpoint.port port,
          len,
          long,
          take-length_append addr f.payload,
          drop-length_append addr f.payload,
          read.1,
        )
        refl

  encode_checked_frame :
      (f : Frame) (o : Option WireError) (bytes : List ℕ)
      → encode_checked netip f o ≡ ok bytes
      → (o ≡ none) × (encode_addressed netip f (encode_host netip f.endpoint.host) ≡ ok bytes)
  encode_checked_frame f none bytes h = (refl, h)
  encode_checked_frame f (some e) bytes h = ground (arith, h)

  -- The address that Encode puts into a frame that is valid.
  encode_addressed_frame :
      (f : Frame) (r : Result WireError (ℕ × List ℕ)) (bytes : List ℕ)
      → validate_frame netip f ≡ none
      → encode_host netip f.endpoint.host ≡ r
      → encode_addressed netip f r ≡ ok bytes
      → (t : ℕ) × (addr : List ℕ) × (bytes ≡ frame_bytes netip f t addr)
        × IsReadAs (canonical f.endpoint.host) (t, addr)
  encode_addressed_frame f (err e) bytes valid hosted h = ground (arith, h)
  encode_addressed_frame f (ok p) bytes valid hosted h =
      elim (Bool-cases (f.frame_type == type_close)) [
        | inl closing ↦
            let empty = validate_close netip f valid closing in
            (
              0,
              [],
              ok_inj (sym (rw closing at h)),
              subst (λ x. IsReadAs (canonical x) (0, []))
                  (sym ((same_bytes_iff f.endpoint.host []).0 empty)) none-IsReadAs,
            )
        | inr packet ↦
            (p.0, p.1, ok_inj (sym (rw packet at h)), encode_host-IsReadAs f.endpoint.host p hosted)
      ]

  -- What Encode writes for a frame, Decode reads back as that frame, with a host that is an address
  -- printed the way netip prints it. It holds for netip's addresses of four and of sixteen bytes that
  -- are printed as some text, and for a flow and a port of 64 and 16 bits.
  pub decode-encode :
      (f : Frame) (bytes : List ℕ)
      → f.flow_id < 2 ^ 64
      → f.endpoint.port < 2 ^ 16
      → encode netip f ≡ ok bytes
      → decode netip bytes ≡ ok (canonical_frame f)
  unfolding encode
  decode-encode f bytes small port h =
      let e = encode_checked_frame f (validate_frame netip f) bytes h in
      let w = encode_addressed_frame f (encode_host netip f.endpoint.host) bytes e.0 refl e.1 in
      let known = validate_known netip f e.0 in
      ap (decode netip) w.2
      ∙ decode-frame_bytes f w.0 w.1 (canonical f.endpoint.host) known.0 known.1 small port w.3
      ∙ rw (known.2, validate_frame-canonical_frame f e.0) refl
