-- ===== src/Tests/Rules.antt =====
-- Routing rules, heads of connections, messages of the UDP path, frames of a byte stream and acknowledgements at concrete inputs.
use olcrtc.Prelude.{
  ℕ, ◌≡◌, ◌↔◌, refl, true, false, List, [], ◌∷◌, ◌++◌, none, some, length, All, arith,
  if◌then◌else◌,
}
use olcrtc.Prelude.Maps.{bytes_eq, same_bytes, nat_eq}
use olcrtc.Prelude.Results.{ok}
use olcrtc.Route.{AddrRange, v4, v6, rank, in_ranges, merge_ranges}
use olcrtc.Route.Ranges.{any_covers, in_ranges-merge_ranges}
use olcrtc.Udpwire.{
  Netip, IpAddr, ipv4, ipv6, Frame, validate_frame, encode_host, is_printable, encode, decode,
  frame_bytes,
}
use olcrtc.Udpwire.RoundTrip.{canonical_frame, decode-encode}
use olcrtc.Sniff.{Text, host, http_host, starts_with, http_method, index_of}
use olcrtc.Sniff.Final.{host-append}
use olcrtc.Transport.Ack.{Call, register_call, mark_call, call_all, new_tracker, done, pending_of}
use olcrtc.Transport.Ack.Counted.{done_lem}

-- Two ranges that touch, and one of the other family.
abbrev three_ranges : List AddrRange
three_ranges =
    record { lo = v4 20; hi = v4 29 }
    ∷ record { lo = v6 5 []; hi = v6 8 [] }
    ∷ record { lo = v4 10; hi = v4 19 }
    ∷ []

in_ranges-merge_ranges_example :
    in_ranges (merge_ranges three_ranges) (v4 22) ≡ any_covers three_ranges (v4 22)
unfolding rank
in_ranges-merge_ranges_example =
    in_ranges-merge_ranges three_ranges (v4 22) (omega arith, (omega arith, (omega arith, tt)))

-- A host of the one byte 49 is an address; every address is printed as that byte.
abbrev netip : Netip
netip = record {
  parse_addr =
      λ host. if bytes_eq.beq host (49 ∷ []) then some (ipv4 (1 ∷ 2 ∷ 3 ∷ 4 ∷ [])) else none;
  addr_string = λ a. 49 ∷ [];
  trim_space = λ text. text;
}

netip_four : (host bytes : List ℕ) → netip.parse_addr host ≡ some (ipv4 bytes) → length bytes ≡ 4
netip_four host bytes h = ground (arith, h)

netip_sixteen :
    (host bytes : List ℕ) → netip.parse_addr host ≡ some (ipv6 bytes) → length bytes ≡ 16
netip_sixteen host bytes h = ground (arith, h)

netip_shown : (a : IpAddr) → bytes_eq.beq (netip.trim_space (netip.addr_string a)) [] ≡ false
unfolding same_bytes
netip_shown a = refl

abbrev packet : Frame
packet = record {
  frame_type = 1;
  flow_id = 7;
  endpoint = record { host = 97 ∷ 46 ∷ 98 ∷ []; port = 53 };
  payload = 1 ∷ 2 ∷ [];
}

decode-encode_example :
    decode netip (frame_bytes netip packet 3 (97 ∷ 46 ∷ 98 ∷ []))
    ≡ ok (canonical_frame netip netip_four netip_sixteen netip_shown packet)
unfolding encode validate_frame encode_host is_printable same_bytes
decode-encode_example =
    decode-encode netip netip_four netip_sixteen netip_shown packet
      (frame_bytes netip packet 3 (97 ∷ 46 ∷ 98 ∷ [])) omega arith omega arith refl

-- A message of two fragments with one acknowledged, twice.
abbrev calls : List Call
calls = register_call 4 9 2 ∷ mark_call 4 9 1 ∷ mark_call 4 9 1 ∷ []

done_lem_example :
    All (λ w. (done w ≡ true) ↔ (pending_of w ≡ [])) (call_all new_tracker calls).waiters
done_lem_example = done_lem calls

-- "GET", a Host header with the host "a" and the port 80, and the end of the headers.
abbrev request : List ℕ
request = 71 ∷ 69 ∷ 84 ∷ 32 ∷ 13 ∷ 10 ∷ 104 ∷ 58 ∷ 97 ∷ 58 ∷ 56 ∷ 48 ∷ 13 ∷ 10 ∷ 13 ∷ 10 ∷ []

abbrev text : Text
text = record { to_lower = λ s. s; trim_space = λ s. s; is_host = λ s. bytes_eq.beq s (104 ∷ []) }

host-append_example : host text (request ++ (1 ∷ 2 ∷ [])) ≡ host text request
unfolding host http_host starts_with http_method index_of
host-append_example = host-append text request (1 ∷ 2 ∷ []) omega arith refl
