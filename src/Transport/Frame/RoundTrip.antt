-- ===== src/Transport/Frame/RoundTrip.antt =====
-- What DecodeFrame reads back of each encoder's output.
use olcrtc.Prelude.{ℕ, ◌%◌, ◌^◌, ◌<◌, ◌≡◌, List, arith}
use olcrtc.Prelude.Results.{ok}
use olcrtc.Transport.Frame.{
  zero_frame, type_ack, type_data, type_hello, type_stream, encode_ack, encode_hello,
  encode_hello_features, encode_data, encode_stream_data, decode_frame, decode_body,
  decode_ack_body, decode_data_body, decode_stream_body, take_data_body, validate_frame_header,
}

-- An acknowledgement is read back with every field it was written with, for fields of their
-- widths, and with no payload.
pub decode_frame-encode_ack :
    (role binding seq crc frag_idx : ℕ)
    → role < 256
    → binding < 2 ^ 32
    → seq < 2 ^ 32
    → crc < 2 ^ 32
    → frag_idx < 2 ^ 16
    → decode_frame (encode_ack role binding seq crc frag_idx)
      ≡ ok (record zero_frame {
        kind = type_ack;
        role = role;
        binding = binding;
        seq = seq;
        crc = crc;
        frag_idx = frag_idx;
      })
unfolding decode_frame validate_frame_header decode_body decode_ack_body encode_ack
decode_frame-encode_ack role binding seq crc frag_idx hr hb hs hc hi = ground arith

-- A hello without a features byte is read as one that announces no feature, and a hello with
-- one is read back with it.
pub decode_frame-encode_hello :
    (role binding features : ℕ)
    → role < 256
    → binding < 2 ^ 32
    → (decode_frame (encode_hello role binding)
        ≡ ok (record zero_frame { kind = type_hello; role = role; binding = binding }))
      × (decode_frame (encode_hello_features role binding features)
          ≡ ok (record zero_frame {
            kind = type_hello;
            role = role;
            binding = binding;
            features = features;
          }))
unfolding decode_frame validate_frame_header decode_body encode_hello encode_hello_features
decode_frame-encode_hello role binding features hr hb = (ground arith, ground arith)

module _ (crc32 : List ℕ → ℕ) (crc32-lt : (xs : List ℕ) → crc32 xs < 2 ^ 32) where
  -- A data fragment is read back with its payload and every field, the checksum of the payload
  -- among them, for fields of their widths; the three counts that the encoder narrows come back
  -- reduced to their widths.
  pub decode_frame-encode_data :
      (role binding seq crc total_len frag_idx frag_total : ℕ) (payload : List ℕ)
      → role < 256
      → binding < 2 ^ 32
      → seq < 2 ^ 32
      → crc < 2 ^ 32
      → decode_frame (encode_data crc32 role binding seq crc total_len frag_idx frag_total payload)
        ≡ ok (record zero_frame {
          kind = type_data;
          role = role;
          binding = binding;
          seq = seq;
          crc = crc;
          total_len = total_len % 2 ^ 32;
          frag_idx = frag_idx % 2 ^ 16;
          frag_total = frag_total % 2 ^ 16;
          frag_crc = crc32 payload;
          payload = payload;
        })
  unfolding decode_frame validate_frame_header decode_body decode_data_body take_data_body
      encode_data
  decode_frame-encode_data role binding seq crc total_len frag_idx frag_total payload hr hb hs hc =
      ground (arith, crc32-lt payload)

  -- A stream fragment is read back with its payload and every field, the checksum of the payload and
  -- the sender's stream id and floor among them, for fields of their widths; the three counts that
  -- the encoder narrows come back reduced to their widths.
  pub decode_frame-encode_stream_data :
      (role binding stream floor seq crc total_len frag_idx frag_total : ℕ) (payload : List ℕ)
      → role < 256
      → binding < 2 ^ 32
      → stream < 2 ^ 32
      → floor < 2 ^ 32
      → seq < 2 ^ 32
      → crc < 2 ^ 32
      → decode_frame (
          encode_stream_data crc32 role binding stream floor seq crc total_len frag_idx frag_total
            payload)
        ≡ ok (record zero_frame {
          kind = type_stream;
          role = role;
          binding = binding;
          seq = seq;
          crc = crc;
          total_len = total_len % 2 ^ 32;
          frag_idx = frag_idx % 2 ^ 16;
          frag_total = frag_total % 2 ^ 16;
          frag_crc = crc32 payload;
          stream = stream;
          floor = floor;
          payload = payload;
        })
  unfolding decode_frame validate_frame_header decode_body decode_stream_body take_data_body
      encode_stream_data
  decode_frame-encode_stream_data role binding stream floor seq crc total_len frag_idx frag_total
        payload hr hb hst hf hs hc =
      ground (arith, crc32-lt payload)
