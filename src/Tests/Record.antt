-- ===== src/Tests/Record.antt =====
-- Records and rings at concrete inputs.
use olcrtc.Prelude.{
  ℕ, ◌+◌, ◌-◌, ◌^◌, ◌<◌, ◌≡◌, refl, true, List, [], ◌∷◌, ◌++◌, Option, none, some, length, take,
  take-length_append, length-append, All, arith, ◌==◌, if◌then◌else◌,
}
use olcrtc.Prelude.Maps.{same_bytes, lookup, insert, is_in}
use olcrtc.Prelude.Results.{ok}
use olcrtc.Crypto.Replay.{accept, find}
use olcrtc.Crypto.Record.{
  Aead, KeySet, SealState, bad_record_magic, client, record_of, admitted, lane_state, next_counter,
  nonce_of, seal_with, seal_into, open_into, open_counted, open_opened, new_key_set,
  new_key_set_for_role,
}
use olcrtc.Crypto.Record.Open.{open_into_refused, open_into-seal_into}
use olcrtc.Crypto.Record.Nonces.{SealCall, call, call_all, IsNumbered, nonce_never_repeats}
use olcrtc.Crypto.Ring.{
  Heap, RingEntry, put, find as find_entry, holds, reload, build_ring, build_from, build_raw,
  entry_for, try_open,
}
use olcrtc.Crypto.Ring.Trial.{answer, decided, try_open_first}
use olcrtc.Crypto.Ring.Reload.{IsExtended, IsOrigin, holds-reload, reload-IsOrigin}

abbrev tag : List ℕ
tag = 0 ∷ 0 ∷ 0 ∷ 0 ∷ 0 ∷ 0 ∷ 0 ∷ 0 ∷ 0 ∷ 0 ∷ 0 ∷ 0 ∷ 0 ∷ 0 ∷ 0 ∷ 0 ∷ []

-- A box that is the plaintext with a tag of zeros, under keys that are numbers.
abbrev plain : Aead ℕ
plain = record {
  seal_box = λ key nonce p aad. p ++ tag;
  open_box = λ key nonce c aad. some (take (length c - 16) c);
  derive_key = λ psk label. length psk;
}

plain_opens :
    (key : ℕ) (n p a : List ℕ) → plain.open_box key n (plain.seal_box key n p a) a ≡ some p
plain_opens key n p a =
    let size : length (p ++ tag) - 16 ≡ length p = omega (arith, length-append p tag) in
    rw (size, take-length_append p tag) refl

plain_tagged : (key : ℕ) (n p a : List ℕ) → length (plain.seal_box key n p a) ≡ length p + 16
plain_tagged key n p a = length-append p tag

abbrev prefix : List ℕ
prefix = 7 ∷ 7 ∷ 7 ∷ 7 ∷ 7 ∷ 7 ∷ 7 ∷ 7 ∷ 7 ∷ 7 ∷ 7 ∷ 7 ∷ 7 ∷ 7 ∷ 7 ∷ 7 ∷ []

abbrev key_set : ℕ → ℕ → KeySet ℕ
key_set send receive = record { send_key = send; lanes = []; receive_key = receive; replay = [] }

open_into_refused_example :
    (open_into plain (key_set 1 2) [] (tag ++ tag ++ tag) (5 ∷ [])).1 ≡ key_set 1 2
unfolding open_into same_bytes
open_into_refused_example =
    open_into_refused plain (key_set 1 2) [] (tag ++ tag ++ tag) (5 ∷ []) bad_record_magic refl

-- A lane that has sealed four records.
abbrev lane : SealState
lane = record { prefix = prefix; counter = 4 }

abbrev sending : KeySet ℕ
sending = record (key_set 3 2) { lanes = (5 ∷ [], lane) ∷ [] }

open_into-seal_into_example :
    (bytes : List ℕ) × ((seal_into plain sending [] (8 ∷ 9 ∷ []) (5 ∷ []) none).0 ≡ ok bytes)
    × (open_into plain (key_set 2 3) (1 ∷ []) bytes (5 ∷ [])
        ≡ admitted plain (key_set 2 3) (1 ∷ 8 ∷ 9 ∷ []) (accept [] (5 ∷ []) prefix 5))
unfolding lane_state lookup same_bytes
open_into-seal_into_example =
    open_into-seal_into plain plain_opens plain_tagged sending (key_set 2 3) (1 ∷ []) (8 ∷ 9 ∷ [])
      (5 ∷ []) none lane refl refl refl omega arith

abbrev first_call : SealCall
first_call = record { dst = []; plaintext = 1 ∷ []; aad = 5 ∷ []; random = some prefix }

abbrev other_call : SealCall
other_call = record { dst = []; plaintext = 2 ∷ []; aad = 6 ∷ []; random = some tag }

nonce_never_repeats_example :
    let k = call_all plain (call plain (key_set 3 2) first_call).1 (other_call ∷ []) in
    (p : List ℕ) × (m : ℕ) × (n : ℕ) × (m < n)
    × (n < 2 ^ 64)
    × ¬ (nonce_of p m ≡ nonce_of p n)
    × IsNumbered plain (key_set 3 2) first_call (record_of plain 3 prefix 1 (1 ∷ []) (5 ∷ [])) p m
    × IsNumbered plain (key_set 3 2) first_call (record_of plain 3 prefix 2 (1 ∷ []) (5 ∷ [])) p n
unfolding seal_into lane_state seal_with next_counter lookup insert same_bytes call_all
nonce_never_repeats_example =
    nonce_never_repeats plain (key_set 3 2) first_call (other_call ∷ []) first_call
      (record_of plain 3 prefix 1 (1 ∷ []) (5 ∷ [])) (record_of plain 3 prefix 2 (1 ∷ []) (5 ∷ []))
      (λ s (e : none ≡ some s). ground (arith, e)) refl refl refl

-- The key 9 opens nothing.
abbrev picky : Aead ℕ
picky = record plain {
  open_box = λ key nonce c aad. if key == 9 then none else some (take (length c - 16) c);
}

abbrev entry : ℕ → ℕ → RingEntry
entry keys id = record { keys = keys; key_id = id ∷ [] }

-- A set that receives with 9 and one that receives with 3.
abbrev heap : Heap ℕ
heap = record { at = λ a. if a == 0 then key_set 1 9 else key_set 2 3; next = 2 }

try_open_first_example :
    let bytes = record_of plain 3 prefix 1 (8 ∷ []) (5 ∷ []) in
    try_open picky (entry 0 4 ∷ entry 1 6 ∷ []) heap [] bytes (5 ∷ []) ≡ (
      decided picky (entry 1 6) (answer picky heap [] bytes (5 ∷ []) (entry 1 6)),
      put picky heap 1 (open_into picky (key_set 2 3) [] bytes (5 ∷ [])).1,
    )
unfolding open_into open_counted open_opened same_bytes accept find
try_open_first_example =
    try_open_first picky (entry 0 4 ∷ []) (entry 1 6) [] heap []
      (record_of plain 3 prefix 1 (8 ∷ []) (5 ∷ [])) (5 ∷ []) (refl, tt) tt

-- Hex that is the key itself, cut to 32 bytes, and its first byte as the identifier.
abbrev decode_hex : List ℕ → Option (List ℕ)
decode_hex text = some text

abbrev key_id_of : List ℕ → List ℕ
key_id_of raw = take 1 raw

abbrev old_key : List ℕ
old_key = 4 ∷ []

holds-reload_example :
    All
      (λ key_hex.
        (raw : List ℕ)
        → decode_hex key_hex ≡ some raw
        → (e : RingEntry) → find_entry (entry 0 4 ∷ []) (key_id_of raw) ≡ some e
        → holds (entry 0 4 ∷ []) e.keys ≡ true)
      (old_key ∷ [])
unfolding reload build_ring build_from build_raw entry_for find_entry same_bytes is_in
holds-reload_example =
    holds-reload plain decode_hex key_id_of (entry 0 4 ∷ []) client (old_key ∷ []) heap
      (entry 0 4 ∷ []) refl

reload-IsOrigin_example :
    let h' =
      (reload plain decode_hex key_id_of
        (entry 0 4 ∷ [])
        (old_key ∷ (prefix ++ tag) ∷ [])
        client
        heap).1 in
    IsExtended heap h'
    × All
        (IsOrigin plain decode_hex key_id_of (entry 0 4 ∷ []) client heap h')
        (entry 0 4 ∷ entry 2 7 ∷ [])
unfolding reload build_ring build_from build_raw entry_for find_entry same_bytes is_in new_key_set
    new_key_set_for_role
reload-IsOrigin_example =
    reload-IsOrigin plain decode_hex key_id_of (entry 0 4 ∷ []) client
      (old_key ∷ (prefix ++ tag) ∷ []) heap (entry 0 4 ∷ entry 2 7 ∷ []) refl
