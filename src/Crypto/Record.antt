-- ===== src/Crypto/Record.antt =====
-- internal/crypto/chacha.go: the v2 records. A byte string is a list of numbers below 256, the AEAD, the
-- key derivation and the random prefix of a lane are parameters, and the pools and locks are left out.
pub mod Open
pub mod Nonces
use Prim.Native.String.{String}
use olcrtc.Prelude.{
  ℕ, ◌+◌, ◌-◌, ◌*◌, ◌/◌, ◌%◌, ◌^◌, Bool, not, List, [], ◌∷◌, ◌++◌, Option, none, some, length, take,
  drop, ltb, leb, ◌==◌, if◌then◌else◌,
}
use olcrtc.Prelude.Maps.{lookup, insert, bytes_eq, same_bytes}
use olcrtc.Prelude.Results.{Result, ok, err}
use olcrtc.Bytes.{u64_at, slice}
use olcrtc.Crypto.Replay.{ReplayError, ReplayCache, accept}

abbrev pub key_size : ℕ
key_size = 32

-- "OLC2"
abbrev pub record_magic : List ℕ
record_magic = 0x4f ∷ 0x4c ∷ 0x43 ∷ 0x32 ∷ []

abbrev pub nonce_prefix_size : ℕ
nonce_prefix_size = 16

abbrev pub record_header_size : ℕ
record_header_size = 28

-- The header and the tag.
abbrev pub wire_overhead : ℕ
wire_overhead = 28 + 16

pub data RecordError : Type 0 where
  invalid_key_size invalid_role seed_failed record_too_short bad_record_magic : RecordError
  invalid_counter authentication counter_exhausted : RecordError
  replayed : ReplayError → RecordError

-- chacha20poly1305.NewX and hkdf: a box is sealed and opened under a key, a nonce and associated bytes.
pub record Aead (K : Type 0) : Type 0 where
  pub seal_box : K → List ℕ → List ℕ → List ℕ → List ℕ
  pub open_box : K → List ℕ → List ℕ → List ℕ → Option (List ℕ)
  pub derive_key : List ℕ → String → K

pub data Role : Type 0 where
  client server : Role
  other_role : ℕ → Role

pub record SealState : Type 0 where
  pub prefix : List ℕ
  pub counter : ℕ

-- A lane's sender holds the AEAD of the set, which is the key here.
pub record KeySet (K : Type 0) : Type 0 where
  pub send_key : K
  pub lanes : List (List ℕ × SealState)
  pub receive_key : K
  pub replay : ReplayCache

-- PutUint64 into eight bytes.
abbrev pub bytes_of_u64 : ℕ → List ℕ
bytes_of_u64 n =
    n / 2 ^ 56 % 256
    ∷ n / 2 ^ 48 % 256
    ∷ n / 2 ^ 40 % 256
    ∷ n / 2 ^ 32 % 256
    ∷ n / 2 ^ 24 % 256
    ∷ n / 2 ^ 16 % 256
    ∷ n / 2 ^ 8 % 256
    ∷ n % 256
    ∷ []

unfoldable pub next_counter : SealState → Result RecordError ℕ × SealState
next_counter s =
    if s.counter == 2 ^ 64 - 1
    then (err counter_exhausted, s)
    else (ok (s.counter + 1), record s { counter = s.counter + 1 })

abbrev pub nonce_of : List ℕ → ℕ → List ℕ
nonce_of prefix counter = prefix ++ bytes_of_u64 counter

module _ {K : Type 0} (aead : Aead K) where
  abbrev empty_set : K → K → KeySet K
  empty_set send receive = record {
    send_key = send;
    lanes = [];
    receive_key = receive;
    replay = [];
  }

  unfoldable pub new_key_set_for_role : K → K → Role → Result RecordError (KeySet K)
  new_key_set_for_role client_key server_key client = ok (empty_set client_key server_key)
  new_key_set_for_role client_key server_key server = ok (empty_set server_key client_key)
  new_key_set_for_role client_key server_key (other_role n) = err invalid_role

  unfoldable pub new_key_set : List ℕ → Role → Result RecordError (KeySet K)
  unfolding new_key_set_for_role
  new_key_set psk role =
      let client_key = aead.derive_key psk "olcrtc/v2/client-to-server" in
      let server_key = aead.derive_key psk "olcrtc/v2/server-to-client" in
      if not (length psk == key_size)
      then err invalid_key_size
      else new_key_set_for_role client_key server_key role

  -- The record of `counter` on the lane with this prefix.
  abbrev pub record_of : K → List ℕ → ℕ → List ℕ → List ℕ → List ℕ
  record_of key prefix counter plaintext aad =
      record_magic
      ++ (bytes_of_u64 counter
          ++ (prefix ++ aead.seal_box key (nonce_of prefix counter) plaintext aad))

  -- sealWith from the answer of nextCounter on.
  abbrev pub seal_numbered :
      K
      → List ℕ
      → List ℕ
      → List ℕ
      → Result RecordError ℕ × SealState
      → Result RecordError (List ℕ) × SealState
  seal_numbered key dst plaintext aad (err e, s) = (err e, s)
  seal_numbered key dst plaintext aad (ok counter, s) =
      (ok (dst ++ record_of key s.prefix counter plaintext aad), s)

  unfoldable pub seal_with :
      K → SealState → List ℕ → List ℕ → List ℕ → Result RecordError (List ℕ) × SealState
  seal_with key s dst plaintext aad = seal_numbered key dst plaintext aad (next_counter s)

  -- The sender of a lane: the one it has, or a fresh one with the prefix that the random source gives.
  unfoldable pub lane_state : KeySet K → List ℕ → Option (List ℕ) → Result RecordError SealState
  lane_state k aad random = elim (lookup aad k.lanes) [
    | some s ↦ ok s
    | none ↦ elim random [
      | none ↦ err seed_failed
      | some prefix ↦ ok (record { prefix = prefix; counter = 0 })
    ]
  ]

  abbrev pub seal_on :
      KeySet K
      → List ℕ
      → List ℕ
      → List ℕ
      → Result RecordError SealState
      → Result RecordError (List ℕ) × KeySet K
  seal_on k dst plaintext aad (err e) = (err e, k)
  seal_on k dst plaintext aad (ok s) =
      let (sealed, s') = seal_with k.send_key s dst plaintext aad in
      (sealed, record k { lanes = insert aad s' k.lanes })

  unfoldable pub seal_into :
      KeySet K → List ℕ → List ℕ → List ℕ → Option (List ℕ) → Result RecordError (List ℕ) × KeySet K
  unfolding lane_state seal_with
  seal_into k dst plaintext aad random = seal_on k dst plaintext aad (lane_state k aad random)

  unfoldable pub seal :
      KeySet K → List ℕ → List ℕ → Option (List ℕ) → Result RecordError (List ℕ) × KeySet K
  unfolding seal_into
  seal k plaintext aad random = seal_into k [] plaintext aad random

  abbrev pub admitted :
      KeySet K
      → List ℕ
      → Result ReplayError (Unit {0}) × ReplayCache
      → Result RecordError (List ℕ) × KeySet K
  admitted k plaintext (ok u, cache) = (ok plaintext, record k { replay = cache })
  admitted k plaintext (err e, cache) = (err (replayed e), record k { replay = cache })

  -- OpenInto from the answer of the AEAD on.
  unfoldable pub open_opened :
      KeySet K
      → List ℕ
      → List ℕ
      → List ℕ
      → ℕ
      → Option (List ℕ)
      → Result RecordError (List ℕ) × KeySet K
  open_opened k dst aad prefix counter none = (err authentication, k)
  open_opened k dst aad prefix counter (some plaintext) =
      admitted k (dst ++ plaintext) (accept k.replay aad prefix counter)

  -- OpenInto from the counter on.
  unfoldable pub open_counted :
      KeySet K → List ℕ → List ℕ → List ℕ → ℕ → Result RecordError (List ℕ) × KeySet K
  unfolding open_opened
  open_counted k dst bytes aad counter =
      let prefix = slice bytes 12 record_header_size in
      let box = drop record_header_size bytes in
      if counter == 0
      then (err invalid_counter, k)
      else open_opened k dst aad prefix counter
          (aead.open_box k.receive_key (nonce_of prefix counter) box aad)

  unfoldable pub open_into :
      KeySet K → List ℕ → List ℕ → List ℕ → Result RecordError (List ℕ) × KeySet K
  unfolding open_counted
  open_into k dst bytes aad =
      if ltb (length bytes) wire_overhead
      then (err record_too_short, k)
      else if not (same_bytes (take 4 bytes) record_magic)
      then (err bad_record_magic, k)
      else open_counted k dst bytes aad (u64_at bytes 4)

  unfoldable pub open_record : KeySet K → List ℕ → List ℕ → Result RecordError (List ℕ) × KeySet K
  unfolding open_into
  open_record k bytes aad = open_into k [] bytes aad
