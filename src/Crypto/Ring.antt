-- ===== src/Crypto/Ring.antt =====
-- internal/crypto/ring.go: the ring of keys a server serves peers under. Key sets are pointers: a ring
-- holds their addresses, and the heap tells what stands there. The hex decoder and the key identifier
-- (the hex of a SHA-256, cut) are parameters.
pub mod Entries
pub mod Loop
pub mod Reload
pub mod Trial
use olcrtc.Prelude.{
  ℕ, ◌+◌, Bool, true, false, List, [], ◌∷◌, ◌++◌, Option, none, some, length, ◌==◌, if◌then◌else◌,
}
use olcrtc.Prelude.Maps.{bytes_eq, is_in}
use olcrtc.Prelude.Results.{Result, ok, err}
use olcrtc.Crypto.Record.{Aead, Role, KeySet, RecordError, authentication, new_key_set, open_into}

pub data RingError : Type 0 where
  no_ring_match empty_ring bad_hex : RingError
  record_error : RecordError → RingError

pub record RingEntry : Type 0 where
  pub keys : ℕ
  pub key_id : List ℕ

-- The ring's one field.
abbrev pub KeyRing : Type 0
KeyRing = List RingEntry

-- What stands at an address, and the next free one.
pub record Heap (K : Type 0) : Type 0 where
  pub at : ℕ → KeySet K
  pub next : ℕ

-- An entry of a ring by its identifier; no key has the empty one.
unfoldable pub find : KeyRing → List ℕ → Option RingEntry
find [] id = none
find (e ∷ r) id =
    let later = find r id in
    if bytes_eq.beq id [] then none else if bytes_eq.beq e.key_id id then some e else later

unfoldable pub holds : KeyRing → ℕ → Bool
holds [] keys = false
holds (e ∷ r) keys = let later = holds r keys in if e.keys == keys then true else later

abbrev pub single_entry : ℕ → List ℕ → KeyRing
single_entry keys id = record { keys = keys; key_id = id } ∷ []

abbrev pub ring_length : KeyRing → ℕ
ring_length r = length r

-- errors.Is of ErrAuthentication.
abbrev pub is_authentication : RecordError → Bool
is_authentication authentication = true
is_authentication _ = false

-- What the loop of buildRing carries: the keys it has an entry for, and the entries.
pub record Built : Type 0 where
  pub seen : List (List ℕ)
  pub entries : List RingEntry

module _ {K : Type 0} (aead : Aead K) where
  abbrev pub added :
      List ℕ → Built → Result RingError RingEntry × Heap K → Result RingError Built × Heap K
  added raw b (err e, h) = (err e, h)
  added raw b (ok e, h) = (ok (record { seen = raw ∷ b.seen; entries = b.entries ++ e ∷ [] }), h)

  abbrev pub put : Heap K → ℕ → KeySet K → Heap K
  put h a k = record h { at = λ b. if b == a then k else h.at b }

  abbrev pub allocated : Heap K → KeySet K → Heap K
  allocated h k = record { at = λ b. if b == h.next then k else h.at b; next = h.next + 1 }

  module _ (decode_hex : List ℕ → Option (List ℕ)) (key_id_of : List ℕ → List ℕ) where
    unfoldable pub key_id_from_hex : List ℕ → Result RingError (List ℕ)
    key_id_from_hex key_hex = elim (decode_hex key_hex) [
      | none ↦ err bad_hex
      | some raw ↦ ok (key_id_of raw)
    ]

    -- The entry for a key that the ring has not seen yet: the one of the previous ring, or a new key set.
    abbrev pub created :
        Heap K → List ℕ → Result RecordError (KeySet K) → Result RingError RingEntry × Heap K
    created h raw (err e) = (err (record_error e), h)
    created h raw (ok k) = (ok (record { keys = h.next; key_id = key_id_of raw }), allocated h k)

    abbrev pub entry_found :
        Role → Heap K → List ℕ → Option RingEntry → Result RingError RingEntry × Heap K
    entry_found role h raw (some kept) = (ok kept, h)
    entry_found role h raw none = created h raw (new_key_set aead raw role)

    unfoldable pub entry_for :
        KeyRing → Role → Heap K → List ℕ → Result RingError RingEntry × Heap K
    entry_for prev role h raw = entry_found role h raw (find prev (key_id_of raw))

    -- One key in the loop of buildRing, decoded.
    unfoldable pub build_raw :
        KeyRing → Role → Built → Heap K → Option (List ℕ) → Result RingError Built × Heap K
    build_raw prev role b h none = (err bad_hex, h)
    build_raw prev role b h (some raw) =
        if is_in raw b.seen then (ok b, h) else added raw b (entry_for prev role h raw)

    -- The loop: an error ends it.
    unfoldable pub build_from :
        KeyRing
        → Role
        → List (List ℕ)
        → Result RingError Built × Heap K
        → Result RingError Built × Heap K
    build_from prev role [] state = state
    build_from prev role (key_hex ∷ more) (err e, h) = (err e, h)
    build_from prev role (key_hex ∷ more) (ok b, h) =
        build_from prev role more (build_raw prev role b h (decode_hex key_hex))

    abbrev pub built_ring : Result RingError Built × Heap K → Result RingError KeyRing × Heap K
    built_ring (err e, h) = (err e, h)
    built_ring (ok b, h) = (ok b.entries, h)

    unfoldable pub build_ring :
        KeyRing → List (List ℕ) → Role → Heap K → Result RingError KeyRing × Heap K
    build_ring prev [] role h = (err empty_ring, h)
    build_ring prev (key_hex ∷ more) role h =
        built_ring
          (build_from prev role (key_hex ∷ more) (ok (record { seen = []; entries = [] }), h))

    -- A nil ring finds nothing, as the empty one.
    unfoldable pub new_key_ring : List (List ℕ) → Role → Heap K → Result RingError KeyRing × Heap K
    unfolding build_ring
    new_key_ring keys_hex role h = build_ring [] keys_hex role h

    unfoldable pub reload :
        KeyRing → List (List ℕ) → Role → Heap K → Result RingError KeyRing × Heap K
    unfolding build_ring
    reload r keys_hex role h = build_ring r keys_hex role h

  abbrev pub tried :
      RingEntry
      → Heap K
      → Result RecordError (List ℕ) × KeySet K
      → Result RingError (List ℕ × RingEntry) × Heap K
      → Result RingError (List ℕ × RingEntry) × Heap K
  tried e h (ok plaintext, k) rest = (ok (plaintext, e), put h e.keys k)
  tried e h (err f, k) rest =
      if is_authentication f then rest else (err (record_error f), put h e.keys k)

  -- An attempt leaves its key set in the heap, and the next entry is tried in that heap.
  unfoldable pub try_open :
      KeyRing → Heap K → List ℕ → List ℕ → List ℕ → Result RingError (List ℕ × RingEntry) × Heap K
  try_open [] h dst bytes aad = (err no_ring_match, h)
  try_open (e ∷ r) h dst bytes aad =
      let attempt = open_into aead (h.at e.keys) dst bytes aad in
      tried e h attempt (try_open r (put h e.keys attempt.1) dst bytes aad)
