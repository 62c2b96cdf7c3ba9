-- ===== src/Crypto/Record/Open.antt =====
-- What OpenInto reads of a sealed record, and what it leaves when it refuses one:
-- internal/crypto/chacha.go.
use mathlib.Core.Path.{subst}
use olcrtc.Prelude.{
  ℕ, ◌+◌, ◌-◌, ◌^◌, ◌≤◌, ◌<◌, ◌≡◌, refl, ap, inl, inr, false, Bool-cases, List, [], ◌++◌, Option,
  none, some, length, drop, take_prefix, drop_prefix, length-append, arith, ltb, ◌==◌, Option-cases,
}
use olcrtc.Prelude.Maps.{bytes_eq, same_bytes}
use olcrtc.Prelude.Results.{Result, ok, err, Result-cases}
use olcrtc.Bytes.{u64_at, slice, be64_round}
use olcrtc.Crypto.Replay.{ReplayCache, ReplayError, accept, find, judge}
use olcrtc.Crypto.Replay.Lookup.{accept_new, accept_ok, accept_err}
use olcrtc.Crypto.Record.{
  Aead, KeySet, SealState, RecordError, nonce_of, record_of, next_counter, lane_state, seal_with,
  seal_into, admitted, open_opened, open_counted, open_into,
}

accept_kept :
    (cache : ReplayCache) (l p : List ℕ) (c : ℕ) (e : ReplayError)
    → (accept cache l p c).0 ≡ err e
    → (accept cache l p c).1 ≡ cache
accept_kept cache l p c e h = elim (Option-cases (find l p cache)) [
  | inl none_yet ↦ ground (arith, accept_new cache l p c none_yet, h)
  | inr (s, found) ↦ elim (Result-cases (judge s c)) [
    | inl (t, good) ↦ ground (arith, accept_ok cache l p c s t found good, h)
    | inr (bad, refused) ↦ ground (arith, accept_err cache l p c s bad found refused)
  ]
]

next_counter_more :
    (s : SealState)
    → s.counter < 2 ^ 64 - 1
    → next_counter s ≡ (ok (s.counter + 1), record s { counter = s.counter + 1 })
unfolding next_counter
next_counter_more s lt = let more : s.counter == 2 ^ 64 - 1 ≡ false = ground arith in rw more refl

module _ {K : Type 0} (aead : Aead K) where
  admitted_refused :
      (k : KeySet K) (plaintext : List ℕ) (r : Result ReplayError (Unit {0}) × ReplayCache)
      (e : RecordError)
      → ((f : ReplayError) → r.0 ≡ err f → r.1 ≡ k.replay)
      → (admitted aead k plaintext r).0 ≡ err e
      → (admitted aead k plaintext r).1 ≡ k
  admitted_refused k plaintext (ok u, cache) e kept h = cc
  admitted_refused k plaintext (err f, cache) e kept h =
      ap (λ c. record k { replay = c }) (kept f refl)

  open_opened_refused :
      (k : KeySet K) (dst aad prefix : List ℕ) (counter : ℕ) (o : Option (List ℕ)) (e : RecordError)
      → (open_opened aead k dst aad prefix counter o).0 ≡ err e
      → (open_opened aead k dst aad prefix counter o).1 ≡ k
  unfolding open_opened
  open_opened_refused k dst aad prefix counter none e h = refl
  open_opened_refused k dst aad prefix counter (some plaintext) e h =
      admitted_refused k (dst ++ plaintext) (accept k.replay aad prefix counter) e
        (accept_kept k.replay aad prefix counter) h

  open_counted_refused :
      (k : KeySet K) (dst bytes aad : List ℕ) (counter : ℕ) (e : RecordError)
      → (open_counted aead k dst bytes aad counter).0 ≡ err e
      → (open_counted aead k dst bytes aad counter).1 ≡ k
  unfolding open_counted
  open_counted_refused k dst bytes aad counter e h =
      let prefix = slice bytes 12 28 in
      let opened = aead.open_box k.receive_key (nonce_of prefix counter) (drop 28 bytes) aad in
      elim (Bool-cases (counter == 0)) [
        | inl zero_counter ↦ rw zero_counter refl
        | inr counted ↦
            rw counted (open_opened_refused k dst aad prefix counter opened e (rw counted at h))
      ]

  -- OpenInto refuses a record without changing the key set: one that is too short, has another magic
  -- or counter 0, fails authentication or is a replay leaves the replay state as it was.
  pub open_into_refused :
      (k : KeySet K) (dst bytes aad : List ℕ) (e : RecordError)
      → (open_into aead k dst bytes aad).0 ≡ err e
      → (open_into aead k dst bytes aad).1 ≡ k
  unfolding open_into
  open_into_refused k dst bytes aad e h =
      let (r, k') = open_counted aead k dst bytes aad (u64_at bytes 4) in
      ground (arith, open_counted_refused k dst bytes aad (u64_at bytes 4) e)

  module _
      (opens : (key : K) (n p a : List ℕ)
        → aead.open_box key n (aead.seal_box key n p a) a ≡ some p)
      (tagged : (key : K) (n p a : List ℕ) → length (aead.seal_box key n p a) ≡ length p + 16) where
    open_counted-record_of :
        (k : KeySet K) (dst prefix plaintext aad : List ℕ) (counter : ℕ)
        → length prefix ≡ 16
        → 1 ≤ counter
        → open_counted aead k dst
            (record_of aead k.receive_key prefix counter plaintext aad)
            aad
            counter
          ≡ admitted aead k (dst ++ plaintext) (accept k.replay aad prefix counter)
    unfolding open_counted open_opened
    open_counted-record_of k dst prefix plaintext aad counter hp hc =
        let box = aead.seal_box k.receive_key (nonce_of prefix counter) plaintext aad in
        let counted : counter == 0 ≡ false = ground arith in
        rw
          (
            counted,
            take_prefix 16 prefix box hp,
            drop_prefix 16 prefix box hp,
            opens k.receive_key (nonce_of prefix counter) plaintext aad,
          )
          refl

    -- A record sealed under the key that a set receives with is opened as its plaintext, if its
    -- counter is let in; the replay cache alone changes.
    pub open_into-record_of :
        (k : KeySet K) (dst prefix plaintext aad : List ℕ) (counter : ℕ)
        → length prefix ≡ 16
        → 1 ≤ counter
        → counter < 2 ^ 64
        → open_into aead k dst (record_of aead k.receive_key prefix counter plaintext aad) aad
          ≡ admitted aead k (dst ++ plaintext) (accept k.replay aad prefix counter)
    unfolding open_into same_bytes
    open_into-record_of k dst prefix plaintext aad counter hp hc lt =
        let box = aead.seal_box k.receive_key (nonce_of prefix counter) plaintext aad in
        let long : ltb (length (record_of aead k.receive_key prefix counter plaintext aad)) 44
            ≡ false =
          ground (
            arith,
            length-append prefix box,
            tagged k.receive_key (nonce_of prefix counter) plaintext aad,
            hp,
          ) in
        rw (long, be64_round counter lt)
          (open_counted-record_of k dst prefix plaintext aad counter hp hc)

    seal_with_lem :
        (key : K) (s : SealState) (dst plaintext aad : List ℕ)
        → s.counter < 2 ^ 64 - 1
        → (seal_with aead key s dst plaintext aad).0
          ≡ ok (dst ++ record_of aead key s.prefix (s.counter + 1) plaintext aad)
    unfolding seal_with
    seal_with_lem key s dst plaintext aad lt = rw (next_counter_more s lt) refl

    seal_into_lem :
        (k : KeySet K) (dst plaintext aad : List ℕ) (random : Option (List ℕ)) (s : SealState)
        → lane_state aead k aad random ≡ ok s
        → s.counter < 2 ^ 64 - 1
        → (seal_into aead k dst plaintext aad random).0
          ≡ ok (dst ++ record_of aead k.send_key s.prefix (s.counter + 1) plaintext aad)
    unfolding seal_into
    seal_into_lem k dst plaintext aad random s lane lt =
        rw lane (seal_with_lem k.send_key s dst plaintext aad lt)

    -- What one side seals on a lane, the other opens: sealing succeeds while the lane's counter is not
    -- exhausted, and the set that receives with the sender's key gets the plaintext back, if its replay
    -- cache lets the record's counter in.
    pub open_into-seal_into :
        (sender receiver : KeySet K) (dst plaintext aad : List ℕ) (random : Option (List ℕ))
        (s : SealState)
        → receiver.receive_key ≡ sender.send_key
        → lane_state aead sender aad random ≡ ok s
        → length s.prefix ≡ 16
        → s.counter < 2 ^ 64 - 1
        → (bytes : List ℕ) × ((seal_into aead sender [] plaintext aad random).0 ≡ ok bytes)
          × (open_into aead receiver dst bytes aad
              ≡ admitted aead receiver
                  (dst ++ plaintext)
                  (accept receiver.replay aad s.prefix (s.counter + 1)))
    open_into-seal_into sender receiver dst plaintext aad random s keys lane hp lt =
        let counter = s.counter + 1 in
        (
          record_of aead sender.send_key s.prefix counter plaintext aad,
          seal_into_lem sender [] plaintext aad random s lane lt,
          subst
              (λ key.
                open_into aead receiver dst (record_of aead key s.prefix counter plaintext aad) aad
                ≡ admitted aead receiver (dst ++ plaintext)
                    (accept receiver.replay aad s.prefix counter))
              keys
              (open_into-record_of receiver dst s.prefix plaintext aad counter hp (omega arith)
                (omega arith)),
        )
