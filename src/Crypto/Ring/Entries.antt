-- ===== src/Crypto/Ring/Entries.antt =====
-- Lists of ring entries and of seen keys, which the proofs about internal/crypto/ring.go share.
use olcrtc.Prelude.{
  ℕ, ◌≡◌, inl, inr, true, Bool-cases, List, [], ◌∷◌, ◌++◌, some, All, arith, subst,
}
use olcrtc.Prelude.Maps.{bytes_eq, same_bytes_iff, is_in}
use olcrtc.Crypto.Ring.{RingEntry, KeyRing, find, holds}

pub holds_grows : (r s : KeyRing) (keys : ℕ) → holds r keys ≡ true → holds (r ++ s) keys ≡ true
unfolding holds
holds_grows [] s keys h = ground (arith, h)
holds_grows (e ∷ r) s keys h = ground (arith, holds_grows r s keys)

pub holds_last : (r : KeyRing) (e : RingEntry) → holds (r ++ e ∷ []) e.keys ≡ true
unfolding holds
holds_last [] e = ground arith
holds_last (d ∷ r) e = ground (arith, holds_last r e)

pub All-append :
    (P : RingEntry → Type 0) (xs : List RingEntry) (y : RingEntry)
    → All P xs
    → P y
    → All P (xs ++ y ∷ [])
All-append P [] y ps p = (p, tt)
All-append P (x ∷ xs) y ps p = (ps.0, All-append P xs y ps.1 p)

pub All-map :
    {A : Type 0} {P Q : A → Type 0} (xs : List A) → ((x : A) → P x → Q x) → All P xs → All Q xs
All-map [] f ps = tt
All-map (x ∷ xs) f ps = (f x ps.0, All-map xs f ps.1)

pub seen-All :
    (P : List ℕ → Type 0) (raw : List ℕ) (seen : List (List ℕ))
    → All P seen
    → is_in raw seen ≡ true
    → P raw
unfolding is_in
seen-All P raw [] ps h = ground (arith, h)
seen-All P raw (s ∷ seen) ps h = elim (Bool-cases (bytes_eq.beq s raw)) [
  | inl same ↦ subst P ((same_bytes_iff s raw).0 same) ps.0
  | inr other ↦ seen-All P raw seen ps.1 (rw other at h)
]

pub find_id : (r : KeyRing) (id : List ℕ) (e : RingEntry) → find r id ≡ some e → e.key_id ≡ id
unfolding find
find_id [] id e h = ground (arith, h)
find_id (d ∷ r) id e h = ground (arith, find_id r id e, same_bytes_iff d.key_id id)
