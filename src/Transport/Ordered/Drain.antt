-- ===== src/Transport/Ordered/Drain.antt =====
-- The loops of the receiver end, and what they leave: internal/transport/common/ordered.go,
-- drain and skipTo.
use olcrtc.Prelude.{
  ℕ, zero, suc, ◌+◌, ◌-◌, ◌^◌, ◌%◌, ◌≤◌, ◌<◌, ◌≡◌, refl, sym, subst, inl, inr, true, List, [], ◌∷◌,
  none, some, length, arith, Option-cases,
}
use olcrtc.Prelude.Maps.{lookup, erase, nat_eq, lookup-erase}
use olcrtc.Transport.Ordered.{
  Ordered, before, take_held, advance, drain_loop, drain, skip_loop, drop,
}

module _ {V : Type 0} where
  length-erase_le : (k : ℕ) (m : List (ℕ × V)) → length (erase k m) ≤ length m
  unfolding erase
  length-erase_le k [] = omega arith
  length-erase_le k ((j, w) ∷ m) = ground (arith, length-erase_le k m)

  length-erase_lt :
      (k : ℕ) (v : V) (m : List (ℕ × V)) → lookup k m ≡ some v → length (erase k m) < length m
  unfolding lookup erase
  length-erase_lt k v [] e = ground arith
  length-erase_lt k v ((j, w) ∷ m) e = ground (arith, length-erase_lt k v m, length-erase_le k m)

lookup-empty : {V : Type 0} (k : ℕ) (m : List (ℕ × V)) → length m ≤ 0 → lookup k m ≡ none
unfolding lookup
lookup-empty k [] h = refl
lookup-empty k (x ∷ m) h = ground arith

drain_loop_enough :
    (fuel : ℕ) (o : Ordered)
    → length o.held ≤ fuel
    → let o' = (drain_loop fuel o).0 in lookup o'.next o'.held ≡ none
unfolding drain_loop take_held
drain_loop_enough zero o h = lookup-empty o.next o.held h
drain_loop_enough (suc fuel) o h = elim (Option-cases (lookup o.next o.held)) [
  | inl e ↦ ground (arith, e)
  | inr (whole, e) ↦ ground (
    arith,
    e,
    length-erase_lt o.next whole o.held e,
    drain_loop_enough fuel (advance (take_held o)),
  )
]

-- drain stops because the next message is not held, whatever it started with.
pub drain_complete : (o : Ordered) → let o' = (drain o).0 in lookup o'.next o'.held ≡ none
unfolding drain
drain_complete o = drain_loop_enough (length o.held) o ground arith

-- What drain hands up: the messages held at the sequence numbers from `seq` on, in order.
abbrev pub InOrder : ℕ → List (List ℕ) → List (ℕ × List ℕ) → Type 0
InOrder seq [] held = Unit
InOrder seq (whole ∷ rest) held =
    (lookup seq held ≡ some whole) × InOrder ((seq + 1) % 2 ^ 32) rest held

InOrder-erase :
    (seq k : ℕ) (ready : List (List ℕ)) (held : List (ℕ × List ℕ))
    → InOrder seq ready (erase k held)
    → InOrder seq ready held
InOrder-erase seq k [] held h = h
InOrder-erase seq k (whole ∷ rest) held h =
    let below = InOrder-erase ((seq + 1) % 2 ^ 32) k rest held h.1 in
    ground (arith, h.0, lookup-erase seq k held, below)

pub take_held-next : (o : Ordered) → (take_held o).next ≡ o.next
unfolding take_held
take_held-next o = ground arith

drain_loop_stops :
    (fuel : ℕ) (o : Ordered) → lookup o.next o.held ≡ none → (drain_loop (suc fuel) o).1 ≡ []
unfolding drain_loop
drain_loop_stops fuel o e = ground (arith, e)

drain_loop_goes_on :
    (fuel : ℕ) (o : Ordered) (whole : List ℕ)
    → lookup o.next o.held ≡ some whole
    → (drain_loop (suc fuel) o).1 ≡ whole ∷ (drain_loop fuel (advance (take_held o))).1
unfolding drain_loop
drain_loop_goes_on fuel o whole e = ground (arith, e)

take_held-held :
    (o : Ordered) (whole : List ℕ)
    → lookup o.next o.held ≡ some whole
    → (take_held o).held ≡ erase o.next o.held
unfolding take_held
take_held-held o whole e = ground (arith, e)

drain_loop-InOrder : (fuel : ℕ) (o : Ordered) → InOrder o.next (drain_loop fuel o).1 o.held
unfolding drain_loop
drain_loop-InOrder zero o = tt
drain_loop-InOrder (suc fuel) o = elim (Option-cases (lookup o.next o.held)) [
  | inl e ↦ subst (λ ready. InOrder o.next ready o.held) (sym (drain_loop_stops fuel o e)) tt
  | inr (whole, e) ↦
      let o' = advance (take_held o) in
      let ready = (drain_loop fuel o').1 in
      let below : InOrder ((o.next + 1) % 2 ^ 32) ready (erase o.next o.held) =
        subst (λ held. InOrder ((o.next + 1) % 2 ^ 32) ready held) (take_held-held o whole e)
          (subst (λ n. InOrder ((n + 1) % 2 ^ 32) ready (take_held o).held) (take_held-next o)
            (drain_loop-InOrder fuel o')) in
      subst (λ r. InOrder o.next r o.held) (sym (drain_loop_goes_on fuel o whole e))
        (e, InOrder-erase ((o.next + 1) % 2 ^ 32) o.next ready o.held below)
]

-- What is held once the messages of a run from `seq` on are taken out.
abbrev pub held_after : ℕ → List (List ℕ) → List (ℕ × List ℕ) → List (ℕ × List ℕ)
held_after seq [] held = held
held_after seq (whole ∷ rest) held = held_after ((seq + 1) % 2 ^ 32) rest (erase seq held)

-- The receiver after a run of deliveries: past it, with the run's messages out of what it holds.
abbrev pub IsPast : Ordered → List (List ℕ) → Ordered → Type 0
IsPast o ready o' =
    (o'.next ≡ (o.next + length ready) % 2 ^ 32) × (o'.held ≡ held_after o.next ready o.held)

taken_over :
    (fuel : ℕ) (o : Ordered) (whole : List ℕ)
    → lookup o.next o.held ≡ some whole
    → (drain_loop (suc fuel) o).0 ≡ (drain_loop fuel (advance (take_held o))).0
unfolding drain_loop
taken_over fuel o whole e = ground (arith, e)

left_over : (fuel : ℕ) (o : Ordered) → lookup o.next o.held ≡ none → (drain_loop (suc fuel) o).0 ≡ o
unfolding drain_loop
left_over fuel o e = ground (arith, e)

IsPast-none : (o : Ordered) → o.next < 2 ^ 32 → IsPast o [] o
IsPast-none o h = (omega arith, refl)

IsPast-more :
    (o o' : Ordered) (whole : List ℕ) (ready : List (List ℕ))
    → o.next < 2 ^ 32
    → lookup o.next o.held ≡ some whole
    → IsPast (advance (take_held o)) ready o'
    → IsPast o (whole ∷ ready) o'
IsPast-more o o' whole ready h e (next, held) = (
  ground (arith, next, take_held-next o),
  rw (held, take_held-next o, take_held-held o whole e) refl,
)

drain_loop-IsPast :
    (fuel : ℕ) (o : Ordered)
    → o.next < 2 ^ 32
    → let (o', ready) = drain_loop fuel o in IsPast o ready o'
unfolding drain_loop
drain_loop-IsPast zero o h = IsPast-none o h
drain_loop-IsPast (suc fuel) o h = elim (Option-cases (lookup o.next o.held)) [
  | inl e ↦ rw (left_over fuel o e, drain_loop_stops fuel o e) (IsPast-none o h)
  | inr (whole, e) ↦
      let o' = advance (take_held o) in
      let below = drain_loop-IsPast fuel o' omega arith in
      rw (taken_over fuel o whole e, drain_loop_goes_on fuel o whole e)
        (IsPast-more o (drain_loop fuel o').0 whole (drain_loop fuel o').1 h e below)
]

-- drain, whose next message is a uint32, hands up the messages held from it on, one after the
-- other; the next message is then the one after as many as it handed up, what is held is what was
-- held without the messages handed up, and it stops because the one that follows is not held.
pub drain_lem :
    (o : Ordered)
    → o.next < 2 ^ 32
    → let (o', ready) = drain o in
      InOrder o.next ready o.held
      × (o'.next ≡ (o.next + length ready) % 2 ^ 32)
      × (o'.held ≡ held_after o.next ready o.held)
      × (lookup o'.next o'.held ≡ none)
unfolding drain
drain_lem o h =
    let (next, held) = drain_loop-IsPast (length o.held) o h in
    (drain_loop-InOrder (length o.held) o, next, held, drain_complete o)

pub drop-next : (o : Ordered) (seq : ℕ) → (drop o seq).next ≡ o.next
unfolding drop
drop-next o seq = ground arith

skip_loop-next :
    (distance fuel : ℕ) (o : Ordered) (floor : ℕ)
    → o.next < 2 ^ 32
    → floor < 2 ^ 32
    → (floor + 2 ^ 32 - o.next) % 2 ^ 32 ≡ distance
    → distance ≤ 2 ^ 31
    → distance ≤ fuel
    → (skip_loop fuel o floor).0.next ≡ floor
unfolding skip_loop before
skip_loop-next zero zero o floor ho hf e le more = omega arith
skip_loop-next zero (suc fuel) o floor ho hf e le more = ground arith
skip_loop-next (suc distance) zero o floor ho hf e le more = absurd (omega arith)
skip_loop-next (suc distance) (suc fuel) o floor ho hf e le more = ground (
  arith,
  take_held-next o,
  drop-next (take_held o) o.next,
  skip_loop-next distance fuel (advance (drop (take_held o) o.next)) floor,
)

-- The loop of skipTo stops at the floor by its own test: for uint32 numbers, a floor that comes
-- after the next message is where it ends with any number of turns that is enough for the sequence
-- numbers from the one to the other, however many more turns it may take.
pub skip_loop_reaches :
    (fuel : ℕ) (o : Ordered) (floor : ℕ)
    → o.next < 2 ^ 32
    → floor < 2 ^ 32
    → before o.next floor ≡ true
    → (floor + 2 ^ 32 - o.next) % 2 ^ 32 ≤ fuel
    → (skip_loop fuel o floor).0.next ≡ floor
unfolding before
skip_loop_reaches fuel o floor ho hf h more =
    skip_loop-next ((floor + 2 ^ 32 - o.next) % 2 ^ 32) fuel o floor ho hf refl ground arith more
