-- ===== src/Sniff/Fuel.antt =====
-- The loops over extensions and names end on their own: internal/sniff/sniff.go. A turn that goes on has
-- read some bytes, so a loop with more steps than bytes gives what it gives with any more of them.
use olcrtc.Prelude.{
  ℕ, zero, suc, ◌+◌, ◌≤◌, ◌<◌, ◌≡◌, refl, ap, inl, inr, true, false, Bool-cases, ◌||◌, List, length,
  length-drop, arith, ltb,
}
use olcrtc.Sniff.{
  Text, Cursor, take_bytes, take_u8, take_u16, take_field16, name_turn, name_loop, extension_turn,
  extension_loop,
}

-- A read that is not short leaves what is behind it.
take_bytes_left :
    (c : Cursor) (n : ℕ)
    → (take_bytes c n).1.bad ≡ false
    → (c.bad ≡ false) × (length (take_bytes c n).1.left + n ≡ length c.left)
take_bytes_left c n h = elim (Bool-cases (c.bad || ltb (length c.left) n)) [
  | inl short ↦ ground (arith, rw short at h)
  | inr fits ↦
      let good : c.bad ≡ false = ground (arith, fits) in
      let le : n ≤ length c.left = ground (arith, fits) in
      rw fits (good, omega (arith, length-drop n c.left, le))
]

-- A field of 16 bits of length and a type before it take bytes.
field_left :
    (c : Cursor) (n : ℕ)
    → 1 ≤ n
    → (take_field16 (take_bytes c n).1).1.bad ≡ false
    → length (take_field16 (take_bytes c n).1).1.left < length c.left
field_left c n pos h =
    let c1 = (take_bytes c n).1 in
    let c2 = (take_u16 c1).1 in
    let body = take_bytes_left c2 (take_u16 c1).0 h in
    let size = take_bytes_left c1 2 body.0 in
    let kind = take_bytes_left c n size.0 in omega (arith, body.1, size.1, kind.1, pos)

module _ (text : Text) where
  name_turn_ends :
      (c : Cursor) (r s : List ℕ)
      → (take_field16 (take_u8 c).1).1.bad ≡ true
      → name_turn text c r ≡ name_turn text c s
  unfolding name_turn
  name_turn_ends c r s short = rw short refl

  -- More steps than bytes are enough for the names.
  pub name_loop_enough :
      (fuel : ℕ) (c : Cursor)
      → length c.left < fuel
      → name_loop text (suc fuel) c ≡ name_loop text fuel c
  unfolding name_loop
  name_loop_enough zero c h = ground arith
  name_loop_enough (suc fuel) c h =
      let c2 = (take_field16 (take_u8 c).1).1 in
      elim (Bool-cases c2.bad) [
        | inl short ↦ name_turn_ends c (name_loop text (suc fuel) c2) (name_loop text fuel c2) short
        | inr read ↦
            let less = field_left c 1 omega arith read in
            ap (name_turn text c) (name_loop_enough fuel c2 (omega (arith, less)))
      ]

  extension_turn_ends :
      (c : Cursor) (r s : List ℕ)
      → (take_field16 (take_u16 c).1).1.bad ≡ true
      → extension_turn text c r ≡ extension_turn text c s
  unfolding extension_turn
  extension_turn_ends c r s short = rw short refl

  -- And for the extensions.
  pub extension_loop_enough :
      (fuel : ℕ) (c : Cursor)
      → length c.left < fuel
      → extension_loop text (suc fuel) c ≡ extension_loop text fuel c
  unfolding extension_loop
  extension_loop_enough zero c h = ground arith
  extension_loop_enough (suc fuel) c h =
      let c2 = (take_field16 (take_u16 c).1).1 in
      elim (Bool-cases c2.bad) [
        | inl short ↦
            extension_turn_ends c (extension_loop text (suc fuel) c2) (extension_loop text fuel c2)
              short
        | inr read ↦
            let less = field_left c 2 omega arith read in
            ap (extension_turn text c) (extension_loop_enough fuel c2 (omega (arith, less)))
      ]
