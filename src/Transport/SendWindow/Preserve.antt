-- ===== src/Transport/SendWindow/Preserve.antt =====
-- The operations of a sender's window keep it well formed, and find its messages:
-- internal/transport/common/window.go.
use olcrtc.Prelude.{
  ℕ, zero, suc, ◌+◌, ◌-◌, ◌^◌, ◌%◌, ◌/◌, ◌≤◌, ◌<◌, ◌≡◌, ◌⊎◌, refl, sym, ap, subst, ◌∙◌, inl, inr,
  true, false, List, [], ◌∷◌, ◌++◌, Option, none, some, length, get_elem?, set, replicate, max,
  arith, ◌==◌, if◌then◌else◌, Option-cases, Bool-cases,
}
use olcrtc.Transport.SendWindow.Types.{Slot, fresh_slot, WindowMsg, Window}
use olcrtc.Transport.SendWindow.Pace.{sample}
use olcrtc.Transport.SendWindow.{
  admit, draw, retired, retire, find, index_of, acked_msg, timed, ack_slot, ack_of, ack,
}
use olcrtc.Transport.SendWindow.Valid.{
  Chain, payload_total, unacked, Counted, HeadPending, IsValid, Chain-append, total-append,
  Counted-append, HeadPending-append, unacked-replicate, unacked-set, Chain-set, total-set,
  Counted-get, Counted-set, HeadPending-set, Chain-retired, total-retired, Counted-retired,
  HeadPending-retired,
}

-- The floor is the new message's number when it is the first.
admit-Chain :
    (n seq : ℕ) (msgs : List WindowMsg) (m : WindowMsg)
    → Chain n msgs seq
    → m.seq ≡ (seq + 1) % 2 ^ 32
    → Chain (if length msgs == 0 then m.seq else n) (msgs ++ (m ∷ [])) ((seq + 1) % 2 ^ 32)
admit-Chain n seq [] m h e = ground (arith, e)
admit-Chain n seq (x ∷ msgs) m h e = ground (arith, Chain-append n seq (x ∷ msgs) m h e)

length-retired : (msgs : List WindowMsg) → length (retired msgs).0 ≤ length msgs
unfolding retired
length-retired [] = omega arith
length-retired (m ∷ msgs) = ground (arith, length-retired msgs)

-- Nothing is retired from a list whose length stays.
retired_none :
    (msgs : List WindowMsg) → length (retired msgs).0 ≡ length msgs → (retired msgs).0 ≡ msgs
unfolding retired
retired_none [] e = refl
retired_none (m ∷ msgs) e = ground (arith, length-retired msgs)

-- All of IsValid but the first message.
abbrev Linked : ℕ → List WindowMsg → ℕ → ℕ → Type 0
Linked floor msgs bytes seq = Chain floor msgs seq × (payload_total msgs ≡ bytes) × Counted msgs

abbrev Sound : ℕ → List WindowMsg → ℕ → ℕ → Type 0
Sound floor msgs bytes seq =
    Chain floor msgs seq × (payload_total msgs ≡ bytes) × Counted msgs × HeadPending msgs

module _ {F : Type 0} where
  -- The window when the counter has been drawn from a number of times by the other sender.
  unfoldable pub draws : ℕ → Window F → Window F
  unfolding draw
  draws zero w = w
  draws (suc n) w = draws n (draw w)

  -- A draw leaves the floor of the window where it was.
  draws_lem :
      (n : ℕ) (w : Window F)
      → let w' = draws n w in
        (w'.msgs ≡ w.msgs) × (w'.bytes ≡ w.bytes) × (w'.floor ≡ w.floor) × (w'.cfg ≡ w.cfg)
  unfolding draws draw
  draws_lem zero w = (refl, refl, refl, refl)
  draws_lem (suc n) w = draws_lem n (draw w)

  -- Admitting a message to a window that is well formed, or empty with any floor, leaves it well formed.
  admit-IsValid_fresh :
      (crc32 : List ℕ → ℕ) (w : Window F) (now : ℕ) (payload : List ℕ)
      → w.msgs ≡ []
      → w.bytes ≡ 0
      → IsValid (admit crc32 w now payload)
  unfolding IsValid admit
  admit-IsValid_fresh crc32 w now payload none_sent no_bytes =
      let frags = max ((length payload + w.cfg.fragment_size - 1) / w.cfg.fragment_size) 1 in
      rw none_sent
        ((refl, refl), omega (arith, no_bytes), (sym (unacked-replicate frags), tt), ground arith)

  admit-IsValid_next :
      (crc32 : List ℕ → ℕ) (w : Window F) (now : ℕ) (payload : List ℕ)
      → IsValid w
      → IsValid (admit crc32 w now payload)
  unfolding IsValid admit
  admit-IsValid_next crc32 w now payload h =
      let frags = max ((length payload + w.cfg.fragment_size - 1) / w.cfg.fragment_size) 1 in
      let seq = (w.seq + 1) % 2 ^ 32 in
      let msg : WindowMsg = record {
        seq = seq;
        crc = crc32 payload;
        payload = payload;
        frag_size = w.cfg.fragment_size;
        slots = replicate frags fresh_slot;
        remaining = frags;
        queued = now;
      } in
      let counts = sym (unacked-replicate frags) in
      (
        admit-Chain w.floor w.seq w.msgs msg h.0 refl,
        ground (arith, h.1, total-append w.msgs msg),
        Counted-append w.msgs msg h.2 counts,
        HeadPending-append w.msgs msg h.3 ground arith,
      )

  empty-bytes : (w : Window F) → w.msgs ≡ [] → IsValid w → w.bytes ≡ 0
  unfolding IsValid
  empty-bytes w none_sent h = sym h.1 ∙ ap payload_total none_sent

  -- Admitting a message keeps a window well formed, whatever the message, and also after the other
  -- sender has drawn from the shared counter, any number of times, while the window was empty, so that
  -- its floor is behind the counter.
  pub admit-IsValid :
      (crc32 : List ℕ → ℕ) (w : Window F) (n now : ℕ) (payload : List ℕ)
      → IsValid w
      → (w.msgs ≡ []) ⊎ (n ≡ 0)
      → IsValid (admit crc32 (draws n w) now payload)
  unfolding draws
  admit-IsValid crc32 w n now payload h (inl none_sent) =
      let (msgs, bytes, floor, cfg) = draws_lem n w in
      admit-IsValid_fresh crc32 (draws n w) now payload (msgs ∙ none_sent)
        (bytes ∙ empty-bytes w none_sent h)
  admit-IsValid crc32 w n now payload h (inr none_drawn) =
      subst (λ k. IsValid (admit crc32 (draws k w) now payload)) (sym none_drawn)
        (admit-IsValid_next crc32 w now payload h)

  retire-IsValid :
      (w : Window F)
      → Chain w.floor w.msgs w.seq
      → payload_total w.msgs ≡ w.bytes
      → Counted w.msgs
      → IsValid (retire w)
  unfolding IsValid retire
  retire-IsValid w chain total counted =
      let rest = (retired w.msgs).0 in
      elim (Bool-cases (length rest == length w.msgs)) [
        | inl e ↦ rw e (
          chain,
          total,
          counted,
          subst HeadPending (retired_none w.msgs ground (arith, e)) (HeadPending-retired w.msgs),
        )
        | inr e ↦ rw e (
          Chain-retired w.floor w.seq w.msgs chain,
          omega (arith, total-retired w.msgs),
          Counted-retired w.msgs counted,
          HeadPending-retired w.msgs,
        )
      ]

  timed_lem :
      (w : Window F) (now : ℕ) (slot : Slot)
      → let w' = timed w now slot in
        (w'.msgs ≡ w.msgs) × (w'.bytes ≡ w.bytes) × (w'.floor ≡ w.floor) × (w'.seq ≡ w.seq)
  unfolding timed sample
  timed_lem w now slot = ground arith

  timed-same :
      (P : ℕ → List WindowMsg → ℕ → ℕ → Type 0) (w : Window F) (now : ℕ) (slot : Slot)
      → P w.floor w.msgs w.bytes w.seq
      → let w' = timed w now slot in P w'.floor w'.msgs w'.bytes w'.seq
  timed-same P w now slot h = let e = timed_lem w now slot in rw (e.0, e.1, e.2, e.3) h

  ack_slot-IsValid :
      (w : Window F) (now at : ℕ) (msg : WindowMsg) (frag_idx : ℕ) (slot : Slot)
      → get_elem? w.msgs at ≡ some msg
      → get_elem? msg.slots frag_idx ≡ some slot
      → slot.acked ≡ false
      → IsValid w
      → IsValid (ack_slot w now at msg frag_idx slot)
  unfolding IsValid ack_slot
  ack_slot-IsValid w now at msg frag_idx slot found fresh pending h =
      let slot' : Slot = record slot { acked = true; lost = false } in
      let msg' = acked_msg msg frag_idx slot in
      let w1 : Window F = record w { last_ack = now; msgs = set w.msgs at msg' } in
      let counts : msg'.remaining ≡ unacked msg'.slots = omega (
        arith,
        Counted-get w.msgs at msg found h.2,
        unacked-set msg.slots frag_idx slot slot' fresh pending refl,
      ) in
      let chain = Chain-set w.floor w.seq w.msgs at msg msg' found refl h.0 in
      let total : payload_total (set w.msgs at msg') ≡ w.bytes =
        total-set w.msgs at msg msg' found refl ∙ h.1 in
      let counted = Counted-set w.msgs at msg' counts h.2 in
      elim (Bool-cases (msg'.remaining == 0)) [
        | inl e ↦
            let w' = timed w1 now slot in
            let linked = timed-same Linked w1 now slot (chain, total, counted) in
            rw e (retire-IsValid w' linked.0 linked.1 linked.2)
        | inr e ↦
            let first = HeadPending-set w.msgs at msg' ground (arith, e) h.3 in
            rw e (timed-same Sound w1 now slot (chain, total, counted, first))
      ]

  ack_of-IsValid :
      (w : Window F) (now at : ℕ) (msg : WindowMsg) (frag_idx : ℕ) (o : Option Slot)
      → get_elem? w.msgs at ≡ some msg
      → get_elem? msg.slots frag_idx ≡ o
      → IsValid w
      → IsValid (ack_of w now at msg frag_idx o).0
  unfolding ack_of IsValid
  ack_of-IsValid w now at msg frag_idx none found e h = h
  ack_of-IsValid w now at msg frag_idx (some slot) found e h = elim (Bool-cases slot.acked) [
    | inl acked ↦ rw acked h
    | inr pending ↦ rw pending (ack_slot-IsValid w now at msg frag_idx slot found e pending h)
  ]

  find_found :
      (w : Window F) (seq crc : ℕ) (msg : WindowMsg)
      → find w seq crc ≡ some msg
      → get_elem? w.msgs (index_of seq w.msgs) ≡ some msg
  unfolding find
  find_found w seq crc msg h = ground arith

  -- An acknowledgement keeps a window well formed, whatever fragment it names.
  pub ack-IsValid :
      (w : Window F) (now seq crc frag_idx : ℕ) → IsValid w → IsValid (ack w now seq crc frag_idx).0
  unfolding ack
  ack-IsValid w now seq crc frag_idx h = elim (Option-cases (find w seq crc)) [
    | inl e ↦ rw e h
    | inr (msg, e) ↦
        let at = index_of seq w.msgs in
        let slot = get_elem? msg.slots frag_idx in
        rw e (ack_of-IsValid w now at msg frag_idx slot (find_found w seq crc msg e) refl h)
  ]

-- The message `i` places after the first carries the number `i` after the first's.
Chain-get :
    (n seq : ℕ) (msgs : List WindowMsg) (i : ℕ) (m : WindowMsg)
    → n < 2 ^ 32
    → Chain n msgs seq
    → get_elem? msgs i ≡ some m
    → m.seq ≡ (n + i) % 2 ^ 32
Chain-get n seq [] i m lt h e = ground arith
Chain-get n seq (x ∷ msgs) zero m lt h e = ground (arith, h.0)
Chain-get n seq (x ∷ msgs) (suc i) m lt h e =
    let below = Chain-get ((n + 1) % 2 ^ 32) seq msgs i m ground arith h.1 e in omega (arith, below)

get_elem?_bound :
    {A : Type 0} (xs : List A) (i : ℕ) (x : A) → get_elem? xs i ≡ some x → i < length xs
get_elem?_bound [] i x e = ground arith
get_elem?_bound (y ∷ xs) zero x e = ground arith
get_elem?_bound (y ∷ xs) (suc i) x e = ground (arith, get_elem?_bound xs i x e)

index-hit :
    (n seq : ℕ) (msgs : List WindowMsg) (i : ℕ) (m : WindowMsg)
    → n < 2 ^ 32
    → length msgs ≤ 2 ^ 32
    → Chain n msgs seq
    → get_elem? msgs i ≡ some m
    → index_of m.seq msgs ≡ i
index-hit n seq [] i m lt small h e = ground arith
index-hit n seq (x ∷ msgs) i m lt small h e =
    omega
      (arith, h.0, small, Chain-get n seq (x ∷ msgs) i m lt h e, get_elem?_bound (x ∷ msgs) i m e)

module _ {F : Type 0} where
  -- A window of at most 2 ^ 32 messages finds each of its messages by its number and checksum.
  pub find_hit :
      (w : Window F) (i : ℕ) (m : WindowMsg)
      → IsValid w
      → w.floor < 2 ^ 32
      → length w.msgs ≤ 2 ^ 32
      → get_elem? w.msgs i ≡ some m
      → find w m.seq m.crc ≡ some m
  unfolding IsValid find
  find_hit w i m h lt small e =
      let at = index-hit w.floor w.seq w.msgs i m lt small h.0 e in rw (at, e) ground arith
