-- ===== src/Transport/SendWindow/Valid.antt =====
-- The window stays well formed: internal/transport/common/window.go.
use olcrtc.Prelude.{
  ℕ, zero, suc, ◌+◌, ◌^◌, ◌%◌, ◌<◌, ◌≡◌, refl, sym, subst, inl, inr, true, false, List, [], ◌∷◌,
  ◌++◌, some, length, get_elem?, set, replicate, arith, ◌==◌, if◌then◌else◌, Bool-cases,
}
use olcrtc.Transport.SendWindow.Types.{Slot, fresh_slot, WindowMsg, Window}
use olcrtc.Transport.SendWindow.{retired, floor_of}

-- The messages carry the sequence numbers from `n` up to that of the counter, without a gap.
abbrev pub Chain : ℕ → List WindowMsg → ℕ → Type 0
Chain n [] seq = n ≡ (seq + 1) % 2 ^ 32
Chain n (m ∷ msgs) seq = (m.seq ≡ n) × Chain ((n + 1) % 2 ^ 32) msgs seq

abbrev pub payload_total : List WindowMsg → ℕ
payload_total [] = 0
payload_total (m ∷ msgs) = length m.payload + payload_total msgs

abbrev pub unacked : List Slot → ℕ
unacked [] = 0
unacked (s ∷ slots) = (if s.acked then 0 else 1) + unacked slots

abbrev pub Counted : List WindowMsg → Type 0
Counted [] = Unit
Counted (m ∷ msgs) = (m.remaining ≡ unacked m.slots) × Counted msgs

abbrev pub HeadPending : List WindowMsg → Type 0
HeadPending [] = Unit
HeadPending (m ∷ msgs) = 0 < m.remaining

-- The messages are numbered without a gap from the floor to the counter, `bytes` is what they hold,
-- each counts the fragments not acknowledged, and the first still waits for one.
unfoldable pub IsValid : {F : Type 0} → Window F → Type 0
IsValid w =
    Chain w.floor w.msgs w.seq
    × (payload_total w.msgs ≡ w.bytes)
    × Counted w.msgs
    × HeadPending w.msgs

pub Chain-append :
    (n seq : ℕ) (msgs : List WindowMsg) (m : WindowMsg)
    → Chain n msgs seq
    → m.seq ≡ (seq + 1) % 2 ^ 32
    → Chain n (msgs ++ (m ∷ [])) ((seq + 1) % 2 ^ 32)
Chain-append n seq [] m h e = ground arith
Chain-append n seq (x ∷ msgs) m h e =
    let below = Chain-append ((n + 1) % 2 ^ 32) seq msgs m h.1 e in ground (arith, h.0, below)

pub total-append :
    (msgs : List WindowMsg) (m : WindowMsg)
    → payload_total (msgs ++ (m ∷ [])) ≡ payload_total msgs + length m.payload
total-append [] m = omega arith
total-append (x ∷ msgs) m = omega (arith, total-append msgs m)

pub Counted-append :
    (msgs : List WindowMsg) (m : WindowMsg)
    → Counted msgs
    → m.remaining ≡ unacked m.slots
    → Counted (msgs ++ (m ∷ []))
Counted-append [] m h e = (e, tt)
Counted-append (x ∷ msgs) m h e = (h.0, Counted-append msgs m h.1 e)

pub HeadPending-append :
    (msgs : List WindowMsg) (m : WindowMsg)
    → HeadPending msgs
    → 0 < m.remaining
    → HeadPending (msgs ++ (m ∷ []))
HeadPending-append [] m h e = e
HeadPending-append (x ∷ msgs) m h e = h

pub unacked-replicate : (n : ℕ) → unacked (replicate n fresh_slot) ≡ n
unacked-replicate zero = refl
unacked-replicate (suc n) = omega (arith, unacked-replicate n)

-- One more slot acknowledged.
pub unacked-set :
    (slots : List Slot) (i : ℕ) (s s' : Slot)
    → get_elem? slots i ≡ some s
    → s.acked ≡ false
    → s'.acked ≡ true
    → suc (unacked (set slots i s')) ≡ unacked slots
unacked-set [] i s s' e h h' = ground arith
unacked-set (x ∷ slots) zero s s' e h h' = ground arith
unacked-set (x ∷ slots) (suc i) s s' e h h' = ground (arith, unacked-set slots i s s')

-- A message changed in its slots only.
pub Chain-set :
    (n seq : ℕ) (msgs : List WindowMsg) (i : ℕ) (m m' : WindowMsg)
    → get_elem? msgs i ≡ some m
    → m'.seq ≡ m.seq
    → Chain n msgs seq
    → Chain n (set msgs i m') seq
Chain-set n seq [] i m m' e same h = ground arith
Chain-set n seq (x ∷ msgs) zero m m' e same h = ground arith
Chain-set n seq (x ∷ msgs) (suc i) m m' e same h =
    (h.0, Chain-set ((n + 1) % 2 ^ 32) seq msgs i m m' e same h.1)

pub total-set :
    (msgs : List WindowMsg) (i : ℕ) (m m' : WindowMsg)
    → get_elem? msgs i ≡ some m
    → m'.payload ≡ m.payload
    → payload_total (set msgs i m') ≡ payload_total msgs
total-set [] i m m' e same = ground arith
total-set (x ∷ msgs) zero m m' e same = ground arith
total-set (x ∷ msgs) (suc i) m m' e same = ground (arith, total-set msgs i m m')

pub Counted-get :
    (msgs : List WindowMsg) (i : ℕ) (m : WindowMsg)
    → get_elem? msgs i ≡ some m
    → Counted msgs
    → m.remaining ≡ unacked m.slots
Counted-get [] i m e h = ground arith
Counted-get (x ∷ msgs) zero m e h = ground arith
Counted-get (x ∷ msgs) (suc i) m e h = Counted-get msgs i m e h.1

pub Counted-set :
    (msgs : List WindowMsg) (i : ℕ) (m' : WindowMsg)
    → m'.remaining ≡ unacked m'.slots
    → Counted msgs
    → Counted (set msgs i m')
Counted-set [] i m' e h = tt
Counted-set (x ∷ msgs) zero m' e h = (e, h.1)
Counted-set (x ∷ msgs) (suc i) m' e h = (h.0, Counted-set msgs i m' e h.1)

pub HeadPending-set :
    (msgs : List WindowMsg) (i : ℕ) (m' : WindowMsg)
    → 0 < m'.remaining
    → HeadPending msgs
    → HeadPending (set msgs i m')
HeadPending-set [] i m' e h = tt
HeadPending-set (x ∷ msgs) zero m' e h = e
HeadPending-set (x ∷ msgs) (suc i) m' e h = h

pub Chain-retired :
    (n seq : ℕ) (msgs : List WindowMsg)
    → Chain n msgs seq
    → Chain (floor_of seq (retired msgs).0) (retired msgs).0 seq
unfolding retired
Chain-retired n seq [] h = refl
Chain-retired n seq (m ∷ msgs) h = elim (Bool-cases (m.remaining == 0)) [
  | inl e ↦ rw e (Chain-retired ((n + 1) % 2 ^ 32) seq msgs h.1)
  | inr e ↦ rw e (refl, subst (λ k. Chain ((k + 1) % 2 ^ 32) msgs seq) (sym h.0) h.1)
]

pub total-retired :
    (msgs : List WindowMsg) → payload_total (retired msgs).0 + (retired msgs).1 ≡ payload_total msgs
unfolding retired
total-retired [] = refl
total-retired (m ∷ msgs) = ground (arith, total-retired msgs)

pub Counted-retired : (msgs : List WindowMsg) → Counted msgs → Counted (retired msgs).0
unfolding retired
Counted-retired [] h = tt
Counted-retired (m ∷ msgs) h = ground (arith, Counted-retired msgs)

pub HeadPending-retired : (msgs : List WindowMsg) → HeadPending (retired msgs).0
unfolding retired
HeadPending-retired [] = tt
HeadPending-retired (m ∷ msgs) = ground (arith, HeadPending-retired msgs)
