-- ===== src/Tests/Window.antt =====
-- The sender's window at concrete messages.
use olcrtc.Prelude.{ℕ, ◌+◌, ◌*◌, refl, inl, false, [], ◌∷◌, max, min, leb, arith}
use olcrtc.Transport.SendWindow.Types.{PaceFloat, WindowConfig, Window, WindowMsg, fresh_slot}
use olcrtc.Transport.SendWindow.{admit, ack}
use olcrtc.Transport.SendWindow.Valid.{IsValid}
use olcrtc.Transport.SendWindow.Preserve.{draws, admit-IsValid, ack-IsValid}

-- Whole numbers in the place of the floats.
instance abbrev whole_pace : PaceFloat ℕ
whole_pace = record {
  zero_float = 0;
  of_int = λ n. n;
  seconds = λ n. n;
  add_float = λ a b. a + b;
  sub_float = λ a b. a;
  mul_float = λ a b. a * b;
  max_float = λ a b. max a b;
  min_float = λ a b. min a b;
  le_float = λ a b. leb a b;
  grow_factor = 2;
  cut_factor = 1;
}

abbrev config : WindowConfig ℕ
config = record {
  role = 1;
  binding = 7;
  fragment_size = 2;
  messages = 4;
  bytes = 100;
  initial_rate = 10;
  min_rate = 1;
  max_rate = 100;
  give_up = 1000;
}

abbrev message : WindowMsg
message = record {
  seq = 6;
  crc = 0;
  payload = 10 ∷ 11 ∷ 12 ∷ [];
  frag_size = 2;
  slots = fresh_slot ∷ fresh_slot ∷ [];
  remaining = 2;
  queued = 1;
}

-- One message of two fragments in flight.
abbrev window : Window ℕ
window = record {
  cfg = config;
  seq = 6;
  id = 3;
  msgs = message ∷ [];
  bytes = 3;
  floor = 6;
  closed = false;
  failed = false;
  srtt = 0;
  rttvar = 0;
  rack = 0;
  last_ack = 0;
  send_ord = 0;
  acked_ord = 0;
  rate = 10;
  credit = 0;
  credit_at = 0;
  loss_at = 0;
  grow_at = 0;
  held = false;
}

window-IsValid : IsValid window
unfolding IsValid
window-IsValid = ((refl, refl), refl, (refl, tt), omega arith)

-- No message in flight, and the counter two further on when the next one is admitted.
abbrev idle : Window ℕ
idle = record window { msgs = []; bytes = 0; floor = 7 }

idle-IsValid : IsValid idle
unfolding IsValid
idle-IsValid = (refl, refl, tt, tt)

admit-IsValid_example : IsValid (admit (λ xs. 0) (draws 2 idle) 5 (1 ∷ 2 ∷ 3 ∷ []))
admit-IsValid_example = admit-IsValid (λ xs. 0) idle 2 5 (1 ∷ 2 ∷ 3 ∷ []) idle-IsValid (inl refl)

ack-IsValid_example : IsValid (ack window 5 6 0 1).0
ack-IsValid_example = ack-IsValid window 5 6 0 1 window-IsValid
