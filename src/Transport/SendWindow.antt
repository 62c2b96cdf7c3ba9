-- ===== src/Transport/SendWindow.antt =====
-- internal/transport/common/window.go: the sending half of an ordered stream.
-- The five arrays of a message, all of one length, are one list of slots. A time is a number of
-- nanoseconds since time.Time{}, so 0 is the zero time; a duration is a number of nanoseconds, and a
-- difference that would be negative is 0, which each test of the source answers as the negative one.
-- The clock is the argument `now`. The sequence counter is the field `seq`; the sender of one message at a
-- time draws from it too (`draw`), so that it may move between two operations of the window. The lock
-- makes each operation one step, and the wakes of those that wait in Send are left out.
pub mod Types
pub mod Pace
pub mod Emit
pub mod Valid
pub mod Preserve
use olcrtc.Prelude.{
  ℕ, zero, suc, ◌+◌, ◌-◌, ◌*◌, ◌/◌, ◌%◌, ◌^◌, Bool, true, false, ◌&&◌, ◌||◌, not, List, [], ◌∷◌,
  ◌++◌, Option, none, some, length, get_elem?, set, replicate, max, min, ltb, leb, ◌==◌,
  if◌then◌else◌,
}
use olcrtc.Transport.SendWindow.Types.{
  Slot, fresh_slot, WindowMsg, WindowConfig, Window, PaceFloat, with_defaults,
}
use olcrtc.Transport.SendWindow.Pace.{sample}

-- What one turn of Send answers: an error, the message taken, or nothing yet.
pub data SendStep : Type 0 where
  window_closed ack_timeout wait sent : SendStep

abbrev pub index_of : ℕ → List WindowMsg → ℕ
index_of seq [] = 0
index_of seq (m ∷ msgs) = (seq + 2 ^ 32 - m.seq) % 2 ^ 32

abbrev pub with_crc : ℕ → Option WindowMsg → Option WindowMsg
with_crc crc none = none
with_crc crc (some msg) = if msg.crc == crc then some msg else none

-- The messages from the first that is not acknowledged on, and the bytes of those before it.
unfoldable pub retired : List WindowMsg → List WindowMsg × ℕ
retired [] = ([], 0)
retired (m ∷ msgs) =
    let (rest, bytes) = retired msgs in
    if m.remaining == 0 then (rest, length m.payload + bytes) else (m ∷ msgs, 0)

abbrev pub floor_of : ℕ → List WindowMsg → ℕ
floor_of seq [] = (seq + 1) % 2 ^ 32
floor_of seq (m ∷ msgs) = m.seq

abbrev pub acked_msg : WindowMsg → ℕ → Slot → WindowMsg
acked_msg msg frag_idx slot = record msg {
  slots = set msg.slots frag_idx (record slot { acked = true; lost = false });
  remaining = msg.remaining - 1;
}

module _ {F : Type 0} where
  -- The room that Send waits for.
  unfoldable pub has_room : Window F → Bool
  has_room w = ltb (length w.msgs) w.cfg.messages && (ltb w.bytes w.cfg.bytes || length w.msgs == 0)

  unfoldable pub admit : (List ℕ → ℕ) → Window F → ℕ → List ℕ → Window F
  admit crc32 w now payload =
      let frags = max ((length payload + w.cfg.fragment_size - 1) / w.cfg.fragment_size) 1 in
      let seq = (w.seq + 1) % 2 ^ 32 in
      let msg : WindowMsg = record {
        seq = seq;
        crc = crc32 payload;
        payload = payload;
        frag_size = w.cfg.fragment_size;
        slots = replicate frags fresh_slot;
        remaining = frags;
        queued = now;
      } in
      record w {
        seq = seq;
        floor = if length w.msgs == 0 then seq else w.floor;
        msgs = w.msgs ++ (msg ∷ []);
        bytes = w.bytes + length payload;
      }

  -- The counter is atomic and shared: what a Sender that holds it too does to it in Send.
  unfoldable pub draw : Window F → Window F
  draw w = record w { seq = (w.seq + 1) % 2 ^ 32 }

  unfoldable pub send_step : (List ℕ → ℕ) → Window F → ℕ → List ℕ → Window F × SendStep
  unfolding has_room
  send_step crc32 w now payload =
      if w.closed
      then (w, window_closed)
      else if w.failed
      then (w, ack_timeout)
      else if has_room w
      then (admit crc32 w now payload, sent)
      else (w, wait)

  unfoldable pub find : Window F → ℕ → ℕ → Option WindowMsg
  find w seq crc = with_crc crc (get_elem? w.msgs (index_of seq w.msgs))

  unfoldable pub retire : Window F → Window F
  unfolding retired
  retire w =
      let (rest, bytes) = retired w.msgs in
      if length rest == length w.msgs
      then w
      else record w { msgs = rest; bytes = w.bytes - bytes; floor = floor_of w.seq rest }

  -- What Ack learns from the times of a fragment.
  unfoldable pub timed : Window F → ℕ → Slot → Window F
  unfolding sample
  timed w now slot =
      let w' = if slot.tries == 1 then sample w (now - slot.sent_at) else w in
      record w' { rack = max w'.rack slot.sent_at; acked_ord = max w'.acked_ord slot.sent_ord }

  -- Ack from the fragment that is acknowledged for the first time on.
  unfoldable pub ack_slot : Window F → ℕ → ℕ → WindowMsg → ℕ → Slot → Window F
  unfolding retire timed
  ack_slot w now at msg frag_idx slot =
      let msg' = acked_msg msg frag_idx slot in
      let w' = timed (record w { last_ack = now; msgs = set w.msgs at msg' }) now slot in
      if msg'.remaining == 0 then retire w' else w'

  unfoldable pub ack_of : Window F → ℕ → ℕ → WindowMsg → ℕ → Option Slot → Window F × Bool
  unfolding ack_slot
  ack_of w now at msg frag_idx none = (w, false)
  ack_of w now at msg frag_idx (some slot) =
      if slot.acked
      then (record w { last_ack = now }, true)
      else (ack_slot w now at msg frag_idx slot, true)

  abbrev ack_in : Window F → ℕ → ℕ → ℕ → Option WindowMsg → Window F × Bool
  ack_in w now at frag_idx none = (w, false)
  ack_in w now at frag_idx (some msg) = ack_of w now at msg frag_idx (get_elem? msg.slots frag_idx)

  unfoldable pub ack : Window F → ℕ → ℕ → ℕ → ℕ → Window F × Bool
  unfolding find ack_of
  ack w now seq crc frag_idx = ack_in w now (index_of seq w.msgs) frag_idx (find w seq crc)

  unfoldable pub close : Window F → Window F
  close w = record w { closed = true }

  module _ ⦃float : PaceFloat F⦄ where
    -- `seq` is what the counter holds, `id` what the generator of stream ids answers.
    unfoldable pub new_window : WindowConfig F → ℕ → ℕ → Window F
    unfolding with_defaults
    new_window given seq id =
        let cfg = with_defaults given in
        record {
          cfg = cfg;
          seq = seq;
          id = if id == 0 then 1 else id;
          msgs = [];
          bytes = 0;
          floor = (seq + 1) % 2 ^ 32;
          closed = false;
          failed = false;
          srtt = 0;
          rttvar = 0;
          rack = 0;
          last_ack = 0;
          send_ord = 0;
          acked_ord = 0;
          rate = cfg.initial_rate;
          credit = float.zero_float;
          credit_at = 0;
          loss_at = 0;
          grow_at = 0;
          held = false;
        }

    -- `id` is what the generator of stream ids answers.
    unfoldable pub reset : Window F → ℕ → Window F
    reset w id = record w {
      msgs = [];
      bytes = 0;
      id = if id == 0 then 1 else id;
      floor = (w.seq + 1) % 2 ^ 32;
      failed = false;
      srtt = 0;
      rttvar = 0;
      rack = 0;
      last_ack = 0;
      send_ord = 0;
      acked_ord = 0;
      rate = w.cfg.initial_rate;
      credit = float.zero_float;
      credit_at = 0;
      loss_at = 0;
      grow_at = 0;
      held = false;
    }
