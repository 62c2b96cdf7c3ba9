-- ===== src/Transport/SendWindow/Types.antt =====
-- internal/transport/common/window.go: the configuration and the state of a sender's window.
use olcrtc.Prelude.{ℕ, ◌*◌, ◌^◌, Bool, false, List, ◌==◌, if◌then◌else◌}

-- float64 and what the pace does with it. Go's floats are not modelled; no law is assumed.
pub record PaceFloat (F : Type 0) : Type 0 where
  pub zero_float : F
  pub of_int : ℕ → F
  pub seconds : ℕ → F
  pub add_float : F → F → F
  pub sub_float : F → F → F
  pub mul_float : F → F → F
  pub max_float : F → F → F
  pub min_float : F → F → F
  pub le_float : F → F → Bool
  pub grow_factor : F
  pub cut_factor : F

abbrev pub millisecond : ℕ
millisecond = 1_000_000

abbrev pub default_window_messages : ℕ
default_window_messages = 64

abbrev pub default_window_bytes : ℕ
default_window_bytes = 512 * 2 ^ 10

abbrev pub default_initial_rate : ℕ
default_initial_rate = 256 * 2 ^ 10

abbrev pub default_min_rate : ℕ
default_min_rate = 32 * 2 ^ 10

abbrev pub default_max_rate : ℕ
default_max_rate = 2 ^ 20

abbrev pub default_give_up : ℕ
default_give_up = 30_000 * millisecond

abbrev pub grow_every : ℕ
grow_every = 250 * millisecond

abbrev pub pace_burst : ℕ
pace_burst = 40 * millisecond

abbrev pub min_rto : ℕ
min_rto = 250 * millisecond

abbrev pub max_rto : ℕ
max_rto = 4000 * millisecond

abbrev pub max_backoff : ℕ
max_backoff = 8

abbrev pub reorder_floor : ℕ
reorder_floor = 20 * millisecond

abbrev pub lost_after_acks : ℕ
lost_after_acks = 2

abbrev pub blackout : ℕ
blackout = 3000 * millisecond

pub record WindowConfig (F : Type 0) : Type 0 where
  pub role : ℕ
  pub binding : ℕ
  pub fragment_size : ℕ
  pub messages : ℕ
  pub bytes : ℕ
  pub initial_rate : F
  pub min_rate : F
  pub max_rate : F
  pub give_up : ℕ

-- A 0 stands for a value that is not positive.
unfoldable pub with_defaults : {F : Type 0} ⦃float : PaceFloat F⦄ → WindowConfig F → WindowConfig F
with_defaults ⦃float⦄ c = record c {
  fragment_size = if c.fragment_size == 0 then 900 else c.fragment_size;
  messages = if c.messages == 0 then default_window_messages else c.messages;
  bytes = if c.bytes == 0 then default_window_bytes else c.bytes;
  initial_rate =
      if float.le_float c.initial_rate float.zero_float
      then float.of_int default_initial_rate
      else c.initial_rate;
  min_rate =
      if float.le_float c.min_rate float.zero_float
      then float.of_int default_min_rate
      else c.min_rate;
  max_rate =
      if float.le_float c.max_rate float.zero_float
      then float.of_int default_max_rate
      else c.max_rate;
  give_up = if c.give_up == 0 then default_give_up else c.give_up;
}

-- What a message keeps of one fragment.
pub record Slot : Type 0 where
  pub acked : Bool
  pub lost : Bool
  pub sent_at : ℕ
  pub sent_ord : ℕ
  pub tries : ℕ

abbrev pub fresh_slot : Slot
fresh_slot = record { acked = false; lost = false; sent_at = 0; sent_ord = 0; tries = 0 }

-- `total` of the source is the length of the payload.
pub record WindowMsg : Type 0 where
  pub seq : ℕ
  pub crc : ℕ
  pub payload : List ℕ
  pub frag_size : ℕ
  pub slots : List Slot
  pub remaining : ℕ
  pub queued : ℕ

pub record Window (F : Type 0) : Type 0 where
  pub cfg : WindowConfig F
  pub seq : ℕ
  pub id : ℕ
  pub msgs : List WindowMsg
  pub bytes : ℕ
  pub floor : ℕ
  pub closed : Bool
  pub failed : Bool
  pub srtt : ℕ
  pub rttvar : ℕ
  pub rack : ℕ
  pub last_ack : ℕ
  pub send_ord : ℕ
  pub acked_ord : ℕ
  pub rate : F
  pub credit : F
  pub credit_at : ℕ
  pub loss_at : ℕ
  pub grow_at : ℕ
  pub held : Bool
