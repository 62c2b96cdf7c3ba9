-- ===== src/Tests/Sender.antt =====
-- The theorems on Send at concrete inputs.
use olcrtc.Prelude.{ℕ, ◌≡◌, refl, false, List, [], ◌∷◌, none, length}
use olcrtc.Prelude.Maps.{nat_eq, lookup, insert}
use olcrtc.Transport.Fragment.{fragment_payload, chunks}
use olcrtc.Transport.Ack.{new_tracker, register, mark, unacked}
use olcrtc.Transport.Sender.{SenderConfig, Resolved, Attempt, resolve_all, send}
use olcrtc.Transport.Sender.Settled.{IsSettled, send-IsSettled}
use olcrtc.Transport.Sender.Acknowledged.{AllIn, send_acknowledged}

abbrev checksum : List ℕ → ℕ
checksum xs = 5

abbrev config : SenderConfig
config = record { role = 1; binding = 9; fragment_size = 2; max_attempts = 2 }

abbrev bytes : List ℕ
bytes = 1 ∷ 2 ∷ 3 ∷ []

abbrev resolved_of : ℕ → Resolved
resolved_of idx = record { seq = 7; crc = 5; frag_idx = idx }

-- Both fragments are acknowledged, the second first and again, the first as the timer fires.
abbrev attempt : Attempt
attempt = record {
  closed_in_queue = none;
  resolved = resolved_of 1 ∷ resolved_of 1 ∷ [];
  closed_in_wait = false;
  in_select = resolved_of 0 ∷ [];
  late = [];
}

all_done : AllIn (register new_tracker 7 5 (length (fragment_payload bytes 2))).1 0 attempt
unfolding register mark resolve_all fragment_payload chunks lookup insert unacked
all_done = refl

send_acknowledged_example : (send checksum config new_tracker 7 bytes (attempt ∷ [])).0 ≡ none
send_acknowledged_example =
    send_acknowledged checksum config new_tracker 7 1 bytes attempt [] refl refl refl all_done

send-IsSettled_example :
    IsSettled 0
      (length (fragment_payload bytes 2))
      (send checksum config new_tracker 7 bytes (attempt ∷ [])).1
send-IsSettled_example =
    send-IsSettled checksum config new_tracker 7 bytes (attempt ∷ []) tt
      (send_acknowledged checksum config new_tracker 7 1 bytes attempt [] refl refl refl all_done)
