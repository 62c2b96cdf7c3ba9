-- ===== src/Tests/Crypto.antt =====
-- The replay window and cache at concrete records.
use olcrtc.Prelude.{◌≡◌, refl, false, List, [], ◌∷◌, arith}
use olcrtc.Prelude.Results.{is_ok}
use olcrtc.Crypto.Replay.{ReplayState, find, accept}
use olcrtc.Crypto.Replay.History.{Request, run, replay_refused}

-- A sender at counter 70 whose counters 70 and 68 were let in.
abbrev sender : ReplayState
sender = record { lane = 1 ∷ []; prefix = 2 ∷ []; highest = 70; seen = 5; skipped = 1; late = 0 }

abbrev later_records : List Request
later_records = record { lane = 1 ∷ []; prefix = 2 ∷ []; counter = 9 } ∷ []

replay_refused_example :
    let later = run (accept [] (1 ∷ []) (2 ∷ []) 5).1 later_records in
    (is_ok (accept later (1 ∷ []) (2 ∷ []) 5).0 ≡ false)
    × ((accept later (1 ∷ []) (2 ∷ []) 5).1 ≡ later)
unfolding accept find
replay_refused_example = replay_refused [] (1 ∷ []) (2 ∷ []) 5 later_records omega arith refl
