-- ===== src/Relaywin/Steps/Valid.antt =====
-- The invariant of all open windows, and that every call keeps it.
use Prim.Native.String.{String}
use olcrtc.Prelude.{
  ℕ, ◌+◌, ◌%◌, ◌^◌, ◌≤◌, ◌<◌, ◌≡◌, refl, inl, inr, true, List, Option, none, some, arith,
  Bool-cases, ltb, leb, ◌||◌,
}
use olcrtc.Prelude.Maps.{
  lookup, insert, string_eq, lookup-insert, lookup-erase, lookup-nil, beq_refl,
}
use olcrtc.Relaywin.Types.{Float64, State, Windows}
use olcrtc.Relaywin.Ops.{
  room_in, room_of, room, fresh_state, open_of, open_window, sent_in, sent, measure_if,
  wake_senders, apply_echo_of, apply_echo_at, arm, epoch_of, wake_of, reset_of, reset, reset_all,
  bump_of, bump,
}
use olcrtc.Relaywin.Steps.{
  Op, call_room, call_sent, call_echo, call_arm, call_reset, call_bump, call_epoch, call_wake,
  call_reset_all, step, NoWrap,
}
use olcrtc.Relaywin.Steps.Sound.{
  IsSound, room_in-IsSound, sent_in-IsSound, measure_if-IsSound, fresh_state-IsSound, moved-IsSound,
  IsSound-mono,
}

-- What `open` returns is the window in the map.
module _ {F : Type 0} (fl : Float64 F) (w : Windows F) (key : String) where
  open_of-lookup :
      (o : Option (State F))
      → lookup key w.windows ≡ o
      → lookup key (open_of fl w key o).0.windows ≡ some (open_of fl w key o).1
  unfolding open_of
  open_of-lookup none e =
      ground (arith, lookup-insert key key (fresh_state fl w) w.windows, beq_refl key)
  open_of-lookup (some st) e = e

  pub open_window-lookup :
      lookup key (open_window fl w key).0.windows ≡ some (open_window fl w key).1
  unfolding open_window
  open_window-lookup = open_of-lookup (lookup key w.windows) refl

  pub open_window-count : (open_window fl w key).0.count ≡ w.count
  unfolding open_window open_of
  open_window-count = ground arith

module _ {F : Type 0} (low since : String → ℕ) where
  abbrev pub AllSound : ℕ → ℕ → ℕ → List (String × State F) → Type 0
  AllSound window count epochs m =
      (key : String) (st : State F)
      → lookup key m ≡ some st
      → IsSound window count epochs (low key) (since key) st

  -- The bounds `low` and `since` hold of the windows open now, and of those opened later.
  pub record IsValid (w : Windows F) : Type 0 where
    pub low_counted : (key : String) → low key ≤ w.count
    pub since_given : (key : String) → since key ≤ w.epochs
    pub all_sound : AllSound w.timing.window w.count w.epochs w.windows

  -- A window written back, under counters that have not gone down.
  put_sound :
      (m : List (String × State F)) (key : String) (st : State F) (window count epochs c e : ℕ)
      → count ≤ c
      → epochs ≤ e
      → AllSound window count epochs m
      → IsSound window c e (low key) (since key) st
      → AllSound window c e (insert key st m)
  put_sound m key st window count epochs c e hc he old fresh k s h =
      ground (arith, lookup-insert k key st m, old k s, string_eq.beq_iff key k)

  room_of-IsValid :
      (w : Windows F) (key : String) (now : ℕ) (o : Option (State F))
      → lookup key w.windows ≡ o
      → IsValid w
      → IsValid (room_of w key now o).0
  unfolding room_of
  room_of-IsValid w key now none e v = v
  room_of-IsValid w key now (some st) e v = record {
    low_counted = v.low_counted;
    since_given = v.since_given;
    all_sound =
        put_sound w.windows key (room_in w.timing st now).0 w.timing.window w.count w.epochs w.count
          w.epochs (omega arith) (omega arith) v.all_sound
          (room_in-IsSound (low key) (since key) w.timing st now w.count w.epochs
            (v.all_sound key st e));
  }

  wake_senders-IsValid :
      (w : Windows F) (key : String) (st : State F)
      → IsSound w.timing.window w.count w.epochs (low key) (since key) st
      → IsValid w
      → IsValid (wake_senders w key st)
  unfolding wake_senders
  wake_senders-IsValid w key st fresh v = record {
    low_counted = v.low_counted;
    since_given = v.since_given;
    all_sound =
        put_sound w.windows key (record st { wake = w.chans + 1 }) w.timing.window w.count w.epochs
          w.count w.epochs (omega arith) (omega arith) v.all_sound (ground arith);
  }

  reset_of-IsValid :
      (w : Windows F) (key : String) (o : Option (State F)) → IsValid w → IsValid (reset_of w key o)
  unfolding reset_of
  reset_of-IsValid w key none v = v
  reset_of-IsValid w key (some st) v = record {
    low_counted = v.low_counted;
    since_given = v.since_given;
    all_sound = λ k s h. ground (arith, lookup-erase k key w.windows, v.all_sound k s);
  }

  reset_all-IsValid : (w : Windows F) → IsValid w → IsValid (reset_all w)
  unfolding reset_all
  reset_all-IsValid w v = record {
    low_counted = v.low_counted;
    since_given = v.since_given;
    all_sound = λ k s h. ground (arith, lookup-nil {V = State F} k);
  }

  -- The epochs of the others may be followed by a new one.
  next_epoch-IsValid :
      (w : Windows F)
      → w.epochs + 1 < 2 ^ 64
      → IsValid w
      → IsValid (record w { epochs = (w.epochs + 1) % 2 ^ 64 })
  next_epoch-IsValid w fits v = record {
    low_counted = v.low_counted;
    since_given = λ k. omega (arith, v.since_given k);
    all_sound = λ k s h.
        IsSound-mono (low k) (since k) w.timing.window w.count w.epochs w.count
          ((w.epochs + 1) % 2 ^ 64) s (omega arith) (omega arith) (v.all_sound k s h);
  }

  bumped-IsSound :
      (w : Windows F) (key : String) (st : State F)
      → w.epochs + 1 < 2 ^ 64
      → since key ≤ w.epochs
      → IsSound w.timing.window w.count w.epochs (low key) (since key) st
      → IsSound w.timing.window w.count
          ((w.epochs + 1) % 2 ^ 64)
          (low key)
          (since key)
          (record st { epoch = (w.epochs + 1) % 2 ^ 64; waiting_since = 0 })
  bumped-IsSound w key st fits given v = ground arith

  bump_of-IsValid :
      (w : Windows F) (key : String) (o : Option (State F))
      → lookup key w.windows ≡ o
      → w.epochs + 1 < 2 ^ 64
      → IsValid w
      → IsValid (bump_of w key o)
  unfolding bump_of
  bump_of-IsValid w key none e fits v = v
  bump_of-IsValid w key (some st) e fits v =
      wake_senders-IsValid (record w { epochs = (w.epochs + 1) % 2 ^ 64 }) key
        (record st { epoch = (w.epochs + 1) % 2 ^ 64; waiting_since = 0 })
        (bumped-IsSound w key st fits (v.since_given key) (v.all_sound key st e))
        (next_epoch-IsValid w fits v)

module _ {F : Type 0} (low since : String → ℕ) (fl : Float64 F) where
  apply_echo_of-IsValid :
      (w : Windows F) (key : String) (counter now : ℕ) (o : Option (State F))
      → lookup key w.windows ≡ o
      → IsValid low since w
      → IsValid low since (apply_echo_of fl w key counter now o).0
  unfolding apply_echo_of
  apply_echo_of-IsValid w key counter now none e v = v
  apply_echo_of-IsValid w key counter now (some st) e v =
      elim (Bool-cases (leb counter st.echoed || ltb st.sent counter)) [
        | inl stale ↦ rw stale v
        | inr moves ↦
            let moved : State F = record st { active = true; echoed = counter; held_since = 0 } in
            rw moves (
              wake_senders-IsValid low since w key (measure_if fl w.timing moved st.leg counter now)
                (measure_if-IsSound (low key) (since key) w.timing fl moved st.leg counter now
                  w.count w.epochs
                  (moved-IsSound (low key) (since key) w.timing.window w.count w.epochs st counter
                    moves (v.all_sound key st e)))
                v)
      ]

  open_of-IsValid :
      (w : Windows F) (key : String) (o : Option (State F))
      → w.epochs + 1 < 2 ^ 64
      → IsValid low since w
      → IsValid low since (open_of fl w key o).0
  unfolding open_of
  open_of-IsValid w key (some st) fits v = v
  open_of-IsValid w key none fits v =
      let next : IsValid low since (record w { epochs = (w.epochs + 1) % 2 ^ 64 }) =
        next_epoch-IsValid low since w fits v in
      record {
        low_counted = v.low_counted;
        since_given = next.since_given;
        all_sound =
            put_sound low since w.windows key (fresh_state fl w) w.timing.window w.count
              ((w.epochs + 1) % 2 ^ 64) w.count ((w.epochs + 1) % 2 ^ 64) (omega arith)
              (omega arith) next.all_sound
              (fresh_state-IsSound (low key) (since key) fl w fits (v.low_counted key)
                (v.since_given key));
      }

  pub open_window-IsValid :
      (w : Windows F) (key : String)
      → w.epochs + 1 < 2 ^ 64
      → IsValid low since w
      → IsValid low since (open_window fl w key).0
  unfolding open_window
  open_window-IsValid w key fits v = open_of-IsValid w key (lookup key w.windows) fits v

  sent-IsValid :
      (w : Windows F) (key : String) (n now : ℕ)
      → w.count + n < 2 ^ 64
      → w.epochs + 1 < 2 ^ 64
      → IsValid low since w
      → IsValid low since (sent fl w key n now).0
  unfolding sent
  sent-IsValid w key n now fits_n fits v =
      let (w', st) = open_window fl w key in
      let v' : IsValid low since w' = open_window-IsValid w key fits v in
      let fits' : w'.count + n < 2 ^ 64 = omega (arith, open_window-count fl w key) in
      record {
        low_counted = λ k. omega (arith, v'.low_counted k);
        since_given = v'.since_given;
        all_sound =
            put_sound low since w'.windows key (sent_in fl w'.timing st n now).0 w'.timing.window
              w'.count w'.epochs ((w'.count + n) % 2 ^ 64) w'.epochs (omega arith) (omega arith)
              v'.all_sound
              (sent_in-IsSound (low key) (since key) w'.timing fl st n now w'.count w'.epochs fits'
                (v'.all_sound key st (open_window-lookup fl w key)));
      }

  arm-IsValid :
      (w : Windows F) (key : String)
      → w.epochs + 1 < 2 ^ 64
      → IsValid low since w
      → IsValid low since (arm fl w key)
  unfolding arm
  arm-IsValid w key fits v =
      let (w', st) = open_window fl w key in
      let v' : IsValid low since w' = open_window-IsValid w key fits v in
      let s : IsSound w'.timing.window w'.count w'.epochs (low key) (since key) st =
        v'.all_sound key st (open_window-lookup fl w key) in
      let armed : State F = record st { active = true; held_since = 0 } in
      elim (Bool-cases st.active) [
        | inl on ↦ rw on v'
        | inr off ↦ rw off (record {
          low_counted = v'.low_counted;
          since_given = v'.since_given;
          all_sound =
              put_sound low since w'.windows key armed w'.timing.window w'.count w'.epochs w'.count
                w'.epochs (omega arith) (omega arith) v'.all_sound (ground arith);
        })
      ]

  -- Every call keeps the invariant of the open windows.
  pub step-IsValid :
      (w : Windows F) (op : Op)
      → NoWrap w op
      → IsValid low since w
      → IsValid low since (step fl w op)
  unfolding step room apply_echo_at reset bump epoch_of wake_of
  step-IsValid w (call_room key now) fits v =
      room_of-IsValid low since w key now (lookup key w.windows) refl v
  step-IsValid w (call_sent key n now) (fits_n, fits) v = sent-IsValid w key n now fits_n fits v
  step-IsValid w (call_echo key counter now) fits v =
      apply_echo_of-IsValid w key counter now (lookup key w.windows) refl v
  step-IsValid w (call_arm key) (_, fits) v = arm-IsValid w key fits v
  step-IsValid w (call_reset key) fits v = reset_of-IsValid low since w key (lookup key w.windows) v
  step-IsValid w (call_bump key) (_, fits) v =
      bump_of-IsValid low since w key (lookup key w.windows) refl fits v
  step-IsValid w (call_epoch key) (_, fits) v = open_window-IsValid w key fits v
  step-IsValid w (call_wake key) (_, fits) v = open_window-IsValid w key fits v
  step-IsValid w call_reset_all fits v = reset_all-IsValid low since w v
