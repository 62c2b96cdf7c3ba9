-- ===== src/Relaywin/Steps/Sound.antt =====
-- What holds of one window, and that what each operation does to it keeps that.
use olcrtc.Prelude.{ℕ, ◌+◌, ◌%◌, ◌^◌, ◌≤◌, ◌<◌, ◌≡◌, true, false, ◌||◌, Option, arith, ltb, leb}
use olcrtc.Relaywin.Types.{Float64, Timing, LegMeasure, State, Windows}
use olcrtc.Relaywin.Ops.{room_in, resize, fresh_state, sent_in, measure_if}

-- Under the counters of all the windows: `window` is the cap on sizes, `count` the bytes counted,
-- `epochs` the last epoch given. `low` is a count that its echo is past or at, and `since` an epoch
-- that its epoch is past.
pub record IsSound {F : Type 0} (window count epochs low since : ℕ) (st : State F) : Type 0 where
  pub echoed_sent : st.echoed ≤ st.sent
  pub marked_sent : st.marked ≤ st.sent
  pub sent_counted : st.sent ≤ count
  pub epoch_given : st.epoch ≤ epochs
  pub size_capped : st.size ≤ window
  pub low_echoed : low ≤ st.echoed
  pub since_epoch : since < st.epoch

module _ {F : Type 0} (low since : ℕ) where
  pub room_in-IsSound :
      (t : Timing) (st : State F) (now count epochs : ℕ)
      → IsSound t.window count epochs low since st
      → IsSound t.window count epochs low since (room_in t st now).0
  unfolding room_in
  room_in-IsSound t st now count epochs v = ground arith

  pub sent_in-IsSound :
      (t : Timing) (fl : Float64 F) (st : State F) (n now count epochs : ℕ)
      → count + n < 2 ^ 64
      → IsSound t.window count epochs low since st
      → IsSound t.window ((count + n) % 2 ^ 64) epochs low since (sent_in fl t st n now).0
  unfolding sent_in
  sent_in-IsSound t fl st n now count epochs fits v = ground arith

  pub measure_if-IsSound :
      (t : Timing) (fl : Float64 F) (st : State F) (leg : Option (LegMeasure F))
      (counter now count epochs : ℕ)
      → IsSound t.window count epochs low since st
      → IsSound t.window count epochs low since (measure_if fl t st leg counter now)
  unfolding measure_if resize
  measure_if-IsSound t fl st leg counter now count epochs v = ground arith

  pub fresh_state-IsSound :
      (fl : Float64 F) (w : Windows F)
      → w.epochs + 1 < 2 ^ 64
      → low ≤ w.count
      → since ≤ w.epochs
      → IsSound w.timing.window w.count ((w.epochs + 1) % 2 ^ 64) low since (fresh_state fl w)
  unfolding fresh_state resize
  fresh_state-IsSound fl w fits hl hs = ground arith

  pub moved-IsSound :
      (window count epochs : ℕ) (st : State F) (counter : ℕ)
      → leb counter st.echoed || ltb st.sent counter ≡ false
      → IsSound window count epochs low since st
      → IsSound window count epochs low since
          (record st { active = true; echoed = counter; held_since = 0 })
  moved-IsSound window count epochs st counter moves v = ground arith

  -- The counters may go up.
  pub IsSound-mono :
      (window count epochs c e : ℕ) (st : State F)
      → count ≤ c
      → epochs ≤ e
      → IsSound window count epochs low since st
      → IsSound window c e low since st
  IsSound-mono window count epochs c e st hc he v = ground arith
