-- ===== src/Relaywin/Steps/Restarts.antt =====
-- What a Reset, a ResetAll or a Bump leaves behind is never taken for what comes after it, whatever
-- calls follow: a late echo moves nothing, and a stale epoch is never given again.
use Prim.Native.String.{String}
use olcrtc.Prelude.{
  ℕ, ◌+◌, ◌%◌, ◌^◌, ◌≤◌, ◌<◌, ◌≡◌, ◌≢◌, refl, sym, ◌∙◌, false, List, Option, none, some, arith,
  length,
}
use olcrtc.Prelude.Maps.{lookup, string_eq, lookup-insert, lookup-erase, lookup-nil, beq_refl}
use olcrtc.Relaywin.Types.{Float64, Timing, State, Windows}
use olcrtc.Relaywin.Ops.{
  new, open_window, wake_senders, apply_echo_of, apply_echo_at, epoch_of, reset_of, reset,
  reset_all, bump_of, bump,
}
use olcrtc.Relaywin.Steps.{
  Op, call_reset, call_reset_all, call_bump, call_epoch, step, run, NoWrap, bytes_of,
}
use olcrtc.Relaywin.Steps.Valid.{IsValid, step-IsValid, open_window-IsValid, open_window-lookup}
use olcrtc.Relaywin.Steps.Traces.{
  total_bytes, only_at, run-IsValid, from_new, raise-IsValid, count-step, epochs-step,
}

-- The calls that end the session of a key: what was parked on its window is over.
pub data Restarts (key : String) : Op → Type 0 where
  by_reset : Restarts key (call_reset key)
  by_reset_all : Restarts key call_reset_all
  by_bump : Restarts key (call_bump key)

none_ne_some : {A : Type 0} (a : A) → none ≡ some a → ⊥
none_ne_some a h = cc

only_at_self : (key : String) (n : ℕ) → only_at key n key ≡ n
only_at_self key n = ground (arith, beq_refl key)

restart_bytes : (key : String) (op : Op) → Restarts key op → bytes_of op ≡ 0
restart_bytes key _ by_reset = refl
restart_bytes key _ by_reset_all = refl
restart_bytes key _ by_bump = refl

restart_fits :
    {F : Type 0} (w : Windows F) (key : String) (op : Op)
    → Restarts key op
    → w.count < 2 ^ 64
    → w.epochs + 1 < 2 ^ 64
    → NoWrap w op
restart_fits w key op r hc he = (omega (arith, restart_bytes key op r), he)

module _ {F : Type 0} (fl : Float64 F) where
  bump_above :
      (w : Windows F) (key : String) (o : Option (State F))
      → lookup key w.windows ≡ o
      → w.epochs + 1 < 2 ^ 64
      → (st : State F) → lookup key (bump_of w key o).windows ≡ some st
      → w.epochs < st.epoch
  unfolding bump_of wake_senders
  bump_above w key none e fits st h = absurd (none_ne_some st (sym e ∙ h))
  bump_above w key (some old) e fits st h =
      let epoch = (w.epochs + 1) % 2 ^ 64 in
      let bumped : State F = record old { epoch = epoch; waiting_since = 0; wake = w.chans + 1 } in
      ground (arith, lookup-insert key key bumped w.windows, beq_refl key)

  reset_of-lookup :
      (w : Windows F) (key : String) (o : Option (State F))
      → lookup key w.windows ≡ o
      → lookup key (reset_of w key o).windows ≡ none
  unfolding reset_of
  reset_of-lookup w key none e = e
  reset_of-lookup w key (some st) e = ground (arith, lookup-erase key key w.windows, beq_refl key)

  reset-lookup : (w : Windows F) (key : String) → lookup key (reset w key).windows ≡ none
  unfolding reset
  reset-lookup w key = reset_of-lookup w key (lookup key w.windows) refl

  stale_echo :
      (w : Windows F) (key : String) (low counter now : ℕ) (o : Option (State F))
      → ((st : State F) → o ≡ some st → low ≤ st.echoed)
      → counter ≤ low
      → apply_echo_of fl w key counter now o ≡ (w, false, false)
  unfolding apply_echo_of
  stale_echo w key low counter now none h hc = refl
  stale_echo w key low counter now (some st) h hc = ground (arith, h st refl)

  count_reset :
      (w : Windows F) (key : String)
      → ((reset w key).count ≡ w.count) × ((reset w key).epochs ≡ w.epochs)
  unfolding reset reset_of
  count_reset w key = ground arith

  reset-IsValid :
      (w : Windows F) (key : String)
      → NoWrap w (call_reset key)
      → IsValid (λ k. 0) (λ k. 0) w
      → IsValid (λ k. 0) (λ k. 0) (reset w key)
  unfolding step
  reset-IsValid w key fits v = step-IsValid (λ k. 0) (λ k. 0) fl w (call_reset key) fits v

  -- After any calls from New on, a Reset of a key and any calls after it, an echo of a count made
  -- before the Reset moves nothing: the windows stay as they are. The 64-bit counts do not wrap.
  pub late_echo :
      (t : Timing) (before after : List Op) (key : String) (counter now : ℕ)
      → total_bytes before + total_bytes after < 2 ^ 64
      → length before + length after + 1 < 2 ^ 64
      → counter ≤ (run fl (new fl t) before).count
      → let later = run fl (reset (run fl (new fl t) before) key) after in
        apply_echo_at fl later key counter now ≡ (later, false, false)
  unfolding apply_echo_at
  late_echo t before after key counter now fits_n fits hc =
      let w = run fl (new fl t) before in
      let (v, c, e) = from_new fl t before (omega arith) (omega arith) in
      let fits_reset : NoWrap w (call_reset key) = (omega arith, omega arith) in
      let kept = count_reset w key in
      let v_reset = reset-IsValid w key fits_reset v in
      let raised =
        raise-IsValid fl (reset w key) key w.count 0 (omega arith) (omega arith)
          (λ st e. absurd (none_ne_some st (sym (reset-lookup w key) ∙ e))) v_reset in
      let (v_later, _, _, _) =
        run-IsValid fl (only_at key w.count) (only_at key 0) (reset w key) after (omega arith)
          (omega arith) raised in
      let later = run fl (reset w key) after in
      stale_echo later key w.count counter now (lookup key later.windows)
        (λ st e. omega (arith, only_at_self key w.count, (v_later.all_sound key st e).low_echoed))
        hc

  open-IsValid :
      (w : Windows F) (key : String)
      → NoWrap w (call_epoch key)
      → IsValid (λ k. 0) (λ k. 0) w
      → IsValid (λ k. 0) (λ k. 0) (epoch_of fl w key).0
  unfolding step
  open-IsValid w key fits v = step-IsValid (λ k. 0) (λ k. 0) fl w (call_epoch key) fits v

  open_counts :
      (w : Windows F) (key : String)
      → NoWrap w (call_epoch key)
      → ((epoch_of fl w key).0.count ≡ w.count) × ((epoch_of fl w key).0.epochs ≤ w.epochs + 1)
  unfolding step
  open_counts w key fits = (
    omega (arith, count-step fl w (call_epoch key) fits),
    omega (arith, epochs-step fl w (call_epoch key) fits),
  )

  restart_above :
      (w : Windows F) (key : String) (op : Op)
      → Restarts key op
      → NoWrap w op
      → (st : State F) → lookup key (step fl w op).windows ≡ some st
      → w.epochs < st.epoch
  unfolding step reset_all bump
  restart_above w key _ by_reset fits st h = absurd (none_ne_some st (sym (reset-lookup w key) ∙ h))
  restart_above w key _ by_reset_all fits st h =
      absurd (none_ne_some st (sym (lookup-nil {V = State F} key) ∙ h))
  restart_above w key _ by_bump fits st h = bump_above w key (lookup key w.windows) refl fits.1 st h

  taken_below :
      (start later : Windows F) (key : String) (bound : ℕ)
      → (open_window fl start key).1.epoch ≤ bound
      → bound < (open_window fl later key).1.epoch
      → (epoch_of fl later key).1 ≢ (epoch_of fl start key).1
  unfolding epoch_of
  taken_below start later key bound h k = omega arith

  -- A sender that took its window's epoch, and wakes after a Reset or a Bump of the window or a
  -- ResetAll, with any calls after that, finds another epoch. The 64-bit counts do not wrap.
  pub stale_epoch :
      (t : Timing) (before after : List Op) (key : String) (op : Op)
      → Restarts key op
      → total_bytes before + total_bytes after < 2 ^ 64
      → length before + length after + 3 < 2 ^ 64
      → let (w, taken) = epoch_of fl (run fl (new fl t) before) key in
        (epoch_of fl (run fl (step fl w op) after) key).1 ≢ taken
  unfolding epoch_of open_window
  stale_epoch t before after key op restart fits_n fits =
      let start = run fl (new fl t) before in
      let (v, c, e) = from_new fl t before (omega arith) (omega arith) in
      let w = (epoch_of fl start key).0 in
      let st = (open_window fl start key).1 in
      let open_fits : NoWrap start (call_epoch key) = (omega arith, omega arith) in
      let v_open = open-IsValid start key open_fits v in
      let (c_open, e_open) = open_counts start key open_fits in
      let op_fits : NoWrap w op = restart_fits w key op restart (omega arith) (omega arith) in
      let v_op = step-IsValid (λ k. 0) (λ k. 0) fl w op op_fits v_open in
      let c_op = count-step fl w op op_fits in
      let e_op = epochs-step fl w op op_fits in
      let raised =
        raise-IsValid fl (step fl w op) key 0 w.epochs (omega arith) (omega arith)
          (λ s h. (omega arith, restart_above w key op restart op_fits s h)) v_op in
      let (v_later, _, _, e_later) =
        run-IsValid fl (only_at key 0) (only_at key w.epochs) (step fl w op) after
          (omega (arith, restart_bytes key op restart)) (omega arith) raised in
      let later = run fl (step fl w op) after in
      let v_end =
        open_window-IsValid (only_at key 0) (only_at key w.epochs) fl later key (omega arith)
          v_later in
      taken_below start later key w.epochs
        (v_open.all_sound key st (open_window-lookup fl start key)).epoch_given
        (omega (
          arith,
          only_at_self key w.epochs,
          (v_end.all_sound key (open_window fl later key).1
              (open_window-lookup fl later key)).since_epoch,
        ))
