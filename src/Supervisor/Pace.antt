-- ===== src/Supervisor/Pace.antt =====
-- The pauses between profiles: internal/supervisor/supervisor.go, profilePace.
use native.Mathlib.Nat.{pow-le-pow_right, one-le-pow, mul-le-mul, mul-le-mul_left, mod-eq_of_lt}
use olcrtc.Prelude.{
  ℕ, zero, suc, ◌+◌, ◌-◌, ◌*◌, ◌%◌, ◌^◌, min, ◌≤◌, ◌<◌, ◌≡◌, refl, ap, ◌∙◌, Bool, true, false, ltb,
  ◌==◌, if◌then◌else◌, arith,
}
use olcrtc.Supervisor.{
  max_retry_delay, max_retry_backoff, ProfilePace, passed, shift_left, pause, wait,
}

power_bounds : (k : ℕ) → k ≤ 8 → (1 ≤ 2 ^ k) × (2 ^ k ≤ 256)
power_bounds k h = let two : 0 < 2 = omega arith in (one-le-pow k 2 two, pow-le-pow_right two h)

-- The shift loses nothing while the delay is below 2 ^ 55 nanoseconds, more than a year.
shift_left_lem : (base k : ℕ) → base < 2 ^ 55 → k ≤ 8 → shift_left base k ≡ base * 2 ^ k
shift_left_lem base k h small =
    let power = power_bounds k small in
    let below : base ≤ 2 ^ 55 - 1 = omega (arith, h) in
    let product : base * 2 ^ k ≤ (2 ^ 55 - 1) * 256 = mul-le-mul below power.1 in
    let whole : base * 2 ^ k % 2 ^ 64 ≡ base * 2 ^ k = mod-eq_of_lt (omega (arith, product)) in
    let positive : ltb (base * 2 ^ k) (2 ^ 63) ≡ true = ground (arith, product) in
    rw (whole, positive) refl

pause_lem :
    (base dead : ℕ)
    → base < 2 ^ 55
    → 0 < dead
    → pause base dead ≡ min (base * 2 ^ min dead max_retry_backoff) max_retry_delay
pause_lem base dead h some_dead =
    let small : min dead 8 ≤ 8 = omega arith in
    let counted : dead == 0 ≡ false = ground (arith, some_dead) in
    rw (counted, shift_left_lem base (min dead 8) h small) refl

pause_bounds :
    (base dead : ℕ)
    → base ≤ max_retry_delay
    → (base ≤ pause base dead) × (pause base dead ≤ max_retry_delay)
pause_bounds base zero h = (omega arith, h)
pause_bounds base (suc dead) h =
    let small : min (suc dead) 8 ≤ 8 = omega arith in
    let power = (power_bounds (min (suc dead) 8) small).0 in
    let grows : base * 1 ≤ base * 2 ^ min (suc dead) 8 = mul-le-mul_left base power in
    let known = pause_lem base (suc dead) (omega (arith, h)) (omega arith) in
    rw known (omega (arith, h, grows), omega (arith, h))

-- The passes in which no profile held, since the last in which one did.
abbrev pub dead_passes : ProfilePace → Bool → ℕ
dead_passes p done =
    if done then (if p.held_a_cycle then 0 else p.dead_cycles + 1) else p.dead_cycles

pause-min :
    (base dead : ℕ)
    → base ≤ max_retry_delay
    → pause base dead ≡ min (base * 2 ^ min dead max_retry_backoff) max_retry_delay
pause-min base zero h = omega (arith, h)
pause-min base (suc dead) h = pause_lem base (suc dead) (omega (arith, h)) (omega arith)

-- Where the delay is at most five minutes, the pause is the delay doubled for every pass in which no profile
-- held since the last in which one did, eight times at most, and no more than five minutes. It is never below
-- the delay, and a pass that has not ended changes no count.
pub wait_paced :
    (p : ProfilePace) (base : ℕ) (done : Bool)
    → base ≤ max_retry_delay
    → let out = wait p base done in
      (out.1 ≡ min (base * 2 ^ min (dead_passes p done) max_retry_backoff) max_retry_delay)
      × (base ≤ out.1)
      × (out.1 ≤ max_retry_delay)
      × (out.0.dead_cycles ≡ dead_passes p done)
unfolding wait
wait_paced p base done h =
    let dead = (passed p done).dead_cycles in
    let same : dead ≡ dead_passes p done = ground arith in
    let bounds = pause_bounds base dead h in
    (
      pause-min base dead h
          ∙ ap (λ d. min (base * 2 ^ min d max_retry_backoff) max_retry_delay) same,
      bounds.0,
      bounds.1,
      same,
    )
