-- ===== src/Scanner/Quota.antt =====
-- internal/worker/scanner/quota.go: the rate of the requests to GitHub. A float64 is of any type with the
-- operations that the code uses; rate.Limiter is the rate that was set last.
use software_engineering_sch.Prelude.{
  ℕ, ◌≡◌, refl, inl, inr, Bool, true, false, Option, none, some, if◌then◌else◌, Bool-cases,
}
use software_engineering_sch.Prelude.Int.{ℤ, pos, lt_int}
use software_engineering_sch.Github.Limits.{
  RateLimits, zero_time, is_valid, get_unauthenticated_rate_limits,
}

pub record Float (F : Type 0) : Type 0 where
  pub of_int : ℤ → F
  pub le : F → F → Bool
  pub sub : F → F → F
  pub mul : F → F → F
  pub div : F → F → F
  -- math.Min
  pub min : F → F → F
  -- int(math.Ceil(x))
  pub ceil : F → ℤ
  -- time.Duration.Seconds, of the difference of two instants and of a duration
  pub seconds_until : ℤ → ℤ → F
  pub seconds : ℕ → F

abbrev pub nought : {F : Type 0} → Float F → F
nought f = f.of_int (pos 0)

-- `dynamicQuotaManager`
pub record Quota (F : Type 0) : Type 0 where
  pub limit : F
  pub safety_buffer : F

-- The times of one refresh: of its first line, of the default limits, and of the wait for the reset.
pub record Clock : Type 0 where
  pub now : ℤ
  pub defaults_at : ℤ
  pub reset_read_at : ℤ

-- RateLimits{}
abbrev pub unknown_limits : RateLimits
unknown_limits = record {
  limit = pos 0;
  remaining = pos 0;
  reset_at = zero_time;
  retry_after = zero_time;
}

abbrev pub provided : Option RateLimits → RateLimits
provided none = unknown_limits
provided (some l) = l

unfoldable pub effective : ℤ → RateLimits → RateLimits
unfolding get_unauthenticated_rate_limits
effective now l = if is_valid l then l else get_unauthenticated_rate_limits now

module _ {F : Type 0} (f : Float F) where
  abbrev pub set_limit : F → Quota F → Quota F
  set_limit rps q = record q { limit = rps }

  unfoldable pub freeze : Quota F → Quota F
  freeze q = set_limit (nought f) q

  unfoldable pub time_until_reset : ℤ → RateLimits → F
  time_until_reset now l =
      let t = f.seconds_until l.reset_at now in if f.le t (nought f) then f.of_int (pos 3600) else t

  unfoldable pub usable : F → RateLimits → F
  usable safety_buffer l = f.sub (f.of_int l.remaining) (f.mul (f.of_int l.limit) safety_buffer)

  unfoldable pub rate : F → F → F
  rate usable time_until_reset =
      if f.le usable (nought f)
      then nought f
      else f.div (f.min (f.div usable time_until_reset) (f.of_int (pos 10))) (f.of_int (pos 2))

  unfoldable pub refreshed_rate : Clock → RateLimits → F → F
  unfolding effective time_until_reset usable rate
  refreshed_rate clock limits safety_buffer =
      let l = effective clock.defaults_at limits in
      if lt_int clock.now limits.retry_after
      then nought f
      else rate (usable safety_buffer l) (time_until_reset clock.reset_read_at l)

  -- `Refresh`, with what the provider says, if there is one.
  unfoldable pub refresh : Clock → Option RateLimits → Quota F → F × Quota F
  unfolding refreshed_rate
  refresh clock limits q =
      let rps = refreshed_rate clock (provided limits) q.safety_buffer in (rps, set_limit rps q)

  -- What is relied on of float64; NaN is the value that is not `<=` itself.
  pub record IsFloat : Type 0 where
    pub nought_five : f.le (nought f) (f.of_int (pos 5)) ≡ true
    pub nought_ten : f.le (nought f) (f.of_int (pos 10)) ≡ true
    pub hour_positive : f.le (f.of_int (pos 3600)) (nought f) ≡ false
    pub int_self : (n : ℤ) → f.le (f.of_int n) (f.of_int n) ≡ true
    -- the least of a value and a whole number, where it is no NaN, is not above either
    pub min_le :
        (x : F) (n : ℤ)
        → f.le (f.min x (f.of_int n)) (f.min x (f.of_int n)) ≡ true
        → f.le (f.min x (f.of_int n)) (f.of_int n) ≡ true
    pub min_real :
        (x : F) (n : ℤ)
        → f.le (f.min x (f.of_int n)) (f.min x (f.of_int n)) ≡ true
        → f.le x x ≡ true
    pub le_min : (x y z : F) → f.le z x ≡ true → f.le z y ≡ true → f.le z (f.min x y) ≡ true
    -- a quotient of values that are not `<= 0`, where it is no NaN
    pub div_positive :
        (x y : F)
        → f.le x (nought f) ≡ false
        → f.le y (nought f) ≡ false
        → f.le (f.div x y) (f.div x y) ≡ true
        → f.le (nought f) (f.div x y) ≡ true
    pub nan_div : (x y : F) → f.le (f.div x y) (f.div x y) ≡ true → f.le x x ≡ true
    pub half_le :
        (x : F)
        → f.le x (f.of_int (pos 10)) ≡ true
        → f.le (f.div x (f.of_int (pos 2))) (f.of_int (pos 5)) ≡ true
    pub half_positive :
        (x : F) → f.le (nought f) x ≡ true → f.le (nought f) (f.div x (f.of_int (pos 2))) ≡ true

  -- How a refresh may end, with its rate: GitHub has asked to wait and the rate is nought, or it lies
  -- between nought and five, or it is NaN.
  pub data Paces (waits : Bool) (rps : F) : Type 0 where
    frozen : waits ≡ true → rps ≡ nought f → Paces waits rps
    paced :
        waits ≡ false
        → f.le (nought f) rps ≡ true
        → f.le rps (f.of_int (pos 5)) ≡ true
        → Paces waits rps
    not_a_number : waits ≡ false → f.le rps rps ≡ false → Paces waits rps

  module _ (law : IsFloat) where
    time_until_reset_positive :
        (now : ℤ) (l : RateLimits) → f.le (time_until_reset now l) (nought f) ≡ false
    unfolding time_until_reset
    time_until_reset_positive now l =
        elim (Bool-cases (f.le (f.seconds_until l.reset_at now) (nought f))) [
          | inl past ↦ rw (time_until_reset, past) law.hour_positive
          | inr ahead ↦ rw (time_until_reset, ahead) ahead
        ]

    -- The rate of a positive number of requests over a positive time.
    spread-Paces :
        (u t : F)
        → f.le u (nought f) ≡ false
        → f.le t (nought f) ≡ false
        → let r = f.div (f.min (f.div u t) (f.of_int (pos 10))) (f.of_int (pos 2)) in
          f.le r r ≡ true → Paces false r
    spread-Paces u t some_left some_time real =
        let capped = f.min (f.div u t) (f.of_int (pos 10)) in
        let capped_real = law.nan_div capped (f.of_int (pos 2)) real in
        let at_least =
          law.le_min (f.div u t) (f.of_int (pos 10)) (nought f)
            (law.div_positive u t some_left some_time
              (law.min_real (f.div u t) (pos 10) capped_real))
            law.nought_ten in
        paced refl (law.half_positive capped at_least)
          (law.half_le capped (law.min_le (f.div u t) (pos 10) capped_real))

    rate-Paces : (u t : F) → f.le t (nought f) ≡ false → Paces false (rate u t)
    unfolding rate
    rate-Paces u t some_time =
        let r = f.div (f.min (f.div u t) (f.of_int (pos 10))) (f.of_int (pos 2)) in
        elim (Bool-cases (f.le u (nought f))) [
          | inl spent ↦ rw (rate, spent) (paced refl (law.int_self (pos 0)) law.nought_five)
          | inr some_left ↦ elim (Bool-cases (f.le r r)) [
            | inl real ↦ rw (rate, some_left) (spread-Paces u t some_left some_time real)
            | inr nan ↦ rw (rate, some_left) (not_a_number refl nan)
          ]
        ]

    refreshed_rate-Paces :
        (clock : Clock) (limits : RateLimits) (safety_buffer : F)
        → Paces (lt_int clock.now limits.retry_after) (refreshed_rate clock limits safety_buffer)
    unfolding refreshed_rate
    refreshed_rate-Paces clock limits safety_buffer =
        let l = effective clock.defaults_at limits in
        elim (Bool-cases (lt_int clock.now limits.retry_after)) [
          | inl waits ↦ rw (refreshed_rate, waits) (frozen refl refl)
          | inr free ↦
              rw (refreshed_rate, free)
                (rate-Paces (usable safety_buffer l) (time_until_reset clock.reset_read_at l)
                  (time_until_reset_positive clock.reset_read_at l))
        ]

    -- Whatever the limits are, unknown and nonsensical ones included, a refresh sets the limiter to
    -- nought while GitHub has asked to wait, and otherwise to a rate between nought and five
    -- repositories a second, unless it is NaN.
    pub refresh-Paces :
        (clock : Clock) (limits : Option RateLimits) (q : Quota F)
        → Paces (lt_int clock.now (provided limits).retry_after) (refresh clock limits q).1.limit
    unfolding refresh
    refresh-Paces clock limits q = refreshed_rate-Paces clock (provided limits) q.safety_buffer
