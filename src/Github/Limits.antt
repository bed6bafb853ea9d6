-- ===== src/Github/Limits.antt =====
-- The rate limits of internal/api/github/ratelimit.go, read from the headers of a response. An instant
-- is a number of nanoseconds since the zero time; http.ParseTime and the clock are parameters.
use software_engineering_sch.Prelude.{
  ℕ, ◌*◌, String, Bool, ◌&&◌, not, Option, none, some, str_eq, if◌then◌else◌,
}
use software_engineering_sch.Prelude.Int.{
  ℤ, pos, negsuc, add_int, eq_int, scale_int, wrap64, parse_int64,
}
use software_engineering_sch.Github.Http.{Header, get_header}

abbrev pub second : ℕ
second = 1000000000

-- time.Time{}
abbrev pub zero_time : ℤ
zero_time = pos 0

abbrev pub minus_one : ℤ
minus_one = negsuc 0

pub record RateLimits : Type 0 where
  pub limit : ℤ
  pub remaining : ℤ
  pub reset_at : ℤ
  pub retry_after : ℤ

abbrev pub is_valid : RateLimits → Bool
is_valid l =
    not (eq_int l.limit minus_one)
    && not (eq_int l.remaining minus_one)
    && not (eq_int l.reset_at zero_time)

abbrev or_minus_one : Option ℤ → ℤ
or_minus_one none = minus_one
or_minus_one (some n) = n

unfoldable pub get_int64_header : Header → String → ℤ
get_int64_header h key =
    let val = get_header h key in
    if str_eq val "" then minus_one else or_minus_one (parse_int64 val)

-- time.Unix(s, 0): the epoch is 62135596800 seconds after the zero time, and the sum is an int64.
abbrev pub unix : ℤ → ℤ
unix s = scale_int second (wrap64 (add_int s (pos 62135596800)))

abbrev or_zero_time : Option ℤ → ℤ
or_zero_time none = zero_time
or_zero_time (some s) = unix s

unfoldable pub get_reset_time : Header → ℤ
get_reset_time h =
    let val = get_header h "X-Ratelimit-Reset" in
    if str_eq val "" then zero_time else or_zero_time (parse_int64 val)

abbrev or_date : Option ℤ → ℤ
or_date none = zero_time
or_date (some t) = t

-- Seconds, whose product with a second is an int64, or else a date.
abbrev after_seconds : (String → Option ℤ) → ℤ → String → Option ℤ → ℤ
after_seconds parse_time now val (some s) = add_int now (wrap64 (scale_int second s))
after_seconds parse_time now val none = or_date (parse_time val)

unfoldable pub get_retry_after_time : (String → Option ℤ) → Header → ℤ → ℤ
get_retry_after_time parse_time h now =
    let val = get_header h "Retry-After" in
    if str_eq val "" then zero_time else after_seconds parse_time now val (parse_int64 val)

unfoldable pub extract_rate_limits : (String → Option ℤ) → ℤ → Header → RateLimits
unfolding get_int64_header get_reset_time get_retry_after_time
extract_rate_limits parse_time now h = record {
  limit = get_int64_header h "X-Ratelimit-Limit";
  remaining = get_int64_header h "X-Ratelimit-Remaining";
  reset_at = get_reset_time h;
  retry_after = get_retry_after_time parse_time h now;
}

abbrev an_hour_after : ℤ → ℤ
an_hour_after now = add_int now (pos (3600 * second))

unfoldable pub get_unauthenticated_rate_limits : ℤ → RateLimits
get_unauthenticated_rate_limits now = record {
  limit = pos 60;
  remaining = pos 60;
  reset_at = an_hour_after now;
  retry_after = zero_time;
}

unfoldable pub get_authenticated_rate_limits : ℤ → RateLimits
get_authenticated_rate_limits now = record {
  limit = pos 5000;
  remaining = pos 5000;
  reset_at = an_hour_after now;
  retry_after = zero_time;
}

unfoldable pub get_base_rate_limits : String → ℤ → RateLimits
unfolding get_unauthenticated_rate_limits get_authenticated_rate_limits
get_base_rate_limits token now =
    if str_eq token ""
    then get_unauthenticated_rate_limits now
    else get_authenticated_rate_limits now
