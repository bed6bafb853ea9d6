-- ===== src/Github/RateLimit.antt =====
-- RateLimitTransport of internal/api/github/ratelimit.go and AuthTransport of auth.go. The transport
-- below is a parameter. The limits are guarded by a lock, so each call is one change of them.
use software_engineering_sch.Prelude.{
  ℕ, String, ◌≡◌, inl, inr, Bool, true, false, ◌&&◌, ◌||◌, not, Option, arith, str_eq, str_append,
  if◌then◌else◌, Bool-cases, Result, ok, err,
}
use software_engineering_sch.Prelude.Int.{ℤ, pos, add_int, lt_int, eq_int}
use software_engineering_sch.Github.Http.{set_header, Request, HttpResponse, RoundTripper}
use software_engineering_sch.Github.Limits.{
  RateLimits, second, zero_time, is_valid, extract_rate_limits, get_base_rate_limits,
  get_unauthenticated_rate_limits, get_authenticated_rate_limits, get_retry_after_time,
}

-- AuthTransport.RoundTrip: the header is set on a copy of the request.
unfoldable pub authorized : String → Request → Request
authorized token req =
    if str_eq token ""
    then req
    else record req { header = set_header req.header "Authorization" (str_append "Bearer " token) }

unfoldable pub auth_round_trip : {W : Type 0} → String → RoundTripper W → RoundTripper W
unfolding authorized
auth_round_trip token below req w = below (authorized token req) w

-- What a response without error makes of the last limits.
unfoldable pub with_general : RateLimits → RateLimits → RateLimits
with_general limits last =
    if is_valid limits
    then record last {
      limit = limits.limit;
      remaining = limits.remaining;
      reset_at = limits.reset_at;
    }
    else last

unfoldable pub with_retry_after : RateLimits → RateLimits → RateLimits
with_retry_after limits last =
    if not (eq_int limits.retry_after zero_time)
      && lt_int (add_int last.retry_after (pos second)) limits.retry_after
    then record last { retry_after = limits.retry_after }
    else last

unfoldable pub observed : RateLimits → RateLimits → RateLimits
unfolding with_general with_retry_after
observed limits last = with_retry_after limits (with_general limits last)

module _ {W : Type 0} (parse_time : String → Option ℤ) (now : ℤ) where
  unfoldable pub observe :
      Result HttpResponse × W → RateLimits → Result HttpResponse × RateLimits × W
  unfolding observed
  observe (err e, w) last = (err e, last, w)
  observe (ok res, w) last =
      (ok res, observed (extract_rate_limits parse_time now res.header) last, w)

  -- RateLimitTransport.RoundTrip, with the last limits before and after.
  unfoldable pub rate_limit_round_trip :
      RoundTripper W → Request → RateLimits → W → Result HttpResponse × RateLimits × W
  unfolding observe
  rate_limit_round_trip below req last w = observe (below req w) last

-- The default limits are valid, unless the clock stands an hour before the zero time.
pub base-is_valid :
    (token : String) (now : ℕ) → is_valid (get_base_rate_limits token (pos now)) ≡ true
unfolding get_base_rate_limits get_unauthenticated_rate_limits get_authenticated_rate_limits
base-is_valid token now = elim (Bool-cases (str_eq token "")) [
  | inl anonymous ↦ rw anonymous (ground arith)
  | inr named ↦ rw named (ground arith)
]

abbrev postpones : RateLimits → RateLimits → Bool
postpones limits last =
    not (eq_int limits.retry_after zero_time)
    && lt_int (add_int last.retry_after (pos second)) limits.retry_after

-- There is no pause to keep, or it ends no more than a second after `until`.
abbrev pub covers : ℤ → ℤ → Bool
covers until pause = eq_int pause zero_time || not (lt_int (add_int until (pos second)) pause)

-- The limits of the hour, without the pause.
abbrev pub Agrees : RateLimits → RateLimits → Type 0
Agrees a b = (a.limit ≡ b.limit) × (a.remaining ≡ b.remaining) × (a.reset_at ≡ b.reset_at)

-- The limits know of the pause that an answer asks for, and of the limits that it tells if these are
-- valid; they are unchanged where there is no answer.
abbrev pub Heard : (String → Option ℤ) → ℤ → RateLimits → RateLimits → Result HttpResponse → Type 0
Heard parse_time now last after (err e) = after ≡ last
Heard parse_time now last after (ok res) =
    let limits = extract_rate_limits parse_time now res.header in
    (covers after.retry_after (get_retry_after_time parse_time res.header now) ≡ true)
    × Agrees after (if is_valid limits then limits else last)

-- The limits are ones that the quota can be computed from, the end of the secondary limit is not
-- before that of the limits they replace, and the answer was heard.
pub record Keeps (parse_time : String → Option ℤ) (now : ℤ) (answer : Result HttpResponse)
    (last after : RateLimits) : Type 0 where
  pub valid : is_valid after ≡ true
  pub not_earlier : lt_int after.retry_after last.retry_after ≡ false
  pub heard : Heard parse_time now last after answer
