-- ===== src/Programs/Server.antt =====
-- cmd/server/main.go, the transport layers of the GitHub client: a cache over the rate limits over the
-- authorisation. http.DefaultTransport, below them, is a parameter.
use software_engineering_sch.Prelude.{
  ℕ, String, ◌≡◌, true, Option, some, List, [], ◌∷◌, ◌++◌, Error, Result, ok, err,
}
use software_engineering_sch.Prelude.Int.{ℤ}
use software_engineering_sch.Events.{Codec}
use software_engineering_sch.Github.Http.{Request, HttpResponse, RoundTripper}
use software_engineering_sch.Github.Limits.{RateLimits, extract_rate_limits}
use software_engineering_sch.Github.RateLimit.{
  authorized, auth_round_trip, observed, rate_limit_round_trip,
}
use software_engineering_sch.Github.Cache.{Cache, CachedResponse, CacheTransport, is_get, restored}

-- The last limits of the RateLimitTransport, beside what is outside of the program.
abbrev pub World : Type 0 → Type 0
World W = RateLimits × W

-- A cache that knows nothing of the limits.
abbrev pub beside : {W : Type 0} → Cache W → Cache (World W)
beside cache = record {
  get = λ key w. let (r, w') = cache.get key w.1 in (r, (w.0, w'));
  set = λ key text ttl w. let (e, w') = cache.set key text ttl w.1 in (e, (w.0, w'));
}

module _ {W : Type 0} (parse_time : String → Option ℤ) (now : ℤ) (token : String)
    (base : RoundTripper W) where
  unfoldable pub limited_transport : RoundTripper (World W)
  limited_transport req w =
      let (res, last, w') =
        rate_limit_round_trip parse_time now (auth_round_trip token base) req w.0 w.1 in
      (res, (last, w'))

  unfoldable pub github_transport : Cache W → ℕ → ℕ → CacheTransport (World W)
  unfolding limited_transport
  github_transport cache ttl error_ttl = record {
    below = limited_transport;
    cache = some (beside cache);
    ttl = ttl;
    error_ttl = error_ttl;
  }

-- What the cache layer hands on of an answer: all of it, or the error of reading its body.
pub data Passed (req : Request) (res : HttpResponse) : Result HttpResponse → Type 0 where
  whole : Passed req res (ok res)
  cut : (e : Error) → is_get req ≡ true → res.body ≡ err e → Passed req res (err e)

-- What one request of the program does to GitHub and to the limits, and what it returns, by what the
-- cache has found and by what GitHub would answer: it is answered from the cache, or GitHub is asked
-- once, with the token, and the limits follow the answer.
pub data Asks (parse_time : String → Option ℤ) (now : ℤ) (token : String) (req : Request)
    (found : Result CachedResponse) (got : Result HttpResponse) (last after : RateLimits)
    (before asked : List Request) (answer : Result HttpResponse) : Type 0 where
  from_cache :
      (c : CachedResponse)
      → found ≡ ok c
      → answer ≡ ok (restored c)
      → asked ≡ before
      → after ≡ last
      → Asks parse_time now token req found got last after before asked answer
  unanswered :
      (miss e : Error)
      → found ≡ err miss
      → got ≡ err e
      → answer ≡ err e
      → asked ≡ before ++ (authorized token req ∷ [])
      → after ≡ last
      → Asks parse_time now token req found got last after before asked answer
  answered :
      (miss : Error) (res : HttpResponse)
      → found ≡ err miss
      → got ≡ ok res
      → Passed req res answer
      → asked ≡ before ++ (authorized token req ∷ [])
      → after ≡ observed (extract_rate_limits parse_time now res.header) last
      → Asks parse_time now token req found got last after before asked answer

-- `asked` is what has been sent to GitHub: only the transport at the bottom sends.
pub record Sends {W : Type 0} (base : RoundTripper W) (cache : Cache W) (asked : W → List Request)
    : Type 0 where
  pub base_sends : (req : Request) (w : W) → asked (base req w).1 ≡ asked w ++ (req ∷ [])
  pub get_keeps : (key : String) (w : W) → asked (cache.get key w).1 ≡ asked w
  pub set_keeps :
      (key text : String) (ttl : ℕ) (w : W) → asked (cache.set key text ttl w).1 ≡ asked w

module _ {W : Type 0} (parse_time : String → Option ℤ) (now : ℤ) (token : String)
    (base : RoundTripper W) (cache : Cache W) (ttl error_ttl : ℕ) (json : Codec CachedResponse)
    (asked : W → List Request) (law : Sends base cache asked) where
  abbrev transport : CacheTransport (World W)
  transport = github_transport parse_time now token base cache ttl error_ttl

  -- What GitHub answers to the request, with the token.
  abbrev got : Request → W → Result HttpResponse
  got req w = (base (authorized token req) w).0

  abbrev AsksFrom :
      Request → Result CachedResponse → World W → Result HttpResponse × World W → Type 0
  AsksFrom req found w done =
      Asks parse_time now token req found (got req w.1) w.0 done.1.0 (asked w.1) (asked done.1.1)
        done.0

  abbrev following : Result HttpResponse → RateLimits → RateLimits
  following (err e) last = last
  following (ok res) last = observed (extract_rate_limits parse_time now res.header) last
