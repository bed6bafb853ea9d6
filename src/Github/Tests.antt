-- ===== src/Github/Tests.antt =====
-- The GitHub client on answers that are written out.
use software_engineering_sch.Prelude.{
  String, ◌≡◌, refl, Bool, true, ◌&&◌, false, none, some, [], ◌∷◌, Option, Error, other, Result, ok,
  err, arith, str_eq, eq_refl, if◌then◌else◌, ◌==◌,
}
use software_engineering_sch.Prelude.Int.{ℤ, pos}
use software_engineering_sch.Events.{Codec}
use software_engineering_sch.Events.Reference
use software_engineering_sch.Github.Http.{Header, RoundTripper, Request}
use software_engineering_sch.Github.Limits.{RateLimits}
use software_engineering_sch.Github.Cache.{
  Cache, CachedResponse, CacheTransport, Retains, cache_key, cache_round_trip,
}
use software_engineering_sch.Github.Client.{
  Decoder, GithubRepository, LatestRelease, ApiMessage, Client, get, get_repository, repository_url,
}
use software_engineering_sch.Github.Stale.{get_repository_stale}

-- A decoder that refuses the empty text.
abbrev decode_repository : String → GithubRepository × Option Error
decode_repository text =
    if str_eq text ""
    then (record { id = 0; full_name = "" }, some (other "EOF"))
    else (record { id = 7; full_name = text }, none)

abbrev repositories : Decoder GithubRepository
repositories = record { zero_value = record { id = 0; full_name = "" }; decode = decode_repository }

abbrev releases : Decoder LatestRelease
releases = record {
  zero_value = record { id = 0; tag_name = ""; url = "" };
  decode = λ text. (record { id = 8; tag_name = text; url = "" }, none);
}

abbrev messages : Decoder ApiMessage
messages = record {
  zero_value = record { message = ""; documentation_url = "" };
  decode = λ text. (record { message = text; documentation_url = "" }, none);
}

abbrev forbidden : RoundTripper Unit
forbidden req w = (
  ok (record {
    status_code = 403;
    header = ("X-Ratelimit-Remaining", "-5") ∷ ("Retry-After", "60") ∷ [];
    body = ok "rate limit exceeded";
  }),
  w,
)

abbrev no_date : String → Option ℤ
no_date text = none

abbrev last : RateLimits
last = record { limit = pos 60; remaining = pos 3; reset_at = pos 100; retry_after = pos 0 }

abbrev request : Request
request = record { method = "GET"; url = "https://api.github.com/repos/o/n"; header = [] }

-- A cache of one entry.
record Entry : Type 0 where
  key : String
  text : String

abbrev read : String → Entry → Result String
read k e = if str_eq e.key k then ok e.text else err (other "redis: nil")

abbrev cache : Cache Entry
cache = record {
  get = λ k e. (read k e, e);
  set = λ k text ttl e. (none, record { key = k; text = text });
}

retains : Retains cache
retains = record { set_get = λ k text ttl w lasts kept. rw (eq_refl k) refl }

-- The stored form of an answer 304 without headers is its body.
abbrev no_headers : Header → Bool
no_headers [] = true
no_headers (x ∷ h) = false

abbrev plain_304 : CachedResponse → Bool
plain_304 c = (c.status_code == 304) && no_headers c.header

abbrev read_304 : String → Result CachedResponse
read_304 text = ok (record { status_code = 304; header = []; body = text })

no_headers-nil : (h : Header) → no_headers h ≡ true → [] ≡ h
no_headers-nil [] e = refl
no_headers-nil (x ∷ h) e = cc

stored_law : (c : CachedResponse) → plain_304 c ≡ true → read_304 c.body ≡ ok c
stored_law c h =
    let same : c.status_code ≡ 304 = ground arith in
    let none_set : [] ≡ c.header = no_headers-nil c.header (ground arith) in cc

abbrev stored_form : Codec CachedResponse
stored_form = Reference.codec plain_304 (λ c. c.body) read_304 stored_law

abbrev not_modified : CachedResponse
not_modified = record { status_code = 304; header = []; body = "" }

abbrev transport : CacheTransport Entry
transport = record {
  below = λ req w. (err (other "no network"), w);
  cache = some cache;
  ttl = 60;
  error_ttl = 0;
}

abbrev client : Client Entry
client = record {
  base_url = "https://api.github.com";
  http = cache_round_trip transport stored_form;
  refuses = λ url. none;
  repositories = repositories;
  releases = releases;
  messages = messages;
  parse_time = no_date;
  now = pos 50;
}

abbrev entry : Entry
entry =
    (cache.set (cache_key (repository_url client.base_url "o" "n")) "" 60
      (record { key = ""; text = "" })).1

get_repository_stale_example :
    ((get_repository client "o" "n" "" entry).0.status_code ≡ 304)
    × ((get_repository client "o" "n" "" entry).0.value ≡ repositories.zero_value)
get_repository_stale_example =
    get_repository_stale transport stored_form cache retains client "o" "n" not_modified "" 60
      (record { key = ""; text = "" }) refl refl refl refl refl (omega arith) refl
