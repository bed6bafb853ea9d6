-- ===== src/Github/Client.antt =====
-- Client.GetRepository and Client.GetLatestRelease of internal/api/github/github.go, with the status
-- handler of handlers.go and the response of response.go. http.Client is a parameter.
use software_engineering_sch.Prelude.{
  ℕ, String, ◌≡◌, Option, none, some, [], ◌∷◌, str_eq, str_append, leb, ◌==◌, if◌then◌else◌, Error,
  other, Result, ok, err,
}
use software_engineering_sch.Prelude.Int.{ℤ, pos, decimal}
use software_engineering_sch.Github.Http.{get_header, Request, HttpResponse, RoundTripper}
use software_engineering_sch.Github.Limits.{RateLimits, zero_time, extract_rate_limits}

-- error.go
pub data ApiFailure : Type 0 where
  network_error : Error → ApiFailure
  decoding_error : Error → ApiFailure
  api_error : ℕ → String → String → ApiFailure
  unexpected_status : ℕ → ApiFailure

-- Ids of GitHub are not negative.
pub record GithubRepository : Type 0 where
  pub id : ℕ
  pub full_name : String

pub record LatestRelease : Type 0 where
  pub id : ℕ
  pub tag_name : String
  pub url : String

-- The body of an APIError.
pub record ApiMessage : Type 0 where
  pub message : String
  pub documentation_url : String

pub record Response (A : Type 0) : Type 0 where
  pub value : A
  pub rate_limits : RateLimits
  pub etag : String
  pub status_code : ℕ
  pub error : Option ApiFailure

abbrev pub no_limits : RateLimits
no_limits = record {
  limit = pos 0;
  remaining = pos 0;
  reset_at = zero_time;
  retry_after = zero_time;
}

-- jsonDecoder: what Decode makes of a text, with the value that it leaves where it fails.
pub record Decoder (A : Type 0) : Type 0 where
  pub zero_value : A
  pub decode : String → A × Option Error

unfoldable pub decode_body : {A : Type 0} → Decoder A → Result String → A × Option Error
decode_body d (err e) = (d.zero_value, some e)
decode_body d (ok text) = d.decode text

module _ {A : Type 0} (d : Decoder A) (messages : Decoder ApiMessage) where
  unfoldable pub decoded : A × Option Error → A × Option ApiFailure
  decoded (a, none) = (a, none)
  decoded (a, some e) = (a, some (decoding_error e))

  unfoldable pub api_failure : ℕ → ApiMessage × Option Error → ApiFailure
  api_failure status (m, none) = api_error status m.message m.documentation_url
  api_failure status (m, some e) = decoding_error (
      other (
        str_append "api error with status "
          (str_append (decimal status) " (could not decode body)")))

  -- CreateStatusHandler
  unfoldable pub status_handler : HttpResponse → A × Option ApiFailure
  unfolding decode_body decoded api_failure
  status_handler res =
      if res.status_code == 200
      then decoded (decode_body d res.body)
      else if res.status_code == 304
      then (d.zero_value, none)
      else if leb 400 res.status_code
      then (d.zero_value, some (api_failure res.status_code (decode_body messages res.body)))
      else (d.zero_value, some (unexpected_status res.status_code))

  -- formatResponse, at the time of the call.
  unfoldable pub format_response :
      (String → Option ℤ) → ℤ → HttpResponse → A × Option ApiFailure → Response A
  unfolding extract_rate_limits
  format_response parse_time now res (a, e) = record {
    value = a;
    rate_limits = extract_rate_limits parse_time now res.header;
    etag = get_header res.header "Etag";
    status_code = res.status_code;
    error = e;
  }

  abbrev pub network_failure : Error → Response A
  network_failure e = record {
    value = d.zero_value;
    rate_limits = no_limits;
    etag = "";
    status_code = 0;
    error = some (network_error e);
  }

  abbrev pub conditional : String → String → Request
  conditional endpoint etag = record {
    method = "GET";
    url = endpoint;
    header = if str_eq etag "" then [] else ("If-None-Match", etag) ∷ [];
  }

  module _ {W : Type 0} (parse_time : String → Option ℤ) (now : ℤ) (client : RoundTripper W) where
    unfoldable pub answered : Result HttpResponse × W → Response A × W
    unfolding status_handler format_response
    answered (err e, w) = (network_failure e, w)
    answered (ok res, w) = (format_response parse_time now res (status_handler res), w)

    -- `get`, for a URL: `none` is one that http.NewRequestWithContext refuses.
    unfoldable pub get : Option Error → String → String → W → Response A × W
    unfolding answered
    get (some e) endpoint etag w = (network_failure e, w)
    get none endpoint etag w = answered (client (conditional endpoint etag) w)

abbrev pub repository_url : String → String → String → String
repository_url base owner name =
    str_append base (str_append "/repos/" (str_append owner (str_append "/" name)))

abbrev pub release_url : String → String → String → String
release_url base owner name = str_append (repository_url base owner name) "/releases/latest"

-- `Client`: the base URL and what its http.Client does, beside the library's part in a call.
pub record Client (W : Type 0) : Type 0 where
  pub base_url : String
  pub http : RoundTripper W
  pub refuses : String → Option Error
  pub repositories : Decoder GithubRepository
  pub releases : Decoder LatestRelease
  pub messages : Decoder ApiMessage
  pub parse_time : String → Option ℤ
  pub now : ℤ

unfoldable pub get_repository :
    {W : Type 0} → Client W → String → String → String → W → Response GithubRepository × W
unfolding get
get_repository c owner name etag w =
    let endpoint = repository_url c.base_url owner name in
    get c.repositories c.messages c.parse_time c.now c.http (c.refuses endpoint) endpoint etag w

unfoldable pub get_latest_release :
    {W : Type 0} → Client W → String → String → String → W → Response LatestRelease × W
unfolding get
get_latest_release c owner name etag w =
    let endpoint = release_url c.base_url owner name in
    get c.releases c.messages c.parse_time c.now c.http (c.refuses endpoint) endpoint etag w

-- What an answer may be.
pub data Answers {A : Type 0} (d : Decoder A) (r : Response A) : Type 0 where
  fresh :
      (text : String)
      → r.status_code ≡ 200
      → d.decode text ≡ (r.value, none)
      → r.error ≡ none
      → Answers d r
  unchanged : r.status_code ≡ 304 → r.value ≡ d.zero_value → r.error ≡ none → Answers d r
  refused : (e : ApiFailure) → r.error ≡ some e → Answers d r
