-- ===== src/Github/Cache.antt =====
-- CacheTransport of internal/api/github/cache.go. The cache, encoding/json for the stored form and the
-- transport below are parameters over one world.
use software_engineering_sch.Prelude.{
  ℕ, ◌<◌, String, ◌≡◌, refl, Bool, Option, none, some, str_eq, str_append, leb, ◌==◌, if◌then◌else◌,
  Error, Result, ok, err,
}
use software_engineering_sch.Events.{Codec}
use software_engineering_sch.Github.Http.{Header, Request, HttpResponse, RoundTripper}

-- The interface `Cache`; a TTL is in nanoseconds.
pub record Cache (W : Type 0) : Type 0 where
  pub get : String → W → Result String × W
  pub set : String → String → ℕ → W → Option Error × W

-- cachedHTTPResponse
pub record CachedResponse : Type 0 where
  pub status_code : ℕ
  pub header : Header
  pub body : String

-- A TTL that is not positive is zero here.
pub record CacheTransport (W : Type 0) : Type 0 where
  pub below : RoundTripper W
  pub cache : Option (Cache W)
  pub ttl : ℕ
  pub error_ttl : ℕ

abbrev pub cache_key : String → String
cache_key endpoint = str_append "github_cache:" endpoint

abbrev pub restored : CachedResponse → HttpResponse
restored c = record { status_code = c.status_code; header = c.header; body = ok c.body }

abbrev pub is_get : Request → Bool
is_get req = str_eq req.method "GET"

module _ {W : Type 0} (t : CacheTransport W) (json : Codec CachedResponse) where
  unfoldable pub ttl_of : ℕ → ℕ
  ttl_of status = if leb 400 status then t.error_ttl else t.ttl

  -- An error of json.Marshal or of the cache leaves the answer as it is.
  unfoldable pub store_response : Cache W → String → CachedResponse → Result String → W → W
  store_response cache key c (err e) w = w
  store_response cache key c (ok text) w = (cache.set key text (ttl_of c.status_code) w).1

  -- After the body has been read.
  unfoldable pub cache_response :
      Cache W → Request → HttpResponse → Result String → W → Result HttpResponse × W
  unfolding store_response ttl_of
  cache_response cache req res (err e) w = (err e, w)
  cache_response cache req res (ok text) w =
      let c : CachedResponse = record {
        status_code = res.status_code;
        header = res.header;
        body = text;
      } in
      if ttl_of res.status_code == 0 then (ok (record res { body = ok text }), w) else (
        ok (record res { body = ok text }),
        store_response cache (cache_key req.url) c (json.marshal c) w,
      )

  unfoldable pub after_fetch :
      Option (Cache W) → Request → Result HttpResponse × W → Result HttpResponse × W
  unfolding cache_response
  after_fetch cache req (err e, w) = (err e, w)
  after_fetch none req (ok res, w) = (ok res, w)
  after_fetch (some cache) req (ok res, w) =
      if is_get req then cache_response cache req res res.body w else (ok res, w)

  -- A miss: the transport below is asked.
  unfoldable pub fetch : Request → W → Result HttpResponse × W
  unfolding after_fetch
  fetch req w = after_fetch t.cache req (t.below req w)

  unfoldable pub hit_or_fetch : Request → Result CachedResponse → W → Result HttpResponse × W
  unfolding fetch
  hit_or_fetch req (ok c) w = (ok (restored c), w)
  hit_or_fetch req (err e) w = fetch req w

  unfoldable pub decode_hit : Result String → Result CachedResponse
  decode_hit (err e) = err e
  decode_hit (ok text) = json.unmarshal text

  -- CacheTransport.RoundTrip
  unfoldable pub cache_round_trip : Request → W → Result HttpResponse × W
  unfolding hit_or_fetch decode_hit
  cache_round_trip req w = elim t.cache [
    | none ↦ fetch req w
    | some cache ↦
        let (found, w') = cache.get (cache_key req.url) w in hit_or_fetch req (decode_hit found) w'
  ]

-- What is relied on of the cache while an entry has not expired: a value that was set is there.
pub record Retains {W : Type 0} (cache : Cache W) : Type 0 where
  pub set_get :
      (key text : String) (ttl : ℕ) (w : W)
      → 0 < ttl
      → (cache.set key text ttl w).0 ≡ none
      → (cache.get key (cache.set key text ttl w).1).0 ≡ ok text

module _ {W : Type 0} (t : CacheTransport W) (json : Codec CachedResponse) (cache : Cache W)
    (law : Retains cache) where
  -- A response that the cache has taken is what every later request of its URL gets, without a call
  -- of the transport below, as long as the entry lasts; the request's method and headers do not count.
  pub cache_round_trip_hit :
      (req : Request) (c : CachedResponse) (text : String) (ttl : ℕ) (w : W)
      → t.cache ≡ some cache
      → json.marshal c ≡ ok text
      → 0 < ttl
      → (cache.set (cache_key req.url) text ttl w).0 ≡ none
      → let stored = (cache.set (cache_key req.url) text ttl w).1 in
        cache_round_trip t json req stored
        ≡ (ok (restored c), (cache.get (cache_key req.url) stored).1)
  unfolding cache_round_trip hit_or_fetch decode_hit
  cache_round_trip_hit req c text ttl w has wrote lasts kept =
      let read = law.set_get (cache_key req.url) text ttl w lasts kept in
      rw (cache_round_trip, has, read, json.round_trip c text wrote) refl
