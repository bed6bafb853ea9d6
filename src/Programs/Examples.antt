-- ===== src/Programs/Examples.antt =====
-- The GitHub client of the server without a cache entry, when GitHub answers 404.
use software_engineering_sch.Prelude.{none, some, List, [], ◌∷◌, ◌++◌, other, Result, ok, err}
use software_engineering_sch.Events.{Codec}
use software_engineering_sch.Prelude.Int.{pos}
use software_engineering_sch.Github.Http.{Request, HttpResponse}
use software_engineering_sch.Github.Client.{no_limits}
use software_engineering_sch.Github.Cache.{Cache, CachedResponse, cache_round_trip}
use software_engineering_sch.Programs.Server
use software_engineering_sch.Programs.Server.{github_transport}

-- GitHub answers every request with a 404, and the cache is empty and takes nothing.
abbrev not_found : Request → List Request → Result HttpResponse × List Request
not_found req w = (ok (record { status_code = 404; header = []; body = ok "" }), w ++ (req ∷ []))

abbrev empty_cache : Cache (List Request)
empty_cache = record {
  get = λ key w. (err (other "redis: nil"), w);
  set = λ key text ttl w. (some (other "down"), w);
}

abbrev no_codec : Codec CachedResponse
no_codec = record {
  marshal = λ c. err (other "unsupported value");
  unmarshal = λ s. err (other "unsupported value");
  round_trip = λ c s h. cc;
}

abbrev look_up : Request
look_up = record { method = "GET"; url = "https://api.github.com/repos/o/n"; header = [] }

abbrev done : Result HttpResponse × Server.World (List Request)
done =
    cache_round_trip (github_transport (λ s. none) (pos 0) "secret" not_found empty_cache 600 60)
      no_codec look_up (no_limits, [])
