-- ===== src/Github/Stale.antt =====
-- The client of internal/api/github over its CacheTransport: a conditional answer that is given to an
-- unconditional request.
use software_engineering_sch.Prelude.{ℕ, ◌<◌, String, ◌≡◌, refl, none, some, ok}
use software_engineering_sch.Events.{Codec}
use software_engineering_sch.Github.Cache.{
  Cache, CachedResponse, CacheTransport, Retains, cache_key, cache_round_trip, cache_round_trip_hit,
}
use software_engineering_sch.Github.Client.{
  Client, get, conditional, answered, status_handler, format_response, get_repository,
  repository_url,
}

module _ {W : Type 0} (t : CacheTransport W) (json : Codec CachedResponse) (cache : Cache W)
    (law : Retains cache) (client : Client W) where
  -- A 304 that the cache has taken is what a later request without an entity tag gets too, while the
  -- entry lasts: the client then answers 304 with no repository to one who never had it.
  pub get_repository_stale :
      (owner name : String) (c : CachedResponse) (text : String) (ttl : ℕ) (w : W)
      → client.http ≡ cache_round_trip t json
      → client.refuses (repository_url client.base_url owner name) ≡ none
      → t.cache ≡ some cache
      → c.status_code ≡ 304
      → json.marshal c ≡ ok text
      → 0 < ttl
      → (cache.set (cache_key (repository_url client.base_url owner name)) text ttl w).0 ≡ none
      → let stored =
          (cache.set (cache_key (repository_url client.base_url owner name)) text ttl w).1 in
        ((get_repository client owner name "" stored).0.status_code ≡ 304)
        × ((get_repository client owner name "" stored).0.value ≡ client.repositories.zero_value)
  unfolding get_repository get answered status_handler format_response
  get_repository_stale owner name c text ttl w over accepts has not_modified wrote lasts kept =
      rw
        (
          over,
          accepts,
          cache_round_trip_hit t json cache law
              (conditional client.repositories client.messages
                (repository_url client.base_url owner name) "")
              c text ttl w has wrote lasts kept,
          not_modified,
        )
        (refl, refl)
