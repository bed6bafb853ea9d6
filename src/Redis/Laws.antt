-- ===== src/Redis/Laws.antt =====
-- The stores of internal/infra/redis keep what their clients rely on: the cache of the GitHub client
-- and the dedup store of the notifier.
use software_engineering_sch.Prelude.{
  ℕ, ◌<◌, String, ◌≡◌, refl, ap, ◌⊎◌, inl, inr, Bool, true, false, Option, none, some, List, Error,
  ok,
}
use software_engineering_sch.Github.Cache.{Retains}
use software_engineering_sch.Command.{DeliveryMessage}
use software_engineering_sch.Notifier.Dedup.{Remembers}
use software_engineering_sch.Redis.{
  Client, Dedup, ReplyError, missing, failure, bytes, error_of_reply, marked_by, get, set, cache,
  mark_processed, unmark, services,
}

-- What Redis documents of the commands, until the TTL of the key is over: `holds` are the keys that
-- are set.
pub record Keeps {R : Type 0} (client : Client R) (holds : R → String → Bool) : Type 0 where
  pub set_get :
      (key text : String) (ttl : ℕ) (r : R)
      → 0 < ttl
      → (client.set key text ttl r).0 ≡ none
      → (client.get key (client.set key text ttl r).1).0 ≡ inr text
  -- NX: only set the key if it does not already exist.
  pub absent_sets :
      (key text : String) (ttl : ℕ) (r : R)
      → (client.set_absent key text ttl r).0 ≡ none
      → (holds r key ≡ false) × (holds (client.set_absent key text ttl r).1 key ≡ true)
  pub absent_refused :
      (key text : String) (ttl : ℕ) (r : R)
      → (client.set_absent key text ttl r).0 ≡ some missing
      → holds (client.set_absent key text ttl r).1 key ≡ true
  pub del_clears :
      (key : String) (r : R) → (client.del key r).0 ≡ none → holds (client.del key r).1 key ≡ false

marked_by-true : (e : Option ReplyError) → marked_by e ≡ ok true → e ≡ none
unfolding marked_by
marked_by-true none h = refl
marked_by-true (some missing) h = cc
marked_by-true (some (failure e)) h = cc

marked_by-ok :
    (e : Option ReplyError) {b : Bool} → marked_by e ≡ ok b → (e ≡ none) ⊎ (e ≡ some missing)
unfolding marked_by
marked_by-ok none h = inl refl
marked_by-ok (some missing) h = inr refl
marked_by-ok (some (failure e)) h = cc

error_of_reply-none : (e : Option ReplyError) → error_of_reply e ≡ none → e ≡ none
unfolding error_of_reply
error_of_reply-none none h = refl
error_of_reply-none (some e) h = cc

module _ {R : Type 0} {holds : R → String → Bool} where
  -- The Redis cache is one that the caching transport of the GitHub client can rely on.
  pub cache-Retains : (client : Client R) → Keeps client holds → Retains (cache client)
  unfolding get set bytes
  cache-Retains client law = record {
    set_get = λ key text ttl r lasts kept.
        ap bytes (law.set_get key text ttl r lasts (error_of_reply-none _ kept));
  }

  -- The Redis dedup store beside a publisher keeps every law of the dedup store that the notifier
  -- relies on, with the keys that Redis holds as the marks.
  pub services-Remembers :
      {P : Type 0} (dedup : Dedup R) (publish : DeliveryMessage → P → Option Error × P)
      (sent : P → List DeliveryMessage)
      → Keeps dedup.client holds
      → Remembers (services dedup publish) (λ w. holds w.0) (λ w. sent w.1)
  unfolding mark_processed unmark
  services-Remembers dedup publish sent law = record {
    mark_sets = λ k w h. elim (marked_by-ok _ h) [
      | inl e ↦ (law.absent_sets k "1" dedup.ttl w.0 e).1
      | inr e ↦ law.absent_refused k "1" dedup.ttl w.0 e
    ];
    mark_sees =
        λ k w marked h. cc (marked, (law.absent_sets k "1" dedup.ttl w.0 (marked_by-true _ h)).0);
    mark_sends = λ k w. refl;
    unmark_clears = λ k w h. law.del_clears k w.0 (error_of_reply-none _ h);
    unmark_sends = λ k w. refl;
    publish_keeps = λ cmd w k. refl;
  }
