-- ===== src/Redis.antt =====
-- internal/infra/redis: the cache and the dedup store over the client of go-redis, which is a
-- parameter. A context that is done shows as a failure of the call.
pub mod Laws
mod Tests
use software_engineering_sch.Prelude.{
  ℕ, zero, suc, ◌+◌, ◌-◌, ◌*◌, ◌/◌, ◌%◌, ◌^◌, ◌≤◌, ◌<◌, String, ◌≡◌, refl, sym, ap, ◌∙◌, subst, ◌≢◌,
  ◌↔◌, ◌⊎◌, inl, inr, Bool, true, false, ◌&&◌, ◌||◌, not, Option, none, some, List, [], ◌∷◌, ◌++◌,
  map, arith, str_eq, str_append, eq_iff, eq_refl, ltb, leb, ◌==◌, if◌then◌else◌, Bool-cases,
  Option-cases, length, take, filter, find?, any, map_where, All, All-append, All-map_where,
  All-imp, length-append, Error, record_not_found, already_settled, unknown_email_type, other,
  message, quoted, Result, ok, err, Result-cases, ltb→lt, lt→ltb, leb→le, ==_iff, ==_refl,
}
use software_engineering_sch.Github.Cache.{Cache}
use software_engineering_sch.Notifier.{Services}
use software_engineering_sch.Command.{DeliveryMessage}

-- An error of the client: redis.Nil, which is the reply to a missing key or to a condition that is
-- not met, or any other.
pub data ReplyError : Type 0 where
  missing : ReplyError
  failure : Error → ReplyError

abbrev pub as_error : ReplyError → Error
as_error missing = other "redis: nil"
as_error (failure e) = e

-- The commands that the code sends; a TTL is in nanoseconds.
pub record Client (R : Type 0) : Type 0 where
  pub get : String → R → (ReplyError ⊎ String) × R
  pub set : String → String → ℕ → R → Option ReplyError × R
  -- SetArgs with the mode NX
  pub set_absent : String → String → ℕ → R → Option ReplyError × R
  pub del : String → R → Option ReplyError × R

-- `Dedup`
pub record Dedup (R : Type 0) : Type 0 where
  pub client : Client R
  pub ttl : ℕ

unfoldable pub bytes : ReplyError ⊎ String → Result String
bytes (inl e) = err (as_error e)
bytes (inr text) = ok text

unfoldable pub error_of_reply : Option ReplyError → Option Error
error_of_reply none = none
error_of_reply (some e) = some (as_error e)

-- redis.Nil says that the key was there.
unfoldable pub marked_by : Option ReplyError → Result Bool
marked_by none = ok true
marked_by (some missing) = ok false
marked_by (some (failure e)) = err e

module _ {R : Type 0} (client : Client R) where
  unfoldable pub get : String → R → Result String × R
  unfolding bytes
  get key r = let (reply, r') = client.get key r in (bytes reply, r')

  unfoldable pub set : String → String → ℕ → R → Option Error × R
  unfolding error_of_reply
  set key value ttl r = let (e, r') = client.set key value ttl r in (error_of_reply e, r')

  -- The cache, as the GitHub client takes it.
  abbrev pub cache : Cache R
  cache = record { get = get; set = set }

module _ {R : Type 0} (dedup : Dedup R) where
  unfoldable pub mark_processed : String → R → Result Bool × R
  unfolding marked_by
  mark_processed key r =
      let (e, r') = dedup.client.set_absent key "1" dedup.ttl r in (marked_by e, r')

  unfoldable pub unmark : String → R → Option Error × R
  unfolding error_of_reply
  unmark key r = let (e, r') = dedup.client.del key r in (error_of_reply e, r')

  module _ {P : Type 0} (publish : DeliveryMessage → P → Option Error × P) where
    abbrev on_left : {A : Type 0} → (R → A × R) → R × P → A × (R × P)
    on_left f (r, p) = let (a, r') = f r in (a, (r', p))

    abbrev on_right : {A : Type 0} → (P → A × P) → R × P → A × (R × P)
    on_right f (r, p) = let (a, p') = f p in (a, (r, p'))

    -- The dedup store and a publisher, as the notifier takes them.
    abbrev pub services : Services (R × P)
    services = record {
      mark_processed = λ key w. on_left (mark_processed key) w;
      unmark = λ key w. on_left (unmark key) w;
      publish = λ cmd w. on_right (publish cmd) w;
    }
