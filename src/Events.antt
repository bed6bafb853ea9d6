-- ===== src/Events.antt =====
-- internal/events/events.go: the event contracts published to the broker, and the JSON codec that
-- the services share. `encoding/json` is a parameter: a codec for each type that is written.
pub mod Reference
use software_engineering_sch.Prelude.{
  ℕ, zero, suc, ◌+◌, ◌-◌, ◌*◌, ◌^◌, ◌≤◌, ◌<◌, String, ◌≡◌, refl, sym, ap, ◌∙◌, subst, ◌≢◌, ◌↔◌, ◌⊎◌,
  inl, inr, Bool, true, false, ◌&&◌, ◌||◌, not, Option, none, some, List, [], ◌∷◌, ◌++◌, map, arith,
  str_eq, str_append, eq_iff, eq_refl, ltb, leb, ◌==◌, if◌then◌else◌, Bool-cases, Option-cases,
  length, take, filter, find?, any, map_where, All, All-append, All-map_where, All-imp,
  length-append, Error, record_not_found, already_settled, unknown_email_type, other, message,
  Result, ok, err, Result-cases, ltb→lt, lt→ltb, leb→le, ==_iff, ==_refl,
}

-- The event types. A type read from the wire may be any text: `unknown` stands for one that is none
-- of the known texts.
pub data EventType : Type 0 where
  release_detected repository_moved subscription_created : EventType
  verification_delivered verification_failed : EventType
  unknown : String → EventType

-- The broker's routing key of an event type is the type's own text.
abbrev pub routing_key : EventType → String
routing_key release_detected = "release.detected"
routing_key repository_moved = "repository.moved"
routing_key subscription_created = "subscription.created"
routing_key verification_delivered = "verification.delivered"
routing_key verification_failed = "verification.failed"
routing_key (unknown s) = s

abbrev pub version : ℕ
version = 1

pub record Envelope : Type 0 where
  pub id : String
  pub event_type : EventType
  pub occurred_at : ℕ
  pub version : ℕ
  pub payload : String

pub record ReleaseDetected : Type 0 where
  pub email : String
  pub repo : String
  pub release_tag : String

pub record RepositoryMoved : Type 0 where
  pub email : String
  pub repo : String

pub record SubscriptionCreated : Type 0 where
  pub email : String
  pub token : String

pub record VerificationDelivered : Type 0 where
  pub token : String

pub record VerificationFailed : Type 0 where
  pub token : String
  pub reason : String

-- `json.Marshal` and `json.Unmarshal` at one type: what was written is read back.
pub record Codec (A : Type 0) : Type 0 where
  pub marshal : A → Result String
  pub unmarshal : String → Result A
  pub round_trip : (a : A) (s : String) → marshal a ≡ ok s → unmarshal s ≡ ok a

pub record Json : Type 0 where
  pub envelope : Codec Envelope
  pub releases : Codec ReleaseDetected
  pub moves : Codec RepositoryMoved
  pub subscriptions : Codec SubscriptionCreated
  pub deliveries : Codec VerificationDelivered
  pub failures : Codec VerificationFailed

-- What `uuid.NewString()` and `time.Now()` return in one call.
pub record Stamp : Type 0 where
  pub uuid : String
  pub now : ℕ

enveloped : Stamp → EventType → Result String → Result Envelope
enveloped at t (ok body) = ok (record {
  id = at.uuid;
  event_type = t;
  occurred_at = at.now;
  version = version;
  payload = body;
})
enveloped at t (err e) = err (
    other
      (str_append "marshal " (str_append (routing_key t) (str_append " payload: " (message e)))))

unfoldable pub new_envelope : {A : Type 0} → Codec A → Stamp → EventType → A → Result Envelope
unfolding enveloped
new_envelope c at t p = enveloped at t (c.marshal p)

enveloped-ok :
    {A : Type 0} (c : Codec A) (at : Stamp) (t : EventType) (p : A) (r : Result String)
    → c.marshal p ≡ r
    → (env : Envelope) → enveloped at t r ≡ ok env
    → (env.event_type ≡ t) × (c.unmarshal env.payload ≡ ok p)
unfolding enveloped
enveloped-ok c at t p (ok s) wrote env h = (cc, cc (c.round_trip p s wrote))
enveloped-ok c at t p (err e) wrote env h = cc

-- The payload of a new envelope is read back as the value it was made of.
pub new_envelope-ok :
    {A : Type 0} (c : Codec A) (at : Stamp) (t : EventType) (p : A) {env : Envelope}
    → new_envelope c at t p ≡ ok env
    → (env.event_type ≡ t) × (c.unmarshal env.payload ≡ ok p)
unfolding new_envelope
new_envelope-ok c at t p h = enveloped-ok c at t p (c.marshal p) refl _ h

module _ (json : Json) (at : Stamp) where
  unfoldable pub new_release_detected : ReleaseDetected → Result Envelope
  unfolding new_envelope
  new_release_detected p = new_envelope json.releases at release_detected p

  unfoldable pub new_repository_moved : RepositoryMoved → Result Envelope
  unfolding new_envelope
  new_repository_moved p = new_envelope json.moves at repository_moved p

  unfoldable pub new_subscription_created : SubscriptionCreated → Result Envelope
  unfolding new_envelope
  new_subscription_created p = new_envelope json.subscriptions at subscription_created p

  unfoldable pub new_verification_delivered : VerificationDelivered → Result Envelope
  unfolding new_envelope
  new_verification_delivered p = new_envelope json.deliveries at verification_delivered p

  unfoldable pub new_verification_failed : VerificationFailed → Result Envelope
  unfolding new_envelope
  new_verification_failed p = new_envelope json.failures at verification_failed p

module _ (json : Json) (e : Envelope) where
  unfoldable pub decode_release_detected : Result ReleaseDetected
  decode_release_detected = json.releases.unmarshal e.payload

  unfoldable pub decode_repository_moved : Result RepositoryMoved
  decode_repository_moved = json.moves.unmarshal e.payload

  unfoldable pub decode_subscription_created : Result SubscriptionCreated
  decode_subscription_created = json.subscriptions.unmarshal e.payload

  unfoldable pub decode_verification_delivered : Result VerificationDelivered
  decode_verification_delivered = json.deliveries.unmarshal e.payload

  unfoldable pub decode_verification_failed : Result VerificationFailed
  decode_verification_failed = json.failures.unmarshal e.payload
