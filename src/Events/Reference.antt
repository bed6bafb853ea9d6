-- ===== src/Events/Reference.antt =====
-- A small codec to run the code on, and to show that the law of `Codec` can hold. It writes only the
-- values that the tests use.
use software_engineering_sch.Prelude.{
  String, ◌≡◌, refl, subst, Bool, true, false, ◌&&◌, arith, str_eq, eq_iff, ◌==◌, if◌then◌else◌,
  other, Result, ok, err,
}
use software_engineering_sch.Events.{
  EventType, Envelope, Json, Codec, release_detected, repository_moved, subscription_created,
  verification_delivered, verification_failed, unknown, ReleaseDetected, RepositoryMoved,
  SubscriptionCreated, VerificationDelivered, VerificationFailed,
}

module _ {A : Type 0} (test : A → Bool) (encode : A → String) (decode : String → Result A)
    (law : (a : A) → test a ≡ true → decode (encode a) ≡ ok a) where
  abbrev pub write_if : Bool → String → Result String
  write_if true s = ok s
  write_if false s = err (other "unsupported value")

  write_if-ok : (b : Bool) (s : String) {t : String} → write_if b s ≡ ok t → (b ≡ true) × (s ≡ t)
  write_if-ok true s h = (refl, cc)
  write_if-ok false s h = cc

  pub codec-round_trip :
      (a : A) (s : String) → write_if (test a) (encode a) ≡ ok s → decode s ≡ ok a
  codec-round_trip a s h =
      let (passed, same) = write_if-ok (test a) (encode a) h in
      subst (λ t. decode t ≡ ok a) same (law a passed)

  abbrev pub codec : Codec A
  codec = record {
    marshal = λ a. write_if (test a) (encode a);
    unmarshal = decode;
    round_trip = codec-round_trip;
  }

abbrev pub plain : EventType → String → Envelope
plain t payload = record {
  id = "1";
  event_type = t;
  occurred_at = 0;
  version = 1;
  payload = payload;
}

abbrev pub decode_type : String → String → Result Envelope
decode_type tag payload =
    if str_eq tag "r"
    then ok (plain release_detected payload)
    else if str_eq tag "m"
    then ok (plain repository_moved payload)
    else if str_eq tag "s"
    then ok (plain subscription_created payload)
    else if str_eq tag "d"
    then ok (plain verification_delivered payload)
    else if str_eq tag "f"
    then ok (plain verification_failed payload)
    else err (other "bad envelope")

abbrev pub decode_envelope : String → Result Envelope
decode_envelope String.[] = err (other "empty")
decode_envelope (String.◌∷◌ c rest) = decode_type (String.◌∷◌ c String.[]) rest

abbrev pub tagged : EventType → String → String
tagged release_detected s = String.◌∷◌ "r" s
tagged repository_moved s = String.◌∷◌ "m" s
tagged subscription_created s = String.◌∷◌ "s" s
tagged verification_delivered s = String.◌∷◌ "d" s
tagged verification_failed s = String.◌∷◌ "f" s
tagged (unknown t) s = s

abbrev pub is_known : EventType → Bool
is_known (unknown t) = false
is_known _ = true

abbrev pub plain_envelope : Envelope → Bool
plain_envelope e =
    is_known e.event_type && str_eq e.id "1" && (e.occurred_at == 0) && (e.version == 1)

tagged_law :
    (e : Envelope) (t : EventType)
    → e.event_type ≡ t
    → plain_envelope e ≡ true
    → decode_envelope (tagged t e.payload) ≡ ok e
tagged_law e release_detected same h = ground (arith, eq_iff e.id "1")
tagged_law e repository_moved same h = ground (arith, eq_iff e.id "1")
tagged_law e subscription_created same h = ground (arith, eq_iff e.id "1")
tagged_law e verification_delivered same h = ground (arith, eq_iff e.id "1")
tagged_law e verification_failed same h = ground (arith, eq_iff e.id "1")
tagged_law e (unknown t) same h = ground arith

pub envelope_law :
    (e : Envelope)
    → plain_envelope e ≡ true
    → decode_envelope (tagged e.event_type e.payload) ≡ ok e
envelope_law e h = tagged_law e e.event_type refl h

pub release_law :
    (p : ReleaseDetected)
    → (str_eq p.repo "owner/name" && str_eq p.release_tag "v1") ≡ true
    → ok (record { email = p.email; repo = "owner/name"; release_tag = "v1" }) ≡ ok p
release_law p h = ground (arith, eq_iff p.repo "owner/name", eq_iff p.release_tag "v1")

pub move_law :
    (p : RepositoryMoved)
    → str_eq p.repo "owner/name" ≡ true
    → ok (record { email = p.email; repo = "owner/name" }) ≡ ok p
move_law p h = ground (arith, eq_iff p.repo "owner/name")

pub subscription_law :
    (p : SubscriptionCreated)
    → str_eq p.email "a@b" ≡ true
    → ok (record { email = "a@b"; token = p.token }) ≡ ok p
subscription_law p h = ground (arith, eq_iff p.email "a@b")

pub failure_law :
    (p : VerificationFailed)
    → str_eq p.reason "down" ≡ true
    → ok (record { token = p.token; reason = "down" }) ≡ ok p
failure_law p h = ground (arith, eq_iff p.reason "down")

pub delivery_law :
    (p : VerificationDelivered) → true ≡ true → ok (record { token = p.token }) ≡ ok p
delivery_law p h = refl

abbrev pub reference : Json
reference = record {
  envelope = codec plain_envelope (λ e. tagged e.event_type e.payload) decode_envelope envelope_law;
  releases =
      codec (λ p. str_eq p.repo "owner/name" && str_eq p.release_tag "v1") (λ p. p.email)
        (λ s. ok (record { email = s; repo = "owner/name"; release_tag = "v1" })) release_law;
  moves =
      codec (λ p. str_eq p.repo "owner/name") (λ p. p.email)
        (λ s. ok (record { email = s; repo = "owner/name" })) move_law;
  subscriptions =
      codec (λ p. str_eq p.email "a@b") (λ p. p.token)
        (λ s. ok (record { email = "a@b"; token = s })) subscription_law;
  deliveries = codec (λ p. true) (λ p. p.token) (λ s. ok (record { token = s })) delivery_law;
  failures =
      codec (λ p. str_eq p.reason "down") (λ p. p.token)
        (λ s. ok (record { token = s; reason = "down" })) failure_law;
}
