-- ===== src/Grpc/Tests.antt =====
-- The joined client and server at one command.
use software_engineering_sch.Prelude.{
  ◌≡◌, refl, Option, none, some, Error, other, [], ℕ, suc, Result, err,
}
use software_engineering_sch.Command.{DeliveryMessage, new_release}
use software_engineering_sch.Grpc.{
  DeliveryCommand, OutcomeCode, from_proto, to_proto, event_to_proto, proto_to_event, publish,
  publish_result,
}
use software_engineering_sch.Grpc.Delivery.{
  IsKept, Published, reaching, reaching-Carries, publish-Published,
}

-- It counts the deliveries.
abbrev counting : DeliveryMessage → ℕ → Option Error × ℕ
counting cmd n = (none, suc n)

abbrev release : DeliveryMessage
release = record { event = new_release; email = "a@b"; repo = "o/n"; release = "v1"; payload = [] }

release-IsKept : IsKept release
unfolding from_proto to_proto event_to_proto proto_to_event
release-IsKept = refl

publish-Published_example :
    Published counting
      (reaching counting)
      release
      0
      (publish (reaching counting) release 0).0
      (publish (reaching counting) release 0).1
publish-Published_example =
    publish-Published counting (reaching counting) release 0 (reaching-Carries counting)
      release-IsKept

-- The answer is lost after the mailer has delivered.
abbrev lossy : DeliveryCommand → ℕ → Result OutcomeCode × ℕ
lossy cmd n = (err (other "unavailable"), suc n)

lossy_fails : publish lossy release 0 ≡ (some (other "unavailable"), 1)
unfolding publish publish_result
lossy_fails = refl
