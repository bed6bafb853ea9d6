-- ===== src/Saga/Tests.antt =====
-- The saga run on a database that never fails.
use software_engineering_sch.Prelude.{◌≡◌, refl, true, false, [], ◌∷◌, map, All, ok}
use software_engineering_sch.Events.{decode_verification_failed}
use software_engineering_sch.Events.Reference
use software_engineering_sch.Db.{
  Contents, OnboardingSaga, Subscription, awaiting_delivery, compensated, pending,
}
use software_engineering_sch.Db.Reference.{reference, first_in, find_in, update_in, transaction_in}
use software_engineering_sch.Broker.Settler.{Session, ack}
use software_engineering_sch.Saga.Store.{
  compensation, gorm_store, saga_state, compensate, stale_awaiting_tokens,
}
use software_engineering_sch.Saga.Contract.{gorm_store-IsSagaStore, IsSagaStore, stale_tokens}
use software_engineering_sch.Saga.Orchestrator.{process, compensate_saga}
use software_engineering_sch.Saga.Report.{report}
use software_engineering_sch.Saga.Settlement.{ProcessedBy, process-Processed, SettledBy}
use software_engineering_sch.Saga.Redelivery.{process_redelivered}
use software_engineering_sch.Saga.Reaper.{sweep, sweep-IsHandled, Swept, IsHandled}

abbrev awaiting : OnboardingSaga
awaiting = record {
  id = 1;
  deleted = false;
  created_at = 5;
  confirm_token = "t1";
  state = awaiting_delivery;
}

abbrev waiting : Subscription
waiting = record {
  id = 1;
  deleted = false;
  email = "a@b";
  repository_id = 7;
  status = pending;
  confirm_token = "t1";
  api_token = "";
}

abbrev onboarding : Contents
onboarding = record {
  repositories = [];
  subscriptions = waiting ∷ [];
  sagas = awaiting ∷ [];
  outbox = [];
}

abbrev session : Session Contents
session = record { store = onboarding; settled = [] }

law : IsSagaStore 100 (gorm_store reference 100) reference.contents
law = gorm_store-IsSagaStore reference 100

failed_report_acked :
    SettledBy session (process (gorm_store reference 100) Reference.reference "ft1" session) ack
unfolding process saga_state compensate first_in update_in transaction_in decode_verification_failed
    compensate_saga compensation
failed_report_acked = refl

failed_report_compensates :
    (process (gorm_store reference 100) Reference.reference "ft1" session).store ≡ record {
      repositories = [];
      subscriptions = record waiting { deleted = true } ∷ [];
      sagas = record awaiting { state = compensated } ∷ [];
      outbox = [];
    }
unfolding process saga_state compensate first_in update_in transaction_in decode_verification_failed
    compensate_saga compensation
failed_report_compensates = refl

gorm_store-IsSagaStore_example : IsSagaStore 100 (gorm_store reference 100) reference.contents
gorm_store-IsSagaStore_example = gorm_store-IsSagaStore reference 100

process-Processed_example :
    ProcessedBy law
      (report Reference.reference "ft1")
      session
      (process (gorm_store reference 100) Reference.reference "ft1" session)
process-Processed_example = process-Processed law Reference.reference "ft1" session

process_redelivered_example :
    (process
      (gorm_store reference 100)
      Reference.reference
      "ft1"
      (process (gorm_store reference 100) Reference.reference "ft1" session)).store
    ≡ (process (gorm_store reference 100) Reference.reference "ft1" session).store
process_redelivered_example =
    process_redelivered law Reference.reference "ft1" session failed_report_acked

stale_read : (stale_awaiting_tokens reference 100 50 onboarding).0 ≡ ok ("t1" ∷ [])
unfolding stale_awaiting_tokens find_in
stale_read = refl

sweep-IsHandled_example :
    (map (λ (l : Swept). l.token) (sweep (gorm_store reference 100) 50 onboarding).0
      ≡ stale_tokens 100 50 onboarding)
    × All
        (IsHandled law (sweep (gorm_store reference 100) 50 onboarding).1)
        (sweep (gorm_store reference 100) 50 onboarding).0
sweep-IsHandled_example = sweep-IsHandled law 50 onboarding stale_read
