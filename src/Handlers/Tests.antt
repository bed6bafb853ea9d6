-- ===== src/Handlers/Tests.antt =====
-- Subscriptions written to a database that never fails.
use software_engineering_sch.Prelude.{◌≡◌, refl, false, none, some, [], ◌∷◌, other, ok}
use software_engineering_sch.Events.{subscription_created}
use software_engineering_sch.Events.Reference
use software_engineering_sch.Db.{Contents, Subscription, pending, active}
use software_engineering_sch.Db.Reference.{
  reference, create_in, create_all_in, save_in, transaction_in,
}
use software_engineering_sch.Outbox.{Event, insert_tx, rows_of}
use software_engineering_sch.Handlers.Store.{
  creating, write_subscription_tx, write_body, write_row, start_saga, queue_events,
  save_subscription,
}
use software_engineering_sch.Handlers.Text.{bearer_token}
use software_engineering_sch.Handlers.Confirm.{confirm, unsubscribe}
use software_engineering_sch.Handlers.Confirmation.{Confirms, confirm-Confirms}
use software_engineering_sch.Handlers.Unsubscription.{Unsubscribes, unsubscribe-Unsubscribes}

abbrev empty : Contents
empty = record { repositories = []; subscriptions = []; sagas = []; outbox = [] }

abbrev sub : Subscription
sub = record {
  id = 0;
  deleted = false;
  email = "a@b";
  repository_id = 7;
  status = pending;
  confirm_token = "t1";
  api_token = "";
}

abbrev created : Event
created = record {
  routing_key = "subscription.created";
  envelope = Reference.plain subscription_created "t1";
}

wrote_none :
    (write_subscription_tx reference Reference.reference 100 creating sub (created ∷ []) empty).0
    ≡ none
unfolding write_subscription_tx write_body write_row start_saga queue_events insert_tx rows_of
    create_in create_all_in transaction_in
wrote_none = refl

-- The tables where the token is already taken by another subscription.
abbrev taken : Contents
taken = record empty { subscriptions = record sub { id = 1; repository_id = 8 } ∷ [] }

refused :
    (write_subscription_tx reference Reference.reference 100 creating sub (created ∷ []) taken).0
    ≡ some (other "duplicate key value violates unique constraint")
unfolding write_subscription_tx write_body write_row start_saga queue_events create_in
    transaction_in
refused = refl

abbrev one_pending : Contents
one_pending = record empty {
  subscriptions = record sub { id = 1; confirm_token = "00112233445566778899aabbccddeeff" } ∷ [];
}

abbrev confirmed_sub : Subscription
confirmed_sub = record sub {
  id = 1;
  status = active;
  confirm_token = "00112233445566778899aabbccddeeff";
  api_token = "k";
}

saved_none :
    (save_subscription reference Reference.reference 100 confirmed_sub [] one_pending).0 ≡ none
unfolding save_subscription write_row save_in
saved_none = refl

confirm-Confirms_example :
    Confirms "00112233445566778899aabbccddeeff" one_pending
      (confirm reference Reference.reference 100
        (ok "k")
        "00112233445566778899aabbccddeeff"
        one_pending).1
      (confirm reference Reference.reference 100
        (ok "k")
        "00112233445566778899aabbccddeeff"
        one_pending).0
confirm-Confirms_example =
    confirm-Confirms reference Reference.reference 100 (ok "k") "00112233445566778899aabbccddeeff"
      one_pending

unsubscribe-Unsubscribes_example :
    Unsubscribes "00112233445566778899aabbccddeeff"
      (bearer_token "Bearer k")
      one_pending
      (unsubscribe reference Reference.reference 100 "00112233445566778899aabbccddeeff" "Bearer k"
        one_pending).1
      (unsubscribe reference Reference.reference 100 "00112233445566778899aabbccddeeff" "Bearer k"
        one_pending).0
unsubscribe-Unsubscribes_example =
    unsubscribe-Unsubscribes reference Reference.reference 100 "00112233445566778899aabbccddeeff"
      "Bearer k" one_pending
