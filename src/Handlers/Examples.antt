-- ===== src/Handlers/Examples.antt =====
-- The handlers on a database that never fails.
use software_engineering_sch.Prelude.{
  ℕ, zero, suc, false, String, refl, ◌≢◌, none, [], ◌∷◌, Result, ok,
}
use software_engineering_sch.Db.{Contents, Subscription, active}
use software_engineering_sch.Db.Reference.{reference}
use software_engineering_sch.Events.{subscription_created}
use software_engineering_sch.Events.Reference
use software_engineering_sch.Outbox.{Event}
use software_engineering_sch.Handlers.Text.{trim_space, bearer_token}
use software_engineering_sch.Handlers.Listing.{get_subscriptions}
use software_engineering_sch.Handlers.Disclosure.{Discloses, get_subscriptions-Discloses}
use software_engineering_sch.Handlers.Subscribe.{free_token}
use software_engineering_sch.Handlers.Tokens.{free_token_ends}

abbrev holder : Subscription
holder = record {
  id = 1;
  deleted = false;
  email = "a@b";
  repository_id = 7;
  status = active;
  confirm_token = "t1";
  api_token = "00112233445566778899aabbccddeeff";
}

abbrev tables : Contents
tables = record { repositories = []; subscriptions = holder ∷ []; sagas = []; outbox = [] }

get_subscriptions-Discloses_example :
    Discloses
      (trim_space " a@b ")
      (bearer_token "Bearer 00112233445566778899aabbccddeeff")
      tables
      (get_subscriptions reference " a@b " "Bearer 00112233445566778899aabbccddeeff" tables).0
get_subscriptions-Discloses_example =
    get_subscriptions-Discloses reference " a@b " "Bearer 00112233445566778899aabbccddeeff" tables

-- The first token is taken, the second is not.
abbrev tokens : ℕ → Result String
tokens zero = ok "t1"
tokens (suc n) = ok "t2"

free_token_ends_example : (free_token reference tokens 2 0 tables).0 ≢ none
free_token_ends_example = free_token_ends reference tokens 1 0 tables "t2" refl refl

abbrev created : Event
created = record {
  routing_key = "subscription.created";
  envelope = Reference.plain subscription_created "t3";
}
