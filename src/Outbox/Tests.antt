-- ===== src/Outbox/Tests.antt =====
-- The relay on a database and a broker that never fail, and on a database that refuses deletes.
use software_engineering_sch.Prelude.{◌≡◌, refl, true, false, none, [], ◌∷◌, arith}
use software_engineering_sch.Db.{Contents, Row}
use software_engineering_sch.Db.Failing.{down, refusing_deletes}
use software_engineering_sch.Db.Reference.{reference, update_in, batch_in}
use software_engineering_sch.Outbox.Relay.{Relay, deliver}
use software_engineering_sch.Outbox.Order.{waiting, DeletesWork}
use software_engineering_sch.Outbox.Drain.{
  ReadsWork, PublishesWork, DeletesFail, deliver_drains, deliver_stuck,
}

abbrev first_row : Row
first_row = record { id = 1; deleted = false; routing_key = "release.detected"; payload = "r1" }

abbrev second_row : Row
second_row = record { id = 2; deleted = false; routing_key = "repository.moved"; payload = "m2" }

abbrev tables : Contents
tables = record {
  repositories = [];
  subscriptions = [];
  sagas = [];
  outbox = first_row ∷ second_row ∷ [];
}

abbrev relay : Relay {0} Unit
relay = record { publish = λ exchange key payload b. (none, b); batch_size = 1 }

works : DeletesWork reference
unfolding update_in
works k db = (_, refl)

reads : ReadsWork reference relay
unfolding batch_in
reads n db = (_, refl)

confirms : PublishesWork reference relay
confirms exchange key payload b = refl

deliver_drains_example :
    ((deliver reference relay 3 tables tt).returned ≡ true)
    × (waiting (deliver reference relay 3 tables tt).store ≡ [])
deliver_drains_example =
    deliver_drains reference relay works 3 tables tt reads confirms (omega arith) (refl, (refl, tt))
      (omega arith)

refuses : DeletesFail refusing_deletes relay
refuses k db = (down, refl)

deliver_stuck_example : (deliver refusing_deletes relay 100 tables tt).returned ≡ false
deliver_stuck_example =
    deliver_stuck refusing_deletes relay 100 tables tt reads confirms refuses (omega arith)
      (omega arith)
