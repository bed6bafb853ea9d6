-- ===== src/Scanner/Fleet/Tests.antt =====
-- Two scanners over the tables with one repository that is due.
use software_engineering_sch.Prelude.{◌≡◌, refl, arith, true, false, none, [], ◌∷◌, List}
use software_engineering_sch.Events.Reference
use software_engineering_sch.Db.{Contents, idle}
use software_engineering_sch.Db.Reference.{reference, update_in, batch_in, transaction_in, find_in}
use software_engineering_sch.Handlers.Store.{one_of}
use software_engineering_sch.Scanner.Store.{
  claim_body, claimed_ids, mark_claimed, claim_idle, claim_result, find_claimed,
  recover_stuck_repos,
}
use software_engineering_sch.Scanner.Fleet.{
  StoreCall, claiming, starting, claimed_by, claim_by, restart_by, call, call_each, fresh_fleet,
}
use software_engineering_sch.Scanner.Fleet.Held.{call_each-one_holder}
use software_engineering_sch.Scanner.Fleet.Spaced.{Spaced, call_each-Spaced}

abbrev due : Contents
due = record {
  repositories =
      record {
        id = 3;
        deleted = false;
        github_id = 42;
        etag = "e0";
        owner = "owner";
        name = "name";
        last_release = record { github_id = 1; tag_name = "v0"; etag = "r0" };
        status = idle;
        last_scanned_at = none;
      }
      ∷ [];
  subscriptions = [];
  sagas = [];
  outbox = [];
}

abbrev both_claim : List StoreCall
both_claim = claiming 0 100 10 ∷ claiming 1 1000 10 ∷ []

first_holds :
    one_of ((call_each reference Reference.reference 900 both_claim (fresh_fleet due 0)).held 0) 3
    ≡ true
unfolding call_each call claim_by claimed_by claimed_ids claim_idle claim_body mark_claimed batch_in
    update_in transaction_in claim_result find_claimed find_in
first_holds = refl

call_each-one_holder_example :
    one_of ((call_each reference Reference.reference 900 both_claim (fresh_fleet due 0)).held 1) 3
    ≡ false
call_each-one_holder_example =
    call_each-one_holder reference Reference.reference 900 both_claim due 0 0 1 3 (omega arith)
      (refl, (refl, tt)) first_holds

-- With a start of the second scanner in between, both hold the repository.
abbrev restarted : List StoreCall
restarted = claiming 0 100 10 ∷ starting 1 ∷ claiming 1 1000 10 ∷ []

restart_shares :
    (one_of ((call_each reference Reference.reference 900 restarted (fresh_fleet due 0)).held 0) 3
      ≡ true)
    × (one_of ((call_each reference Reference.reference 900 restarted (fresh_fleet due 0)).held 1) 3
        ≡ true)
unfolding call_each call claim_by restart_by claimed_by claimed_ids claim_idle claim_body
    mark_claimed batch_in update_in transaction_in claim_result find_claimed find_in
    recover_stuck_repos
restart_shares = (refl, refl)

call_each-Spaced_example :
    Spaced 900 (call_each reference Reference.reference 900 restarted (fresh_fleet due 0)).log
call_each-Spaced_example = call_each-Spaced reference Reference.reference 900 restarted due 0
