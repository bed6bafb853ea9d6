-- ===== src/Scanner/Departure.antt =====
-- What the scan of a repository does to the tables when GitHub answers with another repository:
-- internal/worker/scanner/processor.go with its store.
use software_engineering_sch.Prelude.{ℕ, ◌≡◌, true, false, Option, List, ◌==◌, Error}
use software_engineering_sch.Events.{Json, Stamp}
use software_engineering_sch.Db.{Repository, Subscription}
use software_engineering_sch.Db.Gorm.{Gorm}
use software_engineering_sch.Scanner.Store.{mark_moved_and_unsubscribe}
use software_engineering_sch.Scanner.Processor.{Remote, moved_events}
use software_engineering_sch.Scanner.Announce.{repository_answer}

module _ {W : Type 0} (g : Gorm) (json : Json) (stamps : ℕ → Stamp) (remote : Remote W) where
  -- What the processor asks the store for.
  abbrev pub move_write : Repository → List Subscription → g.Db → Option Error × g.Db
  move_write repo subs db =
      mark_moved_and_unsubscribe g json repo (moved_events json stamps repo subs) db

  -- GitHub answers 200, whatever the error of the answer, with another id than the stored one.
  pub record Mismatched (repo : Repository) (w : W) : Type 0 where
    pub answered : ((repository_answer g json stamps remote repo w).0.status_code == 200) ≡ true
    pub other_id :
        ((repository_answer g json stamps remote repo w).0.value.id == repo.github_id) ≡ false
