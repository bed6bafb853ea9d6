-- ===== src/Scanner/Steps.antt =====
-- internal/worker/scanner/processor.go as steps of the specification of the onboarding saga: what a
-- scan writes is beside the sagas, whatever GitHub and the database answer.
use software_engineering_sch.Prelude.{
  ℕ, sym, subst, inl, inr, List, str_eq, ◌==◌, Bool-cases, Result, ok, err,
}
use software_engineering_sch.Events.{Json, Stamp}
use software_engineering_sch.Db.{Contents, Repository, Subscription}
use software_engineering_sch.Db.Gorm.{Gorm, subscriptions}
use software_engineering_sch.Saga.Spec.{Reach}
use software_engineering_sch.Github.Client.{Response, GithubRepository, LatestRelease}
use software_engineering_sch.Scanner.Store.{get_active_subscriptions}
use software_engineering_sch.Scanner.Processor.{
  Remote, moved_events, handle_new_release, found_release, on_release, check_release, on_repository,
  check_repository, finish, process_repo, handle_repo_moved, move_subscribers, is_limit_status,
}
use software_engineering_sch.Scanner.Writes.{update_scan_status-Reach}
use software_engineering_sch.Scanner.Moves.{mark_moved_and_unsubscribe-Reach}

module _ {W : Type 0} (g : Gorm) (json : Json) (stamps : ℕ → Stamp) (remote : Remote W) where
  get_active_subscriptions-Reach :
      {c : Contents} (repo : Repository) (db : g.Db)
      → Reach c (g.contents db)
      → Reach c (g.contents (get_active_subscriptions g repo.id db).1)
  unfolding get_active_subscriptions
  get_active_subscriptions-Reach {c} repo db r =
      subst (λ c'. Reach c c') (sym (g.find_keeps subscriptions _ db)) r

  move_subscribers-Reach :
      {c : Contents} (repo : Repository) (q : Result (List Subscription)) (db : g.Db)
      → Reach c (g.contents db)
      → Reach c (g.contents (move_subscribers g json stamps remote repo q db))
  unfolding move_subscribers
  move_subscribers-Reach repo (err e) db r = r
  move_subscribers-Reach repo (ok subs) db r =
      mark_moved_and_unsubscribe-Reach g json repo (moved_events json stamps repo subs) db r

  handle_repo_moved-Reach :
      {c : Contents} (repo : Repository) (db : g.Db)
      → Reach c (g.contents db)
      → Reach c (g.contents (handle_repo_moved g json stamps remote repo db))
  unfolding handle_repo_moved
  handle_repo_moved-Reach repo db r =
      move_subscribers-Reach repo _ _ (get_active_subscriptions-Reach repo db r)

  found_release-Reach :
      {c : Contents} (repo : Repository) (a : Response LatestRelease) (db : g.Db) (w : W)
      → Reach c (g.contents db)
      → Reach c (g.contents (found_release g json stamps remote repo a db w).store)
  unfolding found_release handle_new_release
  found_release-Reach repo a db w r =
      elim (Bool-cases (str_eq a.value.tag_name repo.last_release.tag_name)) [
        | inl same ↦ rw same r
        | inr differs ↦ rw differs (get_active_subscriptions-Reach repo db r)
      ]

  on_release-Reach :
      {c : Contents} (repo : Repository) (a : Response LatestRelease) (db : g.Db) (w : W)
      → Reach c (g.contents db)
      → Reach c (g.contents (on_release g json stamps remote repo a db w).store)
  unfolding on_release
  on_release-Reach repo a db w r = elim (Bool-cases (a.status_code == 200)) [
    | inl found ↦ rw found (found_release-Reach repo a db w r)
    | inr other_status ↦ elim (Bool-cases (is_limit_status a.status_code)) [
      | inl limited ↦ rw (other_status, limited) r
      | inr passed ↦ rw (other_status, passed) r
    ]
  ]

  check_release-Reach :
      {c : Contents} (repo : Repository) (db : g.Db) (w : W)
      → Reach c (g.contents db)
      → Reach c (g.contents (check_release g json stamps remote repo db w).store)
  unfolding check_release
  check_release-Reach repo db w r =
      let answer = remote.get_latest_release repo.owner repo.name repo.last_release.etag w in
      on_release-Reach repo answer.0 db answer.1 r

  on_repository-Reach :
      {c : Contents} (repo : Repository) (a : Response GithubRepository) (db : g.Db) (w : W)
      → Reach c (g.contents db)
      → Reach c (g.contents (on_repository g json stamps remote repo a db w).store)
  unfolding on_repository
  on_repository-Reach repo a db w r = elim (Bool-cases (a.status_code == 200)) [
    | inl found ↦ elim (Bool-cases (a.value.id == repo.github_id)) [
      | inl same ↦ rw (found, same) (check_release-Reach _ db w r)
      | inr moved ↦ rw (found, moved) (handle_repo_moved-Reach repo db r)
    ]
    | inr other_status ↦ elim (Bool-cases (a.status_code == 304)) [
      | inl unchanged ↦ rw (other_status, unchanged) (check_release-Reach repo db w r)
      | inr changed ↦ elim (Bool-cases (is_limit_status a.status_code)) [
        | inl limited ↦ rw (other_status, changed, limited) r
        | inr passed ↦ rw (other_status, changed, passed) r
      ]
    ]
  ]

  -- Whatever GitHub answers and whichever query or write fails, the tables after a scan are reached
  -- from the tables before it by steps of the specification of the saga.
  pub process_repo-Reach :
      {c : Contents} (now : ℕ) (repo : Repository) (db : g.Db) (w : W)
      → Reach c (g.contents db)
      → Reach c (g.contents (process_repo g json stamps remote now repo db w).store)
  unfolding process_repo check_repository finish
  process_repo-Reach now repo db w r = update_scan_status-Reach g json now _ _ _ (
      let answer = remote.get_repository repo.owner repo.name repo.etag w in
      on_repository-Reach repo answer.0 db answer.1 r)
