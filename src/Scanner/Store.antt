-- ===== src/Scanner/Store.antt =====
-- internal/worker/scanner/store.go: the GORM-backed store of the scanner. The clock is read by each
-- call, and its time is a parameter.
use software_engineering_sch.Prelude.{
  ℕ, ◌+◌, Bool, true, ◌&&◌, not, Option, none, some, List, [], ◌∷◌, map, leb, ◌==◌, Error, Result,
  ok, err,
}
use software_engineering_sch.Events.{Json}
use software_engineering_sch.Db.{
  Repository, RepositoryStatus, Subscription, idle, processing, unsubscribed, is_active, is_idle,
}
use software_engineering_sch.Db.Gorm.{Gorm, repositories, subscriptions}
use software_engineering_sch.Outbox.{Event, error_of, insert_tx}
use software_engineering_sch.Handlers.Store.{one_of}

abbrev pub in_status : RepositoryStatus → Repository → Repository
in_status s r = record r { status = s }

-- last_scanned_at IS NULL OR last_scanned_at <= now - min_interval
abbrev pub is_due : ℕ → ℕ → Repository → Bool
is_due now min_interval r = elim r.last_scanned_at [
  | none ↦ true
  | some t ↦ leb (t + min_interval) now
]

abbrev pub claimable : ℕ → ℕ → Repository → Bool
claimable now min_interval r = is_idle r.status && is_due now min_interval r

abbrev pub claimed_at : ℕ → Repository → Repository
claimed_at now r = record r { status = processing; last_scanned_at = some now }

-- The columns that `UpdateScanStatus` writes, from the repository that was scanned.
abbrev pub scanned_as : ℕ → Repository → Repository → Repository
scanned_as now repo r = record r {
  status = idle;
  last_scanned_at = some now;
  etag = repo.etag;
  last_release = repo.last_release;
}

abbrev pub ids_of : Result (List Repository) → List ℕ
ids_of (ok rs) = map (λ (r : Repository). r.id) rs
ids_of (err e) = []

abbrev pub rows_or_none : Result (List Repository) → List Repository
rows_or_none (ok rs) = rs
rows_or_none (err e) = []

abbrev pub unsubscribed_from : Subscription → Subscription
unsubscribed_from s = record s { status = unsubscribed }

module _ (g : Gorm) where
  unfoldable pub recover_stuck_repos : g.Db → Option Error × g.Db
  recover_stuck_repos db =
      let (r, db') = g.update repositories (λ r. not (is_idle r.status)) (in_status idle) db in
      (error_of r, db')

  unfoldable pub mark_claimed : ℕ → Result (List Repository) → g.Db → Option Error × g.Db
  mark_claimed now (err e) tx = (some e, tx)
  mark_claimed now (ok []) tx = (none, tx)
  mark_claimed now (ok (r ∷ rs)) tx =
      let (u, tx') =
        g.update repositories (λ x. one_of (ids_of (ok (r ∷ rs))) x.id) (claimed_at now) tx in
      (error_of u, tx')

  -- The function that `ClaimIdle` runs in a transaction.
  unfoldable pub claim_body : ℕ → ℕ → ℕ → g.Db → Option Error × g.Db
  unfolding mark_claimed
  claim_body now batch_size min_interval tx =
      let (found, tx') = g.lock repositories (claimable now min_interval) batch_size tx in
      mark_claimed now found tx'

  -- The keys that it leaves in the variable `ids`.
  unfoldable pub claimed_ids : ℕ → ℕ → ℕ → g.Db → List ℕ
  claimed_ids now batch_size min_interval db =
      ids_of (g.lock repositories (claimable now min_interval) batch_size (g.begin db)).0

  -- The error of the last query is not looked at.
  unfoldable pub find_claimed : List ℕ → g.Db → List Repository × g.Db
  find_claimed [] db = ([], db)
  find_claimed (k ∷ ks) db =
      let (r, db') = g.find repositories (λ x. one_of (k ∷ ks) x.id) db in (rows_or_none r, db')

  unfoldable pub claim_result : Option Error → List ℕ → g.Db → Result (List Repository) × g.Db
  unfolding find_claimed
  claim_result (some e) ids db = (err e, db)
  claim_result none ids db = let (rs, db') = find_claimed ids db in (ok rs, db')

  unfoldable pub claim_idle : ℕ → ℕ → ℕ → g.Db → Result (List Repository) × g.Db
  unfolding claim_result claim_body claimed_ids
  claim_idle now batch_size min_interval db =
      let (e, db') = g.transaction (claim_body now batch_size min_interval) db in
      claim_result e (claimed_ids now batch_size min_interval db) db'

  unfoldable pub get_active_subscriptions : ℕ → g.Db → Result (List Subscription) × g.Db
  get_active_subscriptions repo_id db =
      g.find subscriptions (λ s. (s.repository_id == repo_id) && is_active s.status) db

  unfoldable pub write_scan : ℕ → Repository → g.Db → Option Error × g.Db
  write_scan now repo db =
      let (r, db') = g.update repositories (λ x. x.id == repo.id) (scanned_as now repo) db in
      (error_of r, db')

  unfoldable pub unsubscribe_all : Repository → g.Db → Option Error × g.Db
  unsubscribe_all repo db =
      let (r, db') =
        g.update subscriptions (λ s. s.repository_id == repo.id) unsubscribed_from db in
      (error_of r, db')

  unfoldable pub delete_after : Repository → Option Error → g.Db → Option Error × g.Db
  delete_after repo (some e) db = (some e, db)
  delete_after repo none db =
      let (r, db') = g.delete repositories (λ x. x.id == repo.id) db in (error_of r, db')

  -- `markMovedAndUnsubscribe`
  unfoldable pub write_move : Repository → g.Db → Option Error × g.Db
  unfolding unsubscribe_all delete_after
  write_move repo db = let (e, db') = unsubscribe_all repo db in delete_after repo e db'

  module _ (json : Json) where
    unfoldable pub insert_after : List Event → Option Error → g.Db → Option Error × g.Db
    insert_after events (some e) tx = (some e, tx)
    insert_after events none tx = insert_tx g json events tx

    -- A write alone if there are no events, and else a transaction with them.
    unfoldable pub write_with_events :
        (g.Db → Option Error × g.Db) → List Event → g.Db → Option Error × g.Db
    unfolding insert_after
    write_with_events write [] db = write db
    write_with_events write (e ∷ es) db =
        g.transaction (λ tx. let (x, tx') = write tx in insert_after (e ∷ es) x tx') db

    unfoldable pub update_scan_status : ℕ → Repository → List Event → g.Db → Option Error × g.Db
    unfolding write_with_events write_scan
    update_scan_status now repo events db = write_with_events (write_scan now repo) events db

    unfoldable pub mark_moved_and_unsubscribe : Repository → List Event → g.Db → Option Error × g.Db
    unfolding write_with_events write_move
    mark_moved_and_unsubscribe repo events db = write_with_events (write_move repo) events db
