-- ===== src/Scanner/Writes.antt =====
-- What the writes of internal/worker/scanner/store.go do to the tables, failures included.
use software_engineering_sch.Prelude.{
  ℕ, ◌≡◌, refl, sym, ap, ◌∙◌, subst, inl, inr, Option, none, some, List, [], ◌∷◌, ◌++◌, ◌==◌,
  Option-cases, Error, Result-cases,
}
use software_engineering_sch.Events.{Json}
use software_engineering_sch.Db.{Contents, Repository, Row}
use software_engineering_sch.Db.Gorm.{Gorm, updated, repositories, subscriptions}
use software_engineering_sch.Outbox.{
  Event, Queued, error_of-none, error_of-some, insert_tx-Queued, Queued-nil, Queued-nil_rows,
}
use mathlib.Core.List.{append-nil}
use software_engineering_sch.Saga.Spec.{Reach, next, beside, with_unsubscribed}
use software_engineering_sch.Scanner.Store.{
  scanned_as, unsubscribed_from, write_scan, unsubscribe_all, delete_after, write_move,
  insert_after, write_with_events, update_scan_status,
}

-- The tables with the rows at the end of the outbox.
abbrev pub queued : List Row → Contents → Contents
queued rows c = record c { outbox = c.outbox ++ rows }

-- The columns of a scan, written to the live row of the repository.
abbrev pub with_scan : ℕ → Repository → Contents → Contents
with_scan now repo c = updated repositories (λ x. x.id == repo.id) (scanned_as now repo) c

-- Every live subscription of the repository is unsubscribed, and the repository is deleted.
abbrev pub with_move : Repository → Contents → Contents
with_move repo c =
    updated repositories (λ x. x.id == repo.id) repositories.mark_deleted
      (with_unsubscribed (λ s. s.repository_id == repo.id) c)

module _ (g : Gorm) where
  write_scan_done :
      (now : ℕ) (repo : Repository) (db : g.Db)
      → (write_scan g now repo db).0 ≡ none
      → g.contents (write_scan g now repo db).1 ≡ with_scan now repo (g.contents db)
  unfolding write_scan
  write_scan_done now repo db h =
      let (n, done) = error_of-none _ h in
      g.update_rows repositories (λ x. x.id == repo.id) (scanned_as now repo) db done

  write_scan_failed :
      (now : ℕ) (repo : Repository) (db : g.Db) {e : Error}
      → (write_scan g now repo db).0 ≡ some e
      → g.contents (write_scan g now repo db).1 ≡ g.contents db
  unfolding write_scan
  write_scan_failed now repo db h =
      (g.update_failed repositories (λ x. x.id == repo.id) (scanned_as now repo) db
        (error_of-some _ h)).0

  -- The two statements of a move, of which the second may fail alone.
  pub data MoveWrite (repo : Repository) (before after : Contents) : Option Error → Type 0 where
    both : after ≡ with_move repo before → MoveWrite repo before after none
    neither : {e : Error} → after ≡ before → MoveWrite repo before after (some e)
    first_only :
        {e : Error}
        → after ≡ with_unsubscribed (λ s. s.repository_id == repo.id) before
        → MoveWrite repo before after (some e)

  delete_after-MoveWrite :
      (repo : Repository) (before : Contents) (e : Option Error) (db : g.Db)
      → (e ≡ none → g.contents db ≡ with_unsubscribed (λ s. s.repository_id == repo.id) before)
      → ((x : Error) → e ≡ some x → g.contents db ≡ before)
      → MoveWrite repo before (g.contents (delete_after g repo e db).1) (delete_after g repo e db).0
  unfolding delete_after
  delete_after-MoveWrite repo before (some e) db done failed = neither (failed e refl)
  delete_after-MoveWrite repo before none db done failed =
      elim (Result-cases (g.delete repositories (λ x. x.id == repo.id) db).0) [
        | inl (n, deleted) ↦ rw deleted (
            both (
              g.delete_rows repositories (λ x. x.id == repo.id) db deleted
              ∙ ap (λ c. updated repositories (λ x. x.id == repo.id) repositories.mark_deleted c)
                  (done refl)))
        | inr (x, bad) ↦ rw bad (
            first_only ((g.delete_failed repositories (λ x. x.id == repo.id) db bad).0 ∙ done refl))
      ]

  pub write_move-MoveWrite :
      (repo : Repository) (db : g.Db)
      → MoveWrite repo
          (g.contents db)
          (g.contents (write_move g repo db).1)
          (write_move g repo db).0
  unfolding write_move unsubscribe_all
  write_move-MoveWrite repo db =
      delete_after-MoveWrite repo (g.contents db) _ _
        (λ h.
          let (n, done) = error_of-none _ h in
          g.update_rows subscriptions (λ s. s.repository_id == repo.id) unsubscribed_from db done)
        (λ x h.
          (g.update_failed subscriptions (λ s. s.repository_id == repo.id) unsubscribed_from db
            (error_of-some _ h)).0)

  module _ (json : Json) where
    insert_after_done :
        (events : List Event) (e : Option Error) (tx : g.Db)
        → (insert_after g json events e tx).0 ≡ none
        → (e ≡ none)
          × ((rows : List Row) × Queued g json events rows
              × (g.contents (insert_after g json events e tx).1 ≡ queued rows (g.contents tx)))
    unfolding insert_after
    insert_after_done events (some e) tx h = cc
    insert_after_done events none tx h = (refl, insert_tx-Queued g json events tx h)

    -- The write with its events in one transaction.
    abbrev together : (g.Db → Option Error × g.Db) → List Event → g.Db → Option Error × g.Db
    together write events tx = let (x, tx') = write tx in insert_after g json events x tx'

    -- A write that does `done` when it returns nil does so with the events queued.
    pub write_with_events_done :
        (write : g.Db → Option Error × g.Db) (done : Contents → Contents) (events : List Event)
        (db : g.Db)
        → ((d : g.Db) → (write d).0 ≡ none → g.contents (write d).1 ≡ done (g.contents d))
        → (write_with_events g json write events db).0 ≡ none
        → (rows : List Row) × Queued g json events rows
          × (g.contents (write_with_events g json write events db).1
              ≡ queued rows (done (g.contents db)))
    unfolding write_with_events
    write_with_events_done write done [] db spec h = (
      [],
      Queued-nil g json,
      spec db h ∙ ap (λ rows. record (done (g.contents db)) { outbox = rows }) (sym (append-nil _)),
    )
    write_with_events_done write done (e ∷ es) db spec h =
        let (body, committed) = g.transaction_ok (together write (e ∷ es)) db h in
        let (wrote, (rows, is_queued, inserted)) = insert_after_done (e ∷ es) _ _ body in
        (
          rows,
          is_queued,
          committed
              ∙ inserted
              ∙ ap (λ c. queued rows c)
                  (spec (g.begin db) wrote ∙ ap (λ c. done c) (g.begin_keeps db)),
        )

    pub write_with_events_failed :
        (write : g.Db → Option Error × g.Db) (e : Event) (es : List Event) (db : g.Db) {x : Error}
        → (write_with_events g json write (e ∷ es) db).0 ≡ some x
        → g.contents (write_with_events g json write (e ∷ es) db).1 ≡ g.contents db
    unfolding write_with_events
    write_with_events_failed write e es db h =
        (g.transaction_failed (together write (e ∷ es)) db h).0

    -- A scan status that was written is written to the live row of the repository, with one row of
    -- the outbox for each event, in their order.
    pub update_scan_status_done :
        (now : ℕ) (repo : Repository) (events : List Event) (db : g.Db)
        → (update_scan_status g json now repo events db).0 ≡ none
        → (rows : List Row) × Queued g json events rows
          × (g.contents (update_scan_status g json now repo events db).1
              ≡ queued rows (with_scan now repo (g.contents db)))
    unfolding update_scan_status
    update_scan_status_done now repo events db h =
        write_with_events_done (write_scan g now repo) (with_scan now repo) events db
          (λ d k. write_scan_done now repo d k) h

    -- One that was not leaves the tables as they were.
    pub update_scan_status_failed :
        (now : ℕ) (repo : Repository) (events : List Event) (db : g.Db) {x : Error}
        → (update_scan_status g json now repo events db).0 ≡ some x
        → g.contents (update_scan_status g json now repo events db).1 ≡ g.contents db
    unfolding update_scan_status write_with_events
    update_scan_status_failed now repo [] db h = write_scan_failed now repo db h
    update_scan_status_failed now repo (e ∷ es) db h =
        write_with_events_failed (write_scan g now repo) e es db h

    -- A step that is beside the subscriptions, or none.
    pub update_scan_status-Reach :
        {c : Contents} (now : ℕ) (repo : Repository) (events : List Event) (db : g.Db)
        → Reach c (g.contents db)
        → Reach c (g.contents (update_scan_status g json now repo events db).1)
    update_scan_status-Reach {c} now repo events db r =
        elim (Option-cases (update_scan_status g json now repo events db).0) [
          | inl h ↦
              let (rows, is_queued, e) = update_scan_status_done now repo events db h in
              next r (beside _ _ e)
          | inr (x, h) ↦
              subst (λ c'. Reach c c') (sym (update_scan_status_failed now repo events db h)) r
        ]

    pub queued-nil : (rows : List Row) (c : Contents) → Queued g json [] rows → queued rows c ≡ c
    queued-nil rows c q =
        ap (λ rs. queued rs c) (Queued-nil_rows g json q)
        ∙ ap (λ rs. record c { outbox = rs }) (append-nil c.outbox)
