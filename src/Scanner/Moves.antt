-- ===== src/Scanner/Moves.antt =====
-- The write of internal/worker/scanner/store.go for a repository that has moved: the unsubscriptions,
-- the deletion and the notices.
use software_engineering_sch.Prelude.{
  ◌≡◌, sym, subst, inl, inr, Option, none, some, List, [], ◌∷◌, ◌==◌, Option-cases, Error,
}
use software_engineering_sch.Events.{Json}
use software_engineering_sch.Db.{Contents, Repository, Row}
use software_engineering_sch.Db.Gorm.{Gorm}
use software_engineering_sch.Outbox.{Event, Queued}
use software_engineering_sch.Saga.Spec.{Reach, next, unsubscribes}
use software_engineering_sch.Scanner.Store.{
  write_move, write_with_events, mark_moved_and_unsubscribe,
}
use software_engineering_sch.Scanner.Writes.{
  queued, with_move, MoveWrite, both, neither, first_only, write_move-MoveWrite,
  write_with_events_done, write_with_events_failed,
}

module _ (g : Gorm) (json : Json) where
  write_move_done :
      (repo : Repository) (db : g.Db)
      → (write_move g repo db).0 ≡ none
      → g.contents (write_move g repo db).1 ≡ with_move repo (g.contents db)
  write_move_done repo db h = of_write (write_move-MoveWrite g repo db) h
    where
      of_write :
          {e : Option Error} {after : Contents}
          → MoveWrite g repo (g.contents db) after e
          → e ≡ none
          → after ≡ with_move repo (g.contents db)
      of_write (both k) h = k
      of_write (neither k) h = cc
      of_write (first_only k) h = cc

  -- A move that was written unsubscribes every live subscription of the repository, deletes the
  -- repository, and puts one row in the outbox for each event, all or nothing.
  pub mark_moved_and_unsubscribe_done :
      (repo : Repository) (events : List Event) (db : g.Db)
      → (mark_moved_and_unsubscribe g json repo events db).0 ≡ none
      → (rows : List Row) × Queued g json events rows
        × (g.contents (mark_moved_and_unsubscribe g json repo events db).1
            ≡ queued rows (with_move repo (g.contents db)))
  unfolding mark_moved_and_unsubscribe
  mark_moved_and_unsubscribe_done repo events db h =
      write_with_events_done g json (write_move g repo) (with_move repo) events db
        (λ d k. write_move_done repo d k) h

  -- With a notice to send, a move that failed leaves the tables as they were.
  pub mark_moved_and_unsubscribe_failed :
      (repo : Repository) (event : Event) (events : List Event) (db : g.Db) {x : Error}
      → (mark_moved_and_unsubscribe g json repo (event ∷ events) db).0 ≡ some x
      → g.contents (mark_moved_and_unsubscribe g json repo (event ∷ events) db).1 ≡ g.contents db
  unfolding mark_moved_and_unsubscribe
  mark_moved_and_unsubscribe_failed repo event events db h =
      write_with_events_failed g json (write_move g repo) event events db h

  write_move-Reach :
      {c after : Contents} {e : Option Error} (repo : Repository) (db : g.Db)
      → MoveWrite g repo (g.contents db) after e
      → Reach c (g.contents db)
      → Reach c after
  write_move-Reach repo db (both k) r =
      next r (unsubscribes (λ s. s.repository_id == repo.id) _ _ k)
  write_move-Reach {c} repo db (neither k) r = subst (λ c'. Reach c c') (sym k) r
  write_move-Reach repo db (first_only k) r =
      next r (unsubscribes (λ s. s.repository_id == repo.id) _ _ k)

  -- Whether it fails or not, the move is one step of the specification, or none.
  pub mark_moved_and_unsubscribe-Reach :
      {c : Contents} (repo : Repository) (events : List Event) (db : g.Db)
      → Reach c (g.contents db)
      → Reach c (g.contents (mark_moved_and_unsubscribe g json repo events db).1)
  unfolding mark_moved_and_unsubscribe write_with_events
  mark_moved_and_unsubscribe-Reach repo [] db r =
      write_move-Reach repo db (write_move-MoveWrite g repo db) r
  mark_moved_and_unsubscribe-Reach {c} repo (event ∷ events) db r =
      elim (Option-cases (mark_moved_and_unsubscribe g json repo (event ∷ events) db).0) [
        | inl h ↦
            let (rows, is_queued, e) = mark_moved_and_unsubscribe_done repo (event ∷ events) db h in
            next r (unsubscribes (λ s. s.repository_id == repo.id) _ _ e)
        | inr (x, h) ↦
            subst (λ c'. Reach c c')
              (sym (mark_moved_and_unsubscribe_failed repo event events db h)) r
      ]
