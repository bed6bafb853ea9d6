-- ===== src/Handlers/Refines.antt =====
-- The transaction that writes a subscription is a step of the saga's specification.
use software_engineering_sch.Prelude.{
  ℕ, String, ◌≡◌, refl, sym, ap, ◌∙◌, subst, true, false, not, Option, none, some, List, [], ◌∷◌,
  ◌++◌, ◌==◌, filter, any, Error, Result, ok, err,
}
use software_engineering_sch.Events.{Json}
use software_engineering_sch.Db.{Contents, OnboardingSaga, Subscription, Row, is_pending}
use software_engineering_sch.Db.Gorm.{Gorm, live, sagas, subscriptions, outbox_rows}
use software_engineering_sch.Outbox.{Event, Queued, error_of-none, error_of-some, insert_tx-Queued}
use software_engineering_sch.Handlers.Store.{
  Write, saving, creating, started_saga, write_row, queue_events, start_saga, write_body,
  write_subscription_tx, save_subscription, create_subscription,
}
use software_engineering_sch.Saga.Spec.{
  Step, Starts, restarts, starts, settles, with_saved, with_created, with_started,
}

-- The row stands in the table: it was read from there.
abbrev pub IsStored : Subscription → Contents → Type 0
IsStored sub c = any (λ x. x.id == sub.id) c.subscriptions ≡ true

abbrev pub WasRead : Write → Subscription → Contents → Type 0
WasRead saving sub c = IsStored sub c
WasRead creating sub c = Unit

-- The tables after the row was written; a new row gets its key from the database.
abbrev pub with_row : Write → ℕ → Subscription → Contents → Contents
with_row saving k sub c = with_saved sub c
with_row creating k sub c = with_created (record sub { id = k }) c

module _ (g : Gorm) (json : Json) where
  -- What a write with events leaves: the row is written, a saga that awaits its verification has
  -- begun, and the events are in the outbox, behind the rows that waited.
  pub record Begun (w : Write) (sub : Subscription) (events : List Event) (before after : Contents)
      : Type 0 where
    pub saga : OnboardingSaga
    pub key : ℕ
    pub rows : List Row
    pub begins : Starts saga sub before
    pub queued : Queued g json events rows
    pub tables : after ≡ with_started saga rows (with_row w key sub before)

  -- It is a step of the specification.
  pub Begun-Step :
      (w : Write) (sub : Subscription) (events : List Event) {before after : Contents}
      → Begun w sub events before after
      → Step before after
  Begun-Step saving sub events b = restarts sub b.saga b.rows b.begins b.tables
  Begun-Step creating sub events b =
      starts (record sub { id = b.key }) b.saga b.rows
        (record { token = b.begins.token; awaits = b.begins.awaits; fresh = b.begins.fresh })
        b.tables

module _ (g : Gorm) (json : Json) (now : ℕ) where
  write_row_done :
      (w : Write) (sub : Subscription) (db : g.Db)
      → WasRead w sub (g.contents db)
      → (write_row g json now w sub db).0 ≡ none
      → (k : ℕ) × (g.contents (write_row g json now w sub db).1 ≡ with_row w k sub (g.contents db))
  unfolding write_row
  write_row_done saving sub db stored h =
      let (r, saved) = error_of-none _ h in (0, g.save_rows subscriptions sub db saved stored)
  write_row_done creating sub db stored h =
      let (r, done) = error_of-none _ h in
      let (k, is_sub, _) = g.create_row subscriptions sub db done in
      (k, g.create_rows subscriptions sub db done ∙ ap (λ x. with_created x (g.contents db)) is_sub)

  write_row_failed :
      (w : Write) (sub : Subscription) (db : g.Db) {e : Error}
      → (write_row g json now w sub db).0 ≡ some e
      → g.contents (write_row g json now w sub db).1 ≡ g.contents db
  unfolding write_row
  write_row_failed saving sub db h = (g.save_failed subscriptions sub db (error_of-some _ h)).0
  write_row_failed creating sub db h = (g.create_failed subscriptions sub db (error_of-some _ h)).0

  queue_events_done :
      (events : List Event) (r : Result OnboardingSaga) (tx : g.Db)
      → (queue_events g json now events r tx).0 ≡ none
      → ((saga : OnboardingSaga) × (r ≡ ok saga))
        × ((rows : List Row) × Queued g json events rows
            × (g.contents (queue_events g json now events r tx).1
                ≡ outbox_rows.with_rows ((g.contents tx).outbox ++ rows) (g.contents tx)))
  unfolding queue_events
  queue_events_done events (err e) tx h = cc
  queue_events_done events (ok saga) tx h = ((saga, refl), insert_tx-Queued g json events tx h)

  -- The saga that a commit has started.
  abbrev saga_at : ℕ → String → OnboardingSaga
  saga_at k token = record (started_saga now token) { id = k }

  start_saga_done :
      (token : String) (events : List Event) (e : Option Error) (tx : g.Db)
      → (start_saga g json now token events e tx).0 ≡ none
      → (e ≡ none)
        × (any (sagas.clashes (started_saga now token)) (live sagas (g.contents tx)) ≡ false)
        × ((k : ℕ) × (rows : List Row) × Queued g json events rows
            × (g.contents (start_saga g json now token events e tx).1
                ≡ with_started (saga_at k token) rows (g.contents tx)))
  unfolding start_saga
  start_saga_done token events (some e) tx h = cc
  start_saga_done token events none tx h =
      let ((saga, made), (rows, are, queued)) = queue_events_done events _ _ h in
      let (k, is_saga, _) = g.create_row sagas (started_saga now token) tx made in
      (
        refl,
        g.create_unique sagas (started_saga now token) tx made,
        (
          k,
          rows,
          are,
          queued
              ∙ ap (λ (c : Contents). record c { outbox = c.outbox ++ rows })
                  (g.create_rows sagas (started_saga now token) tx made)
              ∙ ap (λ s. with_started s rows (g.contents tx)) is_saga,
        ),
      )

  with_row-sagas :
      (w : Write) (k : ℕ) (sub : Subscription) (c : Contents) → (with_row w k sub c).sagas ≡ c.sagas
  with_row-sagas saving k sub c = refl
  with_row-sagas creating k sub c = refl

  write_body-Begun :
      (w : Write) (sub : Subscription) (events : List Event) (tx : g.Db)
      → WasRead w sub (g.contents tx)
      → (write_body g json now w sub events tx).0 ≡ none
      → Begun g json w sub events
          (g.contents tx)
          (g.contents (write_body g json now w sub events tx).1)
  unfolding write_body
  write_body-Begun w sub events tx read h =
      let (written, fresh, (j, rows, are, begun)) =
        start_saga_done sub.confirm_token events _ _ h in
      let (k, row) = write_row_done w sub tx read written in
      let same_sagas =
        ap (λ (c : Contents). c.sagas) row ∙ with_row-sagas w k sub (g.contents tx) in
      record {
        saga = saga_at j sub.confirm_token;
        key = k;
        rows = rows;
        begins = record {
          token = refl;
          awaits = refl;
          fresh =
              subst
                (λ xs.
                  any (sagas.clashes (started_saga now sub.confirm_token))
                    (filter (λ s. not s.deleted) xs)
                  ≡ false)
                same_sagas fresh;
        };
        queued = are;
        tables = begun ∙ ap (with_started (saga_at j sub.confirm_token) rows) row;
      }

  -- A subscription write that returns nil has written the row, started its saga and queued its events.
  pub write_subscription_tx-Begun :
      (w : Write) (sub : Subscription) (events : List Event) (db : g.Db)
      → WasRead w sub (g.contents db)
      → (write_subscription_tx g json now w sub events db).0 ≡ none
      → Begun g json w sub events
          (g.contents db)
          (g.contents (write_subscription_tx g json now w sub events db).1)
  unfolding write_subscription_tx
  write_subscription_tx-Begun w sub events db read h =
      let (body, committed) = g.transaction_ok (write_body g json now w sub events) db h in
      let begun = g.begin_keeps db in
      rw committed (
        subst
          (λ c.
            Begun g json w sub events c
              (g.contents (write_body g json now w sub events (g.begin db)).1))
          begun
          (write_body-Begun w sub events (g.begin db) (subst (WasRead w sub) (sym begun) read)
            body))

  -- One that returns an error has written nothing.
  pub write_subscription_tx_failed :
      (w : Write) (sub : Subscription) (events : List Event) (db : g.Db) {e : Error}
      → (write_subscription_tx g json now w sub events db).0 ≡ some e
      → g.contents (write_subscription_tx g json now w sub events db).1 ≡ g.contents db
  unfolding write_subscription_tx
  write_subscription_tx_failed w sub events db h =
      (g.transaction_failed (write_body g json now w sub events) db h).0

  pub save_subscription_failed :
      (sub : Subscription) (events : List Event) (db : g.Db) {e : Error}
      → (save_subscription g json now sub events db).0 ≡ some e
      → g.contents (save_subscription g json now sub events db).1 ≡ g.contents db
  unfolding save_subscription
  save_subscription_failed sub [] db h = write_row_failed saving sub db h
  save_subscription_failed sub (x ∷ xs) db h = write_subscription_tx_failed saving sub (x ∷ xs) db h

  pub create_subscription_failed :
      (sub : Subscription) (events : List Event) (db : g.Db) {e : Error}
      → (create_subscription g json now sub events db).0 ≡ some e
      → g.contents (create_subscription g json now sub events db).1 ≡ g.contents db
  unfolding create_subscription
  create_subscription_failed sub [] db h = write_row_failed creating sub db h
  create_subscription_failed sub (x ∷ xs) db h =
      write_subscription_tx_failed creating sub (x ∷ xs) db h

  pub save_subscription_done :
      (sub : Subscription) (db : g.Db)
      → IsStored sub (g.contents db)
      → (save_subscription g json now sub [] db).0 ≡ none
      → g.contents (save_subscription g json now sub [] db).1 ≡ with_saved sub (g.contents db)
  unfolding save_subscription
  save_subscription_done sub db stored h = (write_row_done saving sub db stored h).1

  -- Saving a subscription that is not pending, with no event, is a step too.
  pub save_subscription_settles :
      (sub : Subscription) (db : g.Db)
      → is_pending sub.status ≡ false
      → IsStored sub (g.contents db)
      → (save_subscription g json now sub [] db).0 ≡ none
      → Step (g.contents db) (g.contents (save_subscription g json now sub [] db).1)
  save_subscription_settles sub db done stored h =
      settles sub done (save_subscription_done sub db stored h)
