-- ===== src/Outbox.antt =====
-- internal/infra/outbox/outbox.go: events written by the transaction that produces them.
pub mod Relay
pub mod Order
pub mod Drain
pub mod Steps
mod Tests
use software_engineering_sch.Prelude.{
  String, ◌≡◌, refl, sym, ap, false, Option, none, some, List, [], ◌∷◌, ◌++◌, map, Error, Result,
  ok, err,
}
use mathlib.Core.List.{append-nil}
use software_engineering_sch.Events.{Envelope, Json, routing_key}
use software_engineering_sch.Db.{Row}
use software_engineering_sch.Db.Gorm.{Gorm, outbox_rows}

pub record Event : Type 0 where
  pub routing_key : String
  pub envelope : Envelope

-- `New` passes a constructor's error on.
unfoldable pub new : Result Envelope → Result Event
new (ok env) = ok (record { routing_key = routing_key env.event_type; envelope = env })
new (err e) = err e

-- The database gives the key.
abbrev pub row : String → String → Row
row key body = record { id = 0; deleted = false; routing_key = key; payload = body }

-- The loop of `InsertTx`: nothing is written unless every envelope has been marshalled.
unfoldable pub rows_of : Json → List Event → Result (List Row)
rows_of json [] = ok []
rows_of json (e ∷ es) =
    let rest = rows_of json es in
    elim (json.envelope.marshal e.envelope) [
      | err x ↦ err x
      | ok body ↦ elim rest [ err x ↦ err x | ok rows ↦ ok (row e.routing_key body ∷ rows) ]
    ]

abbrev pub error_of {ℓ} : {A : Type ℓ} → Result A → Option Error
error_of (ok a) = none
error_of (err e) = some e

pub error_of-none {ℓ} : {A : Type ℓ} (r : Result A) → error_of r ≡ none → (a : A) × (r ≡ ok a)
error_of-none (ok a) h = (a, refl)
error_of-none (err e) h = cc

pub error_of-some {ℓ} : {A : Type ℓ} (r : Result A) {e : Error} → error_of r ≡ some e → r ≡ err e
error_of-some (ok a) h = cc
error_of-some (err x) h = cc

module _ (g : Gorm) (json : Json) where
  insert_rows : Result (List Row) → g.Db → Option Error × g.Db
  insert_rows (err e) tx = (some e, tx)
  insert_rows (ok rows) tx = let (r, tx') = g.create_all outbox_rows rows tx in (error_of r, tx')

  unfoldable pub insert_tx : List Event → g.Db → Option Error × g.Db
  unfolding insert_rows
  insert_tx [] tx = (none, tx)
  insert_tx (e ∷ es) tx = insert_rows (rows_of json (e ∷ es)) tx

  insert_rows_done :
      (r : Result (List Row)) (tx : g.Db)
      → (insert_rows r tx).0 ≡ none
      → (rows : List Row) × (g.contents (insert_rows r tx).1
          ≡ outbox_rows.with_rows ((g.contents tx).outbox ++ rows) (g.contents tx))
  unfolding insert_rows
  insert_rows_done (err e) tx h = cc
  insert_rows_done (ok rows) tx h =
      let (rows', created) = error_of-none _ h in
      (rows', (g.create_all_rows outbox_rows rows tx created).0)

  -- A write that commits adds the events' rows at the end of the table, and nothing else.
  pub insert_tx_done :
      (events : List Event) (tx : g.Db)
      → (insert_tx events tx).0 ≡ none
      → (rows : List Row) × (g.contents (insert_tx events tx).1
          ≡ outbox_rows.with_rows ((g.contents tx).outbox ++ rows) (g.contents tx))
  unfolding insert_tx
  insert_tx_done [] tx h =
      ([], ap (λ rows. record (g.contents tx) { outbox = rows }) (sym (append-nil _)))
  insert_tx_done (e ∷ es) tx h = insert_rows_done (rows_of json (e ∷ es)) tx h

  -- The rows are those of the events, under keys that the database gave, with the payloads as the
  -- table holds them.
  pub record Queued (events : List Event) (rows : List Row) : Type 0 where
    pub made : List Row
    pub marshalled : rows_of json events ≡ ok made
    pub same :
        map (outbox_rows.with_id 0) rows
        ≡ map (λ r. outbox_rows.with_id 0 (outbox_rows.stored g.jsonb r)) made

  insert_rows-Queued :
      (r : Result (List Row)) (tx : g.Db)
      → (insert_rows r tx).0 ≡ none
      → (made : List Row) × (rows : List Row) × (r ≡ ok made)
        × (map (outbox_rows.with_id 0) rows
            ≡ map (λ r. outbox_rows.with_id 0 (outbox_rows.stored g.jsonb r)) made)
        × (g.contents (insert_rows r tx).1
            ≡ outbox_rows.with_rows ((g.contents tx).outbox ++ rows) (g.contents tx))
  unfolding insert_rows
  insert_rows-Queued (err e) tx h = cc
  insert_rows-Queued (ok made) tx h =
      let (rows, created) = error_of-none _ h in
      let (written, same) = g.create_all_rows outbox_rows made tx created in
      (made, rows, refl, same, written)

  -- A write that commits queues every event that it was given, in order, after the rows that wait.
  pub insert_tx-Queued :
      (events : List Event) (tx : g.Db)
      → (insert_tx events tx).0 ≡ none
      → (rows : List Row) × Queued events rows
        × (g.contents (insert_tx events tx).1
            ≡ outbox_rows.with_rows ((g.contents tx).outbox ++ rows) (g.contents tx))
  unfolding insert_tx rows_of
  insert_tx-Queued [] tx h = (
    [],
    record { made = []; marshalled = refl; same = refl },
    ap (λ rows. record (g.contents tx) { outbox = rows }) (sym (append-nil _)),
  )
  insert_tx-Queued (e ∷ es) tx h =
      let (made, rows, marshalled, same, written) =
        insert_rows-Queued (rows_of json (e ∷ es)) tx h in
      (rows, record { made = made; marshalled = marshalled; same = same }, written)

  pub Queued-nil : Queued [] []
  unfolding rows_of
  Queued-nil = record { made = []; marshalled = refl; same = refl }

  only_nil :
      (rows made : List Row)
      → rows_of json [] ≡ ok made
      → map (outbox_rows.with_id 0) rows
        ≡ map (λ r. outbox_rows.with_id 0 (outbox_rows.stored g.jsonb r)) made
      → rows ≡ []
  unfolding rows_of
  only_nil [] made m h = refl
  only_nil (r ∷ rows) [] m h = cc
  only_nil (r ∷ rows) (x ∷ made) m h = cc

  pub Queued-nil_rows : {rows : List Row} → Queued [] rows → rows ≡ []
  Queued-nil_rows {rows} q = only_nil rows q.made q.marshalled q.same
