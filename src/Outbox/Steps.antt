-- ===== src/Outbox/Steps.antt =====
-- internal/infra/outbox/relay.go as steps of the specification of the onboarding saga: what the relay
-- deletes is beside the subscriptions and the sagas.
use software_engineering_sch.Prelude.{
  ℕ, zero, suc, sym, subst, inl, inr, true, ◌&&◌, List, [], ◌∷◌, leb, ◌==◌, Bool-cases,
  Option-cases, length, Result-cases,
}
use software_engineering_sch.Db.{Contents, Row}
use software_engineering_sch.Db.Gorm.{Gorm, outbox_rows}
use software_engineering_sch.Broker.Topology.{events_exchange}
use software_engineering_sch.Saga.Spec.{Reach, next, beside}
use software_engineering_sch.Outbox.Relay.{Relay, delete_row, pass, deliver, run}

module _ {ℓ} {B : Type ℓ} (g : Gorm) (relay : Relay B) where
  delete_row-Reach :
      {c : Contents} (row : Row) (db : g.Db)
      → Reach c (g.contents db)
      → Reach c (g.contents (delete_row g relay row db).1)
  unfolding delete_row
  delete_row-Reach {c} row db r =
      elim (Result-cases (g.delete outbox_rows (λ x. x.id == row.id) db).0) [
        | inl (n, done) ↦
            next r (beside _ _ (g.delete_rows outbox_rows (λ x. x.id == row.id) db done))
        | inr (e, bad) ↦
            subst (λ c'. Reach c c')
              (sym (g.delete_failed outbox_rows (λ x. x.id == row.id) db bad).0) r
      ]

  pass-Reach :
      {c : Contents} (rows : List Row) (db : g.Db) (b : B)
      → Reach c (g.contents db)
      → Reach c (g.contents (pass g relay rows db b).store)
  unfolding pass
  pass-Reach [] db b r = r
  pass-Reach (row ∷ rows) db b r =
      elim (Option-cases (relay.publish events_exchange row.routing_key row.payload b).0) [
        | inr (e, bad) ↦ rw (pass, bad) r
        | inl sent ↦ rw (pass, sent) (pass-Reach rows _ _ (delete_row-Reach row db r))
      ]

  deliver-Reach :
      {c : Contents} (fuel : ℕ) (db : g.Db) (b : B)
      → Reach c (g.contents db)
      → Reach c (g.contents (deliver g relay fuel db b).store)
  unfolding deliver
  deliver-Reach zero db b r = r
  deliver-Reach {c} (suc f) db b r =
      let db' = (g.batch outbox_rows (λ x. true) relay.batch_size db).1 in
      let read : Reach c (g.contents db') =
        subst (λ c'. Reach c c') (sym (g.batch_keeps outbox_rows (λ x. true) relay.batch_size db))
          r in
      elim (Result-cases (g.batch outbox_rows (λ x. true) relay.batch_size db).0) [
        | inr (e, bad) ↦ rw (deliver, bad) read
        | inl (rows, found) ↦
            let passed = pass g relay rows db' b in
            let swept = pass-Reach rows db' b read in
            elim (Bool-cases
              (leb 1 (length rows) && passed.complete && leb relay.batch_size (length rows))) [
                | inl again ↦
                    rw (deliver, found, again) (deliver-Reach f passed.store passed.broker swept)
                | inr ends ↦ rw (deliver, found, ends) swept
              ]
      ]

  -- Whatever the broker and the database answer, and for any fuel, the relay moves the tables by steps
  -- of the specification of the saga.
  pub run-Reach :
      {c : Contents} (fuel ticks : ℕ) (db : g.Db) (b : B)
      → Reach c (g.contents db)
      → Reach c (g.contents (run g relay fuel ticks db b).store)
  unfolding run
  run-Reach fuel zero db b r = deliver-Reach fuel db b r
  run-Reach fuel (suc ticks) db b r =
      run-Reach fuel ticks (deliver g relay fuel db b).store (deliver g relay fuel db b).broker
        (deliver-Reach fuel db b r)
