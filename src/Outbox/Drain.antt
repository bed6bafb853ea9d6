-- ===== src/Outbox/Drain.antt =====
-- When the loop of internal/infra/outbox/relay.go ends, and when it does not.
use software_engineering_sch.Prelude.{
  ℕ, zero, suc, ◌≤◌, ◌<◌, String, ◌≡◌, refl, sym, ap, ◌∙◌, subst, inl, inr, Bool, true, false, ◌&&◌,
  none, List, [], ◌∷◌, ◌++◌, arith, leb, ◌==◌, Bool-cases, length, take, length-append, Error, ok,
  err, Result-cases,
}
use software_engineering_sch.Db.{Row}
use software_engineering_sch.Db.Gorm.{Gorm, outbox_rows}
use software_engineering_sch.Broker.Topology.{events_exchange}
use software_engineering_sch.Outbox.Relay.{Relayed, Relay, delete_row, pass, deliver}
use software_engineering_sch.Outbox.Order.{
  sent, waiting, Distinct, DeletesWork, batch-IsBatch, passed-sent, filter_all,
}

take_short : (n : ℕ) (xs : List Row) → length (take n xs) < n → take n xs ≡ xs
take_short zero xs h = absurd (omega arith)
take_short (suc n) [] h = refl
take_short (suc n) (x ∷ xs) h = ap (λ ys. x ∷ ys) (take_short n xs (omega arith))

length-take_full : (n : ℕ) (xs : List Row) → n ≤ length xs → length (take n xs) ≡ n
length-take_full zero xs h = refl
length-take_full (suc n) [] h = absurd (omega arith)
length-take_full (suc n) (x ∷ xs) h = ap suc (length-take_full n xs (omega arith))

nothing_left : (xs ys zs : List Row) → xs ≡ ys ++ zs → ys ≡ xs → zs ≡ []
nothing_left xs ys [] split whole = refl
nothing_left xs ys (z ∷ zs) split whole =
    absurd (omega (arith, ap length split, ap length whole, length-append ys (z ∷ zs)))

goes_on_means : (n k : ℕ) (c : Bool) → (leb 1 k && c && leb n k) ≡ true → (1 ≤ k) × (c ≡ true)
goes_on_means n k c h = ground arith

full_goes_on : (n k : ℕ) (c : Bool) → c ≡ true → k ≡ n → 1 ≤ n → (leb 1 k && c && leb n k) ≡ true
full_goes_on n k c whole full some_size = ground arith

stops_means : (n k : ℕ) (c : Bool) → (leb 1 k && c && leb n k) ≡ false → c ≡ true → 1 ≤ n → k < n
stops_means n k c h whole some_size = ground arith

module _ {ℓ} {B : Type ℓ} (g : Gorm) (relay : Relay B) where
  -- The database answers every query for a batch.
  abbrev pub ReadsWork : Type 0
  ReadsWork =
      (n : ℕ) (db : g.Db) → (rows : List Row) × ((g.batch outbox_rows (λ r. true) n db).0 ≡ ok rows)

  -- The broker confirms every message.
  abbrev pub PublishesWork : Type ℓ
  PublishesWork = (x k p : String) (b : B) → (relay.publish x k p b).0 ≡ none

  pass_complete :
      (rows : List Row) (db : g.Db) (b : B)
      → PublishesWork
      → (pass g relay rows db b).complete ≡ true
  unfolding pass
  pass_complete [] db b confirms = refl
  pass_complete (row ∷ rows) db b confirms =
      rw (pass, confirms events_exchange row.routing_key row.payload b)
        (pass_complete rows _ _ confirms)

  module _ (works : DeletesWork g) where
    shorter :
        (rows : List Row) (log : List Relayed) (before after : List Row)
        → before ≡ sent log ++ after
        → sent log ≡ rows
        → 1 ≤ length rows
        → length after < length before
    shorter rows log before after split whole some_row =
        omega (arith, ap length split, ap length whole, length-append (sent log) after)

    -- While deletes succeed `deliver` returns: one round of fuel for each row that waits, and one
    -- more, is enough, whether or not publishes and queries fail.
    pub deliver_returns :
        (f : ℕ) (db : g.Db) (b : B)
        → Distinct (waiting (g.contents db))
        → length (waiting (g.contents db)) < f
        → (deliver g relay f db b).returned ≡ true
    unfolding deliver
    deliver_returns zero db b apart h = absurd (omega arith)
    deliver_returns (suc f) db b apart h =
        let n = relay.batch_size in
        let db' = (g.batch outbox_rows (λ r. true) n db).1 in
        elim (Result-cases (g.batch outbox_rows (λ r. true) n db).0) [
          | inr (e, bad) ↦ rw (deliver, bad) refl
          | inl (rows, read) ↦
              let p = pass g relay rows db' b in
              let (split, apart', whole) =
                passed-sent g relay works db b rows (batch-IsBatch g relay works db rows read)
                  apart in
              elim (Bool-cases (leb 1 (length rows) && p.complete && leb n (length rows))) [
                | inr stops ↦ rw (deliver, read, stops) refl
                | inl goes_on ↦
                    let (some_row, complete) = goes_on_means n (length rows) p.complete goes_on in
                    let less = shorter rows p.log _ _ split (whole complete) some_row in
                    rw (deliver, read, goes_on)
                      (deliver_returns f p.store p.broker apart' (omega arith))
              ]
        ]

    drained :
        (f : ℕ) (db : g.Db) (b : B)
        → ReadsWork
        → PublishesWork
        → 1 ≤ relay.batch_size
        → Distinct (waiting (g.contents db))
        → length (waiting (g.contents db)) < f
        → waiting (g.contents (deliver g relay f db b).store) ≡ []
    unfolding deliver
    drained zero db b reads confirms some_size apart h = absurd (omega arith)
    drained (suc f) db b reads confirms some_size apart h =
        let n = relay.batch_size in
        let db' = (g.batch outbox_rows (λ r. true) n db).1 in
        let (rows, read) = reads n db in
        let p = pass g relay rows db' b in
        let complete = pass_complete rows db' b confirms in
        let batch = batch-IsBatch g relay works db rows read in
        let (split, apart', whole) = passed-sent g relay works db b rows batch apart in
        elim (Bool-cases (leb 1 (length rows) && p.complete && leb n (length rows))) [
          | inr stops ↦
              let short = stops_means n (length rows) p.complete stops complete some_size in
              let all_rows =
                batch.first
                ∙ take_short n (waiting (g.contents db))
                    (subst (λ k. k < n) (ap length batch.first) short) in
              rw (deliver, read, stops)
                (nothing_left _ (sent p.log) _ split (whole complete ∙ all_rows))
          | inl goes_on ↦
              let (some_row, done) = goes_on_means n (length rows) p.complete goes_on in
              let less = shorter rows p.log _ _ split (whole done) some_row in
              rw (deliver, read, goes_on)
                (drained f p.store p.broker reads confirms some_size apart' (omega arith))
        ]

    -- If nothing fails, the batch size is at least one, no two rows that wait have one key, and the
    -- fuel passes the number of these rows, then `deliver` returns, and it leaves an empty outbox.
    pub deliver_drains :
        (f : ℕ) (db : g.Db) (b : B)
        → ReadsWork
        → PublishesWork
        → 1 ≤ relay.batch_size
        → Distinct (waiting (g.contents db))
        → length (waiting (g.contents db)) < f
        → ((deliver g relay f db b).returned ≡ true)
          × (waiting (g.contents (deliver g relay f db b).store) ≡ [])
    deliver_drains f db b reads confirms some_size apart h =
        (deliver_returns f db b apart h, drained f db b reads confirms some_size apart h)

  -- The database refuses every delete of one row.
  abbrev pub DeletesFail : Type 0
  DeletesFail =
      (k : ℕ) (db : g.Db) → (e : Error) × ((g.delete outbox_rows (λ r. r.id == k) db).0 ≡ err e)

  pass-keeps :
      (rows : List Row) (db : g.Db) (b : B)
      → DeletesFail
      → PublishesWork
      → g.contents (pass g relay rows db b).store ≡ g.contents db
  unfolding pass delete_row
  pass-keeps [] db b refuses confirms = refl
  pass-keeps (row ∷ rows) db b refuses confirms =
      let (e, refused) = refuses row.id db in
      rw (pass, confirms events_exchange row.routing_key row.payload b)
        (pass-keeps rows (delete_row g relay row db).1 _ refuses confirms
          ∙ (g.delete_failed outbox_rows (λ r. r.id == row.id) db refused).0)

  -- If queries and publishes succeed and deletes do not, and the rows that wait fill a batch, `deliver`
  -- does not return, whatever the fuel.
  pub deliver_stuck :
      (f : ℕ) (db : g.Db) (b : B)
      → ReadsWork
      → PublishesWork
      → DeletesFail
      → 1 ≤ relay.batch_size
      → relay.batch_size ≤ length (waiting (g.contents db))
      → (deliver g relay f db b).returned ≡ false
  unfolding deliver
  deliver_stuck zero db b reads confirms refuses some_size full = refl
  deliver_stuck (suc f) db b reads confirms refuses some_size full =
      let n = relay.batch_size in
      let db' = (g.batch outbox_rows (λ r. true) n db).1 in
      let (rows, read) = reads n db in
      let p = pass g relay rows db' b in
      let complete = pass_complete rows db' b confirms in
      let front =
        g.batch_ok outbox_rows (λ r. true) n db read
        ∙ ap (take n) (filter_all (waiting (g.contents db))) in
      let many : length rows ≡ n =
        ap length front ∙ length-take_full n (waiting (g.contents db)) full in
      let goes_on : (leb 1 (length rows) && p.complete && leb n (length rows)) ≡ true =
        full_goes_on n (length rows) p.complete complete many some_size in
      let same =
        pass-keeps rows db' b refuses confirms ∙ g.batch_keeps outbox_rows (λ r. true) n db in
      rw (deliver, read, goes_on)
        (deliver_stuck f p.store p.broker reads confirms refuses some_size
          (subst (λ c. relay.batch_size ≤ length (waiting c)) (sym same) full))
