-- ===== src/Outbox/Order.antt =====
-- The order in which internal/infra/outbox/relay.go publishes, and that no row is lost or sent twice
-- while deletes succeed.
use software_engineering_sch.Prelude.{
  ℕ, zero, suc, ◌≡◌, refl, sym, ap, ◌∙◌, subst, inl, inr, true, false, ◌&&◌, not, none, some, List,
  [], ◌∷◌, ◌++◌, arith, ◌==◌, Bool-cases, Option-cases, take, filter, any, map_where, ok, ==_refl,
}
use software_engineering_sch.Db.{Contents, Row}
use software_engineering_sch.Db.Gorm.{Gorm, live, outbox_rows}
use software_engineering_sch.Broker.Topology.{events_exchange}
use software_engineering_sch.Outbox.Relay.{Relayed, Relay, delete_row, pass}

-- The rows whose publish was confirmed, in order.
abbrev pub sent : List Relayed → List Row
sent [] = []
sent (e ∷ es) = elim e.publish_error [ none ↦ e.row ∷ sent es | some x ↦ sent es ]

-- The rows that wait to be published.
abbrev pub waiting : Contents → List Row
waiting c = live outbox_rows c

-- No two rows have one key.
abbrev pub Distinct : List Row → Type 0
Distinct [] = Unit
Distinct (x ∷ xs) = (any (λ y. y.id == x.id) xs ≡ false) × Distinct xs

Distinct-append_right : (xs ys : List Row) → Distinct (xs ++ ys) → Distinct ys
Distinct-append_right [] ys h = h
Distinct-append_right (x ∷ xs) ys h = Distinct-append_right xs ys h.1

filter_others :
    (k : ℕ) (xs : List Row)
    → any (λ y. y.id == k) xs ≡ false
    → filter (λ y. not (y.id == k)) xs ≡ xs
filter_others k [] h = refl
filter_others k (x ∷ xs) h = let rest = filter_others k xs in ground (arith, rest)

filter_deleted :
    (k : ℕ) (rs : List Row)
    → filter
        (λ r. not r.deleted)
        (map_where (λ r. not r.deleted && (r.id == k)) (λ r. record r { deleted = true }) rs)
      ≡ filter (λ y. not (y.id == k)) (filter (λ r. not r.deleted) rs)
filter_deleted k [] = refl
filter_deleted k (r ∷ rs) = elim (Bool-cases r.deleted) [
  | inl gone ↦ simp gone (filter_deleted k rs)
  | inr lives ↦ elim (Bool-cases (r.id == k)) [
    | inl same ↦ simp (lives, same) (filter_deleted k rs)
    | inr other_key ↦ simp (lives, other_key) (ap (λ xs. r ∷ xs) (filter_deleted k rs))
  ]
]

take_prefix : (n : ℕ) (xs : List Row) → (rest : List Row) × (xs ≡ take n xs ++ rest)
take_prefix zero xs = (xs, refl)
take_prefix (suc n) [] = ([], refl)
take_prefix (suc n) (x ∷ xs) =
    let (rest, split) = take_prefix n xs in (rest, ap (λ ys. x ∷ ys) split)

pub filter_all : (xs : List Row) → filter (λ r. true) xs ≡ xs
filter_all [] = refl
filter_all (x ∷ xs) = ap (λ ys. x ∷ ys) (filter_all xs)

-- Every delete of one row succeeds.
abbrev pub DeletesWork : Gorm → Type 0
DeletesWork g =
    (k : ℕ) (db : g.Db) → (n : ℕ) × ((g.delete outbox_rows (λ r. r.id == k) db).0 ≡ ok n)

module _ {ℓ} {B : Type ℓ} (g : Gorm) (relay : Relay B) (works : DeletesWork g) where
  delete_row-waiting :
      (row : Row) (tail : List Row) (db : g.Db)
      → waiting (g.contents db) ≡ row ∷ tail
      → Distinct (row ∷ tail)
      → waiting (g.contents (delete_row g relay row db).1) ≡ tail
  unfolding delete_row
  delete_row-waiting row tail db shape apart =
      let (n, done) = works row.id db in
      ap (λ c. waiting c) (g.delete_rows outbox_rows (λ r. r.id == row.id) db done)
      ∙ filter_deleted row.id (g.contents db).outbox
      ∙ ap (λ xs. filter (λ y. not (y.id == row.id)) xs) shape
      ∙ rw (==_refl row.id) (filter_others row.id tail apart.0)

  -- A pass publishes a prefix of the waiting rows in order, and removes just that prefix.
  pass-sent :
      (rows rest : List Row) (db : g.Db) (b : B)
      → waiting (g.contents db) ≡ rows ++ rest
      → Distinct (rows ++ rest)
      → let p = pass g relay rows db b in
        (rows ++ rest ≡ sent p.log ++ waiting (g.contents p.store))
        × (p.complete ≡ true → sent p.log ≡ rows)
  unfolding pass
  pass-sent [] rest db b shape apart = (sym shape, λ h. refl)
  pass-sent (row ∷ rows) rest db b shape apart =
      elim (Option-cases (relay.publish events_exchange row.routing_key row.payload b).0) [
        | inr (e, bad) ↦ rw (pass, bad) (sym shape, λ h. cc h)
        | inl good ↦
            let removed = delete_row-waiting row (rows ++ rest) db shape apart in
            let (split, whole) =
              pass-sent rows rest (delete_row g relay row db).1
                (relay.publish events_exchange row.routing_key row.payload b).1 removed apart.1 in
            rw (pass, good) (ap (λ xs. row ∷ xs) split, λ h. ap (λ xs. row ∷ xs) (whole h))
      ]

  -- What a batch that was read is of the rows that wait.
  pub record IsBatch (db : g.Db) (rows : List Row) : Type 0 where
    pub rest : List Row
    pub shape :
        waiting (g.contents (g.batch outbox_rows (λ r. true) relay.batch_size db).1) ≡ rows ++ rest
    pub same : waiting (g.contents db) ≡ rows ++ rest
    pub first : rows ≡ take relay.batch_size (waiting (g.contents db))

  pub batch-IsBatch :
      (db : g.Db) (rows : List Row)
      → (g.batch outbox_rows (λ r. true) relay.batch_size db).0 ≡ ok rows
      → IsBatch db rows
  batch-IsBatch db rows read =
      let n = relay.batch_size in
      let (rest, split) = take_prefix n (waiting (g.contents db)) in
      let front : rows ≡ take n (waiting (g.contents db)) =
        g.batch_ok outbox_rows (λ r. true) n db read
        ∙ ap (take n) (filter_all (waiting (g.contents db))) in
      let whole : waiting (g.contents db) ≡ rows ++ rest =
        split ∙ ap (λ xs. xs ++ rest) (sym front) in
      record {
        rest = rest;
        shape = ap (λ c. waiting c) (g.batch_keeps outbox_rows (λ r. true) n db) ∙ whole;
        same = whole;
        first = front;
      }

  -- The batch that was read and passed: what was sent, and what waits then.
  pub passed-sent :
      (db : g.Db) (b : B) (rows : List Row) (read : IsBatch db rows)
      → Distinct (waiting (g.contents db))
      → let p = pass g relay rows (g.batch outbox_rows (λ r. true) relay.batch_size db).1 b in
        (waiting (g.contents db) ≡ sent p.log ++ waiting (g.contents p.store))
        × Distinct (waiting (g.contents p.store))
        × (p.complete ≡ true → sent p.log ≡ rows)
  passed-sent db b rows read apart =
      let db' = (g.batch outbox_rows (λ r. true) relay.batch_size db).1 in
      let p = pass g relay rows db' b in
      let (split, whole) =
        pass-sent rows read.rest db' b read.shape (subst Distinct read.same apart) in
      let all_split : waiting (g.contents db) ≡ sent p.log ++ waiting (g.contents p.store) =
        read.same ∙ split in
      (all_split, Distinct-append_right (sent p.log) _ (subst Distinct all_split apart), whole)
