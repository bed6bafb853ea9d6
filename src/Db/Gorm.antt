-- ===== src/Db/Gorm.antt =====
-- What the code relies on of gorm and PostgreSQL. Neither is part of the repository, so both are a
-- parameter: the verbs that the code calls, over an abstract connection, and what each of them is
-- documented to do to the rows. A verb may fail at any call; `contents` is what a query could see.
use software_engineering_sch.Prelude.{
  ℕ, ◌≤◌, Within, take, String, ◌≡◌, refl, ◌⊎◌, Bool, true, false, ◌&&◌, ◌||◌, not, Option, none,
  some, List, [], ◌∷◌, ◌++◌, map, str_eq, ◌==◌, length, filter, find?, any, map_where, Error,
  record_not_found, already_settled, unknown_email_type, Result, ok, err,
}
use software_engineering_sch.Db.Schema.{Repository, Subscription, OnboardingSaga, Row, Contents}

-- A table as gorm sees it: its rows, the fields of gorm.Model, and its unique indexes.
pub record Model (R : Type 0) : Type 0 where
  pub rows : Contents → List R
  pub with_rows : List R → Contents → Contents
  pub id : R → ℕ
  pub with_id : ℕ → R → R
  pub deleted : R → Bool
  pub mark_deleted : R → R
  -- The two rows may not both be live: they agree on a unique index.
  pub clashes : R → R → Bool
  pub with_id_twice : (j k : ℕ) (r : R) → with_id j (with_id k r) ≡ with_id j r
  -- The row as the table holds it: a function of texts is applied to the columns of type jsonb.
  pub stored : (String → String) → R → R
  pub stored_same : (r : R) → stored (λ s. s) r ≡ r

module _ {R : Type 0} (m : Model R) where
  -- A default-scoped query does not see soft-deleted rows.
  abbrev pub live : Contents → List R
  live c = filter (λ r. not (m.deleted r)) (m.rows c)

  abbrev pub matching : (R → Bool) → R → Bool
  matching p r = not (m.deleted r) && p r

  -- UPDATE … WHERE p AND deleted_at IS NULL
  abbrev pub updated : (R → Bool) → (R → R) → Contents → Contents
  updated p f c = m.with_rows (map_where (matching p) f (m.rows c)) c

  -- INSERT
  abbrev pub inserted : R → Contents → Contents
  inserted r c = m.with_rows (m.rows c ++ (r ∷ [])) c

-- An error that the database or the driver made is none of the program's own sentinels.
abbrev pub IsForeign : Error → Type 0
IsForeign (already_settled s) = ⊥
IsForeign (unknown_email_type s) = ⊥
IsForeign _ = Unit

pub record Gorm : Type 1 where
  pub Db : Type 0
  pub contents : Db → Contents
  -- The text as which PostgreSQL keeps a value of type jsonb.
  pub jsonb : String → String
  pub first : {R : Type 0} → Model R → (R → Bool) → Db → Result R × Db
  pub find : {R : Type 0} → Model R → (R → Bool) → Db → Result (List R) × Db
  pub batch : {R : Type 0} → Model R → (R → Bool) → ℕ → Db → Result (List R) × Db
  pub lock : {R : Type 0} → Model R → (R → Bool) → ℕ → Db → Result (List R) × Db
  pub update : {R : Type 0} → Model R → (R → Bool) → (R → R) → Db → Result ℕ × Db
  pub delete : {R : Type 0} → Model R → (R → Bool) → Db → Result ℕ × Db
  pub create : {R : Type 0} → Model R → R → Db → Result R × Db
  pub create_all : {R : Type 0} → Model R → List R → Db → Result (List R) × Db
  pub save : {R : Type 0} → Model R → R → Db → Result R × Db
  pub begin : Db → Db
  pub transaction : (Db → Option Error × Db) → Db → Option Error × Db
  -- First: the live row that matches and has the least key, or ErrRecordNotFound.
  pub first_ok :
      {R : Type 0} (m : Model R) (p : R → Bool) (db : Db) {r : R}
      → (first m p db).0 ≡ ok r
      → find? p (live m (contents db)) ≡ some r
  pub first_missing :
      {R : Type 0} (m : Model R) (p : R → Bool) (db : Db) {t : String}
      → (first m p db).0 ≡ err (record_not_found t)
      → find? p (live m (contents db)) ≡ none
  pub first_keeps :
      {R : Type 0} (m : Model R) (p : R → Bool) (db : Db) → contents (first m p db).1 ≡ contents db
  -- Find: all of them, and no error when there is none.
  pub find_ok :
      {R : Type 0} (m : Model R) (p : R → Bool) (db : Db) {rs : List R}
      → (find m p db).0 ≡ ok rs
      → rs ≡ filter p (live m (contents db))
  pub find_keeps :
      {R : Type 0} (m : Model R) (p : R → Bool) (db : Db) → contents (find m p db).1 ≡ contents db
  -- Order("id").Limit(n).Find: the first of them in the order of their keys.
  pub batch_ok :
      {R : Type 0} (m : Model R) (p : R → Bool) (n : ℕ) (db : Db) {rs : List R}
      → (batch m p n db).0 ≡ ok rs
      → rs ≡ take n (filter p (live m (contents db)))
  pub batch_keeps :
      {R : Type 0} (m : Model R) (p : R → Bool) (n : ℕ) (db : Db)
      → contents (batch m p n db).1 ≡ contents db
  -- FOR UPDATE SKIP LOCKED with a limit: some of them, since rows that others have locked are
  -- skipped, in an order of another column.
  pub lock_ok :
      {R : Type 0} (m : Model R) (p : R → Bool) (n : ℕ) (db : Db) {rs : List R}
      → (lock m p n db).0 ≡ ok rs
      → Within rs (filter p (live m (contents db))) × (length rs ≤ n)
  pub lock_keeps :
      {R : Type 0} (m : Model R) (p : R → Bool) (n : ℕ) (db : Db)
      → contents (lock m p n db).1 ≡ contents db
  -- Update: RowsAffected counts the live rows that matched.
  pub update_rows :
      {R : Type 0} (m : Model R) (p : R → Bool) (f : R → R) (db : Db) {n : ℕ}
      → (update m p f db).0 ≡ ok n
      → contents (update m p f db).1 ≡ updated m p (λ r. m.stored jsonb (f r)) (contents db)
  pub update_count :
      {R : Type 0} (m : Model R) (p : R → Bool) (f : R → R) (db : Db) {n : ℕ}
      → (update m p f db).0 ≡ ok n
      → n ≡ length (filter p (live m (contents db)))
  pub update_failed :
      {R : Type 0} (m : Model R) (p : R → Bool) (f : R → R) (db : Db) {e : Error}
      → (update m p f db).0 ≡ err e
      → (contents (update m p f db).1 ≡ contents db) × IsForeign e
  -- Delete sets `deleted_at`.
  pub delete_rows :
      {R : Type 0} (m : Model R) (p : R → Bool) (db : Db) {n : ℕ}
      → (delete m p db).0 ≡ ok n
      → contents (delete m p db).1 ≡ updated m p m.mark_deleted (contents db)
  pub delete_failed :
      {R : Type 0} (m : Model R) (p : R → Bool) (db : Db) {e : Error}
      → (delete m p db).0 ≡ err e
      → (contents (delete m p db).1 ≡ contents db) × IsForeign e
  -- Create inserts the row, as the table holds it, under a key that was free, unless a unique index forbids it.
  pub create_rows :
      {R : Type 0} (m : Model R) (r : R) (db : Db) {r' : R}
      → (create m r db).0 ≡ ok r'
      → contents (create m r db).1 ≡ inserted m r' (contents db)
  pub create_row :
      {R : Type 0} (m : Model R) (r : R) (db : Db) {r' : R}
      → (create m r db).0 ≡ ok r'
      → (k : ℕ) × (r' ≡ m.with_id k (m.stored jsonb r))
        × (any (λ x. m.id x == k) (m.rows (contents db)) ≡ false)
  pub create_unique :
      {R : Type 0} (m : Model R) (r : R) (db : Db) {r' : R}
      → (create m r db).0 ≡ ok r'
      → any (m.clashes r) (live m (contents db)) ≡ false
  pub create_failed :
      {R : Type 0} (m : Model R) (r : R) (db : Db) {e : Error}
      → (create m r db).0 ≡ err e
      → (contents (create m r db).1 ≡ contents db) × IsForeign e
  -- Create of a slice inserts all of its rows, each under a key of its own, or none.
  pub create_all_rows :
      {R : Type 0} (m : Model R) (rs : List R) (db : Db) {rs' : List R}
      → (create_all m rs db).0 ≡ ok rs'
      → (contents (create_all m rs db).1 ≡ m.with_rows (m.rows (contents db) ++ rs') (contents db))
        × (map (m.with_id 0) rs' ≡ map (λ r. m.with_id 0 (m.stored jsonb r)) rs)
  pub create_all_failed :
      {R : Type 0} (m : Model R) (rs : List R) (db : Db) {e : Error}
      → (create_all m rs db).0 ≡ err e
      → (contents (create_all m rs db).1 ≡ contents db) × IsForeign e
  -- Save writes every column of the row that has the key; it is called on rows that were read.
  pub save_rows :
      {R : Type 0} (m : Model R) (r : R) (db : Db) {r' : R}
      → (save m r db).0 ≡ ok r'
      → any (λ x. m.id x == m.id r) (m.rows (contents db)) ≡ true
      → contents (save m r db).1
        ≡ m.with_rows
            (map_where (λ x. m.id x == m.id r) (λ _. m.stored jsonb r) (m.rows (contents db)))
            (contents db)
  pub save_failed :
      {R : Type 0} (m : Model R) (r : R) (db : Db) {e : Error}
      → (save m r db).0 ≡ err e
      → (contents (save m r db).1 ≡ contents db) × IsForeign e
  -- Transaction commits what the body did if the body returned nil, and otherwise rolls back.
  pub begin_keeps : (db : Db) → contents (begin db) ≡ contents db
  pub transaction_ok :
      (body : Db → Option Error × Db) (db : Db)
      → (transaction body db).0 ≡ none
      → ((body (begin db)).0 ≡ none)
        × (contents (transaction body db).1 ≡ contents (body (begin db)).1)
  pub transaction_failed :
      (body : Db → Option Error × Db) (db : Db) {e : Error}
      → (transaction body db).0 ≡ some e
      → (contents (transaction body db).1 ≡ contents db)
        × (((body (begin db)).0 ≡ some e) ⊎ IsForeign e)

abbrev pub repositories : Model Repository
repositories = record {
  rows = λ c. c.repositories;
  with_rows = λ rs c. record c { repositories = rs };
  id = λ r. r.id;
  with_id = λ k r. record r { id = k };
  deleted = λ r. r.deleted;
  mark_deleted = λ r. record r { deleted = true };
  clashes = λ r s. (r.github_id == s.github_id) || (str_eq r.owner s.owner && str_eq r.name s.name);
  with_id_twice = λ j k r. refl;
  stored = λ f r. r;
  stored_same = λ r. refl;
}

abbrev pub subscriptions : Model Subscription
subscriptions = record {
  rows = λ c. c.subscriptions;
  with_rows = λ rs c. record c { subscriptions = rs };
  id = λ r. r.id;
  with_id = λ k r. record r { id = k };
  deleted = λ r. r.deleted;
  mark_deleted = λ r. record r { deleted = true };
  clashes = λ r s.
      (str_eq r.email s.email && (r.repository_id == s.repository_id))
      || str_eq r.confirm_token s.confirm_token;
  with_id_twice = λ j k r. refl;
  stored = λ f r. r;
  stored_same = λ r. refl;
}

abbrev pub sagas : Model OnboardingSaga
sagas = record {
  rows = λ c. c.sagas;
  with_rows = λ rs c. record c { sagas = rs };
  id = λ r. r.id;
  with_id = λ k r. record r { id = k };
  deleted = λ r. r.deleted;
  mark_deleted = λ r. record r { deleted = true };
  clashes = λ r s. str_eq r.confirm_token s.confirm_token;
  with_id_twice = λ j k r. refl;
  stored = λ f r. r;
  stored_same = λ r. refl;
}

abbrev pub outbox_rows : Model Row
outbox_rows = record {
  rows = λ c. c.outbox;
  with_rows = λ rs c. record c { outbox = rs };
  id = λ r. r.id;
  with_id = λ k r. record r { id = k };
  deleted = λ r. r.deleted;
  mark_deleted = λ r. record r { deleted = true };
  clashes = λ r s. false;
  with_id_twice = λ j k r. refl;
  stored = λ f r. record r { payload = f r.payload };
  stored_same = λ r. refl;
}
