-- ===== src/Db/Reference.antt =====
-- A database that never fails, to run the code on and to show that the laws of `Gorm` can hold.
use software_engineering_sch.Prelude.{
  ℕ, suc, ◌+◌, ◌≤◌, take, Within, take-Within, length-take, String, ◌≡◌, refl, sym, ap, ◌∙◌, subst,
  ◌⊎◌, inl, Bool, true, false, Option, none, some, List, [], ◌∷◌, ◌++◌, map, arith, ltb, ◌==◌,
  if◌then◌else◌, length, filter, find?, any, map_where, Error, record_not_found, other, Result, ok,
  err,
}
use mathlib.Core.Path.{fun_ext}
use software_engineering_sch.Db.Schema.{Contents}
use software_engineering_sch.Db.Gorm.{Gorm, Model, live, updated, inserted, IsForeign}

abbrev found {ℓ} : {A : Type ℓ} → Option A → Result A
found none = err (record_not_found "record not found")
found (some a) = ok a

abbrev next_id : {R : Type 0} → Model R → List R → ℕ
next_id m [] = 1
next_id m (r ∷ rs) = let k = next_id m rs in if ltb (m.id r) k then k else m.id r + 1

unfoldable pub first_in : {R : Type 0} → Model R → (R → Bool) → Contents → Result R × Contents
first_in m p c = (found (find? p (live m c)), c)

unfoldable pub find_in : {R : Type 0} → Model R → (R → Bool) → Contents → Result (List R) × Contents
find_in m p c = (ok (filter p (live m c)), c)

unfoldable pub batch_in :
    {R : Type 0} → Model R → (R → Bool) → ℕ → Contents → Result (List R) × Contents
batch_in m p n c = (ok (take n (filter p (live m c))), c)

unfoldable pub update_in :
    {R : Type 0} → Model R → (R → Bool) → (R → R) → Contents → Result ℕ × Contents
update_in m p f c = (ok (length (filter p (live m c))), updated m p f c)

pub update_in-failed :
    {R : Type 0} (m : Model R) (p : R → Bool) (f : R → R) (c : Contents) {e : Error}
    → (update_in m p f c).0 ≡ err e
    → ((update_in m p f c).1 ≡ c) × IsForeign e
unfolding update_in
update_in-failed m p f c h = cc

duplicate : Error
duplicate = other "duplicate key value violates unique constraint"

create_when : {R : Type 0} → Model R → R → Contents → Bool → Result R × Contents
unfolding duplicate
create_when m r c true = (err duplicate, c)
create_when m r c false = let r' = m.with_id (next_id m (m.rows c)) r in (ok r', inserted m r' c)

unfoldable pub create_in : {R : Type 0} → Model R → R → Contents → Result R × Contents
unfolding create_when
create_in m r c = create_when m r c (any (m.clashes r) (live m c))

numbered : {R : Type 0} → Model R → ℕ → List R → List R
numbered m k [] = []
numbered m k (r ∷ rs) = m.with_id k r ∷ numbered m (suc k) rs

unfoldable pub create_all_in :
    {R : Type 0} → Model R → List R → Contents → Result (List R) × Contents
unfolding numbered
create_all_in m rs c =
    let rs' = numbered m (next_id m (m.rows c)) rs in (ok rs', m.with_rows (m.rows c ++ rs') c)

unfoldable pub save_in : {R : Type 0} → Model R → R → Contents → Result R × Contents
save_in m r c = (ok r, m.with_rows (map_where (λ x. m.id x == m.id r) (λ _. r) (m.rows c)) c)

committed : Option Error × Contents → Contents → Option Error × Contents
committed (none, c') c = (none, c')
committed (some e, c') c = (some e, c)

unfoldable pub transaction_in :
    (Contents → Option Error × Contents) → Contents → Option Error × Contents
unfolding committed
transaction_in body c = committed (body c) c

module _ {R : Type 0} (m : Model R) where
  next_id-fresh : (rs : List R) (k : ℕ) → next_id m rs ≤ k → any (λ x. m.id x == k) rs ≡ false
  next_id-fresh [] k h = refl
  next_id-fresh (r ∷ rs) k h = ground (arith, next_id-fresh rs k)

  find?-found : (o : Option R) {r : R} → found o ≡ ok r → o ≡ some r
  find?-found none h = cc
  find?-found (some x) h = cc

  find?-missing : (o : Option R) {t : String} → found o ≡ err (record_not_found t) → o ≡ none
  find?-missing none h = refl
  find?-missing (some x) h = cc

  create_when-ok :
      (r : R) (c : Contents) (clash : Bool) {r' : R}
      → (create_when m r c clash).0 ≡ ok r'
      → (r' ≡ m.with_id (next_id m (m.rows c)) r)
        × ((create_when m r c clash).1 ≡ inserted m r' c)
        × (clash ≡ false)
  unfolding create_when
  create_when-ok r c true h = cc
  create_when-ok r c false {r'} h =
      let same : m.with_id (next_id m (m.rows c)) r ≡ r' = cc in
      (sym same, ap (λ x. inserted m x c) same, refl)

  create_when-failed :
      (r : R) (c : Contents) (clash : Bool) {e : Error}
      → (create_when m r c clash).0 ≡ err e
      → ((create_when m r c clash).1 ≡ c) × IsForeign e
  unfolding create_when
  create_when-failed r c true {e} h =
      let same : duplicate ≡ e = cc in (refl, subst IsForeign same tt)
  create_when-failed r c false h = cc

  map-numbered :
      (rs : List R) (k : ℕ)
      → map (m.with_id 0) (numbered m k rs) ≡ map (λ r. m.with_id 0 (m.stored (λ s. s) r)) rs
  unfolding numbered
  map-numbered [] k = refl
  map-numbered (r ∷ rs) k = cc (m.with_id_twice 0 k r, m.stored_same r, map-numbered rs (suc k))

committed_ok :
    (r : Option Error × Contents) (c : Contents)
    → (committed r c).0 ≡ none
    → (r.0 ≡ none) × ((committed r c).1 ≡ r.1)
unfolding committed
committed_ok (none, d) c h = (refl, refl)
committed_ok (some e, d) c h = cc

committed_failed :
    (r : Option Error × Contents) (c : Contents) {e : Error}
    → (committed r c).0 ≡ some e
    → ((committed r c).1 ≡ c) × ((r.0 ≡ some e) ⊎ IsForeign e)
unfolding committed
committed_failed (none, d) c h = cc
committed_failed (some x, d) c h = (refl, inl h)

module _ {R : Type 0} (m : Model R) where
  pub first_in-ok :
      (p : R → Bool) (c : Contents) {r : R}
      → (first_in m p c).0 ≡ ok r
      → find? p (live m c) ≡ some r
  unfolding first_in
  first_in-ok p c h = find?-found m _ h

  pub first_in-missing :
      (p : R → Bool) (c : Contents) {t : String}
      → (first_in m p c).0 ≡ err (record_not_found t)
      → find? p (live m c) ≡ none
  unfolding first_in
  first_in-missing p c h = find?-missing m _ h

  pub first_in-keeps : (p : R → Bool) (c : Contents) → (first_in m p c).1 ≡ c
  unfolding first_in
  first_in-keeps p c = refl

  pub find_in-ok :
      (p : R → Bool) (c : Contents) {rs : List R}
      → (find_in m p c).0 ≡ ok rs
      → rs ≡ filter p (live m c)
  unfolding find_in
  find_in-ok p c h = cc

  pub find_in-keeps : (p : R → Bool) (c : Contents) → (find_in m p c).1 ≡ c
  unfolding find_in
  find_in-keeps p c = refl

  pub batch_in-ok :
      (p : R → Bool) (n : ℕ) (c : Contents) {rs : List R}
      → (batch_in m p n c).0 ≡ ok rs
      → rs ≡ take n (filter p (live m c))
  unfolding batch_in
  batch_in-ok p n c h = cc

  pub batch_in-Within :
      (p : R → Bool) (n : ℕ) (c : Contents) {rs : List R}
      → (batch_in m p n c).0 ≡ ok rs
      → Within rs (filter p (live m c)) × (length rs ≤ n)
  batch_in-Within p n c {rs} h =
      subst (λ xs. Within xs (filter p (live m c)) × (length xs ≤ n)) (sym (batch_in-ok p n c h))
        (take-Within n (filter p (live m c)), length-take n (filter p (live m c)))

  pub batch_in-keeps : (p : R → Bool) (n : ℕ) (c : Contents) → (batch_in m p n c).1 ≡ c
  unfolding batch_in
  batch_in-keeps p n c = refl

  pub update_in-rows :
      (p : R → Bool) (f : R → R) (c : Contents) {n : ℕ}
      → (update_in m p f c).0 ≡ ok n
      → (update_in m p f c).1 ≡ updated m p (λ r. m.stored (λ s. s) (f r)) c
  unfolding update_in
  update_in-rows p f c h = ap (λ k. updated m p k c) (fun_ext (λ r. sym (m.stored_same (f r))))

  pub delete_in-rows :
      (p : R → Bool) (c : Contents) {n : ℕ}
      → (update_in m p m.mark_deleted c).0 ≡ ok n
      → (update_in m p m.mark_deleted c).1 ≡ updated m p m.mark_deleted c
  unfolding update_in
  delete_in-rows p c h = refl

  pub update_in-count :
      (p : R → Bool) (f : R → R) (c : Contents) {n : ℕ}
      → (update_in m p f c).0 ≡ ok n
      → n ≡ length (filter p (live m c))
  unfolding update_in
  update_in-count p f c h = cc

  pub create_in-rows :
      (r : R) (c : Contents) {r' : R}
      → (create_in m r c).0 ≡ ok r'
      → (create_in m r c).1 ≡ inserted m r' c
  unfolding create_in
  create_in-rows r c h = (create_when-ok m r c _ h).1

  pub create_in-row :
      (r : R) (c : Contents) {r' : R}
      → (create_in m r c).0 ≡ ok r'
      → (k : ℕ) × (r' ≡ m.with_id k (m.stored (λ s. s) r))
        × (any (λ x. m.id x == k) (m.rows c) ≡ false)
  unfolding create_in
  create_in-row r c h = (
    next_id m (m.rows c),
    (create_when-ok m r c _ h).0 ∙ ap (m.with_id _) (sym (m.stored_same r)),
    next_id-fresh m (m.rows c) _ (omega arith),
  )

  pub create_in_unique :
      (r : R) (c : Contents) {r' : R}
      → (create_in m r c).0 ≡ ok r'
      → any (m.clashes r) (live m c) ≡ false
  unfolding create_in
  create_in_unique r c h = (create_when-ok m r c _ h).2

  pub create_in-failed :
      (r : R) (c : Contents) {e : Error}
      → (create_in m r c).0 ≡ err e
      → ((create_in m r c).1 ≡ c) × IsForeign e
  unfolding create_in
  create_in-failed r c h = create_when-failed m r c _ h

  pub create_all_in-rows :
      (rs : List R) (c : Contents) {rs' : List R}
      → (create_all_in m rs c).0 ≡ ok rs'
      → ((create_all_in m rs c).1 ≡ m.with_rows (m.rows c ++ rs') c)
        × (map (m.with_id 0) rs' ≡ map (λ r. m.with_id 0 (m.stored (λ s. s) r)) rs)
  unfolding create_all_in
  create_all_in-rows rs c {rs'} h =
      let same : numbered m (next_id m (m.rows c)) rs ≡ rs' = cc in
      (
        ap (λ xs. m.with_rows (m.rows c ++ xs) c) same,
        subst (λ xs. map (m.with_id 0) xs ≡ map (λ r. m.with_id 0 (m.stored (λ s. s) r)) rs) same
            (map-numbered m rs (next_id m (m.rows c))),
      )

  pub create_all_in-failed :
      (rs : List R) (c : Contents) {e : Error}
      → (create_all_in m rs c).0 ≡ err e
      → ((create_all_in m rs c).1 ≡ c) × IsForeign e
  unfolding create_all_in
  create_all_in-failed rs c h = cc

  pub save_in-rows :
      (r : R) (c : Contents) {r' : R}
      → (save_in m r c).0 ≡ ok r'
      → any (λ x. m.id x == m.id r) (m.rows c) ≡ true
      → (save_in m r c).1
        ≡ m.with_rows (map_where (λ x. m.id x == m.id r) (λ _. m.stored (λ s. s) r) (m.rows c)) c
  unfolding save_in
  save_in-rows r c h held =
      ap (λ x. m.with_rows (map_where (λ y. m.id y == m.id r) (λ _. x) (m.rows c)) c)
        (sym (m.stored_same r))

  pub save_in-failed :
      (r : R) (c : Contents) {e : Error}
      → (save_in m r c).0 ≡ err e
      → ((save_in m r c).1 ≡ c) × IsForeign e
  unfolding save_in
  save_in-failed r c h = cc

pub transaction_in-ok :
    (body : Contents → Option Error × Contents) (c : Contents)
    → (transaction_in body c).0 ≡ none
    → ((body c).0 ≡ none) × ((transaction_in body c).1 ≡ (body c).1)
unfolding transaction_in
transaction_in-ok body c h = committed_ok (body c) c h

pub transaction_in-failed :
    (body : Contents → Option Error × Contents) (c : Contents) {e : Error}
    → (transaction_in body c).0 ≡ some e
    → ((transaction_in body c).1 ≡ c) × (((body c).0 ≡ some e) ⊎ IsForeign e)
unfolding transaction_in
transaction_in-failed body c h = committed_failed (body c) c h

abbrev pub reference : Gorm
reference = record {
  Db = Contents;
  contents = λ c. c;
  jsonb = λ s. s;
  first = first_in;
  find = find_in;
  batch = batch_in;
  lock = batch_in;
  update = update_in;
  delete = λ m p c. update_in m p m.mark_deleted c;
  create = create_in;
  create_all = create_all_in;
  save = save_in;
  begin = λ c. c;
  transaction = transaction_in;
  first_ok = first_in-ok;
  first_missing = first_in-missing;
  first_keeps = first_in-keeps;
  find_ok = find_in-ok;
  find_keeps = find_in-keeps;
  batch_ok = batch_in-ok;
  batch_keeps = batch_in-keeps;
  lock_ok = batch_in-Within;
  lock_keeps = batch_in-keeps;
  update_rows = update_in-rows;
  update_count = update_in-count;
  update_failed = update_in-failed;
  delete_rows = delete_in-rows;
  delete_failed = λ m p c. update_in-failed m p m.mark_deleted c;
  create_rows = create_in-rows;
  create_row = create_in-row;
  create_unique = create_in_unique;
  create_failed = create_in-failed;
  create_all_rows = create_all_in-rows;
  create_all_failed = create_all_in-failed;
  save_rows = save_in-rows;
  save_failed = save_in-failed;
  begin_keeps = λ c. refl;
  transaction_ok = transaction_in-ok;
  transaction_failed = transaction_in-failed;
}
