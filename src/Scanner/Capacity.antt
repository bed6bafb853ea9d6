-- ===== src/Scanner/Capacity.antt =====
-- The queue of internal/worker/scanner never overflows: what a tick claims has a free place.
use software_engineering_sch.Prelude.{
  ℕ, zero, suc, ◌+◌, ◌-◌, ◌≤◌, ◌≡◌, refl, sym, ap, ◌∙◌, subst, inl, inr, Bool, true, false, ◌||◌,
  not, Option, List, [], ◌∷◌, ◌++◌, arith, ◌==◌, Bool-cases, Option-cases, length, filter, any,
  map_where, length-append, Result, ok, err,
}
use software_engineering_sch.Prelude.Int.{ℤ, pos, negsuc}
use software_engineering_sch.Db.{Repository}
use software_engineering_sch.Db.Gorm.{Gorm, repositories, matching, live}
use software_engineering_sch.Handlers.Store.{one_of}
use software_engineering_sch.Github.Limits.{RateLimits}
use software_engineering_sch.Scanner.Store.{
  claimed_at, claim_body, claimed_ids, claim_idle, claim_result, find_claimed, rows_or_none,
}
use software_engineering_sch.Scanner.Claims.{claim_done, length-claimed_ids}
use software_engineering_sch.Scanner.Quota.{Float, Quota, Clock, refresh}
use software_engineering_sch.Scanner.Producer.{
  Producer, is_nought, batch_size, send_all, send_claimed, produce_batch, produce_at, produce,
}

-- No two repositories have one key.
abbrev pub NoRepeat : List Repository → Type 0
NoRepeat [] = Unit
NoRepeat (x ∷ xs) = (any (λ (y : Repository). y.id == x.id) xs ≡ false) × NoRepeat xs

any-filter :
    {A : Type 0} (q p : A → Bool) (xs : List A) → any q xs ≡ false → any q (filter p xs) ≡ false
any-filter q p [] h = h
any-filter q p (x ∷ xs) h = let rest = any-filter q p xs in ground (arith, rest)

filter-NoRepeat :
    (p : Repository → Bool) (xs : List Repository) → NoRepeat xs → NoRepeat (filter p xs)
filter-NoRepeat p [] h = tt
filter-NoRepeat p (x ∷ xs) h = elim (Bool-cases (p x)) [
  | inl kept ↦ rw kept (any-filter (λ y. y.id == x.id) p xs h.0, filter-NoRepeat p xs h.1)
  | inr left_out ↦ rw left_out (filter-NoRepeat p xs h.1)
]

any-map_where :
    (k : ℕ) (p : Repository → Bool) (now : ℕ) (xs : List Repository)
    → any (λ (y : Repository). y.id == k) (map_where p (claimed_at now) xs)
      ≡ any (λ (y : Repository). y.id == k) xs
any-map_where k p now [] = refl
any-map_where k p now (x ∷ xs) = elim (Bool-cases (p x)) [
  | inl taken ↦ rw taken (ap (λ b. (x.id == k) || b) (any-map_where k p now xs))
  | inr free ↦ rw free (ap (λ b. (x.id == k) || b) (any-map_where k p now xs))
]

map_where-NoRepeat :
    (p : Repository → Bool) (now : ℕ) (xs : List Repository)
    → NoRepeat xs
    → NoRepeat (map_where p (claimed_at now) xs)
map_where-NoRepeat p now [] h = tt
map_where-NoRepeat p now (x ∷ xs) h = elim (Bool-cases (p x)) [
  | inl taken ↦ rw taken (any-map_where x.id p now xs ∙ h.0, map_where-NoRepeat p now xs h.1)
  | inr free ↦ rw free (any-map_where x.id p now xs ∙ h.0, map_where-NoRepeat p now xs h.1)
]

length-filter_none :
    {A : Type 0} (p : A → Bool) (xs : List A) → any p xs ≡ false → length (filter p xs) ≡ 0
length-filter_none p [] h = refl
length-filter_none p (x ∷ xs) h = let rest = length-filter_none p xs in ground (arith, rest)

length-filter_or :
    {A : Type 0} (p q : A → Bool) (xs : List A)
    → length (filter (λ x. p x || q x) xs) ≤ length (filter p xs) + length (filter q xs)
length-filter_or p q [] = omega arith
length-filter_or p q (x ∷ xs) = let rest = length-filter_or p q xs in ground (arith, rest)

any_swap :
    (k j : ℕ) (xs : List Repository)
    → (k == j) ≡ true
    → any (λ (y : Repository). y.id == j) xs ≡ false
    → any (λ (y : Repository). k == y.id) xs ≡ false
any_swap k j [] same h = refl
any_swap k j (x ∷ xs) same h = let rest = any_swap k j xs same in ground (arith, rest)

any_nothing : (xs : List Repository) → any (λ (x : Repository). one_of [] x.id) xs ≡ false
any_nothing [] = refl
any_nothing (x ∷ xs) = any_nothing xs

length-filter_key :
    (k : ℕ) (xs : List Repository)
    → NoRepeat xs
    → length (filter (λ (x : Repository). k == x.id) xs) ≤ 1
length-filter_key k [] h = omega arith
length-filter_key k (x ∷ xs) h = elim (Bool-cases (k == x.id)) [
  | inl same ↦
      let rest = length-filter_none _ xs (any_swap k x.id xs same h.0) in
      rw same (omega (arith, rest))
  | inr differs ↦ rw differs (length-filter_key k xs h.1)
]

length-filter_keys :
    (ids : List ℕ) (xs : List Repository)
    → NoRepeat xs
    → length (filter (λ (x : Repository). one_of ids x.id) xs) ≤ length ids
length-filter_keys [] xs h =
    let none_left = length-filter_none (λ (x : Repository). one_of [] x.id) xs (any_nothing xs) in
    omega (arith, none_left)
length-filter_keys (k ∷ ks) xs h =
    let one = length-filter_key k xs h in
    let rest = length-filter_keys ks xs h in
    let both = length-filter_or (λ (x : Repository). k == x.id) (λ x. one_of ks x.id) xs in
    omega (arith, one, rest, both)

length-send_all :
    (done : ℕ → Bool) (k : ℕ) (queue rs : List Repository)
    → length (send_all done k queue rs) ≤ length queue + length rs
unfolding send_all
length-send_all done k queue [] = omega arith
length-send_all done k queue (r ∷ rs) =
    let rest = length-send_all done (suc k) (queue ++ (r ∷ [])) rs in
    let longer = length-append queue (r ∷ []) in
    elim (Bool-cases (done k)) [
      | inl stops ↦ rw (send_all, stops) (omega arith)
      | inr goes ↦ rw (send_all, goes) (omega (arith, rest, longer))
    ]

length-batch_size : (size : ℤ) (free : ℕ) → batch_size size free ≤ free
unfolding batch_size
length-batch_size (negsuc n) free = omega arith
length-batch_size (pos n) free = ground arith

module _ (g : Gorm) where
  length-find_claimed :
      (ids : List ℕ) (db : g.Db)
      → NoRepeat (live repositories (g.contents db))
      → length (find_claimed g ids db).0 ≤ length ids
  unfolding find_claimed
  length-find_claimed [] db h = omega arith
  length-find_claimed (k ∷ ks) db h =
      rows_length (g.find repositories (λ x. one_of (k ∷ ks) x.id) db).0 refl
    where
      rows_length :
          (r : Result (List Repository))
          → (g.find repositories (λ x. one_of (k ∷ ks) x.id) db).0 ≡ r
          → length (rows_or_none r) ≤ length (k ∷ ks)
      rows_length (err e) read = omega arith
      rows_length (ok rs) read =
          subst (λ rows. length rows ≤ length (k ∷ ks)) (sym (g.find_ok repositories _ db read))
            (length-filter_keys (k ∷ ks) (live repositories (g.contents db)) h)

  length-claim_idle :
      (now size min_interval : ℕ) (db : g.Db)
      → NoRepeat (g.contents db).repositories
      → length (rows_or_none (claim_idle g now size min_interval db).0) ≤ size
  unfolding claim_idle claim_result
  length-claim_idle now size min_interval db h =
      elim (Option-cases (g.transaction (claim_body g now size min_interval) db).0) [
        | inr (e, failed) ↦ rw (claim_idle, failed) (omega arith)
        | inl committed ↦
            let ids = claimed_ids g now size min_interval db in
            let db' = (g.transaction (claim_body g now size min_interval) db).1 in
            let keyed : NoRepeat (live repositories (g.contents db')) =
              subst (λ c. NoRepeat (live repositories c))
                (sym (claim_done g now size min_interval db committed))
                (filter-NoRepeat (λ (r : Repository). not r.deleted) _
                  (map_where-NoRepeat (matching repositories (λ r. one_of ids r.id)) now _ h)) in
            let found = length-find_claimed ids db' keyed in
            rw (claim_idle, committed)
              (omega (arith, found, length-claimed_ids g now size min_interval db))
      ]

  module _ {F : Type 0} (f : Float F) (p : Producer) where
    length-send_claimed :
        (done : ℕ → Bool) (queue : List Repository) (r : Result (List Repository))
        → length (send_claimed f g p done queue r) ≤ length queue + length (rows_or_none r)
    unfolding send_claimed
    length-send_claimed done queue (err e) = omega arith
    length-send_claimed done queue (ok rs) = length-send_all done 0 queue rs

    length-produce_batch :
        (now : ℕ) (done : ℕ → Bool) (size : ℕ) (queue : List Repository) (db : g.Db)
        → NoRepeat (g.contents db).repositories
        → length (produce_batch f g p now done size queue db).0 ≤ length queue + size
    unfolding produce_batch
    length-produce_batch now done zero queue db h = omega arith
    length-produce_batch now done (suc n) queue db h =
        let sent =
          length-send_claimed done queue (claim_idle g now (suc n) p.min_check_interval db).0 in
        let claimed = length-claim_idle now (suc n) p.min_check_interval db h in
        omega (arith, sent, claimed)

    length-produce_at :
        (now : ℕ) (done : ℕ → Bool) (rps : F) (queue : List Repository) (db : g.Db)
        → NoRepeat (g.contents db).repositories
        → length queue ≤ p.capacity
        → length (produce_at f g p now done rps queue db).0 ≤ p.capacity
    unfolding produce_at
    length-produce_at now done rps queue db h fits =
        let wanted = f.ceil (f.mul rps (f.seconds p.producer_interval)) in
        let size = batch_size wanted (p.capacity - length queue) in
        let sent = length-produce_batch now done size queue db h in
        let small = length-batch_size wanted (p.capacity - length queue) in
        elim (Bool-cases (is_nought f g p rps)) [
          | inl stopped ↦ rw (produce_at, stopped) fits
          | inr goes ↦ rw (produce_at, goes) (omega (arith, sent, small, fits))
        ]

    -- A tick queues no more repositories than the queue has free places, whatever the rate is and however
    -- many are due, where no two rows have one key.
    pub length-produce :
        (clock : Clock) (limits : Option RateLimits) (now : ℕ) (done : ℕ → Bool) (q : Quota F)
        (queue : List Repository) (db : g.Db)
        → NoRepeat (g.contents db).repositories
        → length queue ≤ p.capacity
        → length (produce f g p clock limits now done q queue db).queue ≤ p.capacity
    unfolding produce
    length-produce clock limits now done q queue db h fits =
        length-produce_at now done (refresh f clock limits q).0 queue db h fits
