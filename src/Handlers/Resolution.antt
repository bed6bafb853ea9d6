-- ===== src/Handlers/Resolution.antt =====
-- What a subscription request of internal/transport/http/handlers/subscription.go does before it writes
-- the subscription: the repository is found or made, and a free token is looked for.
use software_engineering_sch.Prelude.{
  ℕ, zero, suc, String, ◌≡◌, refl, sym, ◌∙◌, subst, inl, inr, Bool, true, false, ◌&&◌, Option,
  str_eq, ◌==◌, Bool-cases, any, Result, ok, err, Result-cases,
}
use software_engineering_sch.Db.{Repository}
use software_engineering_sch.Db.Gorm.{Gorm, subscriptions, repositories}
use software_engineering_sch.Prelude.{is_not_found}
use software_engineering_sch.Db.Found.{find?-any}
use software_engineering_sch.Saga.Spec.{Reach, here, next, beside}
use software_engineering_sch.Handlers.Store.{
  find_repo_by_path, find_repo_by_github_id, save_repo, create_repo, is_confirm_token_taken,
}
use software_engineering_sch.Handlers.Subscribe.{
  GithubAnswer, is_known, new_repository, resolve_known, resolve_unknown, resolve_on,
  resolve_or_create_repo, free_token, token_round,
}

module _ (g : Gorm) where
  read_keeps :
      (token : String) (db : g.Db)
      → g.contents (is_confirm_token_taken g token db).1 ≡ g.contents db
  unfolding is_confirm_token_taken
  read_keeps token db = g.find_keeps subscriptions (λ s. str_eq s.confirm_token token) db

  token_round-contents :
      (token : String) (r : Result Bool) (db : g.Db) (again : Option (Result String) × g.Db)
      (before : g.Db)
      → g.contents db ≡ g.contents before
      → g.contents again.1 ≡ g.contents before
      → g.contents (token_round g token r db again).1 ≡ g.contents before
  unfolding token_round
  token_round-contents token (err e) db again before kept rest = kept
  token_round-contents token (ok true) db again before kept rest = rest
  token_round-contents token (ok false) db again before kept rest = kept

  pub free_token-contents :
      (tokens : ℕ → Result String) (fuel i : ℕ) (db : g.Db)
      → g.contents (free_token g tokens fuel i db).1 ≡ g.contents db
  unfolding free_token
  free_token-contents tokens zero i db = refl
  free_token-contents tokens (suc f) i db = elim (Result-cases (tokens i)) [
    | inr (e, bad) ↦ rw (free_token, bad) refl
    | inl (token, made) ↦
        let read = is_confirm_token_taken g token db in
        let again = free_token g tokens f (suc i) read.1 in
        rw (free_token, made)
          (token_round-contents token read.0 read.1 again db (read_keeps token db)
            (free_token-contents tokens f (suc i) read.1 ∙ read_keeps token db))
  ]

  create_repo-Reach :
      (repo : Repository) (db : g.Db) → Reach (g.contents db) (g.contents (create_repo g repo db).1)
  unfolding create_repo
  create_repo-Reach repo db = elim (Result-cases (g.create repositories repo db).0) [
    | inl (made, done) ↦ next here (beside _ _ (g.create_rows repositories repo db done))
    | inr (e, bad) ↦
        subst (λ c. Reach (g.contents db) c) (sym (g.create_failed repositories repo db bad).0) here
  ]

  save_repo-Reach :
      (repo : Repository) (db : g.Db)
      → any (λ (x : Repository). x.id == repo.id) (g.contents db).repositories ≡ true
      → Reach (g.contents db) (g.contents (save_repo g repo db).1)
  unfolding save_repo
  save_repo-Reach repo db held = elim (Result-cases (g.save repositories repo db).0) [
    | inl (made, done) ↦ next here (beside _ _ (g.save_rows repositories repo db done held))
    | inr (e, bad) ↦
        subst (λ c. Reach (g.contents db) c) (sym (g.save_failed repositories repo db bad).0) here
  ]

  resolve_known-Reach :
      (owner name : String) (k : ℕ) (r : Result Repository) (db : g.Db)
      → ((repo : Repository)
          → r ≡ ok repo
          → any (λ (x : Repository). x.id == repo.id) (g.contents db).repositories ≡ true)
      → Reach (g.contents db) (g.contents (resolve_known g owner name k r db).1)
  unfolding resolve_known
  resolve_known-Reach owner name k (ok repo) db held = save_repo-Reach _ db (held repo refl)
  resolve_known-Reach owner name k (err e) db held = elim (Bool-cases (is_not_found e)) [
    | inl new_one ↦ rw new_one (create_repo-Reach (new_repository owner name k) db)
    | inr bad ↦ rw bad here
  ]

  resolve_unknown-Reach :
      (owner name : String) (answer : GithubAnswer) (db : g.Db)
      → Reach (g.contents db) (g.contents (resolve_unknown g owner name answer db).1)
  unfolding resolve_unknown find_repo_by_github_id
  resolve_unknown-Reach owner name answer db =
      let test = λ (r : Repository). r.github_id == answer.id in
      let kept = g.first_keeps repositories test db in
      elim (Bool-cases (is_known answer)) [
        | inr unknown ↦ rw unknown here
        | inl known ↦ rw known (
            subst
              (λ c. Reach c (
                g.contents
                  (resolve_known g owner name answer.id (g.first repositories test db).0
                    (g.first repositories test db).1).1))
              kept
              (resolve_known-Reach owner name answer.id (g.first repositories test db).0
                (g.first repositories test db).1
                (λ repo e.
                  subst (λ c. any (λ (x : Repository). x.id == repo.id) c.repositories ≡ true)
                    (sym kept)
                    (find?-any repositories test (g.contents db)
                      (g.first_ok repositories test db e)))))
      ]

  resolve_on-Reach :
      (owner name : String) (answer : GithubAnswer) (r : Result Repository) (db : g.Db)
      → Reach (g.contents db) (g.contents (resolve_on g owner name answer r db).1)
  unfolding resolve_on
  resolve_on-Reach owner name answer (ok repo) db = here
  resolve_on-Reach owner name answer (err e) db = elim (Bool-cases (is_not_found e)) [
    | inl missing ↦ rw missing (resolve_unknown-Reach owner name answer db)
    | inr bad ↦ rw bad here
  ]

  pub resolve_or_create_repo-Reach :
      (owner name : String) (answer : GithubAnswer) (db : g.Db)
      → Reach (g.contents db) (g.contents (resolve_or_create_repo g owner name answer db).1)
  unfolding resolve_or_create_repo find_repo_by_path
  resolve_or_create_repo-Reach owner name answer db =
      let test = λ (r : Repository). str_eq r.owner owner && str_eq r.name name in
      let read = g.first repositories test db in
      subst (λ c. Reach c (g.contents (resolve_on g owner name answer read.0 read.1).1))
        (g.first_keeps repositories test db) (resolve_on-Reach owner name answer read.0 read.1)
