-- ===== src/Handlers/Store.antt =====
-- internal/transport/http/handlers/store.go: the GORM-backed store of the subscription handler.
use software_engineering_sch.Prelude.{
  ℕ, String, Bool, false, ◌&&◌, not, Option, none, some, List, [], ◌∷◌, str_eq, ltb, ◌==◌, length,
  any, Error, Result, ok, err,
}
use software_engineering_sch.Events.{Json}
use software_engineering_sch.Db.{
  Repository, Subscription, OnboardingSaga, awaiting_delivery, is_unsubscribed,
}
use software_engineering_sch.Db.Gorm.{Gorm, repositories, subscriptions, sagas}
use software_engineering_sch.Outbox.{Event, error_of, insert_tx}

-- Whether `id` is one of the keys of an IN clause.
abbrev pub one_of : List ℕ → ℕ → Bool
one_of ids k = any (λ i. i == k) ids

module _ (g : Gorm) where
  unfoldable pub find_repo_by_path : String → String → g.Db → Result Repository × g.Db
  find_repo_by_path owner name db =
      g.first repositories (λ r. str_eq r.owner owner && str_eq r.name name) db

  unfoldable pub find_repo_by_github_id : ℕ → g.Db → Result Repository × g.Db
  find_repo_by_github_id k db = g.first repositories (λ r. r.github_id == k) db

  unfoldable pub save_repo : Repository → g.Db → Result Repository × g.Db
  save_repo repo db = g.save repositories repo db

  unfoldable pub create_repo : Repository → g.Db → Result Repository × g.Db
  create_repo repo db = g.create repositories repo db

  unfoldable pub find_subscription : String → ℕ → g.Db → Result Subscription × g.Db
  find_subscription email repo_id db =
      g.first subscriptions (λ s. str_eq s.email email && (s.repository_id == repo_id)) db

  abbrev pub taken_of : Result (List Subscription) → Result Bool
  taken_of (ok rows) = ok (ltb 0 (length rows))
  taken_of (err e) = err e

  -- The number that `Count` returns is the number of the rows that `Find` would.
  unfoldable pub is_confirm_token_taken : String → g.Db → Result Bool × g.Db
  is_confirm_token_taken token db =
      let (r, db') = g.find subscriptions (λ s. str_eq s.confirm_token token) db in
      (taken_of r, db')

  unfoldable pub find_by_confirm_token : String → g.Db → Result Subscription × g.Db
  find_by_confirm_token token db = g.first subscriptions (λ s. str_eq s.confirm_token token) db

  unfoldable pub find_by_tokens : String → String → g.Db → Result Subscription × g.Db
  find_by_tokens confirm_token api_token db =
      g.first subscriptions
        (λ s. str_eq s.confirm_token confirm_token && str_eq s.api_token api_token) db

  unfoldable pub find_by_email_and_token : String → String → g.Db → Result Subscription × g.Db
  find_by_email_and_token email api_token db =
      g.first subscriptions (λ s. str_eq s.email email && str_eq s.api_token api_token) db

  unfoldable pub list_subscriptions : String → g.Db → Result (List Subscription) × g.Db
  list_subscriptions email db =
      g.find subscriptions (λ s. str_eq s.email email && not (is_unsubscribed s.status)) db

  unfoldable pub find_repos_by_ids : List ℕ → g.Db → Result (List Repository) × g.Db
  find_repos_by_ids ids db = g.find repositories (λ r. one_of ids r.id) db

-- The two writes of a subscription.
pub data Write : Type 0 where
  saving creating : Write

-- A saga that starts; the database gives the key, and gorm the time of creation.
abbrev pub started_saga : ℕ → String → OnboardingSaga
started_saga now token = record {
  id = 0;
  deleted = false;
  created_at = now;
  confirm_token = token;
  state = awaiting_delivery;
}

module _ (g : Gorm) (json : Json) (now : ℕ) where
  unfoldable pub write_row : Write → Subscription → g.Db → Option Error × g.Db
  write_row saving sub db = let (r, db') = g.save subscriptions sub db in (error_of r, db')
  write_row creating sub db = let (r, db') = g.create subscriptions sub db in (error_of r, db')

  unfoldable pub queue_events : List Event → Result OnboardingSaga → g.Db → Option Error × g.Db
  queue_events events (err e) tx = (some e, tx)
  queue_events events (ok saga) tx = insert_tx g json events tx

  unfoldable pub start_saga : String → List Event → Option Error → g.Db → Option Error × g.Db
  start_saga token events (some e) tx = (some e, tx)
  start_saga token events none tx =
      let (r, tx') = g.create sagas (started_saga now token) tx in queue_events events r tx'

  -- The function that `writeSubscriptionTx` runs in a transaction.
  unfoldable pub write_body : Write → Subscription → List Event → g.Db → Option Error × g.Db
  write_body w sub events tx =
      let (e, tx') = write_row w sub tx in start_saga sub.confirm_token events e tx'

  unfoldable pub write_subscription_tx :
      Write → Subscription → List Event → g.Db → Option Error × g.Db
  write_subscription_tx w sub events db = g.transaction (write_body w sub events) db

  -- Without events there is no saga to start and no transaction.
  unfoldable pub save_subscription : Subscription → List Event → g.Db → Option Error × g.Db
  save_subscription sub [] db = write_row saving sub db
  save_subscription sub (e ∷ es) db = write_subscription_tx saving sub (e ∷ es) db

  unfoldable pub create_subscription : Subscription → List Event → g.Db → Option Error × g.Db
  create_subscription sub [] db = write_row creating sub db
  create_subscription sub (e ∷ es) db = write_subscription_tx creating sub (e ∷ es) db
