-- ===== src/Handlers/Subscribe.antt =====
-- The handler Subscribe of internal/transport/http/handlers/subscription.go. What GitHub answers, the
-- tokens that generateToken returns one after the other, and the stamp of the event are parameters.
use software_engineering_sch.Prelude.{
  ℕ, zero, suc, String, Bool, true, false, ◌||◌, Option, none, some, [], ◌∷◌, str_eq, ◌==◌,
  if◌then◌else◌, Error, is_not_found, Result, ok, err,
}
use software_engineering_sch.Events.{Json, Stamp, new_subscription_created}
use software_engineering_sch.Db.{Repository, Subscription, pending, idle, is_active}
use software_engineering_sch.Db.Gorm.{Gorm}
use software_engineering_sch.Outbox.{Event, new}
use software_engineering_sch.Handlers.Text.{trim_space, repo_path}
use software_engineering_sch.Handlers.Store.{
  find_repo_by_path, find_repo_by_github_id, save_repo, create_repo, find_subscription,
  is_confirm_token_taken, save_subscription, create_subscription,
}
use software_engineering_sch.Handlers.Response.{Response, failure, success, field}

-- What GetRepository of the resolver returns.
pub record GithubAnswer : Type 0 where
  pub error : Option Error
  pub status_code : ℕ
  pub id : ℕ

abbrev pub is_known : GithubAnswer → Bool
is_known a = elim a.error [ none ↦ a.status_code == 200 | some e ↦ false ]

-- The repository, or the status and the text of the refusal.
pub data Resolved : Type 0 where
  resolved : Repository → Resolved
  unresolved : ℕ → String → Resolved

abbrev pub new_repository : String → String → ℕ → Repository
new_repository owner name k = record {
  id = 0;
  deleted = false;
  github_id = k;
  etag = "";
  owner = owner;
  name = name;
  last_release = record { github_id = 0; tag_name = ""; etag = "" };
  status = idle;
  last_scanned_at = none;
}

-- SubscribeRequest
pub record SubscribeRequest : Type 0 where
  pub email : String
  pub repo : String

module _ (g : Gorm) where
  unfoldable pub stored : Result Repository → Resolved
  stored (err e) = unresolved 500 "failed to save repository"
  stored (ok repo) = resolved repo

  unfoldable pub resolve_known : String → String → ℕ → Result Repository → g.Db → Resolved × g.Db
  unfolding stored
  resolve_known owner name k (ok existing) db =
      let (r, db') = save_repo g (record existing { owner = owner; name = name }) db in
      (stored r, db')
  resolve_known owner name k (err e) db =
      let (r, db') = create_repo g (new_repository owner name k) db in
      if is_not_found e then (stored r, db') else (unresolved 500 "database error", db)

  unfoldable pub resolve_unknown : String → String → GithubAnswer → g.Db → Resolved × g.Db
  unfolding resolve_known
  resolve_unknown owner name answer db =
      let (r, db') = find_repo_by_github_id g answer.id db in
      if is_known answer
      then resolve_known owner name answer.id r db'
      else (unresolved 404 "repository not found on GitHub", db)

  unfoldable pub resolve_on :
      String → String → GithubAnswer → Result Repository → g.Db → Resolved × g.Db
  unfolding resolve_unknown
  resolve_on owner name answer (ok repo) db = (resolved repo, db)
  resolve_on owner name answer (err e) db =
      if is_not_found e
      then resolve_unknown owner name answer db
      else (unresolved 500 "database error", db)

  unfoldable pub resolve_or_create_repo : String → String → GithubAnswer → g.Db → Resolved × g.Db
  unfolding resolve_on
  resolve_or_create_repo owner name answer db =
      let (r, db') = find_repo_by_path g owner name db in resolve_on owner name answer r db'

  -- One round of the loop that looks for a free token: `again` is the rest of the loop.
  unfoldable pub token_round :
      String → Result Bool → g.Db → Option (Result String) × g.Db → Option (Result String) × g.Db
  token_round token (err e) db again = (some (err e), db)
  token_round token (ok true) db again = again
  token_round token (ok false) db again = (some (ok token), db)

  -- The loop by fuel, from the token of the number; `none` if the fuel runs out.
  unfoldable pub free_token : (ℕ → Result String) → ℕ → ℕ → g.Db → Option (Result String) × g.Db
  unfolding token_round
  free_token tokens zero i db = (none, db)
  free_token tokens (suc f) i db = elim (tokens i) [
    | err e ↦ (some (err e), db)
    | ok token ↦
        let (r, db') = is_confirm_token_taken g token db in
        let again = free_token tokens f (suc i) db' in token_round token r db' again
  ]

module _ (g : Gorm) (json : Json) (now : ℕ) where
  unfoldable pub subscribe_saved : String → Option Error → g.Db → Response × g.Db
  subscribe_saved text (some e) db = (failure 500 text, db)
  subscribe_saved text none db = (success "Confirmation email sent", db)

  abbrev pub renewed : Subscription → String → Subscription
  renewed sub token = record sub { status = pending; confirm_token = token; api_token = "" }

  abbrev pub new_subscription : String → ℕ → String → Subscription
  new_subscription email repo_id token = record {
    id = 0;
    deleted = false;
    email = email;
    repository_id = repo_id;
    status = pending;
    confirm_token = token;
    api_token = "";
  }

  -- The row is renewed if there is one, and made if there is none.
  unfoldable pub subscribe_write :
      String → ℕ → Option Subscription → String → Result Event → g.Db → Response × g.Db
  unfolding subscribe_saved
  subscribe_write email repo_id sub token (err e) db =
      (failure 500 "Failed to build verification event", db)
  subscribe_write email repo_id (some sub) token (ok event) db =
      let (e, db') = save_subscription g json now (renewed sub token) (event ∷ []) db in
      subscribe_saved "Failed to update subscription" e db'
  subscribe_write email repo_id none token (ok event) db =
      let (e, db') =
        create_subscription g json now (new_subscription email repo_id token) (event ∷ []) db in
      subscribe_saved "Failed to create subscription" e db'

  unfoldable pub subscribe_token :
      Stamp
      → String
      → ℕ
      → Option Subscription
      → Option (Result String)
      → g.Db
      → Option Response × g.Db
  unfolding subscribe_write
  subscribe_token at email repo_id sub none db = (none, db)
  subscribe_token at email repo_id sub (some (err e)) db =
      (some (failure 500 "Failed to generate token"), db)
  subscribe_token at email repo_id sub (some (ok token)) db =
      let event =
        new (new_subscription_created json at (record { email = email; token = token })) in
      let (r, db') = subscribe_write email repo_id sub token event db in (some r, db')

  module _ (tokens : ℕ → Result String) (fuel : ℕ) (at : Stamp) where
    unfoldable pub subscribe_row : String → ℕ → Result Subscription → g.Db → Option Response × g.Db
    unfolding subscribe_token
    subscribe_row email repo_id (err e) db =
        let (t, db') = free_token g tokens fuel 0 db in
        if is_not_found e
        then subscribe_token at email repo_id none t db'
        else (some (failure 500 "Database error"), db)
    subscribe_row email repo_id (ok sub) db =
        let (t, db') = free_token g tokens fuel 0 db in
        if is_active sub.status
        then (
          some (record {
            status = 409;
            body = field "message" "Email already subscribed to this repository";
            api_token = none;
          }),
          db,
        )
        else subscribe_token at email repo_id (some sub) t db'

    unfoldable pub subscribe_to : String → Resolved → g.Db → Option Response × g.Db
    unfolding subscribe_row
    subscribe_to email (unresolved status text) db = (some (failure status text), db)
    subscribe_to email (resolved repo) db =
        let (r, db') = find_subscription g email repo.id db in subscribe_row email repo.id r db'

    unfoldable pub subscribe_path :
        (String → String → GithubAnswer)
        → String
        → Option (String × String)
        → g.Db
        → Option Response × g.Db
    unfolding subscribe_to
    subscribe_path github email none db =
        (some (failure 400 "Invalid repo format. Expected owner/repo"), db)
    subscribe_path github email (some (owner, name)) db =
        let (r, db') = resolve_or_create_repo g owner name (github owner name) db in
        subscribe_to email r db'

    -- `none` is a request whose body is no SubscribeRequest.
    unfoldable pub subscribe :
        (String → String → GithubAnswer) → Option SubscribeRequest → g.Db → Option Response × g.Db
    unfolding subscribe_path
    subscribe github none db = (some (failure 400 "Invalid request body"), db)
    subscribe github (some req) db =
        let email = trim_space req.email in
        let repo = trim_space req.repo in
        if str_eq email "" || str_eq repo ""
        then (some (failure 400 "Email and repo are required"), db)
        else subscribe_path github email (repo_path repo) db
