-- ===== src/Handlers/Listing.antt =====
-- The handler GetSubscriptions of internal/transport/http/handlers/subscription.go, and what it
-- gives away. `email` is the query's parameter and `auth` the Authorization header.
use software_engineering_sch.Prelude.{
  ℕ, String, ◌||◌, not, Option, none, some, List, [], ◌∷◌, map, str_eq, str_append, ◌==◌,
  if◌then◌else◌, is_not_found, Result, ok, err,
}
use software_engineering_sch.Db.{Repository, Subscription, is_active}
use software_engineering_sch.Db.Gorm.{Gorm}
use software_engineering_sch.Handlers.Text.{trim_space, is_valid_token, bearer_token}
use software_engineering_sch.Handlers.Store.{
  find_by_email_and_token, list_subscriptions, find_repos_by_ids,
}
use software_engineering_sch.Handlers.Response.{Item, items, Response, failure}

-- `repoMap`: the last repository of the id.
abbrev pub repo_info : List Repository → ℕ → Option Repository
repo_info [] id = none
repo_info (r ∷ rs) id = elim (repo_info rs id) [
  | some x ↦ some x
  | none ↦ if r.id == id then some r else none
]

abbrev item : Subscription → Repository → Item
item s r = record {
  email = s.email;
  repo = str_append r.owner (str_append "/" r.name);
  confirmed = is_active s.status;
  last_seen_tag = if is_active s.status then r.last_release.tag_name else "";
}

-- A subscription whose repository is not found is left out.
unfoldable pub items_of : List Repository → List Subscription → List Item
items_of repos [] = []
items_of repos (s ∷ ss) =
    let rest = items_of repos ss in
    elim (repo_info repos s.repository_id) [ none ↦ rest | some r ↦ item s r ∷ rest ]

abbrev pub listing : List Item → Response
listing xs = record { status = 200; body = items xs; api_token = none }

module _ (g : Gorm) where
  unfoldable pub list_with : List Subscription → Result (List Repository) → Response
  unfolding items_of
  list_with subs (err e) = failure 500 "Database error"
  list_with subs (ok repos) = listing (items_of repos subs)

  unfoldable pub list_found : Result (List Subscription) → g.Db → Response × g.Db
  unfolding list_with
  list_found (err e) db = (failure 500 "Database error", db)
  list_found (ok []) db = (listing [], db)
  list_found (ok (s ∷ ss)) db =
      let (r, db') =
        find_repos_by_ids g (map (λ (x : Subscription). x.repository_id) (s ∷ ss)) db in
      (list_with (s ∷ ss) r, db')

  unfoldable pub list_for : String → Result Subscription → g.Db → Response × g.Db
  unfolding list_found
  list_for email (err e) db =
      if is_not_found e
      then (failure 401 "Invalid token for the given email", db)
      else (failure 500 "Database error", db)
  list_for email (ok sub) db = let (r, db') = list_subscriptions g email db in list_found r db'

  unfoldable pub get_subscriptions : String → String → g.Db → Response × g.Db
  unfolding list_for
  get_subscriptions query auth db =
      let email = trim_space query in
      let api_token = bearer_token auth in
      let (r, db') = find_by_email_and_token g email api_token db in
      if str_eq email ""
      then (failure 400 "Invalid email", db)
      else if str_eq api_token "" || not (is_valid_token api_token)
      then (failure 401 "Missing or invalid Authorization header", db)
      else list_for email r db'
