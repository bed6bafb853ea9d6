-- ===== src/Handlers/Confirm.antt =====
-- The handlers Confirm and Unsubscribe of internal/transport/http/handlers/subscription.go. The text
-- that generateToken returns is a parameter; metrics are left out.
use software_engineering_sch.Prelude.{
  ℕ, String, not, Option, none, some, [], str_eq, if◌then◌else◌, Error, is_not_found, Result, ok,
  err,
}
use software_engineering_sch.Events.{Json}
use software_engineering_sch.Db.{Subscription, active, unsubscribed, is_active, is_unsubscribed}
use software_engineering_sch.Db.Gorm.{Gorm}
use software_engineering_sch.Handlers.Text.{is_valid_token, bearer_token}
use software_engineering_sch.Handlers.Store.{
  find_by_confirm_token, find_by_tokens, save_subscription,
}
use software_engineering_sch.Handlers.Response.{Response, failure, success, confirmed_with}

module _ (g : Gorm) (json : Json) (now : ℕ) where
  unfoldable pub activate_saved : String → Option Error → g.Db → Response × g.Db
  activate_saved key (some e) db = (failure 500 "Failed to activate subscription", db)
  activate_saved key none db = (confirmed_with key, db)

  unfoldable pub activate : Result String → Subscription → g.Db → Response × g.Db
  unfolding activate_saved
  activate (err e) sub db = (failure 500 "Failed to generate API token", db)
  activate (ok key) sub db =
      let (e, db') =
        save_subscription g json now (record sub { status = active; api_token = key }) [] db in
      activate_saved key e db'

  unfoldable pub confirm_found : Result String → Result Subscription → g.Db → Response × g.Db
  unfolding activate
  confirm_found generated (err e) db =
      if is_not_found e
      then (failure 404 "Invalid or expired token", db)
      else (failure 500 "Database error", db)
  confirm_found generated (ok sub) db =
      if is_active sub.status then (confirmed_with sub.api_token, db) else activate generated sub db

  unfoldable pub confirm : Result String → String → g.Db → Response × g.Db
  unfolding confirm_found
  confirm generated token db =
      let (r, db') = find_by_confirm_token g token db in
      if is_valid_token token
      then confirm_found generated r db'
      else (failure 400 "Invalid or missing token", db)

  unfoldable pub unsubscribe_saved : Option Error → g.Db → Response × g.Db
  unsubscribe_saved (some e) db = (failure 500 "Failed to unsubscribe", db)
  unsubscribe_saved none db = (success "Unsubscribed successfully", db)

  unfoldable pub unsubscribe_found : Result Subscription → g.Db → Response × g.Db
  unfolding unsubscribe_saved
  unsubscribe_found (err e) db =
      if is_not_found e
      then (failure 404 "Token not found", db)
      else (failure 500 "Database error", db)
  unsubscribe_found (ok sub) db =
      let (e, db') = save_subscription g json now (record sub { status = unsubscribed }) [] db in
      if is_unsubscribed sub.status
      then (success "Unsubscribed successfully", db)
      else unsubscribe_saved e db'

  -- `auth` is the Authorization header, the empty text if there is none.
  unfoldable pub unsubscribe : String → String → g.Db → Response × g.Db
  unfolding unsubscribe_found
  unsubscribe token auth db =
      let api_token = bearer_token auth in
      let (r, db') = find_by_tokens g token api_token db in
      if not (is_valid_token token)
      then (failure 400 "Invalid or missing token", db)
      else if str_eq api_token ""
      then (failure 400 "Missing or invalid Authorization header", db)
      else if not (is_valid_token api_token)
      then (failure 401 "Invalid API token", db)
      else unsubscribe_found r db'
