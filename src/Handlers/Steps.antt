-- ===== src/Handlers/Steps.antt =====
-- The handlers of internal/transport/http/handlers as steps of the specification of the onboarding
-- saga: a whole subscription request, and an unsubscription.
use software_engineering_sch.Prelude.{
  ℕ, String, ◌≡◌, refl, sym, subst, inl, inr, ◌&&◌, ◌||◌, Option, none, some, [], ◌∷◌, str_eq, ◌==◌,
  Bool-cases, Result, ok, err,
}
use software_engineering_sch.Events.{Json, Stamp}
use software_engineering_sch.Db.{Contents, Subscription, unsubscribed, is_active}
use software_engineering_sch.Db.Gorm.{Gorm, subscriptions}
use software_engineering_sch.Prelude.{is_not_found}
use software_engineering_sch.Saga.Spec.{Reach, here, next, settles}
use software_engineering_sch.Outbox.{Event}
use software_engineering_sch.Handlers.Text.{trim_space, repo_path}
use software_engineering_sch.Handlers.Store.{Write, find_subscription}
use software_engineering_sch.Handlers.Refines.{Begun-Step}
use software_engineering_sch.Handlers.Confirm.{unsubscribe}
use software_engineering_sch.Handlers.Response.{Response}
use software_engineering_sch.Handlers.Confirmation.{found-IsStored}
use software_engineering_sch.Handlers.Unsubscription.{
  Unsubscribes, refused, ended, already, unsubscribe-Unsubscribes,
}
use software_engineering_sch.Handlers.Subscription.{
  Subscribes, WasFound, subscribe_write-Subscribes,
}
use software_engineering_sch.Handlers.Subscribe.{
  GithubAnswer, Resolved, resolved, unresolved, SubscribeRequest, resolve_or_create_repo,
  free_token, subscribe_token, subscribe_row, subscribe_to, subscribe_path, subscribe,
}
use software_engineering_sch.Handlers.Resolution.{free_token-contents, resolve_or_create_repo-Reach}

Unsubscribes-Reach :
    {token key : String} {before after : Contents} {a : Response}
    → Unsubscribes token key before after a
    → Reach before after
Unsubscribes-Reach {before} (refused e bad) = subst (λ c. Reach before c) (sym e) here
Unsubscribes-Reach (ended sub owned e fine) =
    next here (settles (record sub { status = unsubscribed }) refl e)
Unsubscribes-Reach {before} (already sub owned off e fine) =
    subst (λ c. Reach before c) (sym e) here

Subscribes-Reach :
    {g : Gorm} {json : Json} {row : Subscription} {w : Write} {event : Result Event}
    {before after : Contents} {a : Response}
    → Subscribes g json w row event before after a
    → Reach before after
Subscribes-Reach {g} {json} {row} {w} (Subscribes.started x made begun fine) =
    next here (Begun-Step g json w row (x ∷ []) begun)
Subscribes-Reach {before = before} (Subscribes.refused e bad) =
    subst (λ c. Reach before c) (sym e) here

-- Steps one after the other.
pub Reach-trans : {a b c : Contents} → Reach a b → Reach b c → Reach a c
Reach-trans r here = r
Reach-trans r (next q s) = next (Reach-trans r q) s

-- An unsubscription is a step of the specification, or none.
pub unsubscribe-Reach :
    (g : Gorm) (json : Json) (now : ℕ) (token auth : String) (db : g.Db)
    → Reach (g.contents db) (g.contents (unsubscribe g json now token auth db).1)
unsubscribe-Reach g json now token auth db =
    Unsubscribes-Reach (unsubscribe-Unsubscribes g json now token auth db)

module _ (g : Gorm) (json : Json) (now : ℕ) where
  subscribe_token-Reach :
      (at : Stamp) (email : String) (repo_id : ℕ) (sub : Option Subscription)
      (t : Option (Result String)) (db : g.Db)
      → WasFound sub (g.contents db)
      → Reach (g.contents db) (g.contents (subscribe_token g json now at email repo_id sub t db).1)
  unfolding subscribe_token
  subscribe_token-Reach at email repo_id sub none db read = here
  subscribe_token-Reach at email repo_id sub (some (err e)) db read = here
  subscribe_token-Reach at email repo_id sub (some (ok token)) db read =
      Subscribes-Reach (subscribe_write-Subscribes g json now email repo_id sub token _ db read)

  module _ (tokens : ℕ → Result String) (fuel : ℕ) (at : Stamp) where
    -- The search for a token changes nothing.
    after_token-Reach :
        (email : String) (repo_id : ℕ) (sub : Option Subscription) (db : g.Db)
        → WasFound sub (g.contents db)
        → Reach (g.contents db) (
            g.contents
              (subscribe_token g json now at email repo_id sub
                (free_token g tokens fuel 0 db).0
                (free_token g tokens fuel 0 db).1).1)
    after_token-Reach email repo_id sub db read =
        let (t, db') = free_token g tokens fuel 0 db in
        let kept = free_token-contents g tokens fuel 0 db in
        subst (λ c. Reach c (g.contents (subscribe_token g json now at email repo_id sub t db').1))
          kept
          (subscribe_token-Reach at email repo_id sub t db'
            (subst (λ c. WasFound sub c) (sym kept) read))

    subscribe_row-Reach :
        (email : String) (repo_id : ℕ) (r : Result Subscription) (db : g.Db)
        → ((sub : Subscription) → r ≡ ok sub → WasFound (some sub) (g.contents db))
        → Reach
            (g.contents db)
            (g.contents (subscribe_row g json now tokens fuel at email repo_id r db).1)
    unfolding subscribe_row
    subscribe_row-Reach email repo_id (err e) db read = elim (Bool-cases (is_not_found e)) [
      | inl missing ↦ rw missing (after_token-Reach email repo_id none db tt)
      | inr bad ↦ rw bad here
    ]
    subscribe_row-Reach email repo_id (ok sub) db read = elim (Bool-cases (is_active sub.status)) [
      | inl is_on ↦ rw is_on here
      | inr is_off ↦ rw is_off (after_token-Reach email repo_id (some sub) db (read sub refl))
    ]

    subscribe_to-Reach :
        (email : String) (r : Resolved) (db : g.Db)
        → Reach (g.contents db) (g.contents (subscribe_to g json now tokens fuel at email r db).1)
    unfolding subscribe_to find_subscription
    subscribe_to-Reach email (unresolved status text) db = here
    subscribe_to-Reach email (resolved repo) db =
        let test = λ (s : Subscription). str_eq s.email email && (s.repository_id == repo.id) in
        let read = g.first subscriptions test db in
        let kept = g.first_keeps subscriptions test db in
        subst
          (λ c.
            Reach c
              (g.contents (subscribe_row g json now tokens fuel at email repo.id read.0 read.1).1))
          kept
          (subscribe_row-Reach email repo.id read.0 read.1 (λ sub e.
            subst (λ c. WasFound (some sub) c) (sym kept)
              (found-IsStored test (g.contents db) (g.first_ok subscriptions test db e))))

    subscribe_path-Reach :
        (github : String → String → GithubAnswer) (email : String) (path : Option (String × String))
        (db : g.Db)
        → Reach
            (g.contents db)
            (g.contents (subscribe_path g json now tokens fuel at github email path db).1)
    unfolding subscribe_path
    subscribe_path-Reach github email none db = here
    subscribe_path-Reach github email (some (owner, name)) db =
        let (r, db') = resolve_or_create_repo g owner name (github owner name) db in
        Reach-trans (resolve_or_create_repo-Reach g owner name (github owner name) db)
          (subscribe_to-Reach email r db')

    -- A subscription request, whatever it holds, whatever GitHub answers and whatever fails, moves the
    -- tables by steps of the specification of the saga.
    pub subscribe-Reach :
        (github : String → String → GithubAnswer) (req : Option SubscribeRequest) (db : g.Db)
        → Reach (g.contents db) (g.contents (subscribe g json now tokens fuel at github req db).1)
    unfolding subscribe
    subscribe-Reach github none db = here
    subscribe-Reach github (some req) db =
        let email = trim_space req.email in
        let repo = trim_space req.repo in
        elim (Bool-cases (str_eq email "" || str_eq repo "")) [
          | inl lacks ↦ rw lacks here
          | inr given ↦ rw given (subscribe_path-Reach github email (repo_path repo) db)
        ]
