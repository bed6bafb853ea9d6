-- ===== src/Handlers/Subscription.antt =====
-- The write at the end of Subscribe in internal/transport/http/handlers/subscription.go.
use software_engineering_sch.Prelude.{
  ℕ, String, ◌≡◌, refl, true, false, Option, none, some, [], ◌∷◌, ◌==◌, inl, inr, Option-cases,
  Result, ok, err,
}
use software_engineering_sch.Events.{Json}
use software_engineering_sch.Db.{Contents, Subscription, pending}
use software_engineering_sch.Db.Gorm.{Gorm}
use software_engineering_sch.Outbox.{Event}
use software_engineering_sch.Handlers.Store.{
  Write, saving, creating, save_subscription, create_subscription,
}
use software_engineering_sch.Handlers.Response.{Response}
use software_engineering_sch.Handlers.Subscribe.{
  subscribe_saved, renewed, new_subscription, subscribe_write,
}
use software_engineering_sch.Handlers.Refines.{
  IsStored, Begun, write_subscription_tx-Begun, save_subscription_failed,
  create_subscription_failed,
}

-- The row that the request asks for: the one that was found, waiting for the new token and without
-- an API token, or a new one.
abbrev pub wanted : String → ℕ → Option Subscription → String → Subscription
wanted email repo_id none token = record {
  id = 0;
  deleted = false;
  email = email;
  repository_id = repo_id;
  status = pending;
  confirm_token = token;
  api_token = "";
}
wanted email repo_id (some sub) token = record sub {
  status = pending;
  confirm_token = token;
  api_token = "";
}

abbrev pub kind_of : Option Subscription → Write
kind_of none = creating
kind_of (some sub) = saving

-- How the write may end.
pub data Subscribes (g : Gorm) (json : Json) (w : Write) (row : Subscription) (event : Result Event)
    (before after : Contents) (r : Response) : Type 0 where
  started :
      (x : Event)
      → event ≡ ok x
      → Begun g json w row (x ∷ []) before after
      → (r.status == 200) ≡ true
      → Subscribes g json w row event before after r
  refused :
      after ≡ before → (r.status == 200) ≡ false → Subscribes g json w row event before after r

-- A row that is there was read from the table.
abbrev pub WasFound : Option Subscription → Contents → Type 0
WasFound none c = Unit
WasFound (some sub) c = IsStored sub c

module _ (g : Gorm) (json : Json) (now : ℕ) where
  saved-Begun :
      (sub : Subscription) (event : Event) (db : g.Db)
      → IsStored sub (g.contents db)
      → (save_subscription g json now sub (event ∷ []) db).0 ≡ none
      → Begun g json saving sub
          (event ∷ [])
          (g.contents db)
          (g.contents (save_subscription g json now sub (event ∷ []) db).1)
  unfolding save_subscription
  saved-Begun sub event db read h =
      write_subscription_tx-Begun g json now saving sub (event ∷ []) db read h

  created-Begun :
      (sub : Subscription) (event : Event) (db : g.Db)
      → (create_subscription g json now sub (event ∷ []) db).0 ≡ none
      → Begun g json creating sub
          (event ∷ [])
          (g.contents db)
          (g.contents (create_subscription g json now sub (event ∷ []) db).1)
  unfolding create_subscription
  created-Begun sub event db h =
      write_subscription_tx-Begun g json now creating sub (event ∷ []) db tt h

  pub subscribe_write-Subscribes :
      (email : String) (repo_id : ℕ) (sub : Option Subscription) (token : String)
      (event : Result Event) (db : g.Db)
      → WasFound sub (g.contents db)
      → Subscribes g json
          (kind_of sub)
          (wanted email repo_id sub token)
          event
          (g.contents db)
          (g.contents (subscribe_write g json now email repo_id sub token event db).1)
          (subscribe_write g json now email repo_id sub token event db).0
  unfolding subscribe_write subscribe_saved
  subscribe_write-Subscribes email repo_id none token (err e) db read = refused refl refl
  subscribe_write-Subscribes email repo_id (some sub) token (err e) db read = refused refl refl
  subscribe_write-Subscribes email repo_id (some sub) token (ok event) db read =
      let row = renewed g json now sub token in
      elim (Option-cases (save_subscription g json now row (event ∷ []) db).0) [
        | inl saved ↦ rw saved (started event refl (saved-Begun row event db read saved) refl)
        | inr (e, bad) ↦
            rw bad (refused (save_subscription_failed g json now row (event ∷ []) db bad) refl)
      ]
  subscribe_write-Subscribes email repo_id none token (ok event) db read =
      let row = new_subscription g json now email repo_id token in
      elim (Option-cases (create_subscription g json now row (event ∷ []) db).0) [
        | inl saved ↦ rw saved (started event refl (created-Begun row event db saved) refl)
        | inr (e, bad) ↦
            rw bad (refused (create_subscription_failed g json now row (event ∷ []) db bad) refl)
      ]
