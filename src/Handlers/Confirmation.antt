-- ===== src/Handlers/Confirmation.antt =====
-- What Confirm and Unsubscribe of internal/transport/http/handlers/subscription.go do to the tables
-- on every branch.
use software_engineering_sch.Prelude.{
  ℕ, String, ◌≡◌, refl, sym, subst, Bool, true, false, none, some, [], str_eq, ◌==◌, inl, inr,
  Bool-cases, Option-cases, find?, is_not_found, Result, ok, err,
}
use software_engineering_sch.Events.{Json}
use software_engineering_sch.Db.{Contents, Subscription, active, is_active}
use software_engineering_sch.Db.Found.{find?-any}
use software_engineering_sch.Db.Gorm.{Gorm, live, subscriptions}
use software_engineering_sch.Handlers.Text.{is_valid_token}
use software_engineering_sch.Handlers.Store.{find_by_confirm_token, save_subscription}
use software_engineering_sch.Handlers.Response.{Response, confirmed_with}
use software_engineering_sch.Handlers.Confirm.{activate_saved, activate, confirm_found, confirm}
use software_engineering_sch.Handlers.Refines.{
  IsStored, save_subscription_done, save_subscription_failed,
}
use software_engineering_sch.Saga.Spec.{Reach, here, next, settles, with_saved}

-- A row that a query found stands in the table.
pub found-IsStored :
    (p : Subscription → Bool) (c : Contents) {sub : Subscription}
    → find? p (live subscriptions c) ≡ some sub
    → IsStored sub c
found-IsStored p c h = find?-any subscriptions p c h

-- The live subscription of the confirmation token.
abbrev pub ConfirmedBy : String → Contents → Subscription → Type 0
ConfirmedBy token c sub =
    find? (λ s. str_eq s.confirm_token token) (live subscriptions c) ≡ some sub

-- How a confirmation may end.
pub data Confirms (token : String) (before after : Contents) : Response → Type 0 where
  refused :
      {r : Response}
      → after ≡ before
      → (r.status == 200) ≡ false
      → r.api_token ≡ none
      → Confirms token before after r
  activated :
      (sub : Subscription) (key : String)
      → ConfirmedBy token before sub
      → is_active sub.status ≡ false
      → after ≡ with_saved (record sub { status = active; api_token = key }) before
      → Confirms token before after (confirmed_with key)
  already :
      (sub : Subscription)
      → ConfirmedBy token before sub
      → is_active sub.status ≡ true
      → after ≡ before
      → Confirms token before after (confirmed_with sub.api_token)

module _ (g : Gorm) (json : Json) (now : ℕ) where
  activate-Confirms :
      (token : String) (generated : Result String) (sub : Subscription) (db : g.Db)
      → ConfirmedBy token (g.contents db) sub
      → is_active sub.status ≡ false
      → Confirms token
          (g.contents db)
          (g.contents (activate g json now generated sub db).1)
          (activate g json now generated sub db).0
  unfolding activate activate_saved
  activate-Confirms token (err e) sub db holder inactive = refused refl refl refl
  activate-Confirms token (ok key) sub db holder inactive =
      let row = record sub { status = active; api_token = key } in
      elim (Option-cases (save_subscription g json now row [] db).0) [
        | inl saved ↦ rw saved (
            activated sub key holder inactive (
              save_subscription_done g json now row db
                (found-IsStored (λ s. str_eq s.confirm_token token) (g.contents db) holder) saved))
        | inr (e, bad) ↦
            rw bad (refused (save_subscription_failed g json now row [] db bad) refl refl)
      ]

  confirm_found-Confirms :
      (token : String) (generated : Result String) (r : Result Subscription) (db : g.Db)
      → ((sub : Subscription) → r ≡ ok sub → ConfirmedBy token (g.contents db) sub)
      → Confirms token
          (g.contents db)
          (g.contents (confirm_found g json now generated r db).1)
          (confirm_found g json now generated r db).0
  unfolding confirm_found
  confirm_found-Confirms token generated (err e) db found = elim (Bool-cases (is_not_found e)) [
    | inl gone ↦ rw gone (refused refl refl refl)
    | inr other_error ↦ rw other_error (refused refl refl refl)
  ]
  confirm_found-Confirms token generated (ok sub) db found =
      elim (Bool-cases (is_active sub.status)) [
        | inl is_on ↦ rw is_on (already sub (found sub refl) is_on refl)
        | inr is_off ↦ rw is_off (activate-Confirms token generated sub db (found sub refl) is_off)
      ]

  -- A confirmation answers 200 only for the token of a live subscription, which is active with the
  -- API token of the answer afterwards; whatever else it answers, the tables are as they were.
  pub confirm-Confirms :
      (generated : Result String) (token : String) (db : g.Db)
      → Confirms token
          (g.contents db)
          (g.contents (confirm g json now generated token db).1)
          (confirm g json now generated token db).0
  unfolding confirm find_by_confirm_token
  confirm-Confirms generated token db =
      let test = λ (s : Subscription). str_eq s.confirm_token token in
      let kept = g.first_keeps subscriptions test db in
      elim (Bool-cases (is_valid_token token)) [
        | inr malformed ↦ rw malformed (refused refl refl refl)
        | inl valid ↦ rw valid (
            subst
              (λ c.
                Confirms token c
                  (g.contents
                    (confirm_found g json now generated (g.first subscriptions test db).0
                      (g.first subscriptions test db).1).1)
                  (confirm_found g json now generated (g.first subscriptions test db).0
                    (g.first subscriptions test db).1).0)
              kept
              (confirm_found-Confirms token generated (g.first subscriptions test db).0 _
                (λ sub read.
                  subst (λ c. ConfirmedBy token c sub) (sym kept)
                    (g.first_ok subscriptions test db read))))
      ]

Confirms-Reach :
    {token : String} {before after : Contents} (r : Response)
    → Confirms token before after r
    → Reach before after
Confirms-Reach {before = before} r (refused e s k) = subst (Reach before) (sym e) here
Confirms-Reach r (activated sub key at off e) =
    next here (settles (record sub { status = active; api_token = key }) refl e)
Confirms-Reach {before = before} r (already sub at is_on e) = subst (Reach before) (sym e) here

-- A confirmation moves the tables by steps of the saga's specification.
pub confirm-Reach :
    (g : Gorm) (json : Json) (now : ℕ) (generated : Result String) (token : String) (db : g.Db)
    → Reach (g.contents db) (g.contents (confirm g json now generated token db).1)
confirm-Reach g json now generated token db =
    Confirms-Reach _ (confirm-Confirms g json now generated token db)
