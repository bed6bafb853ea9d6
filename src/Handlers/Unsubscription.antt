-- ===== src/Handlers/Unsubscription.antt =====
-- What Unsubscribe of internal/transport/http/handlers/subscription.go does to the tables on every
-- branch.
use software_engineering_sch.Prelude.{
  ℕ, String, ◌≡◌, refl, sym, subst, Bool, true, false, ◌&&◌, some, [], str_eq, ◌==◌, inl, inr,
  Bool-cases, Option-cases, find?, is_not_found, Result, ok, err,
}
use software_engineering_sch.Events.{Json}
use software_engineering_sch.Db.{Contents, Subscription, unsubscribed, is_unsubscribed}
use software_engineering_sch.Db.Gorm.{Gorm, live, subscriptions}
use software_engineering_sch.Handlers.Text.{is_valid_token, bearer_token}
use software_engineering_sch.Handlers.Store.{find_by_tokens, save_subscription}
use software_engineering_sch.Handlers.Response.{Response}
use software_engineering_sch.Handlers.Confirm.{unsubscribe_saved, unsubscribe_found, unsubscribe}
use software_engineering_sch.Handlers.Confirmation.{found-IsStored}
use software_engineering_sch.Handlers.Refines.{save_subscription_done, save_subscription_failed}
use software_engineering_sch.Saga.Spec.{with_saved}

abbrev pub has_tokens : String → String → Subscription → Bool
has_tokens token key s = str_eq s.confirm_token token && str_eq s.api_token key

-- The live subscription that has both tokens.
abbrev pub OwnedBy : String → String → Contents → Subscription → Type 0
OwnedBy token key c sub = find? (has_tokens token key) (live subscriptions c) ≡ some sub

-- How an unsubscription may end.
pub data Unsubscribes (token key : String) (before after : Contents) (r : Response) : Type 0 where
  refused : after ≡ before → (r.status == 200) ≡ false → Unsubscribes token key before after r
  ended :
      (sub : Subscription)
      → OwnedBy token key before sub
      → after ≡ with_saved (record sub { status = unsubscribed }) before
      → (r.status == 200) ≡ true
      → Unsubscribes token key before after r
  already :
      (sub : Subscription)
      → OwnedBy token key before sub
      → is_unsubscribed sub.status ≡ true
      → after ≡ before
      → (r.status == 200) ≡ true
      → Unsubscribes token key before after r

module _ (g : Gorm) (json : Json) (now : ℕ) where
  unsubscribe_found-Unsubscribes :
      (token key : String) (r : Result Subscription) (db : g.Db)
      → ((sub : Subscription) → r ≡ ok sub → OwnedBy token key (g.contents db) sub)
      → Unsubscribes token key
          (g.contents db)
          (g.contents (unsubscribe_found g json now r db).1)
          (unsubscribe_found g json now r db).0
  unfolding unsubscribe_found unsubscribe_saved
  unsubscribe_found-Unsubscribes token key (err e) db found = elim (Bool-cases (is_not_found e)) [
    | inl gone ↦ rw gone (refused refl refl)
    | inr other_error ↦ rw other_error (refused refl refl)
  ]
  unsubscribe_found-Unsubscribes token key (ok sub) db found =
      let row = record sub { status = unsubscribed } in
      elim (Bool-cases (is_unsubscribed sub.status)) [
        | inl is_on ↦ rw is_on (already sub (found sub refl) is_on refl refl)
        | inr is_off ↦ elim (Option-cases (save_subscription g json now row [] db).0) [
          | inl saved ↦
              rw (is_off, saved)
                (ended sub (found sub refl)
                  (save_subscription_done g json now row db
                    (found-IsStored (has_tokens token key) (g.contents db) (found sub refl)) saved)
                  refl)
          | inr (e, bad) ↦
              rw (is_off, bad) (refused (save_subscription_failed g json now row [] db bad) refl)
        ]
      ]

  -- An unsubscription answers 200 only to the holder of both tokens of a live subscription, which is
  -- unsubscribed afterwards, and no other row has changed; with any other answer the tables are as
  -- they were.
  pub unsubscribe-Unsubscribes :
      (token auth : String) (db : g.Db)
      → Unsubscribes token
          (bearer_token auth)
          (g.contents db)
          (g.contents (unsubscribe g json now token auth db).1)
          (unsubscribe g json now token auth db).0
  unfolding unsubscribe find_by_tokens
  unsubscribe-Unsubscribes token auth db =
      let key = bearer_token auth in
      let test = has_tokens token key in
      let kept = g.first_keeps subscriptions test db in
      elim (Bool-cases (is_valid_token token)) [
        | inr malformed ↦ rw malformed (refused refl refl)
        | inl valid ↦ elim (Bool-cases (str_eq key "")) [
          | inl nothing ↦ rw (valid, nothing) (refused refl refl)
          | inr given ↦ elim (Bool-cases (is_valid_token key)) [
            | inr malformed ↦ rw (valid, given, malformed) (refused refl refl)
            | inl well_formed ↦
                rw (valid, given, well_formed)
                  (subst
                    (λ c.
                      Unsubscribes token key c
                        (g.contents
                          (unsubscribe_found g json now (g.first subscriptions test db).0
                            (g.first subscriptions test db).1).1)
                        (unsubscribe_found g json now (g.first subscriptions test db).0
                          (g.first subscriptions test db).1).0)
                    kept
                    (unsubscribe_found-Unsubscribes token key (g.first subscriptions test db).0 _
                      (λ sub read.
                        subst (λ c. OwnedBy token key c sub) (sym kept)
                          (g.first_ok subscriptions test db read))))
          ]
        ]
      ]
