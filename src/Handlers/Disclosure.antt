-- ===== src/Handlers/Disclosure.antt =====
-- What GetSubscriptions of internal/transport/http/handlers/subscription.go gives away, and to whom.
use software_engineering_sch.Prelude.{
  String, ◌≡◌, refl, sym, subst, Bool, true, false, ◌&&◌, ◌||◌, not, some, List, [], ◌∷◌, str_eq,
  eq_iff, arith, ◌==◌, inl, inr, Bool-cases, Option-cases, find?, filter, All, is_not_found, Result,
  ok, err,
}
use software_engineering_sch.Db.{Contents, Repository, Subscription, is_unsubscribed}
use software_engineering_sch.Db.Gorm.{Gorm, live, subscriptions}
use software_engineering_sch.Handlers.Text.{trim_space, is_valid_token, bearer_token}
use software_engineering_sch.Handlers.Store.{find_by_email_and_token, list_subscriptions}
use software_engineering_sch.Handlers.Response.{Item, Response}
use software_engineering_sch.Handlers.Listing.{
  repo_info, items_of, listing, list_with, list_found, list_for, get_subscriptions,
}

abbrev pub IsItemOf : String → Item → Type 0
IsItemOf email x = x.email ≡ email

abbrev pub IsOf : String → Subscription → Type 0
IsOf email s = (str_eq s.email email && not (is_unsubscribed s.status)) ≡ true

same_email : (email : String) (s : Subscription) → IsOf email s → s.email ≡ email
same_email email s h = ground (arith, eq_iff s.email email)

filter-All :
    (p : Subscription → Bool) (xs : List Subscription) → All (λ s. p s ≡ true) (filter p xs)
filter-All p [] = tt
filter-All p (x ∷ xs) = elim (Bool-cases (p x)) [
  | inl passes ↦ rw passes (passes, filter-All p xs)
  | inr fails ↦ rw fails (filter-All p xs)
]

items_of-IsItemOf :
    (email : String) (repos : List Repository) (subs : List Subscription)
    → All (IsOf email) subs
    → All (IsItemOf email) (items_of repos subs)
unfolding items_of
items_of-IsItemOf email repos [] h = tt
items_of-IsItemOf email repos (s ∷ ss) h = elim (Option-cases (repo_info repos s.repository_id)) [
  | inl missing ↦ rw (items_of, missing) (items_of-IsItemOf email repos ss h.1)
  | inr (r, found) ↦
      rw (items_of, found) (same_email email s h.0, items_of-IsItemOf email repos ss h.1)
]

-- The answer lists nothing, or only subscriptions of the address.
pub data Shows (email : String) (r : Response) : Type 0 where
  nothing : (r.status == 200) ≡ false → Shows email r
  own : (xs : List Item) → r ≡ listing xs → All (IsItemOf email) xs → Shows email r

abbrev pub knows : String → String → Subscription → Bool
knows email key s = str_eq s.email email && str_eq s.api_token key

-- An answer of 200 goes to one who knows an API token, which is not empty, of a live subscription of
-- the address.
pub data Discloses (email key : String) (c : Contents) (r : Response) : Type 0 where
  refused : (r.status == 200) ≡ false → Discloses email key c r
  shown :
      (sub : Subscription)
      → find? (knows email key) (live subscriptions c) ≡ some sub
      → str_eq key "" ≡ false
      → Shows email r
      → Discloses email key c r

not_either : (a b : Bool) → (a || b) ≡ false → a ≡ false
not_either a b h = ground arith

module _ (g : Gorm) where
  list_with-Shows :
      (email : String) (subs : List Subscription) (r : Result (List Repository))
      → All (IsOf email) subs
      → Shows email (list_with g subs r)
  unfolding list_with
  list_with-Shows email subs (err e) h = nothing refl
  list_with-Shows email subs (ok repos) h =
      own (items_of repos subs) refl (items_of-IsItemOf email repos subs h)

  list_found-Shows :
      (email : String) (r : Result (List Subscription)) (db : g.Db)
      → ((rows : List Subscription) → r ≡ ok rows → All (IsOf email) rows)
      → Shows email (list_found g r db).0
  unfolding list_found
  list_found-Shows email (err e) db h = nothing refl
  list_found-Shows email (ok []) db h = own [] refl tt
  list_found-Shows email (ok (s ∷ ss)) db h = list_with-Shows email (s ∷ ss) _ (h (s ∷ ss) refl)

  listed-IsOf :
      (email : String) (db : g.Db) (rows : List Subscription)
      → (list_subscriptions g email db).0 ≡ ok rows
      → All (IsOf email) rows
  unfolding list_subscriptions
  listed-IsOf email db rows h =
      let test = λ (s : Subscription). str_eq s.email email && not (is_unsubscribed s.status) in
      subst (All (IsOf email)) (sym (g.find_ok subscriptions test db h))
        (filter-All test (live subscriptions (g.contents db)))

  list_for-Discloses :
      (email key : String) (c : Contents) (r : Result Subscription) (db : g.Db)
      → str_eq key "" ≡ false
      → ((sub : Subscription)
          → r ≡ ok sub
          → find? (knows email key) (live subscriptions c) ≡ some sub)
      → Discloses email key c (list_for g email r db).0
  unfolding list_for
  list_for-Discloses email key c (err e) db some_key h = elim (Bool-cases (is_not_found e)) [
    | inl gone ↦ rw gone (refused refl)
    | inr other_error ↦ rw other_error (refused refl)
  ]
  list_for-Discloses email key c (ok sub) db some_key h =
      shown sub (h sub refl) some_key (list_found-Shows email _ _ (listed-IsOf email db))

  -- A list is given only to one who knows the address and an API token, which is not empty, of one of
  -- its live subscriptions, and it holds subscriptions of that address only.
  pub get_subscriptions-Discloses :
      (query auth : String) (db : g.Db)
      → Discloses
          (trim_space query)
          (bearer_token auth)
          (g.contents db)
          (get_subscriptions g query auth db).0
  unfolding get_subscriptions find_by_email_and_token
  get_subscriptions-Discloses query auth db =
      let email = trim_space query in
      let key = bearer_token auth in
      elim (Bool-cases (str_eq email "")) [
        | inl empty ↦ rw empty (refused refl)
        | inr given ↦ elim (Bool-cases (str_eq key "" || not (is_valid_token key))) [
          | inl malformed ↦ rw (given, malformed) (refused refl)
          | inr valid ↦
              rw (given, valid)
                (list_for-Discloses email key (g.contents db) _ _ (not_either _ _ valid)
                  (λ sub read. g.first_ok subscriptions (knows email key) db read))
        ]
      ]
