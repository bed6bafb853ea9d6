-- ===== src/Redis/Tests.antt =====
-- A store of keys in memory that keeps the laws of Redis, and the dedup store of the notifier over it.
use software_engineering_sch.Prelude.{
  String, ◌≡◌, refl, Bool, true, false, ◌||◌, Option, none, some, List, [], ◌∷◌, Error, str_eq,
  eq_refl, if◌then◌else◌, Bool-cases, inl, inr, ◌⊎◌,
}
use software_engineering_sch.Command.{DeliveryMessage}
use software_engineering_sch.Notifier.Dedup.{Remembers}
use software_engineering_sch.Redis.{Client, Dedup, ReplyError, missing, services}
use software_engineering_sch.Redis.Laws.{Keeps, services-Remembers}

abbrev Memory : Type 0
Memory = List (String × String)

abbrev held : Memory → String → Bool
held [] k = false
held ((j, v) ∷ m) k = str_eq j k || held m k

abbrev value : Memory → String → ReplyError ⊎ String
value [] k = inl missing
value ((j, v) ∷ m) k = let rest = value m k in if str_eq j k then inr v else rest

abbrev without : String → Memory → Memory
without k [] = []
without k ((j, v) ∷ m) = let rest = without k m in if str_eq j k then rest else (j, v) ∷ rest

abbrev absent_on : String → String → Memory → Bool → Option ReplyError × Memory
absent_on k v m true = (some missing, m)
absent_on k v m false = (none, (k, v) ∷ m)

abbrev memory : Client Memory
memory = record {
  get = λ k m. (value m k, m);
  set = λ k v ttl m. (none, (k, v) ∷ m);
  set_absent = λ k v ttl m. absent_on k v m (held m k);
  del = λ k m. (none, without k m);
}

held-without : (k : String) (m : Memory) → held (without k m) k ≡ false
held-without k [] = refl
held-without k ((j, v) ∷ m) = elim (Bool-cases (str_eq j k)) [
  | inl same ↦ rw same (held-without k m)
  | inr differs ↦ rw (differs, differs) (held-without k m)
]

absent_on-none :
    (k v : String) (m : Memory) (b : Bool)
    → held m k ≡ b
    → (absent_on k v m b).0 ≡ none
    → (held m k ≡ false) × (held (absent_on k v m b).1 k ≡ true)
absent_on-none k v m true h e = cc
absent_on-none k v m false h e = (h, rw (eq_refl k) refl)

absent_on-missing :
    (k v : String) (m : Memory) (b : Bool)
    → held m k ≡ b
    → (absent_on k v m b).0 ≡ some missing
    → held (absent_on k v m b).1 k ≡ true
absent_on-missing k v m true h e = h
absent_on-missing k v m false h e = cc

memory-Keeps : Keeps memory held
memory-Keeps = record {
  set_get = λ k v ttl m lasts set. rw (eq_refl k) refl;
  absent_sets = λ k v ttl m h. absent_on-none k v m (held m k) refl h;
  absent_refused = λ k v ttl m h. absent_on-missing k v m (held m k) refl h;
  del_clears = λ k m h. held-without k m;
}

abbrev dedup : Dedup Memory
dedup = record { client = memory; ttl = 86400000000000 }

abbrev publish : DeliveryMessage → List DeliveryMessage → Option Error × List DeliveryMessage
publish cmd log = (none, cmd ∷ log)

services-Remembers_example :
    Remembers (services dedup publish) (λ w. held w.0) (λ (w : Memory × List DeliveryMessage). w.1)
services-Remembers_example = services-Remembers dedup publish (λ log. log) memory-Keeps
