-- ===== src/Scanner/Examples.antt =====
-- Claims, the quota and the producer of the scanner at concrete values.
use software_engineering_sch.Prelude.{
  ℕ, ◌-◌, ◌*◌, ◌/◌, ◌≤◌, ◌≡◌, refl, false, none, some, [], ◌∷◌, arith, leb, if◌then◌else◌, length,
}
use software_engineering_sch.Prelude.Int.{ℤ, pos, negsuc, lt_int}
use software_engineering_sch.Db.{Contents, Repository, idle, processing}
use software_engineering_sch.Db.Reference.{reference, update_in, batch_in, transaction_in}
use software_engineering_sch.Github.Limits.{RateLimits}
use software_engineering_sch.Scanner.Store.{claim_body, mark_claimed}
use software_engineering_sch.Scanner.Quota.{
  Float, Quota, Clock, IsFloat, Paces, provided, refresh, refresh-Paces,
}
use software_engineering_sch.Scanner.Producer.{Producer, produce}
use software_engineering_sch.Scanner.Capacity.{length-produce}

abbrev watched : Repository
watched = record {
  id = 3;
  deleted = false;
  github_id = 42;
  etag = "e0";
  owner = "owner";
  name = "name";
  last_release = record { github_id = 1; tag_name = "v0"; etag = "r0" };
  status = processing;
  last_scanned_at = none;
}

-- Two scanners claim from the same tables.
abbrev due : Contents
due = record {
  repositories = record watched { status = idle } ∷ [];
  subscriptions = [];
  sagas = [];
  outbox = [];
}

claim_committed : (reference.transaction (claim_body reference 100 10 900) due).0 ≡ none
unfolding claim_body mark_claimed batch_in update_in transaction_in
claim_committed = refl

-- Whole numbers in place of a float64.
abbrev int_value : ℤ → ℕ
int_value (pos n) = n
int_value (negsuc n) = 0

abbrev least : ℕ → ℕ → ℕ
least a b = if leb a b then a else b

abbrev numbers : Float ℕ
numbers = record {
  of_int = int_value;
  le = leb;
  sub = λ a b. a - b;
  mul = λ a b. a * b;
  div = λ a b. a / b;
  min = least;
  ceil = λ n. pos n;
  seconds_until = λ t now. 3600;
  seconds = λ d. d / 1000000000;
}

numbers-IsFloat : IsFloat numbers
numbers-IsFloat = record {
  nought_five = refl;
  nought_ten = refl;
  hour_positive = refl;
  int_self = λ n. ground arith;
  min_le = λ x n h. ground arith;
  min_real = λ x n h. ground arith;
  le_min = λ x y z h k. ground arith;
  div_positive = λ x y h k l. ground arith;
  half_positive = λ x h. ground arith;
  nan_div = λ x y h. ground arith;
  half_le = λ x h. ground arith;
}

abbrev clock : Clock
clock = record { now = pos 10; defaults_at = pos 10; reset_read_at = pos 10 }

abbrev limits : RateLimits
limits = record {
  limit = pos 5000;
  remaining = pos 90000;
  reset_at = pos 3610;
  retry_after = pos 0;
}

abbrev quota : Quota ℕ
quota = record { limit = 1; safety_buffer = 0 }

refresh-Paces_example :
    Paces numbers
      (lt_int clock.now (provided (some limits)).retry_after)
      (refresh numbers clock (some limits) quota).1.limit
refresh-Paces_example = refresh-Paces numbers numbers-IsFloat clock (some limits) quota

abbrev producer : Producer
producer = record { producer_interval = 60000000000; min_check_interval = 900; capacity = 2 }

length-produce_example :
    length
      (produce numbers reference producer clock
        (some limits)
        100
        (λ k. false)
        quota
        (watched ∷ [])
        due).queue
    ≤ 2
length-produce_example =
    length-produce reference numbers producer clock (some limits) 100 (λ k. false) quota
      (watched ∷ []) due (refl, tt) (omega arith)
