-- ===== src/Db/Failing.antt =====
-- Databases that refuse some of the statements: the laws of Db.Gorm leave room for each of them.
use software_engineering_sch.Prelude.{◌≡◌, refl, subst, Error, other, Result, ok, err}
use software_engineering_sch.Db.Gorm.{Gorm, IsForeign}
use software_engineering_sch.Db.Reference.{reference}

abbrev pub down : Error
down = other "connection reset by peer"

pub down-IsForeign : {A : Type 0} {e : Error} → ◌≡◌ {A = Result A} (err down) (err e) → IsForeign e
down-IsForeign {e = e} h = let same : down ≡ e = cc h in subst (λ x. IsForeign x) same tt

pub no_result : {A : Type 0} {P : Type 0} {a : A} → ◌≡◌ {A = Result A} (err down) (ok a) → P
no_result h = absurd (cc h)

-- Deletes fail, and change nothing.
abbrev pub refusing_deletes : Gorm
refusing_deletes = record reference {
  delete = λ m p c. (err down, c);
  delete_rows = λ m p c h. no_result h;
  delete_failed = λ m p c h. (refl, down-IsForeign h);
}

-- Queries for many rows fail.
abbrev pub failing_finds : Gorm
failing_finds = record reference {
  find = λ m p c. (err down, c);
  find_ok = λ m p c h. no_result h;
  find_keeps = λ m p c. refl;
}
