-- ===== src/Scanner/Tests.antt =====
-- The scanner on databases that are written out, with GitHub answering from a table.
use software_engineering_sch.Prelude.{ℕ, false, none, some, [], ◌∷◌, Option, other}
use software_engineering_sch.Events.{Stamp}
use software_engineering_sch.Events.Reference
use software_engineering_sch.Db.{Contents, Repository, Subscription, processing, active}
use software_engineering_sch.Github.Client.{Response, ApiFailure, decoding_error, no_limits}
use software_engineering_sch.Scanner.Processor.{Remote}

abbrev watched : Repository
watched = record {
  id = 3;
  deleted = false;
  github_id = 42;
  etag = "e0";
  owner = "owner";
  name = "name";
  last_release = record { github_id = 1; tag_name = "v0"; etag = "r0" };
  status = processing;
  last_scanned_at = none;
}

abbrev follower : Subscription
follower = record {
  id = 5;
  deleted = false;
  email = "a@b";
  repository_id = 3;
  status = active;
  confirm_token = "t1";
  api_token = "k1";
}

abbrev tables : Contents
tables = record {
  repositories = watched ∷ [];
  subscriptions = follower ∷ [];
  sagas = [];
  outbox = [];
}

abbrev stamps : ℕ → Stamp
stamps i = record { uuid = "1"; now = 0 }

abbrev answer : {A : Type 0} → ℕ → Option ApiFailure → A → Response A
answer status e a = record {
  value = a;
  rate_limits = no_limits;
  etag = "e1";
  status_code = status;
  error = e;
}

-- The repository is unchanged, and has a new release.
abbrev releasing : Remote Unit
releasing = record {
  get_repository = λ owner name etag w. (answer 304 none (record { id = 0; full_name = "" }), w);
  get_latest_release =
      λ owner name etag w. (answer 200 none (record { id = 2; tag_name = "v1"; url = "" }), w);
  freeze = λ w. w;
}

-- GitHub answers 200 with a body that cannot be decoded.
abbrev garbled : Remote Unit
garbled = record {
  get_repository = λ owner name etag w. (
    answer 200 (some (decoding_error (other "unexpected EOF"))) (record { id = 0; full_name = "" }),
    w,
  );
  get_latest_release =
      λ owner name etag w. (answer 404 none (record { id = 0; tag_name = ""; url = "" }), w);
  freeze = λ w. w;
}
