-- ===== src/Scanner/Processor.antt =====
-- internal/worker/scanner/processor.go: one repository checked on GitHub. The GitHub client and the
-- quota are parameters over one world; the stamps are those of the events, one after the other.
use software_engineering_sch.Prelude.{
  ℕ, suc, String, Bool, ◌||◌, Option, List, [], ◌∷◌, str_eq, str_append, ◌==◌, if◌then◌else◌, Error,
  Result, ok, err,
}
use software_engineering_sch.Events.{
  Json, Stamp, Envelope, new_release_detected, new_repository_moved,
}
use software_engineering_sch.Db.{Repository, Subscription}
use software_engineering_sch.Db.Gorm.{Gorm}
use software_engineering_sch.Outbox.{Event, new}
use software_engineering_sch.Github.Client.{Response, GithubRepository, LatestRelease}
use software_engineering_sch.Scanner.Store.{
  get_active_subscriptions, update_scan_status, mark_moved_and_unsubscribe,
}

-- What the processor calls besides its store.
pub record Remote (W : Type 0) : Type 0 where
  pub get_repository : String → String → String → W → Response GithubRepository × W
  pub get_latest_release : String → String → String → W → Response LatestRelease × W
  pub freeze : W → W

abbrev pub full_name : Repository → String
full_name repo = str_append repo.owner (str_append "/" repo.name)

abbrev pub is_limit_status : ℕ → Bool
is_limit_status status = (status == 403) || (status == 429)

abbrev keep_event : Result Event → List Event → List Event
keep_event (ok e) es = e ∷ es
keep_event (err x) es = es

-- One event for each subscriber, from the stamp of the number; an event that cannot be built is
-- left out.
unfoldable pub events_for :
    (ℕ → Stamp) → (Stamp → Subscription → Result Envelope) → ℕ → List Subscription → List Event
events_for stamps make i [] = []
events_for stamps make i (s ∷ ss) =
    keep_event (new (make (stamps i) s)) (events_for stamps make (suc i) ss)

module _ (json : Json) (stamps : ℕ → Stamp) where
  unfoldable pub release_events : Repository → String → List Subscription → List Event
  unfolding events_for
  release_events repo tag subs =
      events_for stamps
        (λ at s.
          new_release_detected json at
            (record { email = s.email; repo = full_name repo; release_tag = tag }))
        0 subs

  unfoldable pub moved_events : Repository → List Subscription → List Event
  unfolding events_for
  moved_events repo subs =
      events_for stamps
        (λ at s. new_repository_moved json at (record { email = s.email; repo = full_name repo })) 0
        subs

-- The repository and the events that the deferred update writes, and the states that it finds.
pub record Pending (D W : Type 0) : Type 0 where
  pub repo : Repository
  pub events : List Event
  pub store : D
  pub world : W

pub record Scanned (D W : Type 0) : Type 0 where
  pub error : Option Error
  pub store : D
  pub world : W

module _ {W : Type 0} (g : Gorm) (json : Json) (stamps : ℕ → Stamp) (remote : Remote W) where
  abbrev pub nothing_pending : Repository → g.Db → W → Pending g.Db W
  nothing_pending repo db w = record { repo = repo; events = []; store = db; world = w }

  unfoldable pub events_of_release : Repository → String → Result (List Subscription) → List Event
  unfolding release_events
  events_of_release repo tag (err e) = []
  events_of_release repo tag (ok subs) = release_events json stamps repo tag subs

  unfoldable pub handle_new_release : Repository → LatestRelease → g.Db → List Event × g.Db
  unfolding events_of_release
  handle_new_release repo release db =
      let (r, db') = get_active_subscriptions g repo.id db in
      (events_of_release repo release.tag_name r, db')

  unfoldable pub move_subscribers : Repository → Result (List Subscription) → g.Db → g.Db
  unfolding moved_events
  move_subscribers repo (err e) db = db
  move_subscribers repo (ok subs) db =
      (mark_moved_and_unsubscribe g json repo (moved_events json stamps repo subs) db).1

  -- Errors are only logged.
  unfoldable pub handle_repo_moved : Repository → g.Db → g.Db
  unfolding move_subscribers
  handle_repo_moved repo db =
      let (r, db') = get_active_subscriptions g repo.id db in move_subscribers repo r db'

  abbrev with_release_etag : String → Repository → Repository
  with_release_etag etag repo = record repo {
    last_release = record repo.last_release { etag = etag };
  }

  abbrev pub with_release : LatestRelease → String → Repository → Repository
  with_release release etag repo = record repo {
    last_release = record { github_id = release.id; tag_name = release.tag_name; etag = etag };
  }

  unfoldable pub found_release : Repository → Response LatestRelease → g.Db → W → Pending g.Db W
  unfolding handle_new_release
  found_release repo r db w =
      let (events, db') = handle_new_release repo r.value db in
      if str_eq r.value.tag_name repo.last_release.tag_name
      then nothing_pending (with_release_etag r.etag repo) db w
      else record {
        repo = with_release r.value r.etag repo;
        events = events;
        store = db';
        world = w;
      }

  unfoldable pub on_release : Repository → Response LatestRelease → g.Db → W → Pending g.Db W
  unfolding found_release
  on_release repo r db w =
      if r.status_code == 200
      then found_release repo r db w
      else if is_limit_status r.status_code
      then nothing_pending repo db (remote.freeze w)
      else nothing_pending repo db w

  unfoldable pub check_release : Repository → g.Db → W → Pending g.Db W
  unfolding on_release
  check_release repo db w =
      let (r, w') = remote.get_latest_release repo.owner repo.name repo.last_release.etag w in
      on_release repo r db w'

  unfoldable pub on_repository : Repository → Response GithubRepository → g.Db → W → Pending g.Db W
  unfolding check_release handle_repo_moved
  on_repository repo r db w =
      if r.status_code == 200
      then (if r.value.id == repo.github_id
          then check_release (record repo { etag = r.etag }) db w
          else nothing_pending repo (handle_repo_moved repo db) w)
      else if r.status_code == 304
      then check_release repo db w
      else if is_limit_status r.status_code
      then nothing_pending repo db (remote.freeze w)
      else nothing_pending repo db w

  unfoldable pub check_repository : Repository → g.Db → W → Pending g.Db W
  unfolding on_repository
  check_repository repo db w =
      let (r, w') = remote.get_repository repo.owner repo.name repo.etag w in
      on_repository repo r db w'

  unfoldable pub finish : ℕ → Pending g.Db W → Scanned g.Db W
  finish now p =
      let (e, db') = update_scan_status g json now p.repo p.events p.store in
      record { error = e; store = db'; world = p.world }

  -- The deferred update comes last on every branch; its error is only logged.
  unfoldable pub process_repo : ℕ → Repository → g.Db → W → Scanned g.Db W
  unfolding check_repository finish
  process_repo now repo db w = finish now (check_repository repo db w)
