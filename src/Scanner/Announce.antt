-- ===== src/Scanner/Announce.antt =====
-- What the scan of a repository on GitHub does to the tables when a release is found:
-- internal/worker/scanner/processor.go with its store.
use software_engineering_sch.Prelude.{
  ℕ, ◌≡◌, subst, Bool, true, false, ◌&&◌, ◌||◌, none, List, str_eq, ◌==◌, if◌then◌else◌, filter,
}
use software_engineering_sch.Events.{Json, Stamp}
use software_engineering_sch.Db.{Contents, Repository, Subscription, Row, is_active}
use software_engineering_sch.Db.Gorm.{Gorm, live, subscriptions}
use software_engineering_sch.Outbox.{Queued}
use software_engineering_sch.Github.Client.{Response, GithubRepository, LatestRelease}
use software_engineering_sch.Scanner.Processor.{
  Remote, Pending, with_release, check_repository, finish, process_repo,
}
use software_engineering_sch.Scanner.Writes.{queued, with_scan, update_scan_status_done}

-- GitHub says that the repository is the one that was stored.
abbrev pub confirms : Repository → Response GithubRepository → Bool
confirms repo r =
    ((r.status_code == 200) && (r.value.id == repo.github_id)) || (r.status_code == 304)

abbrev pub with_answer : Response GithubRepository → Repository → Repository
with_answer r repo = record repo { etag = if r.status_code == 200 then r.etag else repo.etag }

-- The live active subscriptions of a repository.
abbrev pub subscribers : Repository → Contents → List Subscription
subscribers repo c =
    filter (λ (s : Subscription). (s.repository_id == repo.id) && is_active s.status)
      (live subscriptions c)

module _ {W : Type 0} (g : Gorm) (json : Json) (stamps : ℕ → Stamp) (remote : Remote W) where
  abbrev pub repository_answer : Repository → W → Response GithubRepository × W
  repository_answer repo w = remote.get_repository repo.owner repo.name repo.etag w

  abbrev pub release_answer : Repository → W → Response LatestRelease × W
  release_answer repo w =
      remote.get_latest_release repo.owner repo.name repo.last_release.etag
        (repository_answer repo w).1

  -- The answers of GitHub from which a scan announces a release: the repository is the one stored,
  -- and its latest release has another tag.
  pub record Finds (repo : Repository) (w : W) : Type 0 where
    pub confirmed : confirms repo (repository_answer repo w).0 ≡ true
    pub found : ((release_answer repo w).0.status_code == 200) ≡ true
    pub differs : str_eq (release_answer repo w).0.value.tag_name repo.last_release.tag_name ≡ false

  -- The repository as the scan leaves it.
  abbrev pub released : Repository → W → Repository
  released repo w =
      let r = (release_answer repo w).0 in
      with_release g json stamps remote r.value r.etag
        (with_answer (repository_answer repo w).0 repo)

  pub scan_contents :
      (now : ℕ) (repo : Repository) (db : g.Db) (w : W) (p : Pending g.Db W)
      → check_repository g json stamps remote repo db w ≡ p
      → (process_repo g json stamps remote now repo db w).error ≡ none
      → (rows : List Row) × Queued g json p.events rows
        × (g.contents (process_repo g json stamps remote now repo db w).store
            ≡ queued rows (with_scan now p.repo (g.contents p.store)))
  unfolding process_repo finish
  scan_contents now repo db w p e h =
      subst
        (λ q.
          (rows : List Row) × Queued g json q.events rows
          × (g.contents (process_repo g json stamps remote now repo db w).store
              ≡ queued rows (with_scan now q.repo (g.contents q.store))))
        e (update_scan_status_done g json now _ _ _ h)
