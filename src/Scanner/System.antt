-- ===== src/Scanner/System.antt =====
-- The scanner of internal/worker/scanner beside the onboarding saga: any run of its producer and its
-- workers moves the tables by steps of the saga's specification.
use software_engineering_sch.Prelude.{
  ℕ, zero, suc, ◌-◌, ◌≡◌, refl, sym, ◌∙◌, subst, inl, inr, Bool, not, Option, none, some, List, [],
  ◌∷◌, Bool-cases, Option-cases, length, Error, Result-cases,
}
use software_engineering_sch.Events.{Json, Stamp}
use software_engineering_sch.Db.{Contents, Repository, idle, is_idle}
use software_engineering_sch.Db.Gorm.{Gorm, repositories}
use software_engineering_sch.Saga.Spec.{Reach, next, beside}
use software_engineering_sch.Github.Client.{Client}
use software_engineering_sch.Handlers.Store.{one_of}
use software_engineering_sch.Scanner.Store.{
  in_status, recover_stuck_repos, claim_body, claimed_ids, claim_idle, claim_result, find_claimed,
}
use software_engineering_sch.Scanner.Claims.{claim_done}
use software_engineering_sch.Scanner.Quota.{Float, refresh}
use software_engineering_sch.Scanner.Producer.{
  Producer, is_nought, produce_batch, batch_size, produce_at, produce,
}
use software_engineering_sch.Scanner.Steps.{process_repo-Reach}
use software_engineering_sch.Scanner.Worker.{
  World, State, Act, tick, turn, remote, waited, received, work, perform, perform_all, start,
}

module _ (g : Gorm) where
  find_claimed-contents :
      (ids : List ℕ) (db : g.Db) → g.contents (find_claimed g ids db).1 ≡ g.contents db
  unfolding find_claimed
  find_claimed-contents [] db = refl
  find_claimed-contents (k ∷ ks) db = g.find_keeps repositories (λ x. one_of (k ∷ ks) x.id) db

  claim_idle-Reach :
      {c : Contents} (now size min_interval : ℕ) (db : g.Db)
      → Reach c (g.contents db)
      → Reach c (g.contents (claim_idle g now size min_interval db).1)
  unfolding claim_idle claim_result
  claim_idle-Reach {c} now size min_interval db r =
      elim (Option-cases (g.transaction (claim_body g now size min_interval) db).0) [
        | inr (e, failed) ↦
            rw (claim_idle, failed)
              (subst (λ c'. Reach c c')
                (sym (g.transaction_failed (claim_body g now size min_interval) db failed).0) r)
        | inl committed ↦
            rw (claim_idle, committed)
              (next r (
                beside _ _ (
                  find_claimed-contents (claimed_ids g now size min_interval db)
                    (g.transaction (claim_body g now size min_interval) db).1
                  ∙ claim_done g now size min_interval db committed)))
      ]

  recover_stuck_repos-Reach :
      {c : Contents} (db : g.Db)
      → Reach c (g.contents db)
      → Reach c (g.contents (recover_stuck_repos g db).1)
  unfolding recover_stuck_repos
  recover_stuck_repos-Reach {c} db r =
      elim (Result-cases
        (g.update repositories (λ r. not (is_idle r.status)) (in_status idle) db).0) [
          | inl (n, done) ↦ next r (beside _ _ (g.update_rows repositories _ _ db done))
          | inr (e, failed) ↦
              subst (λ c'. Reach c c') (sym (g.update_failed repositories _ _ db failed).0) r
        ]

  module _ {F V : Type 0} (f : Float F) (json : Json) (p : Producer) (client : Client V)
      (wait : World F V → Option Error × World F V) where
    produce_batch-Reach :
        {c : Contents} (now : ℕ) (done : ℕ → Bool) (size : ℕ) (queue : List Repository) (db : g.Db)
        → Reach c (g.contents db)
        → Reach c (g.contents (produce_batch f g p now done size queue db).1)
    unfolding produce_batch
    produce_batch-Reach now done zero queue db r = r
    produce_batch-Reach now done (suc n) queue db r =
        claim_idle-Reach now (suc n) p.min_check_interval db r

    produce_at-Reach :
        {c : Contents} (now : ℕ) (done : ℕ → Bool) (rps : F) (queue : List Repository) (db : g.Db)
        → Reach c (g.contents db)
        → Reach c (g.contents (produce_at f g p now done rps queue db).1)
    unfolding produce_at
    produce_at-Reach now done rps queue db r = elim (Bool-cases (is_nought f g p rps)) [
      | inl stopped ↦ rw (produce_at, stopped) r
      | inr goes ↦
          rw (produce_at, goes)
            (produce_batch-Reach now done
              (batch_size (f.ceil (f.mul rps (f.seconds p.producer_interval)))
                (p.capacity - length queue))
              queue db r)
    ]

    waited-Reach :
        {c : Contents} (now : ℕ) (stamps : ℕ → Stamp) (x : Repository) (e : Option Error)
        (s : State g.Db F V)
        → Reach c (g.contents s.store)
        → Reach c (g.contents (waited f g json p client wait now stamps x e s).store)
    unfolding waited
    waited-Reach now stamps x (some e) s r = r
    waited-Reach now stamps x none s r =
        process_repo-Reach g json stamps (remote f client) now x s.store s.world r

    work-Reach :
        {c : Contents} (now : ℕ) (stamps : ℕ → Stamp) (n : ℕ) (queue : List Repository)
        (s : State g.Db F V)
        → Reach c (g.contents s.store)
        → Reach c (g.contents (work f g json p client wait now stamps n queue s).store)
    unfolding work received
    work-Reach now stamps zero queue s r = r
    work-Reach now stamps (suc n) [] s r = r
    work-Reach now stamps (suc n) (x ∷ xs) s r =
        waited-Reach now stamps x (wait s.world).0
          (record s { queue = xs; world = (wait s.world).1 }) r

    perform-Reach :
        {c : Contents} (a : Act) (s : State g.Db F V)
        → Reach c (g.contents s.store)
        → Reach c (g.contents (perform f g json p client wait a s).store)
    unfolding perform produce
    perform-Reach (tick clock limits now done) s r =
        produce_at-Reach now done (refresh f clock limits s.world.0).0 s.queue s.store r
    perform-Reach (turn now stamps) s r = work-Reach now stamps s.workers s.queue s r

    pub perform_all-Reach :
        {c : Contents} (acts : List Act) (s : State g.Db F V)
        → Reach c (g.contents s.store)
        → Reach c (g.contents (perform_all f g json p client wait acts s).store)
    unfolding perform_all
    perform_all-Reach [] s r = r
    perform_all-Reach (a ∷ acts) s r = perform_all-Reach acts _ (perform-Reach a s r)

    -- From its start on, whatever the order of the ticks and of the workers' turns, whatever GitHub
    -- answers and whatever fails, the scanner moves the tables by steps of the specification of the saga.
    pub start-Reach :
        {c : Contents} (acts : List Act) (s : State g.Db F V)
        → Reach c (g.contents s.store)
        → Reach c (g.contents (start f g json p client wait acts s).store)
    unfolding start
    start-Reach acts s r =
        perform_all-Reach acts (record s { store = (recover_stuck_repos g s.store).1 })
          (recover_stuck_repos-Reach s.store r)
