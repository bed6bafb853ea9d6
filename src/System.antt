-- ===== src/System.antt =====
-- The services beside each other on one database: the handlers of internal/transport/http/handlers, the
-- orchestrator and the reaper of internal/worker/orchestrator, the scanner of internal/worker/scanner,
-- and the relay of internal/infra/outbox. What they do comes in any order, one call after the other.
mod Tests
use software_engineering_sch.Prelude.{
  ℕ, zero, suc, ◌+◌, ◌-◌, ◌*◌, ◌/◌, ◌%◌, ◌^◌, ◌≤◌, ◌<◌, String, ◌≡◌, refl, sym, ap, ◌∙◌, subst, ◌≢◌,
  ◌↔◌, ◌⊎◌, inl, inr, Bool, true, false, ◌&&◌, ◌||◌, not, Option, none, some, List, [], ◌∷◌, ◌++◌,
  map, arith, str_eq, str_append, eq_iff, eq_refl, ltb, leb, ◌==◌, if◌then◌else◌, Bool-cases,
  Option-cases, length, take, filter, find?, any, map_where, All, All-append, All-map_where,
  All-imp, length-append, Error, record_not_found, already_settled, unknown_email_type, other,
  message, quoted, Result, ok, err, Result-cases, ltb→lt, lt→ltb, leb→le, ==_iff, ==_refl,
}
use software_engineering_sch.Events.{Json, Stamp}
use software_engineering_sch.Db.{Contents, OnboardingSaga, is_awaiting}
use software_engineering_sch.Db.Gorm.{Gorm}
use software_engineering_sch.Broker.Settler.{Session}
use software_engineering_sch.Outbox.Relay.{Relay, run}
use software_engineering_sch.Outbox.Steps.{run-Reach}
use software_engineering_sch.Github.Client.{Client}
use software_engineering_sch.Handlers.Confirm.{confirm, unsubscribe}
use software_engineering_sch.Handlers.Confirmation.{confirm-Reach}
use software_engineering_sch.Handlers.Subscribe.{GithubAnswer, SubscribeRequest, subscribe}
use software_engineering_sch.Handlers.Steps.{Reach-trans, subscribe-Reach, unsubscribe-Reach}
use software_engineering_sch.Saga.Spec.{Reach, here, saga_of, Reach-saga_of}
use software_engineering_sch.Saga.Consistency.{IsConsistent, Reach-IsConsistent}
use software_engineering_sch.Saga.Store.{gorm_store}
use software_engineering_sch.Saga.Contract.{gorm_store-IsSagaStore}
use software_engineering_sch.Saga.Orchestrator
use software_engineering_sch.Saga.Redelivery.{process-Reach}
use software_engineering_sch.Saga.Reaper.{sweep, sweep-Reach}
use software_engineering_sch.Scanner.Quota.{Float}
use software_engineering_sch.Scanner.Producer.{Producer}
use software_engineering_sch.Scanner.Worker.{World, State, Act, start, perform_all}
use software_engineering_sch.Scanner.System.{start-Reach, perform_all-Reach}

-- The database and the scanner's state are one record; the broker is what the relay publishes to.
pub record System (D F V B : Type 0) : Type 0 where
  pub scanner : State D F V
  pub broker : B

-- What may happen next.
pub data Call : Type 0 where
  subscribes :
      (now fuel : ℕ)
      → (ℕ → Result String)
      → Stamp
      → (String → String → GithubAnswer)
      → Option SubscribeRequest
      → Call
  confirms : (now : ℕ) → Result String → (token : String) → Call
  unsubscribes : (now : ℕ) → (token auth : String) → Call
  -- a delivery to the orchestrator
  settles : (now : ℕ) → (body : String) → Call
  -- a tick of the reaper
  sweeps : (now older_than : ℕ) → Call
  -- a run of the relay
  relays : (fuel ticks : ℕ) → Call
  -- the scanner starts anew, or goes on
  restarts scans : List Act → Call

module _ {F V B : Type 0} (g : Gorm) (json : Json) (f : Float F) (p : Producer) (client : Client V)
    (wait : World F V → Option Error × World F V) (relay : Relay B) where
  abbrev pub tables : System g.Db F V B → Contents
  tables s = g.contents s.scanner.store

  with_db : g.Db → System g.Db F V B → System g.Db F V B
  with_db db s = record s { scanner = record s.scanner { store = db } }

  unfoldable pub call : Call → System g.Db F V B → System g.Db F V B
  unfolding with_db
  call (subscribes now fuel tokens at github req) s =
      with_db (subscribe g json now tokens fuel at github req s.scanner.store).1 s
  call (confirms now generated token) s =
      with_db (confirm g json now generated token s.scanner.store).1 s
  call (unsubscribes now token auth) s =
      with_db (unsubscribe g json now token auth s.scanner.store).1 s
  call (settles now body) s =
      with_db
        (Orchestrator.process (gorm_store g now) json body
          (record { store = s.scanner.store; settled = [] })).store
        s
  call (sweeps now older_than) s = with_db (sweep (gorm_store g now) older_than s.scanner.store).1 s
  call (relays fuel ticks) s =
      let done = run g relay fuel ticks s.scanner.store s.broker in
      record s { scanner = record s.scanner { store = done.store }; broker = done.broker }
  call (restarts acts) s = record s { scanner = start f g json p client wait acts s.scanner }
  call (scans acts) s = record s { scanner = perform_all f g json p client wait acts s.scanner }

  unfoldable pub call_all : List Call → System g.Db F V B → System g.Db F V B
  unfolding call
  call_all [] s = s
  call_all (c ∷ cs) s = call_all cs (call c s)

  call-Reach : (c : Call) (s : System g.Db F V B) → Reach (tables s) (tables (call c s))
  unfolding call with_db
  call-Reach (subscribes now fuel tokens at github req) s =
      subscribe-Reach g json now tokens fuel at github req s.scanner.store
  call-Reach (confirms now generated token) s =
      confirm-Reach g json now generated token s.scanner.store
  call-Reach (unsubscribes now token auth) s =
      unsubscribe-Reach g json now token auth s.scanner.store
  call-Reach (settles now body) s =
      process-Reach (gorm_store-IsSagaStore g now) json body
        (record { store = s.scanner.store; settled = [] })
  call-Reach (sweeps now older_than) s =
      sweep-Reach (gorm_store-IsSagaStore g now) older_than s.scanner.store
  call-Reach (relays fuel ticks) s = run-Reach g relay fuel ticks s.scanner.store s.broker here
  call-Reach (restarts acts) s = start-Reach g f json p client wait acts s.scanner here
  call-Reach (scans acts) s = perform_all-Reach g f json p client wait acts s.scanner here

  -- The services together refine the specification of the saga: whatever requests, results, ticks and
  -- turns come, in whatever order, and whatever the database, GitHub and the broker answer, the tables
  -- move by its steps.
  pub call_all-Reach :
      (cs : List Call) (s : System g.Db F V B) → Reach (tables s) (tables (call_all cs s))
  unfolding call_all
  call_all-Reach [] s = here
  call_all-Reach (c ∷ cs) s = Reach-trans (call-Reach c s) (call_all-Reach cs (call c s))

  -- A live saga that has been completed or compensated is never changed again, whatever the services
  -- do, in whatever order, and whatever fails.
  pub call_all-saga_of :
      (cs : List Call) (s : System g.Db F V B) (token : String) {saga : OnboardingSaga}
      → saga_of token (tables s) ≡ some saga
      → is_awaiting saga.state ≡ false
      → saga_of token (tables (call_all cs s)) ≡ some saga
  call_all-saga_of cs s token live settled = Reach-saga_of token live settled (call_all-Reach cs s)

  -- The services together, in any order of their calls and whatever fails, leave no subscription
  -- pending behind a compensated saga, if there was none before.
  pub call_all-IsConsistent :
      (cs : List Call) (s : System g.Db F V B)
      → IsConsistent (tables s)
      → IsConsistent (tables (call_all cs s))
  call_all-IsConsistent cs s h = Reach-IsConsistent h (call_all-Reach cs s)
