-- ===== src/System/Tests.antt =====
-- The services on a database, a broker and a GitHub that are written out.
use software_engineering_sch.Prelude.{
  ℕ, ◌-◌, ◌*◌, ◌/◌, false, none, some, List, [], ◌∷◌, Option, Error, ok, leb, if◌then◌else◌, ◌≡◌,
  refl,
}
use software_engineering_sch.Prelude.Int.{ℤ, pos, negsuc}
use software_engineering_sch.Events.{Stamp}
use software_engineering_sch.Events.Reference
use software_engineering_sch.Db.{Contents, Repository, OnboardingSaga, idle, compensated}
use software_engineering_sch.Db.Reference.{reference}
use software_engineering_sch.Outbox.Relay.{Relay}
use software_engineering_sch.Github.Client.{Client}
use software_engineering_sch.Handlers.Subscribe.{SubscribeRequest}
use software_engineering_sch.Saga.Spec.{Reach, saga_of}
use software_engineering_sch.Saga.Consistency.{IsConsistent}
use software_engineering_sch.Scanner.Quota.{Float, Clock}
use software_engineering_sch.Scanner.Producer.{Producer}
use software_engineering_sch.Scanner.Worker.{World, tick, turn}
use software_engineering_sch.System.{
  System, Call, subscribes, settles, sweeps, relays, restarts, tables, call_all, call_all-Reach,
  call_all-IsConsistent, call_all-saga_of,
}

abbrev watched : Repository
watched = record {
  id = 3;
  deleted = false;
  github_id = 42;
  etag = "e0";
  owner = "owner";
  name = "name";
  last_release = record { github_id = 1; tag_name = "v0"; etag = "r0" };
  status = idle;
  last_scanned_at = none;
}

abbrev int_value : ℤ → ℕ
int_value (pos n) = n
int_value (negsuc n) = 0

-- Whole numbers in place of a float64.
abbrev numbers : Float ℕ
numbers = record {
  of_int = int_value;
  le = leb;
  sub = λ a b. a - b;
  mul = λ a b. a * b;
  div = λ a b. a / b;
  min = λ a b. if leb a b then a else b;
  ceil = λ n. pos n;
  seconds_until = λ t now. 3600;
  seconds = λ d. d / 1000000000;
}

abbrev producer : Producer
producer = record { producer_interval = 60000000000; min_check_interval = 900; capacity = 2 }

abbrev client : Client Unit
client = record {
  base_url = "https://api.github.com";
  http = λ req w. (ok (record { status_code = 200; header = []; body = ok "v1" }), w);
  refuses = λ url. none;
  repositories = record {
    zero_value = record { id = 0; full_name = "" };
    decode = λ text. (record { id = 42; full_name = text }, none);
  };
  releases = record {
    zero_value = record { id = 0; tag_name = ""; url = "" };
    decode = λ text. (record { id = 8; tag_name = text; url = "" }, none);
  };
  messages = record {
    zero_value = record { message = ""; documentation_url = "" };
    decode = λ text. (record { message = text; documentation_url = "" }, none);
  };
  parse_time = λ text. none;
  now = pos 50;
}

abbrev wait : World ℕ Unit → Option Error × World ℕ Unit
wait w = (none, w)

abbrev relay : Relay {0} Unit
relay = record { publish = λ exchange key payload b. (none, b); batch_size = 10 }

abbrev system : System Contents ℕ Unit Unit
system = record {
  scanner = record {
    queue = [];
    store = record { repositories = watched ∷ []; subscriptions = []; sagas = []; outbox = [] };
    world = (record { limit = 1; safety_buffer = 0 }, tt);
    workers = 1;
  };
  broker = tt;
}

abbrev stamp : Stamp
stamp = record { uuid = "1"; now = 0 }

abbrev clock : Clock
clock = record { now = pos 10; defaults_at = pos 10; reset_read_at = pos 10 }

abbrev request : SubscribeRequest
request = record { email = "a@b"; repo = "owner/name" }

-- Someone subscribes, the email cannot be sent, the scanner runs, and the relay publishes.
abbrev calls : List Call
calls =
    subscribes 100 2 (λ i. ok "t1") stamp
      (λ owner name. record { id = 42; status_code = 200; error = none }) (some request)
    ∷ settles 200 "ft1"
    ∷ restarts (tick clock none 300 (λ k. false) ∷ turn 400 (λ i. stamp) ∷ [])
    ∷ sweeps 500 60
    ∷ relays 5 1
    ∷ []

call_all-Reach_example :
    Reach (tables reference Reference.reference numbers producer client wait relay system) (
      tables reference Reference.reference numbers producer client wait relay
        (call_all reference Reference.reference numbers producer client wait relay calls system))
call_all-Reach_example =
    call_all-Reach reference Reference.reference numbers producer client wait relay calls system

call_all-IsConsistent_example : IsConsistent (
    tables reference Reference.reference numbers producer client wait relay
      (call_all reference Reference.reference numbers producer client wait relay calls system))
call_all-IsConsistent_example =
    call_all-IsConsistent reference Reference.reference numbers producer client wait relay calls
      system tt

abbrev lost : OnboardingSaga
lost = record { id = 1; deleted = false; created_at = 5; confirm_token = "t0"; state = compensated }

-- The same calls beside a saga that has been compensated.
abbrev after_loss : System Contents ℕ Unit Unit
after_loss = record system {
  scanner = record system.scanner { store = record system.scanner.store { sagas = lost ∷ [] } };
}

call_all-saga_of_example :
    saga_of "t0" (
      tables reference Reference.reference numbers producer client wait relay (
        call_all reference Reference.reference numbers producer client wait relay calls after_loss))
    ≡ some lost
call_all-saga_of_example =
    call_all-saga_of reference Reference.reference numbers producer client wait relay calls
      after_loss "t0" refl refl
