-- ===== src/Broker/Topology.antt =====
-- internal/infra/rabbitmq/topology.go: the queues of each consumer, and what a service declares when
-- it connects. The AMQP channel is a parameter: what it answers to each declaration.
use software_engineering_sch.Prelude.{
  ℕ, zero, suc, ◌+◌, ◌<◌, String, ◌≡◌, refl, subst, Option, none, some, List, [], ◌∷◌, ◌++◌, map,
  arith, str_append, All, All-imp, Error, other, message,
}
use software_engineering_sch.Prelude.Int.{pos}
use software_engineering_sch.Broker.Retry.{RetryPolicy, tier_ttl_ms, retry_queue_name}

abbrev pub events_exchange : String
events_exchange = "github_scanner.events"

abbrev pub commands_exchange : String
commands_exchange = "github_scanner.commands"

abbrev pub key_email_send : String
key_email_send = "email.send"

abbrev pub header_attempts : String
header_attempts = "x-attempts"

abbrev pub header_dlq_reason : String
header_dlq_reason = "x-dlq-reason"

pub record QueueSet : Type 0 where
  pub main : String
  pub retry : String
  pub dlq : String

pub record Endpoint : Type 0 where
  pub exchange : String
  pub routing_keys : List String
  pub queues : QueueSet

abbrev pub notifications_endpoint : Endpoint
notifications_endpoint = record {
  exchange = events_exchange;
  routing_keys = "release.detected" ∷ "repository.moved" ∷ "subscription.created" ∷ [];
  queues = record {
    main = "notifications";
    retry = "notifications.retry";
    dlq = "notifications.dlq";
  };
}

abbrev pub commands_endpoint : Endpoint
commands_endpoint = record {
  exchange = commands_exchange;
  routing_keys = key_email_send ∷ [];
  queues = record {
    main = "email.delivery";
    retry = "email.delivery.retry";
    dlq = "email.delivery.dlq";
  };
}

abbrev pub onboarding_saga_endpoint : Endpoint
onboarding_saga_endpoint = record {
  exchange = events_exchange;
  routing_keys = "verification.delivered" ∷ "verification.failed" ∷ [];
  queues = record {
    main = "onboarding.saga";
    retry = "onboarding.saga.retry";
    dlq = "onboarding.saga.dlq";
  };
}

abbrev pub exchanges : List String
exchanges = events_exchange ∷ commands_exchange ∷ []

abbrev pub endpoints : List Endpoint
endpoints = notifications_endpoint ∷ commands_endpoint ∷ onboarding_saga_endpoint ∷ []

-- Where a message of a wait queue goes when its time is over.
pub record WaitArgs : Type 0 where
  pub dead_letter_exchange : String
  pub dead_letter_routing_key : String
  pub message_ttl : ℕ

-- A call on the channel; everything is durable, and the exchanges are topic exchanges.
pub data Declaration : Type 0 where
  exchange : String → Declaration
  queue : String → Option WaitArgs → Declaration
  binding : String → String → String → Declaration

abbrev pub wait_queue : QueueSet → RetryPolicy → ℕ → Declaration
wait_queue q retry tier = queue (retry_queue_name q.retry (pos tier)) (
    some (record {
      dead_letter_exchange = "";
      dead_letter_routing_key = q.main;
      message_ttl = tier_ttl_ms retry tier;
    }))

-- The declarations of a loop, in order.
unfoldable pub bindings : String → String → List String → List Declaration
bindings main ex [] = []
bindings main ex (rk ∷ rks) = binding main rk ex ∷ bindings main ex rks

-- `for tier := range n`, from the first tier that is left.
unfoldable pub wait_queues : QueueSet → RetryPolicy → ℕ → ℕ → List Declaration
wait_queues q retry tier zero = []
wait_queues q retry tier (suc left) = wait_queue q retry tier ∷ wait_queues q retry (suc tier) left

unfoldable pub endpoint_declarations : Endpoint → RetryPolicy → List Declaration
unfolding bindings wait_queues
endpoint_declarations ep retry =
    queue ep.queues.main none
    ∷ (bindings ep.queues.main ep.exchange ep.routing_keys
        ++ (wait_queues ep.queues retry 0 retry.tiers ++ (queue ep.queues.dlq none ∷ [])))

unfoldable pub all_endpoints : List Endpoint → RetryPolicy → List Declaration
unfolding endpoint_declarations
all_endpoints [] retry = []
all_endpoints (ep ∷ eps) retry = endpoint_declarations ep retry ++ all_endpoints eps retry

unfoldable pub topology : RetryPolicy → List Declaration
unfolding all_endpoints
topology retry = map exchange exchanges ++ all_endpoints endpoints retry

abbrev what : Declaration → String
what (exchange x) = str_append "declare exchange " x
what (queue q args) = str_append "declare " (str_append q " queue")
what (binding q rk ex) = str_append "bind " (str_append rk (str_append " to " q))

-- The first call that fails stops the declaration: what the broker has by then, and the error.
unfoldable pub declare :
    (Declaration → Option Error) → List Declaration → List Declaration × Option Error
declare ch [] = ([], none)
declare ch (d ∷ ds) =
    let (made, e) = declare ch ds in
    elim (ch d) [
      | none ↦ (d ∷ made, e)
      | some x ↦ ([], some (other (str_append (what d) (str_append ": " (message x)))))
    ]

unfoldable pub declare_topology :
    (Declaration → Option Error) → RetryPolicy → List Declaration × Option Error
unfolding declare topology
declare_topology ch retry = declare ch (topology retry)

-- Membership, as data.
pub data Declared (d : Declaration) : List Declaration → Type 0 where
  first : {ds : List Declaration} → Declared d (d ∷ ds)
  later : {x : Declaration} {ds : List Declaration} → Declared d ds → Declared d (x ∷ ds)

Declared-append_left :
    {d : Declaration} (xs ys : List Declaration) → Declared d xs → Declared d (xs ++ ys)
Declared-append_left [] ys h = elim h [ ]
Declared-append_left (x ∷ xs) ys first = first
Declared-append_left (x ∷ xs) ys (later h) = later (Declared-append_left xs ys h)

Declared-append_right :
    {d : Declaration} (xs ys : List Declaration) → Declared d ys → Declared d (xs ++ ys)
Declared-append_right [] ys h = h
Declared-append_right (x ∷ xs) ys h = later (Declared-append_right xs ys h)

wait_queues-Declared :
    (q : QueueSet) (retry : RetryPolicy) (tier left k : ℕ)
    → k < left
    → Declared (wait_queue q retry (tier + k)) (wait_queues q retry tier left)
unfolding wait_queues
wait_queues-Declared q retry tier zero k h = absurd (omega arith)
wait_queues-Declared q retry tier (suc left) zero h =
    let same : tier + 0 ≡ tier = omega arith in rw same first
wait_queues-Declared q retry tier (suc left) (suc k) h =
    let same : tier + suc k ≡ suc tier + k = omega arith in
    rw same (later (wait_queues-Declared q retry (suc tier) left k (omega arith)))

-- Among the declarations is the queue of the endpoint's retry name and the tier, which hands its
-- messages, after the tier's delay, to the queue of the endpoint's main name by the default exchange.
abbrev pub WaitsIn : List Declaration → RetryPolicy → ℕ → Endpoint → Type 0
WaitsIn ds retry tier ep =
    Declared
      (queue (retry_queue_name ep.queues.retry (pos tier)) (
        some (record {
          dead_letter_exchange = "";
          dead_letter_routing_key = ep.queues.main;
          message_ttl = tier_ttl_ms retry tier;
        })))
      ds

-- Every endpoint of the list declares a wait queue for each of its tiers.
all_endpoints-Declared :
    (eps : List Endpoint) (retry : RetryPolicy) (tier : ℕ)
    → tier < retry.tiers
    → All (WaitsIn (all_endpoints eps retry) retry tier) eps
unfolding all_endpoints endpoint_declarations
all_endpoints-Declared [] retry tier h = tt
all_endpoints-Declared (ep ∷ eps) retry tier h = (
  Declared-append_left (endpoint_declarations ep retry) _ (
      later (
        Declared-append_right (bindings ep.queues.main ep.exchange ep.routing_keys) _ (
          Declared-append_left (wait_queues ep.queues retry 0 retry.tiers) _ (
            subst
              (λ k.
                Declared (wait_queue ep.queues retry k) (wait_queues ep.queues retry 0 retry.tiers))
              zero_plus (wait_queues-Declared ep.queues retry 0 retry.tiers tier h))))),
  All-imp (WaitsIn (all_endpoints eps retry) retry tier)
      (WaitsIn (all_endpoints (ep ∷ eps) retry) retry tier) eps
      (λ x d. Declared-append_right (endpoint_declarations ep retry) _ d)
      (all_endpoints-Declared eps retry tier h),
)
  where
    zero_plus : 0 + tier ≡ tier
    zero_plus = omega arith

declare_complete :
    (ch : Declaration → Option Error) (ds : List Declaration)
    → (declare ch ds).1 ≡ none
    → (declare ch ds).0 ≡ ds
unfolding declare
declare_complete ch [] h = refl
declare_complete ch (d ∷ ds) h = ground (arith, declare_complete ch ds)

-- After a declaration without error every endpoint has, for each tier, the queue that `Retry` uses,
-- which hands its messages to the endpoint's main queue, by the default exchange, after the tier's
-- delay.
pub declare_topology-Declared :
    (ch : Declaration → Option Error) (retry : RetryPolicy) (tier : ℕ)
    → (declare_topology ch retry).1 ≡ none
    → tier < retry.tiers
    → All (WaitsIn (declare_topology ch retry).0 retry tier) endpoints
unfolding declare_topology topology
declare_topology-Declared ch retry tier done h =
    All-imp (WaitsIn (all_endpoints endpoints retry) retry tier)
      (WaitsIn (declare_topology ch retry).0 retry tier) endpoints
      (λ ep d.
        rw (declare_complete ch (topology retry) done)
          (Declared-append_right (map exchange exchanges) _ d))
      (all_endpoints-Declared endpoints retry tier h)
