-- ===== src/Broker/Tests.antt =====
-- The message broker at concrete queues, deliveries and answers.
use software_engineering_sch.Prelude.{
  ok, ℕ, ◌≡◌, refl, true, none, All, arith, Error, Option, some, other, zero, suc, ◌<◌, ◌≤◌,
}
use software_engineering_sch.Prelude.Int.{pos}
use software_engineering_sch.Broker.Publisher
use software_engineering_sch.Broker.Connection
use software_engineering_sch.Broker.Settler.{retry}
use software_engineering_sch.Broker.Retry.{RetryPolicy, new_retry_policy}
use software_engineering_sch.Broker.Topology.{
  Declaration, notifications_endpoint, endpoints, declare, declare_topology, WaitsIn,
  declare_topology-Declared, topology, all_endpoints, endpoint_declarations, bindings, wait_queues,
}
use software_engineering_sch.Broker.Consumer.{
  Delivery, Consumer, Answers, nacked, EndsWell, attempts, settle_delivery,
  settle_delivery-EndsWell, retried,
}
use software_engineering_sch.Broker.Schedule.{reliable, redelivered, attempts-retried}

-- The policy of the default configuration: one second, doubled in each of five tiers.
abbrev policy : RetryPolicy
policy = record { base_ttl = pos 1000000000; factor = 2; tiers = 5 }

new_retry_policy_clamps : new_retry_policy (pos 1000000000) (pos 2) (pos 5) ≡ policy
unfolding new_retry_policy
new_retry_policy_clamps = refl

abbrev delivery : Delivery
delivery = record {
  body = "{}";
  content_type = "application/json";
  correlation_id = "c";
  headers = none;
}

abbrev consumer : Consumer
consumer = record { queues = notifications_endpoint.queues; policy = policy }

-- A channel that refuses the publisher confirm.
abbrev nacking : Answers
nacking = record reliable { wait = nacked }

accepts : Declaration → Option Error
accepts d = none

settle_delivery-EndsWell_example :
    EndsWell consumer delivery
      (retry "down")
      (settle_delivery consumer nacking (retry "down") delivery)
settle_delivery-EndsWell_example = settle_delivery-EndsWell consumer nacking (retry "down") delivery

attempts-retried_example : attempts (redelivered (retried delivery (pos 1))) ≡ pos 1
attempts-retried_example = attempts-retried delivery (pos 1)

all_declared : (declare_topology accepts policy).1 ≡ none
unfolding declare_topology accepts declare topology all_endpoints endpoint_declarations bindings
    wait_queues
all_declared = refl

declare_topology-Declared_example :
    All (WaitsIn (declare_topology accepts policy).0 policy 4) endpoints
declare_topology-Declared_example =
    declare_topology-Declared accepts policy 4 all_declared (omega arith)

publish-Publishes_example :
    Publisher.Publishes "github_scanner.events" "release.detected"
      (ok "{}")
      (Publisher.publish "github_scanner.events" "release.detected" nacking (ok "{}"))
publish-Publishes_example =
    Publisher.publish-Publishes "github_scanner.events" "release.detected" nacking (ok "{}")

-- The broker answers the third try.
abbrev waiting_try : Connection.Try
waiting_try = record {
  dial = some (other "connection refused");
  open_channel = none;
  declares = λ d. none;
}

abbrev tries : ℕ → Connection.Try
tries zero = waiting_try
tries (suc zero) = record waiting_try { dial = none; open_channel = some (other "closed") }
tries (suc (suc n)) = record waiting_try { dial = none }

first_tries_fail : (i : ℕ) → i < 2 → Connection.Fails policy (tries i)
unfolding Connection.attempt
first_tries_fail zero lt = (other "connection refused", refl)
first_tries_fail (suc zero) lt = (other "closed", refl)
first_tries_fail (suc (suc n)) lt = absurd (omega arith)

third_try_works : Connection.attempt policy (tries 2) ≡ none
unfolding Connection.attempt declare_topology declare topology all_endpoints endpoint_declarations
    bindings wait_queues
third_try_works = refl

connect-delays_example :
    (Connection.connect policy tries 3 ≡ record { slept = Connection.delays 2 0; connected = true })
    × All (λ d. d ≤ Connection.max_backoff) (Connection.connect policy tries 3).slept
connect-delays_example =
    Connection.connect-delays policy tries 2 3 (omega arith) first_tries_fail third_try_works
