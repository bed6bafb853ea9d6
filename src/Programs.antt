-- ===== src/Programs.antt =====
-- cmd/notifier/main.go and cmd/mailer/main.go: how the services are put together of their components.
-- Messages leave a service through the publisher of internal/infra/rabbitmq/publisher.go; the AMQP
-- connection below it is a parameter.
pub mod Handovers
pub mod Onboarding
pub mod Direct
pub mod Server
mod Tests
mod Examples
use software_engineering_sch.Prelude.{
  String, ◌≡◌, refl, ap, Bool, Option, none, some, List, ◌++◌, str_eq, if◌then◌else◌, Error, Result,
  ok, ℕ,
}
use software_engineering_sch.Events.{Json, Codec, Stamp}
use software_engineering_sch.Broker.Consumer.{Answers}
use software_engineering_sch.Broker.Publisher
use software_engineering_sch.Broker.Topology.{commands_exchange, key_email_send}
use software_engineering_sch.Command.{DeliveryMessage}
use software_engineering_sch.Config.{Env, get_env}
use software_engineering_sch.Config.Load.{NotifierConfig, load_notifier_config}
use software_engineering_sch.Notifier.{Services}
use software_engineering_sch.Mailer.{Mailer, ResultPublisher, new}
use software_engineering_sch.Mailer.Results.{new_result_publisher}

-- An AMQP connection: what the broker answers to the next publish, and what has been sent to it.
pub record Amqp (W : Type 0) : Type 0 where
  pub answers : W → Answers
  pub put : List Publisher.Sent → W → W
  pub log : W → List Publisher.Sent
  pub log_put : (xs : List Publisher.Sent) (w : W) → log (put xs w) ≡ log w ++ xs

-- The interface `DedupStore`.
pub record DedupStore (W : Type 0) : Type 0 where
  pub mark_processed : String → W → Result Bool × W
  pub unmark : String → W → Option Error × W

-- `notifier.New(publisher, dedup)`
unfoldable pub notifier_services :
    {W : Type 0} → (DeliveryMessage → W → Option Error × W) → DedupStore W → Services W
notifier_services publisher dedup = record {
  mark_processed = dedup.mark_processed;
  unmark = dedup.unmark;
  publish = publisher;
}

module _ {W : Type 0} (amqp : Amqp W) where
  -- `Publisher.Publish` as a step of the world.
  unfoldable pub publish_via : String → String → Result String → W → Option Error × W
  publish_via exchange key body w =
      let (sent, e) = Publisher.publish exchange key (amqp.answers w) body in (e, amqp.put sent w)

  -- `notifier.NewCommandPublisher(rabbitmq.NewPublisher(conn))`
  unfoldable pub command_publisher : Codec DeliveryMessage → DeliveryMessage → W → Option Error × W
  unfolding publish_via
  command_publisher commands cmd w =
      publish_via commands_exchange key_email_send (commands.marshal cmd) w

  -- `newCommandPublisher`; what grpcmailer.Dial gives is a parameter.
  unfoldable pub new_command_publisher :
      NotifierConfig
      → (String → Result (DeliveryMessage → W → Option Error × W))
      → Codec DeliveryMessage
      → Result (DeliveryMessage → W → Option Error × W)
  unfolding command_publisher
  new_command_publisher cfg dial commands =
      if str_eq cfg.delivery_transport "grpc"
      then dial cfg.mailer_grpc_addr
      else ok (command_publisher commands)

  -- Where the environment names no transport, the notifier delivers over AMQP.
  pub new_command_publisher_unset :
      (env : Env) (dial : String → Result (DeliveryMessage → W → Option Error × W))
      (commands : Codec DeliveryMessage)
      → env "NOTIFIER_DELIVERY_TRANSPORT" ≡ none
      → new_command_publisher (load_notifier_config env) dial commands
        ≡ ok (command_publisher commands)
  unfolding new_command_publisher load_notifier_config get_env
  new_command_publisher_unset env dial commands unset =
      let default : get_env env "NOTIFIER_DELIVERY_TRANSPORT" "amqp" ≡ "amqp" =
        rw (get_env, unset) refl in
      ap
        (λ transport.
          if str_eq transport "grpc"
          then dial (load_notifier_config env).mailer_grpc_addr
          else ok (command_publisher commands))
        default

  unfoldable pub mailer_results : Json → (W → Stamp) → ResultPublisher W
  unfolding publish_via
  mailer_results json stamp =
      new_result_publisher json stamp
        (λ exchange key env w. publish_via exchange key (json.envelope.marshal env) w)

  unfoldable pub mailer_service :
      Json
      → (W → Stamp)
      → (String → String → String → W → Option Error × W)
      → (ℕ → W → Option Error × W)
      → Mailer W
  unfolding mailer_results
  mailer_service json stamp send_email wait = new send_email (some (mailer_results json stamp)) wait
