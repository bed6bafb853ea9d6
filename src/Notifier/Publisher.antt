-- ===== src/Notifier/Publisher.antt =====
-- internal/worker/notifier/broker.go: commands published to the exchange and under the key that the
-- topology binds to the mailer's queue.
use software_engineering_sch.Prelude.{String, Option, List, Error, Result}
use software_engineering_sch.Broker.Consumer.{Answers}
use software_engineering_sch.Broker.Publisher
use software_engineering_sch.Broker.Topology.{commands_exchange, key_email_send}

-- `commandPublisher.Publish`, for what json.Marshal makes of the command.
unfoldable pub publish_command : Answers → Result String → List Publisher.Sent × Option Error
publish_command a body = Publisher.publish commands_exchange key_email_send a body

-- A command is sent at most once, to the exchange and under the key of commands, and nil is returned
-- only once the broker has confirmed it.
pub publish_command-Publishes :
    (a : Answers) (body : Result String)
    → Publisher.Publishes commands_exchange key_email_send body (publish_command a body)
unfolding publish_command
publish_command-Publishes a body =
    Publisher.publish-Publishes commands_exchange key_email_send a body
