-- ===== src/Notifier/Fresh.antt =====
-- A message of internal/worker/notifier/notifier.go that is seen for the first time.
use software_engineering_sch.Prelude.{String, ◌≡◌, refl, none, [], ◌∷◌, ◌++◌, str_append, ok, true}
use software_engineering_sch.Events.{Envelope, Json}
use software_engineering_sch.Broker.Settler.{Session, ack, settle}
use software_engineering_sch.Command.{DeliveryMessage}
use software_engineering_sch.Notifier.{
  Services, dedup_key_prefix, to_command, published, publish_fresh, send_command, process_on,
  process,
}

-- A command that is marked for the first time and published is acked.
pub process_fresh :
    {W : Type 0} (sv : Services W) (json : Json) (body : String) (env : Envelope)
    (cmd : DeliveryMessage) (s : Session W)
    → json.envelope.unmarshal body ≡ ok env
    → to_command json env ≡ ok cmd
    → (sv.mark_processed (str_append dedup_key_prefix env.id) s.store).0 ≡ ok true
    → (sv.publish cmd (sv.mark_processed (str_append dedup_key_prefix env.id) s.store).1).0 ≡ none
    → process sv json body s ≡ record {
      store = (sv.publish cmd (sv.mark_processed (str_append dedup_key_prefix env.id) s.store).1).1;
      settled = s.settled ++ (ack ∷ []);
    }
unfolding process process_on send_command publish_fresh published settle
process_fresh sv json body env cmd s reads maps fresh sent = rw (reads, maps, fresh, sent) refl

-- Of a command that is marked for the first time, what `published` makes of its publish.
pub process-published :
    {W : Type 0} (sv : Services W) (json : Json) (body : String) (env : Envelope)
    (cmd : DeliveryMessage) (s : Session W)
    → json.envelope.unmarshal body ≡ ok env
    → to_command json env ≡ ok cmd
    → (sv.mark_processed (str_append dedup_key_prefix env.id) s.store).0 ≡ ok true
    → process sv json body s
      ≡ published sv
          (str_append dedup_key_prefix env.id)
          (sv.publish cmd (sv.mark_processed (str_append dedup_key_prefix env.id) s.store).1).0
          (record s {
            store =
                (sv.publish cmd
                  (sv.mark_processed (str_append dedup_key_prefix env.id) s.store).1).1;
          })
unfolding process process_on send_command publish_fresh
process-published sv json body env cmd s reads maps fresh = rw (reads, maps, fresh) refl
