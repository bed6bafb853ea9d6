-- ===== src/Notifier/Dedup.antt =====
-- One command for each event, as far as the dedup store of internal/worker/notifier remembers.
use software_engineering_sch.Prelude.{
  String, ◌≡◌, refl, ◌∙◌, Bool, true, false, Option, none, some, Error, List, Result, ok, err,
  last_of_append, str_append, message,
}
use software_engineering_sch.Events.{Envelope, Json}
use software_engineering_sch.Command.{DeliveryMessage}
use software_engineering_sch.Broker.Settler.{Session, ack, retry, settle, with_store}
use software_engineering_sch.Saga.Settlement.{SettledBy}
use software_engineering_sch.Notifier.{
  Services, dedup_key_prefix, to_command, published, publish_fresh, send_command, process_on,
  process,
}

-- What the notifier relies on while a mark has not expired: `marked` are the keys that the store
-- holds, and `sent` what the publisher was asked to publish.
pub record Remembers {W : Type 0} (sv : Services W) (marked : W → String → Bool)
    (sent : W → List DeliveryMessage) : Type 0 where
  pub mark_sets :
      (k : String) (w : W) {b : Bool}
      → (sv.mark_processed k w).0 ≡ ok b
      → marked (sv.mark_processed k w).1 k ≡ true
  pub mark_sees : (k : String) (w : W) → marked w k ≡ true → ¬ ((sv.mark_processed k w).0 ≡ ok true)
  pub mark_sends : (k : String) (w : W) → sent (sv.mark_processed k w).1 ≡ sent w
  pub unmark_clears :
      (k : String) (w : W) → (sv.unmark k w).0 ≡ none → marked (sv.unmark k w).1 k ≡ false
  pub unmark_sends : (k : String) (w : W) → sent (sv.unmark k w).1 ≡ sent w
  pub publish_keeps :
      (cmd : DeliveryMessage) (w : W) (k : String) → marked (sv.publish cmd w).1 k ≡ marked w k

module _ {W : Type 0} (sv : Services W) (marked : W → String → Bool)
    (sent : W → List DeliveryMessage) (law : Remembers sv marked sent) where
  published-marked :
      (key : String) (o : Option Error) (s : Session W)
      → marked s.store key ≡ true
      → SettledBy s (published sv key o s) ack
      → marked (published sv key o s).store key ≡ true
  unfolding published settle
  published-marked key none s holds acked = holds
  published-marked key (some e) s holds acked = cc (last_of_append s.settled _ ack acked)

  publish_fresh-marked :
      (key : String) (cmd : DeliveryMessage) (r : Result Bool) (s : Session W)
      → ((b : Bool) → r ≡ ok b → marked s.store key ≡ true)
      → SettledBy s (publish_fresh sv key cmd r s) ack
      → marked (publish_fresh sv key cmd r s).store key ≡ true
  unfolding publish_fresh settle
  publish_fresh-marked key cmd (err e) s holds acked = cc (last_of_append s.settled _ ack acked)
  publish_fresh-marked key cmd (ok false) s holds acked = holds false refl
  publish_fresh-marked key cmd (ok true) s holds acked =
      published-marked key (sv.publish cmd s.store).0 (with_store (sv.publish cmd s.store).1 s)
        (law.publish_keeps cmd s.store key ∙ holds true refl) acked

  -- A key that is marked lets nothing through.
  publish_fresh-sent :
      (key : String) (cmd : DeliveryMessage) (r : Result Bool) (s : Session W)
      → ¬ (r ≡ ok true)
      → sent (publish_fresh sv key cmd r s).store ≡ sent s.store
  unfolding publish_fresh settle
  publish_fresh-sent key cmd (err e) s stale = refl
  publish_fresh-sent key cmd (ok false) s stale = refl
  publish_fresh-sent key cmd (ok true) s stale = absurd (stale refl)

  abbrev key_of : String → String
  key_of id = str_append dedup_key_prefix id

  send_command_again :
      (id : String) (r : Result DeliveryMessage) (s : Session W)
      → marked s.store (key_of id) ≡ true
      → sent (send_command sv id r s).store ≡ sent s.store
  unfolding send_command settle
  send_command_again id (err e) s holds = refl
  send_command_again id (ok cmd) s holds =
      publish_fresh-sent (key_of id) cmd (sv.mark_processed (key_of id) s.store).0 _
        (law.mark_sees (key_of id) s.store holds)
      ∙ law.mark_sends (key_of id) s.store

  send_command_redelivered :
      (id : String) (r : Result DeliveryMessage) (s : Session W)
      → SettledBy s (send_command sv id r s) ack
      → sent (send_command sv id r (send_command sv id r s)).store
        ≡ sent (send_command sv id r s).store
  unfolding send_command settle
  send_command_redelivered id (err e) s acked = refl
  send_command_redelivered id (ok cmd) s acked =
      send_command_again id (ok cmd) (send_command sv id (ok cmd) s) (
        publish_fresh-marked (key_of id) cmd (sv.mark_processed (key_of id) s.store).0
          (with_store (sv.mark_processed (key_of id) s.store).1 s)
          (λ b e. law.mark_sets (key_of id) s.store e) acked)

  process_on_redelivered :
      (json : Json) (r : Result Envelope) (s : Session W)
      → SettledBy s (process_on sv json r s) ack
      → sent (process_on sv json r (process_on sv json r s)).store
        ≡ sent (process_on sv json r s).store
  unfolding process_on settle
  process_on_redelivered json (err e) s acked = refl
  process_on_redelivered json (ok env) s acked =
      send_command_redelivered env.id (to_command json env) s acked

  -- An event that was acked is never turned into a command again: while its mark is remembered, a
  -- redelivery publishes nothing.
  pub process_redelivered_once :
      (json : Json) (body : String) (s : Session W)
      → SettledBy s (process sv json body s) ack
      → sent (process sv json body (process sv json body s)).store
        ≡ sent (process sv json body s).store
  unfolding process
  process_redelivered_once json body s acked =
      process_on_redelivered json (json.envelope.unmarshal body) s acked

  -- A publish that fails is handed back to the broker, and the mark is gone unless the store refused
  -- to take it back: the redelivery starts afresh.
  pub published-rolled_back :
      (key : String) (e : Error) (s : Session W)
      → (sv.unmark key s.store).0 ≡ none
      → SettledBy s
          (published sv key (some e) s)
          (retry (str_append "publish command: " (message e)))
        × (marked (published sv key (some e) s).store key ≡ false)
        × (sent (published sv key (some e) s).store ≡ sent s.store)
  unfolding published settle
  published-rolled_back key e s cleared =
      (refl, law.unmark_clears key s.store cleared, law.unmark_sends key s.store)
