-- ===== src/Broker/Loop.antt =====
-- The consume loop of internal/infra/rabbitmq/consumer.go: a channel after the other, until the context
-- is done. The AMQP library is a parameter: what it answers, and the deliveries that it hands over.
use software_engineering_sch.Prelude.{
  String, ◌≡◌, refl, sym, ap, ◌∙◌, inl, inr, Bool, true, false, Option, none, some, List, [], ◌∷◌,
  ◌++◌, str_append, if◌then◌else◌, Option-cases, Error, other, message,
}
use software_engineering_sch.Broker.Consumer.{Delivery}

-- How the wait for a delivery ends.
pub data End : Type 0 where
  context_done deliveries_closed : End

-- What the library answers to one call of `consume`.
pub record Channel : Type 0 where
  pub open_channel : Option Error
  pub set_qos : Option Error
  pub start_consuming : Option Error
  pub deliveries : List Delivery
  pub end : End

abbrev wrapped : String → Error → Error
wrapped what e = other (str_append what (str_append ": " (message e)))

abbrev end_error : End → Option Error
end_error context_done = none
end_error deliveries_closed = some (other "deliveries channel closed")

module _ {W : Type 0} (handler : Delivery → W → W) where
  unfoldable pub handle_all : List Delivery → W → W
  handle_all [] w = w
  handle_all (d ∷ ds) w = handle_all ds (handler d w)

  unfoldable pub consume : Channel → W → Option Error × W
  unfolding handle_all
  consume ch w = elim ch.open_channel [
    | some e ↦ (some (wrapped "open channel" e), w)
    | none ↦ elim ch.set_qos [
      | some e ↦ (some (wrapped "set QoS" e), w)
      | none ↦ elim ch.start_consuming [
        | some e ↦ (some (wrapped "start consuming" e), w)
        | none ↦ (end_error ch.end, handle_all ch.deliveries w)
      ]
    ]
  ]

  -- `Start`, through the channels that it gets; `none` is a round that finds the context done. An
  -- error is only logged.
  unfoldable pub start : List (Option Channel) → W → W
  unfolding consume
  start [] w = w
  start (none ∷ rounds) w = w
  start (some ch ∷ rounds) w = start rounds (consume ch w).1

abbrev opens : Option Error → Option Error → Option Error → Bool
opens none none none = true
opens _ _ _ = false

-- The deliveries of the rounds before the context is done, of the channels that opened.
pub handed_over : List (Option Channel) → List Delivery
handed_over [] = []
handed_over (none ∷ rounds) = []
handed_over (some ch ∷ rounds) =
    (if opens ch.open_channel ch.set_qos ch.start_consuming then ch.deliveries else [])
    ++ handed_over rounds

module _ {W : Type 0} (handler : Delivery → W → W) where
  handle_all-append :
      (xs ys : List Delivery) (w : W)
      → handle_all handler (xs ++ ys) w ≡ handle_all handler ys (handle_all handler xs w)
  unfolding handle_all
  handle_all-append [] ys w = refl
  handle_all-append (x ∷ xs) ys w = handle_all-append xs ys (handler x w)

  consume-handle_all :
      (ch : Channel) (w : W)
      → (consume handler ch w).1
        ≡ handle_all handler
            (if opens ch.open_channel ch.set_qos ch.start_consuming then ch.deliveries else [])
            w
  unfolding consume handle_all
  consume-handle_all ch w = elim (Option-cases ch.open_channel) [
    | inr (e, bad) ↦ rw bad refl
    | inl opened ↦ elim (Option-cases ch.set_qos) [
      | inr (e, bad) ↦ rw (opened, bad) refl
      | inl limited ↦ elim (Option-cases ch.start_consuming) [
        | inr (e, bad) ↦ rw (opened, limited, bad) refl
        | inl started ↦ rw (opened, limited, started) refl
      ]
    ]
  ]

  -- Whichever channels fail to open or break, the handler is called once for each delivery that was
  -- handed over, in the order in which they were.
  pub start-handle_all :
      (rounds : List (Option Channel)) (w : W)
      → start handler rounds w ≡ handle_all handler (handed_over rounds) w
  unfolding start handle_all handed_over
  start-handle_all [] w = refl
  start-handle_all (none ∷ rounds) w = refl
  start-handle_all (some ch ∷ rounds) w =
      start-handle_all rounds (consume handler ch w).1
      ∙ ap (λ w'. handle_all handler (handed_over rounds) w') (consume-handle_all ch w)
      ∙ sym (
          handle_all-append
            (if opens ch.open_channel ch.set_qos ch.start_consuming then ch.deliveries else [])
            (handed_over rounds) w)
