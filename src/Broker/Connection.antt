-- ===== src/Broker/Connection.antt =====
-- internal/infra/rabbitmq/connection.go: the connection that is tried again with a growing delay until
-- the topology is declared. The AMQP library is a parameter: what it answers to each try.
use software_engineering_sch.Prelude.{
  ℕ, zero, suc, ◌*◌, ◌^◌, ◌≤◌, ◌<◌, String, str_append, other, message, ◌≡◌, refl, sym, ap, ◌∙◌,
  subst, Bool, true, false, Option, none, some, List, [], ◌∷◌, arith, leb, if◌then◌else◌, All,
  Error,
}
use native.Mathlib.Nat.{pow-suc}
use software_engineering_sch.Broker.Retry.{RetryPolicy}
use software_engineering_sch.Broker.Topology.{Declaration, declare_topology}

-- Durations are nanoseconds.
abbrev millisecond : ℕ
millisecond = 1000000

abbrev pub initial_backoff : ℕ
initial_backoff = 500 * millisecond

abbrev pub max_backoff : ℕ
max_backoff = 30000 * millisecond

abbrev pub backoff_factor : ℕ
backoff_factor = 2

-- min(backoff * backoffFactor, maxBackoff)
abbrev pub next_backoff : ℕ → ℕ
next_backoff backoff =
    if leb (backoff * backoff_factor) max_backoff then backoff * backoff_factor else max_backoff

-- What the library answers in one try.
pub record Try : Type 0 where
  pub dial : Option Error
  pub open_channel : Option Error
  pub declares : Declaration → Option Error

-- Whether the try ends with a connection on which the topology is declared.
unfoldable pub attempt : RetryPolicy → Try → Option Error
attempt retry t = elim t.dial [
  | some e ↦ some e
  | none ↦ elim t.open_channel [ some e ↦ some e | none ↦ (declare_topology t.declares retry).1 ]
]

-- What a call of `connect` has done: the delays that it slept, and whether it has returned.
pub record Connecting : Type 0 where
  pub slept : List ℕ
  pub connected : Bool

abbrev sleep : ℕ → Connecting → Connecting
sleep d c = record c { slept = d ∷ c.slept }

-- The loop, for as many tries as the fuel; the tries to come are given by their number.
unfoldable pub connect_from : RetryPolicy → (ℕ → Try) → ℕ → ℕ → Connecting
connect_from retry tries zero backoff = record { slept = []; connected = false }
connect_from retry tries (suc fuel) backoff =
    let rest = connect_from retry (λ i. tries (suc i)) fuel (next_backoff backoff) in
    elim (attempt retry (tries 0)) [
      | none ↦ record { slept = []; connected = true }
      | some e ↦ sleep backoff rest
    ]

unfoldable pub connect : RetryPolicy → (ℕ → Try) → ℕ → Connecting
unfolding connect_from
connect retry tries fuel = connect_from retry tries fuel initial_backoff

-- How a connection ends: cleanly, or with a reason, after which the tries come.
pub data Close : Type 0 where
  clean : Close
  lost : String → (ℕ → Try) → Close

-- `watchAndReconnect`, through the connections that are lost.
unfoldable pub watch_and_reconnect : RetryPolicy → ℕ → List Close → List Connecting
unfolding connect
watch_and_reconnect retry fuel [] = []
watch_and_reconnect retry fuel (clean ∷ closes) = []
watch_and_reconnect retry fuel (lost reason tries ∷ closes) =
    connect retry tries fuel ∷ watch_and_reconnect retry fuel closes

abbrev ephemeral : String → Error → Option Error
ephemeral what e = some (other (str_append "ephemeral queue: " (str_append what (message e))))

-- A queue that is not durable, exclusive and deleted automatically, and its binding.
pub data EphemeralCall : Type 0 where
  declare_queue : String → EphemeralCall
  bind_queue : String → String → String → EphemeralCall

-- `DeclareEphemeralQueue`: what the broker has by then, and the error.
unfoldable pub declare_ephemeral_queue :
    Option Error
    → (EphemeralCall → Option Error)
    → String
    → String
    → String
    → List EphemeralCall × Option Error
declare_ephemeral_queue open_channel ch exchange queue routing_key = elim open_channel [
  | some e ↦ ([], ephemeral "open channel: " e)
  | none ↦ elim (ch (declare_queue queue)) [
    | some e ↦ ([], ephemeral (str_append "declare " (str_append queue ": ")) e)
    | none ↦ elim (ch (bind_queue queue routing_key exchange)) [
      | some e ↦ (
        declare_queue queue ∷ [],
        ephemeral
            (str_append "bind " (str_append queue (str_append " to " (str_append exchange ": "))))
            e,
      )
      | none ↦ (declare_queue queue ∷ bind_queue queue routing_key exchange ∷ [], none)
    ]
  ]
]

-- The delay after the k-th failed try.
abbrev pub delay : ℕ → ℕ
delay k = let d = initial_backoff * 2 ^ k in if leb d max_backoff then d else max_backoff

-- The delays after the failed tries from the k-th on.
abbrev pub delays : ℕ → ℕ → List ℕ
delays zero k = []
delays (suc n) k = delay k ∷ delays n (suc k)

doubled :
    (x : ℕ)
    → next_backoff (if leb x max_backoff then x else max_backoff)
      ≡ (if leb (x * 2) max_backoff then x * 2 else max_backoff)
doubled x = ground arith

next-delay : (k : ℕ) → next_backoff (delay k) ≡ delay (suc k)
next-delay k =
    doubled (initial_backoff * 2 ^ k)
    ∙ ap (λ x. if leb x max_backoff then x else max_backoff) regroup
  where
    regroup : initial_backoff * 2 ^ k * 2 ≡ initial_backoff * 2 ^ suc k
    regroup = rw pow-suc (omega arith)

-- The try of the number fails.
abbrev pub Fails : RetryPolicy → Try → Type 0
Fails retry t = (e : Error) × (attempt retry t ≡ some e)

connect_from-delays :
    (retry : RetryPolicy) (tries : ℕ → Try) (n fuel k : ℕ)
    → n < fuel
    → ((i : ℕ) → i < n → Fails retry (tries i))
    → attempt retry (tries n) ≡ none
    → connect_from retry tries fuel (delay k) ≡ record { slept = delays n k; connected = true }
unfolding connect_from
connect_from-delays retry tries n zero k enough fails works = absurd (omega (arith, enough))
connect_from-delays retry tries zero (suc fuel) k enough fails works = rw (connect_from, works) refl
connect_from-delays retry tries (suc n) (suc fuel) k enough fails works =
    let (e, bad) = fails 0 (omega arith) in
    let rest =
      connect_from-delays retry (λ i. tries (suc i)) n fuel (suc k) (omega (arith, enough))
        (λ i lt. fails (suc i) (omega (arith, lt))) works in
    rw (connect_from, bad, next-delay k, rest) refl

delay_bound : (k : ℕ) → delay k ≤ max_backoff
delay_bound k = capped (initial_backoff * 2 ^ k)
  where
    capped : (x : ℕ) → (if leb x max_backoff then x else max_backoff) ≤ max_backoff
    capped x = ground arith

delays_bound : (n k : ℕ) → All (λ d. d ≤ max_backoff) (delays n k)
delays_bound zero k = tt
delays_bound (suc n) k = (delay_bound k, delays_bound n (suc k))

-- However long the broker is away: if the n-th try is the first that works, `connect` returns after
-- it, having slept n times, from half a second up twice as long each time, and never more than half a
-- minute.
pub connect-delays :
    (retry : RetryPolicy) (tries : ℕ → Try) (n fuel : ℕ)
    → n < fuel
    → ((i : ℕ) → i < n → Fails retry (tries i))
    → attempt retry (tries n) ≡ none
    → (connect retry tries fuel ≡ record { slept = delays n 0; connected = true })
      × All (λ d. d ≤ max_backoff) (connect retry tries fuel).slept
unfolding connect
connect-delays retry tries n fuel enough fails works =
    let done = connect_from-delays retry tries n fuel 0 enough fails works in
    (
      done,
      subst (λ (c : Connecting). All (λ d. d ≤ max_backoff) c.slept) (sym done) (delays_bound n 0),
    )
