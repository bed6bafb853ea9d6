-- ===== src/Middleware.antt =====
-- internal/transport/http/middleware/prometheus.go: what each request adds to the metrics. gin, which
-- runs the handlers and recovers a panic outside of the middleware, and the clock are parameters: the
-- requests arrive, return and panic in any order, and the latencies are left out.
mod Tests
use software_engineering_sch.Prelude.{
  ℕ, zero, suc, ◌+◌, ◌-◌, ◌≡◌, refl, String, Option, none, some, List, [], ◌∷◌, ◌++◌, arith, str_eq,
  if◌then◌else◌, length, length-append, ap, Option-cases, inl, inr,
}
use software_engineering_sch.Prelude.Int.{decimal}

-- What the middleware reads of a request: the route that matched, if any, and the URL's path.
pub record Request : Type 0 where
  pub method : String
  pub full_path : String
  pub url_path : String

-- The labels of http_requests_total.
pub record Labels : Type 0 where
  pub method : String
  pub path : String
  pub status : String

-- The gauge http_requests_in_flight, and the labels of each increment of http_requests_total.
pub record Metrics : Type 0 where
  pub in_flight : ℕ
  pub total : List Labels

unfoldable pub path_of : Request → String
path_of req = if str_eq req.full_path "" then req.url_path else req.full_path

-- Before `c.Next()`.
unfoldable pub entered : Metrics → Metrics
entered m = record m { in_flight = m.in_flight + 1 }

-- After it, if it returns.
unfoldable pub left : Request → ℕ → Metrics → Metrics
unfolding path_of
left req status m = record {
  in_flight = m.in_flight - 1;
  total =
      m.total ++ (record { method = req.method; path = path_of req; status = decimal status } ∷ []);
}

-- The requests whose handlers run, beside the metrics, and how many arrived and panicked.
pub record Server : Type 0 where
  pub metrics : Metrics
  pub running : List Request
  pub arrived : ℕ
  pub panicked : ℕ

pub data Event : Type 0 where
  arrive : Request → Event
  -- the handler of the running request at the position returns with the status, or panics
  answer : ℕ → ℕ → Event
  panic : ℕ → Event

unfoldable pub behind {ℓ} : {A : Type ℓ} → A → Option (A × List A) → Option (A × List A)
behind x none = none
behind x (some (y, ys)) = some (y, x ∷ ys)

-- The element at the position, and the others.
unfoldable pub pick {ℓ} : {A : Type ℓ} → ℕ → List A → Option (A × List A)
unfolding behind
pick i [] = none
pick zero (x ∷ xs) = some (x, xs)
pick (suc i) (x ∷ xs) = behind x (pick i xs)

unfoldable pub finished : ℕ → Option (Request × List Request) → Server → Server
unfolding left
finished status none s = s
finished status (some (req, rest)) s = record s {
  metrics = left req status s.metrics;
  running = rest;
}

-- A panic passes the middleware by: the gauge is not decremented, and nothing is counted.
unfoldable pub broken_off : Option (Request × List Request) → Server → Server
broken_off none s = s
broken_off (some (req, rest)) s = record s { running = rest; panicked = s.panicked + 1 }

unfoldable pub serve : Event → Server → Server
unfolding entered finished broken_off pick
serve (arrive req) s = record s {
  metrics = entered s.metrics;
  running = req ∷ s.running;
  arrived = s.arrived + 1;
}
serve (answer i status) s = finished status (pick i s.running) s
serve (panic i) s = broken_off (pick i s.running) s

unfoldable pub serve_all : List Event → Server → Server
unfolding serve
serve_all [] s = s
serve_all (e ∷ es) s = serve_all es (serve e s)

abbrev pub idle : Server
idle = record {
  metrics = record { in_flight = 0; total = [] };
  running = [];
  arrived = 0;
  panicked = 0;
}

behind-length :
    {A : Type 0} (x : A) (o : Option (A × List A)) (xs : List A) (y : A) (rest : List A)
    → ((z : A) (ys : List A) → o ≡ some (z, ys) → length xs ≡ length ys + 1)
    → behind x o ≡ some (y, rest)
    → length xs ≡ length rest
unfolding behind
behind-length x none xs y rest counted h = cc
behind-length x (some (z, ys)) xs y rest counted h =
    let same : x ∷ ys ≡ rest = cc h in
    let tail = counted z ys refl in omega (arith, tail, ap length same)

pick-length :
    {A : Type 0} (i : ℕ) (xs : List A) (x : A) (rest : List A)
    → pick i xs ≡ some (x, rest)
    → length xs ≡ length rest + 1
unfolding pick
pick-length i [] x rest h = cc
pick-length zero (y ∷ ys) x rest h = let same : ys ≡ rest = cc h in omega (arith, ap length same)
pick-length (suc i) (y ∷ ys) x rest h =
    let moved = behind-length y (pick i ys) ys x rest (λ z zs e. pick-length i ys z zs e) h in
    omega (arith, moved)

record Counted (s : Server) : Type 0 where
  gauge : s.metrics.in_flight ≡ length s.running + s.panicked
  counter : length s.metrics.total + s.metrics.in_flight ≡ s.arrived

serve-Counted : (e : Event) (s : Server) → Counted s → Counted (serve e s)
unfolding serve entered finished broken_off left
serve-Counted (arrive req) s inv = record {
  gauge = omega (arith, inv.gauge);
  counter = omega (arith, inv.counter);
}
serve-Counted (answer i status) s inv = elim (Option-cases (pick i s.running)) [
  | inl gone ↦ rw gone inv
  | inr ((req, rest), found) ↦
      let one_less = pick-length i s.running req rest found in
      rw found (record {
        gauge = omega (arith, inv.gauge, one_less);
        counter = rw length-append (omega (arith, inv.gauge, inv.counter, one_less));
      })
]
serve-Counted (panic i) s inv = elim (Option-cases (pick i s.running)) [
  | inl gone ↦ rw gone inv
  | inr ((req, rest), found) ↦
      let one_less = pick-length i s.running req rest found in
      rw found (record { gauge = omega (arith, inv.gauge, one_less); counter = inv.counter })
]

serve_all-Counted : (es : List Event) (s : Server) → Counted s → Counted (serve_all es s)
unfolding serve_all
serve_all-Counted [] s inv = inv
serve_all-Counted (e ∷ es) s inv = serve_all-Counted es (serve e s) (serve-Counted e s inv)

-- In whatever order requests arrive, return and panic, the gauge of requests in flight is the number
-- of handlers that run and of those that have panicked, and the requests that have arrived are those
-- that were counted and those of the gauge: a panic leaves the gauge one too high for good.
pub serve_all-counted :
    (es : List Event)
    → ((serve_all es idle).metrics.in_flight
        ≡ length (serve_all es idle).running + (serve_all es idle).panicked)
      × (length (serve_all es idle).metrics.total + (serve_all es idle).metrics.in_flight
          ≡ (serve_all es idle).arrived)
serve_all-counted es =
    let counts = serve_all-Counted es idle (record { gauge = refl; counter = refl }) in
    (counts.gauge, counts.counter)
