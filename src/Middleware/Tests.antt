-- ===== src/Middleware/Tests.antt =====
-- One request that panics, and one that is answered.
use software_engineering_sch.Prelude.{◌≡◌, refl, ◌+◌, length, List, [], ◌∷◌}
use software_engineering_sch.Prelude.Int.{decimal}
use software_engineering_sch.Middleware.{
  Request, Event, arrive, answer, panic, behind, pick, entered, left, path_of, finished, broken_off,
  serve, serve_all, idle, serve_all-counted,
}

abbrev posted : Request
posted = record { method = "POST"; full_path = "/subscribe"; url_path = "/subscribe" }

abbrev missing : Request
missing = record { method = "GET"; full_path = ""; url_path = "/nowhere" }

abbrev events : List Event
events = arrive posted ∷ arrive missing ∷ answer 0 404 ∷ panic 0 ∷ []

counted : (serve_all events idle).metrics ≡ record {
  in_flight = 1;
  total = record { method = "GET"; path = "/nowhere"; status = "404" } ∷ [];
}
unfolding serve_all serve entered finished left path_of broken_off pick behind decimal
counted = refl

serve_all-counted_example :
    ((serve_all events idle).metrics.in_flight
      ≡ length (serve_all events idle).running + (serve_all events idle).panicked)
    × (length (serve_all events idle).metrics.total + (serve_all events idle).metrics.in_flight
        ≡ (serve_all events idle).arrived)
serve_all-counted_example = serve_all-counted events
