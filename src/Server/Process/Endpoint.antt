-- ===== src/Server/Process/Endpoint.antt =====
-- crates/kv-server/src/main.rs: `run_metrics_server`, the loop that accepts connections of the
-- metrics endpoint.
use lowlatency.Common.{
  ◌≡◌, refl, ap, Text, List, [], ◌∷◌, ◌++◌, map, Option, some, none, Outcome, ok, err, panic,
}
use lowlatency.Server.Metrics.{Metrics}
use lowlatency.Server.Process.{HttpResponse, respond_http}

-- The requests of a connection: each path with the metrics when it is answered.
abbrev pub Connection : Type 0
Connection = List (Text × Metrics)

-- The responses, a list for each connection, and the error that the endpoint has ended with;
-- without one it waits for the next connection.
pub record Endpoint : Type 0 where
  pub served : List (List HttpResponse)
  pub ended : Option Text

module _ (encode : Metrics → Text) where
  unfoldable pub serve_connection : Connection → List HttpResponse
  serve_connection requests = map (λ (r : Text × Metrics). respond_http encode r.1 r.0) requests

  -- What `accept` yields, one after the other. A connection is served by a task of its own.
  unfoldable pub accept_loop : List (Outcome Text Connection) → Endpoint
  unfolding serve_connection
  accept_loop [] = record { served = []; ended = none }
  accept_loop (ok connection ∷ accepts) =
      let rest = accept_loop accepts in
      record { served = serve_connection connection ∷ rest.served; ended = rest.ended }
  accept_loop (err e ∷ accepts) = record { served = []; ended = some e }
  accept_loop (panic ∷ accepts) = record { served = []; ended = none }

  unfoldable pub run_metrics_server :
      Outcome Text (Unit {0}) → List (Outcome Text Connection) → Endpoint
  unfolding accept_loop
  run_metrics_server (ok bound) accepts = accept_loop accepts
  run_metrics_server (err e) accepts = record { served = []; ended = some e }
  run_metrics_server panic accepts = record { served = []; ended = none }

  accept_loop_stops :
      (before : List Connection) (e : Text) (after : List (Outcome Text Connection))
      → accept_loop (map (λ (c : Connection). ok c) before ++ (err e ∷ after))
        ≡ record { served = map serve_connection before; ended = some e }
  unfolding accept_loop
  accept_loop_stops [] e after = refl
  accept_loop_stops (c ∷ before) e after =
      ap
        (λ (rest : Endpoint). record {
          served = serve_connection c ∷ rest.served;
          ended = rest.ended;
        })
        (accept_loop_stops before e after)

  -- Once its socket is bound, the metrics endpoint answers the requests of all connections up to
  -- the first that cannot be accepted. It ends with the error of that one: whatever connections
  -- follow are not served.
  pub run_metrics_server_stops :
      (before : List Connection) (e : Text) (after : List (Outcome Text Connection))
      → run_metrics_server (ok tt) (map (λ (c : Connection). ok c) before ++ (err e ∷ after))
        ≡ record { served = map serve_connection before; ended = some e }
  unfolding run_metrics_server
  run_metrics_server_stops before e after = accept_loop_stops before e after
