-- ===== src/Server/RunMoves.antt =====
-- Any sequence of the server's steps changes the table of services by the moves of `Server.Moves`.
use py_frp.Base.{ℕ, ◌≡◌, refl, ◌∙◌, List, [], ◌∷◌, arith}
use py_frp.Base.Dict.{values}
use py_frp.Base.Result.{Result, ok, err}
use py_frp.Value.{Fields}
use py_frp.Server.State.{
  Server, Env, ClientSession, PendingTunnel, Error, close_writer, fail_futures, close_listeners,
}
use py_frp.Server.Sessions.{close, close_writers}
use py_frp.Server.Tunnels.{finish_public, handle_tunnel}
use py_frp.Server.Moves.{
  Moves, Moves-refl, Moves-same, Moves-trans, here, next, cleared, close_listeners-same,
}
use py_frp.Server.Handlers.{send-same, remove_client-Moves, register_service-Moves, drop_all-Moves}
use py_frp.Server.Connections.{handle_control-Moves}
use py_frp.Server.Run.{
  Action, controls, registers, drops, removes, awaits, offers, finishes, tunnels, closes, or_same,
  act, run,
}

pub close_writers-same :
    (cs : List ClientSession) (s : Server)
    → ((close_writers cs s).config ≡ s.config) × ((close_writers cs s).services ≡ s.services)
unfolding close_writers close_writer
close_writers-same [] s = (refl, refl)
close_writers-same (c ∷ cs) s = close_writers-same cs (close_writer c s)

close-Moves : (s : Server) → Moves s (close s)
unfolding close
close-Moves s =
    let emptied : Server = record s {
      services = [];
      pending = [];
      clients = [];
      futures = fail_futures "server is closing" (values s.pending) s.futures;
    } in
    let quiet = close_listeners (values s.services) emptied in
    let same = close_listeners-same (values s.services) emptied in
    let written = close_writers-same (values s.clients) quiet in
    Moves-trans s emptied _ (record { config_same = refl; steps = next here cleared })
      (Moves-same emptied _ (written.0 ∙ same.0) (written.1 ∙ same.1))

pub handle_tunnel-same :
    (env : Env) (m : Fields) (conn : ℕ) (s t : Server)
    → handle_tunnel env m conn s ≡ ok t
    → (t.config ≡ s.config) × (t.services ≡ s.services)
unfolding handle_tunnel
handle_tunnel-same env m conn s t e = ground arith

pub finish_public-same :
    (p : PendingTunnel) (s : Server)
    → ((finish_public p s).config ≡ s.config) × ((finish_public p s).services ≡ s.services)
unfolding finish_public
finish_public-same p s = ground arith

or_same-Moves :
    (s : Server) (r : Result Error Server)
    → ((t : Server) → r ≡ ok t → (t.config ≡ s.config) × (t.services ≡ s.services))
    → Moves s (or_same s r)
unfolding or_same
or_same-Moves s (ok t) h = Moves-same s t (h t refl).0 (h t refl).1
or_same-Moves s (err e) h = Moves-refl s

handle_tunnel-Moves :
    (env : Env) (m : Fields) (conn : ℕ) (s : Server) → Moves s (act env (tunnels m conn) s)
unfolding act
handle_tunnel-Moves env m conn s =
    or_same-Moves s (handle_tunnel env m conn s) (handle_tunnel-same env m conn s)

pub act-Moves : (env : Env) (a : Action) (s : Server) → Moves s (act env a s)
unfolding act
act-Moves env (controls c first incoming) s = handle_control-Moves env c first incoming s
act-Moves env (registers c force raw) s = register_service-Moves env c force raw s
act-Moves env (drops svc) s = drop_all-Moves (svc ∷ []) s
act-Moves env (removes c) s = remove_client-Moves c s
act-Moves env (awaits p) s = Moves-same s _ refl refl
act-Moves env (offers p) s =
    Moves-same s _ (send-same env p.client _ s).0 (send-same env p.client _ s).1
act-Moves env (finishes p) s = Moves-same s _ (finish_public-same p s).0 (finish_public-same p s).1
act-Moves env (tunnels m conn) s = handle_tunnel-Moves env m conn s
act-Moves env closes s = close-Moves s

pub run-Moves : (env : Env) (actions : List Action) (s : Server) → Moves s (run env actions s)
unfolding run
run-Moves env [] s = Moves-refl s
run-Moves env (a ∷ later) s =
    Moves-trans s (act env a s) _ (act-Moves env a s) (run-Moves env later (act env a s))
