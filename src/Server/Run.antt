-- ===== src/Server/Run.antt =====
-- The server as a sequence of steps. `controls` is a whole control connection; `registers`, `drops` and
-- `removes` are sections of one and `awaits`, `offers` and `finishes` those of a public connection, so
-- that lists of these interleave the connections.
use py_frp.Base.{ℕ, Bool, List, [], ◌∷◌}
use py_frp.Base.Result.{Result, ok, err}
use py_frp.Value.{Value, Fields}
use py_frp.Config.Types.{ServerConfig}
use py_frp.Server.State.{Server, Env, ClientSession, RegisteredService, PendingTunnel, Error}
use py_frp.Server.Register.{register_service}
use py_frp.Server.Sessions.{drop_registered_service, remove_client, close}
use py_frp.Server.Tunnels.{add_pending, send_open, finish_public, handle_tunnel}
use py_frp.Server.Control.{Incoming, handle_control}

-- `Server(config)`
unfoldable pub init : ServerConfig → Server
init config = record {
  config = config;
  services = [];
  pending = [];
  clients = [];
  futures = [];
  attempts = 0;
  listening = [];
  trace = [];
}

pub data Action : Type 0 where
  controls : ClientSession → Fields → List Incoming → Action
  registers : ClientSession → Bool → Value → Action
  drops : RegisteredService → Action
  removes : ClientSession → Action
  awaits offers finishes : PendingTunnel → Action
  tunnels : Fields → ℕ → Action
  closes : Action

unfoldable pub or_same : Server → Result Error Server → Server
or_same s (ok t) = t
or_same s (err e) = s

unfoldable pub act : Env → Action → Server → Server
unfolding or_same handle_control register_service drop_registered_service remove_client add_pending
    send_open finish_public handle_tunnel close
act env (controls c first incoming) s = handle_control env c first incoming s
act env (registers c force raw) s = (register_service env c force raw s).1
act env (drops svc) s = drop_registered_service svc s
act env (removes c) s = remove_client c s
act env (awaits p) s = add_pending p s
act env (offers p) s = (send_open env p s).1
act env (finishes p) s = finish_public p s
act env (tunnels m conn) s = or_same s (handle_tunnel env m conn s)
act env closes s = close s

unfoldable pub run : Env → List Action → Server → Server
unfolding act
run env [] s = s
run env (a ∷ later) s = run env later (act env a s)
