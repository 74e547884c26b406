-- ===== src/Server/Tunnels.antt =====
-- `_handle_public` and `_handle_tunnel`: a public connection waits for its tunnel. Between the steps
-- of `_handle_public` other tasks may run, so each step is a function of its own.
use py_frp.Base.{ℕ, Bool, Option, none, some, [], ◌∷◌, is_empty, if◌then◌else◌, ◌||◌}
use py_frp.Base.Texts.{Text, txt, text_eq}
use py_frp.Base.Dict
use py_frp.Base.Result.{Result, ok, err}
use py_frp.Value.{Value, Fields, obj, str, get_value, text_or_empty}
use py_frp.Server.State.{
  Server, Env, RegisteredService, PendingTunnel, Future, open_future, paired, cancelled, Error,
  protocol, send,
}
use py_frp.Server.Allocate.{optional_string}
use py_frp.Server.Register.{require_token}

-- The record of a public connection to a service, under a fresh tunnel id.
unfoldable pub pending_tunnel : Text → Text → RegisteredService → PendingTunnel
pending_tunnel id service_name svc = record {
  id = id;
  service_name = service_name;
  token = svc.token;
  client = svc.client;
}

-- The second locked section of `_handle_public`: the pending record and its open future.
unfoldable pub add_pending : PendingTunnel → Server → Server
unfolding Dict.set
add_pending p s = record s {
  pending = Dict.set p.id p s.pending;
  futures = Dict.set p.id open_future s.futures;
}

unfoldable pub open_message : Text → Text → Value
open_message id service_name =
    obj
      ((txt "type", str (txt "open")) ∷ (txt "id", str id) ∷ (txt "service", str service_name) ∷ [])

-- The `open` message to the owner of the service.
unfoldable pub send_open : Env → PendingTunnel → Server → Bool × Server
unfolding send open_message
send_open env p s = send env p.client (open_message p.id p.service_name) s

unfoldable pub cancel_future : Option Future → Text → Server → Server
unfolding Dict.set
cancel_future (some open_future) id s = record s { futures = Dict.set id cancelled s.futures }
cancel_future f id s = s

unfoldable pub pop_own : Option PendingTunnel → PendingTunnel → Server → Server
unfolding Dict.pop
pop_own none p s = s
pop_own (some q) p s = record s { pending = Dict.pop p.id s.pending }

-- The `finally` block of `_handle_public`. Tunnel ids are fresh, so a record under the id is its own.
unfoldable pub finish_public : PendingTunnel → Server → Server
unfolding cancel_future pop_own Dict.get
finish_public p s =
    cancel_future (Dict.get p.id s.futures) p.id (pop_own (Dict.get p.id s.pending) p s)

unfoldable pub pair_future : ℕ → Text → Server → Option Future → Result Error Server
unfolding Dict.set
pair_future conn id s (some open_future) =
    ok (record s { futures = Dict.set id (paired conn) s.futures })
pair_future conn id s f = err (protocol "pending tunnel is no longer open")

unfoldable pub pair_pending :
    Text → Text → Option Text → ℕ → Server → Option PendingTunnel → Result Error Server
unfolding require_token pair_future Dict.get text_eq
pair_pending id service_name provided conn s none = err (protocol "unknown tunnel id")
pair_pending id service_name provided conn s (some p) =
    if text_eq p.service_name service_name
    then require_token p.token provided (pair_future conn id s (Dict.get id s.futures))
    else err (protocol "tunnel service does not match pending connection")

unfoldable pub pair_tunnel : Text → Text → Option Text → ℕ → Server → Result Error Server
unfolding pair_pending Dict.get
pair_tunnel id service_name provided conn s =
    if is_empty id || is_empty service_name
    then err (protocol "tunnel message requires id and service")
    else pair_pending id service_name provided conn s (Dict.get id s.pending)

-- `_handle_tunnel(message, reader, writer)`, the connection known by its number.
unfoldable pub handle_tunnel : Env → Fields → ℕ → Server → Result Error Server
unfolding pair_tunnel text_or_empty get_value optional_string
handle_tunnel env message conn s =
    pair_tunnel (text_or_empty env.repr (get_value "id" message))
      (text_or_empty env.repr (get_value "service" message))
      (optional_string env.repr (get_value "token" message)) conn s
