-- ===== src/Server/Sessions.antt =====
-- `_register_client`, and what undoes it: `_drop_registered_service`, `_remove_client` and `close`.
use py_frp.Base.{Bool, List, [], ◌∷◌, ◌++◌}
use py_frp.Base.Dict
use py_frp.Base.Dict.{values}
use py_frp.Base.Result.{Result, ok, err}
use py_frp.Value.{Value, cons, list, items}
use py_frp.Server.State.{
  Server, Env, ClientSession, RegisteredService, Error, protocol, close_listener, close_writer,
  fail_futures, services_of, pending_of, pop_services, pop_pending, close_listeners,
}
use py_frp.Server.Register.{register_service}

-- `_drop_registered_service(service)`
unfoldable pub drop_registered_service : RegisteredService → Server → Server
unfolding Dict.pop close_listener
drop_registered_service svc s =
    close_listener svc.listener (record s { services = Dict.pop svc.name s.services })

unfoldable pub drop_all : List RegisteredService → Server → Server
unfolding drop_registered_service
drop_all [] s = s
drop_all (svc ∷ svcs) s = drop_all svcs (drop_registered_service svc s)

-- One registration is done; the next ones follow, or what was registered is dropped.
unfoldable pub and_then :
    List RegisteredService
    → (List RegisteredService → Server → Result Error (List RegisteredService) × Server)
    → Result Error RegisteredService × Server
    → Result Error (List RegisteredService) × Server
unfolding drop_all
and_then registered rest (ok svc, s) = rest (registered ++ svc ∷ []) s
and_then registered rest (err e, s) = (err e, drop_all registered s)

unfoldable pub register_services :
    Env
    → ClientSession
    → Bool
    → List Value
    → List RegisteredService
    → Server
    → Result Error (List RegisteredService) × Server
unfolding and_then register_service
register_services env c force [] registered s = (ok registered, s)
register_services env c force (raw ∷ raws) registered s =
    and_then registered (register_services env c force raws) (register_service env c force raw s)

-- `_register_client(client, raw_services, force=force)`
unfoldable pub register_client :
    Env → ClientSession → Value → Bool → Server → Result Error (List RegisteredService) × Server
unfolding register_services
register_client env c (list (cons raw raws)) force s =
    register_services env c force (items (cons raw raws)) [] s
register_client env c raw_services force s =
    (err (protocol "register message must include services"), s)

-- `_remove_client(client)`
unfoldable pub remove_client : ClientSession → Server → Server
unfolding services_of pending_of pop_services pop_pending close_listeners fail_futures Dict.pop
remove_client c s = close_listeners (services_of c s) (record s {
  clients = Dict.pop c.id s.clients;
  services = pop_services (services_of c s) s.services;
  pending = pop_pending (pending_of c s) s.pending;
  futures = fail_futures "client disconnected" (pending_of c s) s.futures;
})

unfoldable pub close_writers : List ClientSession → Server → Server
unfolding close_writer
close_writers [] s = s
close_writers (c ∷ cs) s = close_writers cs (close_writer c s)

-- `close()`, for what the server keeps of its clients.
unfoldable pub close : Server → Server
unfolding values fail_futures close_listeners close_writers
close s = close_writers (values s.clients) (
    close_listeners (values s.services) (record s {
      services = [];
      pending = [];
      clients = [];
      futures = fail_futures "server is closing" (values s.pending) s.futures;
    }))
