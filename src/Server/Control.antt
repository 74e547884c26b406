-- ===== src/Server/Control.antt =====
-- `_handle_control`: one control connection from its first message to its cleanup.
use py_frp.Base.{Bool, true, false, List, [], ◌∷◌, if◌then◌else◌, map, ◌&&◌}
use py_frp.Base.Int.{pos}
use py_frp.Base.Texts.{Text, txt}
use py_frp.Base.Dict
use py_frp.Base.Result.{Result, ok, err}
use py_frp.Value.{
  Value, Fields, end, bool, int, str, list, obj, of_items, is_str, is_true, get_value,
}
use py_frp.Server.State.{
  Server, Env, ClientSession, RegisteredService, Error, protocol, authentication, exhausted,
  force_required, priority_preemption, os_error, send, close_writer,
}
use py_frp.Server.Sessions.{register_client, remove_client}

-- What `read_message` gives next: a message, `None` at the end, or an exception.
pub data Incoming : Type 0 where
  message : Fields → Incoming
  broken : Error → Incoming

-- How the `try` block of `_handle_control` ends.
pub data Finish : Type 0 where
  finished : Finish
  raised : Error → Finish

unfoldable pub hello_message : Value
hello_message = obj (
    (txt "type", str (txt "hello"))
    ∷ (txt "version", int (pos 2))
    ∷ (txt "server", str (txt "py-frp"))
    ∷ [])

-- The `error` texts of replies are left out.
unfoldable pub force_required_message : Value
force_required_message =
    obj ((txt "type", str (txt "force_required")) ∷ (txt "status", str (txt "full")) ∷ [])

unfoldable pub service_entry : Env → RegisteredService → Value
service_entry env svc =
    let address = env.sockname svc.listener svc.bind_host svc.bind_port in
    obj (
      (txt "name", str svc.name)
      ∷ (txt "bind_host", str address.0)
      ∷ (txt "bind_port", int (pos address.1))
      ∷ (txt "priority", int svc.priority)
      ∷ [])

unfoldable pub registered_message : Env → ClientSession → List RegisteredService → Value
unfolding service_entry
registered_message env c svcs = obj (
    (txt "type", str (txt "registered"))
    ∷ (txt "status", str (txt "ok"))
    ∷ (txt "client_id", str c.id)
    ∷ (txt "services", list (of_items (map (service_entry env) svcs)))
    ∷ [])

unfoldable pub pong_message : Value → Value
pong_message time = obj ((txt "type", str (txt "pong")) ∷ (txt "time", time) ∷ [])

-- `await client.send(…)`, then the rest unless it raises.
unfoldable pub sending :
    Env → ClientSession → Value → (Server → Finish × Server) → Server → Finish × Server
unfolding send
sending env c m next s =
    if (send env c m s).0 then next (send env c m s).1 else (raised os_error, (send env c m s).1)

-- The loop over the messages of a registered client.
unfoldable pub serve : Env → ClientSession → List Incoming → Server → Finish × Server
unfolding sending is_str get_value pong_message
serve env c [] s = (finished, s)
serve env c (broken e ∷ rest) s = (raised e, s)
serve env c (message m ∷ rest) s =
    if is_str "ping" (get_value "type" m)
    then sending env c (pong_message (get_value "time" m)) (serve env c rest) s
    else if is_str "close" (get_value "type" m)
    then (finished, s)
    else serve env c rest s

unfoldable pub welcome :
    Env → ClientSession → List Incoming → List RegisteredService → Server → Finish × Server
unfolding sending serve registered_message
welcome env c incoming svcs s =
    sending env c (registered_message env c svcs) (serve env c incoming) s

unfoldable pub retried :
    Env
    → ClientSession
    → List Incoming
    → Result Error (List RegisteredService) × Server
    → Finish × Server
unfolding welcome
retried env c incoming (ok svcs, s) = welcome env c incoming svcs s
retried env c incoming (err e, s) = (raised e, s)

-- The answer to `force_required`.
unfoldable pub force_retry : Env → ClientSession → List Incoming → Server → Finish × Server
unfolding retried register_client is_str get_value
force_retry env c [] s = (finished, s)
force_retry env c (broken e ∷ rest) s = (raised e, s)
force_retry env c (message m ∷ rest) s =
    if is_str "close" (get_value "type" m)
    then (finished, s)
    else if is_str "register" (get_value "type" m) && is_true (get_value "force" m)
    then retried env c rest (register_client env c (get_value "services" m) true s)
    else (raised (protocol "force retry must register services with force enabled"), s)

unfoldable pub answer :
    Env
    → ClientSession
    → List Incoming
    → Result Error (List RegisteredService) × Server
    → Finish × Server
unfolding welcome sending force_retry force_required_message
answer env c incoming (ok svcs, s) = welcome env c incoming svcs s
answer env c incoming (err force_required, s) =
    sending env c force_required_message (force_retry env c incoming) s
answer env c incoming (err e, s) = (raised e, s)

unfoldable pub register_first :
    Env → ClientSession → Fields → List Incoming → Server → Finish × Server
unfolding answer register_client is_str get_value
register_first env c m incoming s =
    if is_str "register" (get_value "type" m)
    then answer env c incoming
        (register_client env c (get_value "services" m) (is_true (get_value "force" m)) s)
    else (raised (protocol "control connection must register services"), s)

-- The message after the server's `hello`; the end of input counts as an empty message.
unfoldable pub after_hello : Env → ClientSession → List Incoming → Server → Finish × Server
unfolding register_first
after_hello env c [] s = register_first env c end [] s
after_hello env c (broken e ∷ rest) s = (raised e, s)
after_hello env c (message m ∷ rest) s = register_first env c m rest s

unfoldable pub run_control : Env → ClientSession → Fields → List Incoming → Server → Finish × Server
unfolding sending after_hello register_first is_str get_value hello_message
run_control env c first incoming s =
    if is_str "hello" (get_value "type" first)
    then sending env c hello_message (after_hello env c incoming) s
    else register_first env c first incoming s

-- `fatal=isinstance(exc, (AuthenticationError, ResourceExhaustedError))`
unfoldable pub is_fatal : Error → Bool
is_fatal authentication = true
is_fatal exhausted = true
is_fatal force_required = true
is_fatal (priority_preemption p m) = true
is_fatal _ = false

max_priority_field : Error → List (Text × Value)
max_priority_field (priority_preemption p m) = (txt "max_priority", int m) ∷ []
max_priority_field _ = []

unfoldable pub error_message : Error → Value
unfolding is_fatal max_priority_field
error_message e =
    obj ((txt "type", str (txt "error")) ∷ (txt "fatal", bool (is_fatal e)) ∷ max_priority_field e)

-- The `except` blocks: `_best_effort_error`.
unfoldable pub report : Env → ClientSession → Finish × Server → Server
unfolding send error_message
report env c (finished, s) = s
report env c (raised e, s) = (send env c (error_message e) s).1

-- `_handle_control(first, reader, writer)`
unfoldable pub handle_control : Env → ClientSession → Fields → List Incoming → Server → Server
unfolding run_control report remove_client close_writer Dict.set
handle_control env c first incoming s = close_writer c (
    remove_client c (
      report env c
        (run_control env c first incoming (record s { clients = Dict.set c.id c s.clients }))))
