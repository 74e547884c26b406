-- ===== src/Client/Session.antt =====
-- `_run_once`: one connection from the `hello` to the exception that ends it.
use py_frp.Base.{
  ℕ, Bool, true, ◌&&◌, ◌||◌, Option, none, some, List, [], ◌∷◌, ◌++◌, length, ◌==◌, if◌then◌else◌,
  map,
}
use py_frp.Base.Int.{ℤ, pos}
use py_frp.Base.Texts.{Text, txt, text_eq}
use py_frp.Base.Dict.{Dict}
use py_frp.Base.Dict
use py_frp.Base.Result.{Result, ok, err}
use py_frp.Value.{
  Value, Fields, null, bool, int, str, list, dict, items, of_fields, of_items, get_value, is_str,
  is_true,
}
use py_frp.Config.Types.{ClientConfig, ProxyConfig}
use py_frp.Config.Fields.{text_value}
use py_frp.Server.Register.{text_or}
use py_frp.Client.State.{
  Client, Failure, fatal, other, Python, Incoming, message, heartbeat_ended, Attempt, confirmed,
}
use py_frp.Client.Trust.{open_server_connection}
use py_frp.Client.Delay.{restart_delay}

-- The connection so far: the messages written, the `open` messages for which a tunnel task was
-- started, and the calls of `on_registered`.
pub record Connection : Type 0 where
  pub client : Client
  pub written : List Fields
  pub opened : List Fields
  pub registered : List Fields

-- An exception, or a wait for what has not come yet.
pub data Ended : Type 0 where
  raised : Failure → Ended
  waits : Ended

-- The entry of `_service_payloads` for one proxy.
unfoldable pub optional_entry : Text → Value → Dict Value
optional_entry k null = []
optional_entry k v = (k, v) ∷ []

abbrev pub port_value : Option ℕ → Value
port_value none = null
port_value (some n) = int (pos n)

unfoldable pub payload_entries : Text → Option Text → Option Text → Option ℕ → Bool → ℤ → Dict Value
unfolding optional_entry
payload_entries name token remote_host remote_port pool priority =
    (txt "name", str name)
    ∷ (txt "token", text_value token)
    ∷ (optional_entry (txt "remote_host") (text_value remote_host)
        ++ (optional_entry (txt "remote_port") (port_value remote_port)
            ++ (if pool then (txt "priority", int priority) ∷ [] else [])))

unfoldable pub service_payload : ClientConfig → ℤ → ProxyConfig → Fields
unfolding payload_entries text_or text_eq
service_payload config priority proxy = of_fields (
    payload_entries proxy.name (text_or proxy.token config.token) proxy.remote_host
      proxy.remote_port (text_eq config.source_flavor (txt "token-pool")) priority)

-- `{"type": "register", …}`, with `"force": True` where the connection is forced.
unfoldable pub register_message : Client → Bool → Fields
unfolding service_payload
register_message c forced = of_fields (
    (txt "type", str (txt "register"))
    ∷ (
      txt "services",
      list (of_items (map (λ p. dict (service_payload c.config c.priority p)) c.config.proxies)),
    )
    ∷ (if forced then (txt "force", bool true) ∷ [] else []))

unfoldable pub client_hello : Fields
client_hello = of_fields (
    (txt "type", str (txt "hello"))
    ∷ (txt "version", int (pos 2))
    ∷ (txt "client", str (txt "py-frp"))
    ∷ [])

-- `_raise_error_response(message)`
unfoldable pub error_response : Fields → Option Failure
unfolding is_str get_value
error_response m =
    if is_str "error" (get_value "type" m)
    then some (if is_true (get_value "fatal" m) then fatal else other)
    else none

-- The loop of `_apply_registered_aliases`.
unfoldable pub alias_name : Value → ProxyConfig → Dict ProxyConfig → Dict ProxyConfig
unfolding Dict.set
alias_name (str []) p d = d
alias_name (str (c ∷ cs)) p d = Dict.set (c ∷ cs) p d
alias_name v p d = d

unfoldable pub alias_services : List Value → List ProxyConfig → Dict ProxyConfig → Dict ProxyConfig
unfolding alias_name get_value
alias_services (dict raw ∷ raws) (p ∷ ps) d =
    alias_services raws ps (alias_name (get_value "name" raw) p d)
alias_services (raw ∷ raws) (p ∷ ps) d = alias_services raws ps d
alias_services raws ps d = d

unfoldable pub aliases : Value → List ProxyConfig → Dict ProxyConfig → Dict ProxyConfig
unfolding alias_services
aliases (list raws) ps d =
    if length (items raws) == length ps then alias_services (items raws) ps d else d
aliases v ps d = d

-- `_apply_registered_aliases(message)`
unfoldable pub apply_aliases : Fields → Client → Client
unfolding aliases get_value
apply_aliases m c = record c {
  proxies = aliases (get_value "services" m) c.config.proxies c.base_proxies;
}

-- `write_message(writer, m)`, and the rest unless it raises.
unfoldable pub write_then :
    Attempt → Fields → (Connection → Ended × Connection) → Connection → Ended × Connection
write_then a m next s =
    if a.writes (length s.written)
    then next (record s { written = s.written ++ m ∷ [] })
    else (raised other, s)

-- `read_message(reader)` where the end of input raises `ProtocolError`. There is no heartbeat yet.
unfoldable pub read_then :
    (Fields → List Incoming → Connection → Ended × Connection)
    → List Incoming
    → Connection
    → Ended × Connection
read_then next [] s = (waits, s)
read_then next (message m ∷ rest) s = next m rest s
read_then next (heartbeat_ended ∷ rest) s = read_then next rest s
read_then next (event ∷ rest) s = (raised other, s)

unfoldable pub raise_error : Connection → Option Failure → Result Failure Connection
raise_error s none = ok s
raise_error s (some f) = err f

-- One message of a registered client.
unfoldable pub control_message : Python → Fields → Connection → Result Failure Connection
unfolding is_str get_value error_response raise_error restart_delay
control_message python m s =
    if is_str "open" (get_value "type" m)
    then ok (record s { opened = s.opened ++ m ∷ [] })
    else if is_str "pong" (get_value "type" m)
    then ok s
    else if is_str "error" (get_value "type" m)
    then raise_error s (error_response m)
    else if is_str "server_restarting" (get_value "type" m)
    then err (restart_delay python s.client.config.reconnect_delay m)
    else ok s

unfoldable pub after_message :
    (Connection → Ended × Connection) → Connection → Result Failure Connection → Ended × Connection
after_message later s (err f) = (raised f, s)
after_message later s (ok s') = later s'

-- The loop over control messages.
unfoldable pub control_loop : Python → List Incoming → Connection → Ended × Connection
unfolding control_message after_message
control_loop python [] s = (waits, s)
control_loop python (message m ∷ rest) s =
    after_message (control_loop python rest) s (control_message python m s)
control_loop python (event ∷ rest) s = (raised other, s)

unfoldable pub unless_error :
    (Connection → Ended × Connection) → Connection → Option Failure → Ended × Connection
unless_error next s none = next s
unless_error next s (some f) = (raised f, s)

unfoldable pub on_registered : Python → Fields → List Incoming → Connection → Ended × Connection
unfolding is_str get_value apply_aliases control_loop
on_registered python m rest s =
    if is_str "registered" (get_value "type" m) && is_str "ok" (get_value "status" m)
    then control_loop python rest
        (record s { client = apply_aliases m s.client; registered = s.registered ++ m ∷ [] })
    else (raised other, s)

-- From the answer to a registration on.
unfoldable pub on_answer : Python → Fields → List Incoming → Connection → Ended × Connection
unfolding error_response unless_error on_registered
on_answer python m rest s = unless_error (on_registered python m rest) s (error_response m)

-- The answer `force_required` asks the user, unless the client forces its connection anyway.
unfoldable pub on_registration :
    Python → Attempt → Fields → List Incoming → Connection → Ended × Connection
unfolding is_str get_value confirmed write_then read_then on_answer register_message
on_registration python a m rest s =
    if is_str "force_required" (get_value "type" m)
    then (if s.client.force_connect || confirmed a.force_answer
        then write_then a (register_message s.client true) (read_then (on_answer python) rest) s
        else (raised fatal, s))
    else on_answer python m rest s

unfoldable pub send_registration :
    Python → Attempt → List Incoming → Connection → Ended × Connection
unfolding write_then read_then on_registration register_message
send_registration python a rest s =
    write_then a (register_message s.client s.client.force_connect)
      (read_then (on_registration python a) rest) s

unfoldable pub on_hello :
    Python → Attempt → Fields → List Incoming → Connection → Ended × Connection
unfolding error_response unless_error send_registration
on_hello python a m rest s = unless_error (send_registration python a rest) s (error_response m)

unfoldable pub on_connection : Python → Attempt → Connection → Ended × Connection
unfolding write_then client_hello read_then on_hello
on_connection python a s = write_then a client_hello (read_then (on_hello python a) a.incoming) s

unfoldable pub connected : Python → Attempt → Client → Result Failure Client → Ended × Connection
unfolding on_connection
connected python a before (err f) =
    (raised f, record { client = before; written = []; opened = []; registered = [] })
connected python a before (ok c) =
    on_connection python a (record { client = c; written = []; opened = []; registered = [] })

-- `_run_once()`
unfoldable pub run_once : Python → Attempt → Client → Ended × Connection
unfolding connected open_server_connection
run_once python a c = connected python a c (open_server_connection python a.peer a.trust_answer c)
