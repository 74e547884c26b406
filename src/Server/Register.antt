-- ===== src/Server/Register.antt =====
-- `_register_regular_service`: a service with an address of its own, configured or dynamic.
use py_frp.Base.{
  ℕ, Bool, true, false, not, ◌&&◌, Option, none, some, List, [], ◌∷◌, leb, is_some, is_empty,
  if◌then◌else◌,
}
use py_frp.Base.Int.{pos, negsuc}
use py_frp.Base.Texts.{Text, txt, text_eq, strip}
use py_frp.Base.Dict.{Dict}
use py_frp.Base.Dict
use py_frp.Base.Result.{Result, ok, err, ◌>>=◌}
use py_frp.Value.{
  Value, Fields, dict, is_null, get_value, text_or_empty, to_int, IntResult, number,
  overflow_error as int_overflow,
}
use py_frp.Config.Types.{ServerConfig, ServerServiceConfig}
use py_frp.Server.State.{
  Server, Env, ClientSession, RegisteredService, Error, protocol, authentication, os_error,
  overflow_error, start_server, close_listener,
}
use py_frp.Server.Allocate.{optional_string}
use py_frp.Server.Preempt.{register_pool_service}

-- `_require_token(expected, provided)`
unfoldable pub token_allows : Option Text → Option Text → Bool
unfolding text_eq
token_allows none provided = true
token_allows (some expected) none = false
token_allows (some expected) (some provided) = text_eq provided expected

unfoldable pub require_token {ℓ} :
    {A : Type ℓ} → Option Text → Option Text → Result Error A → Result Error A
unfolding token_allows
require_token expected provided next =
    if token_allows expected provided then next else err authentication

-- `a or b` of optional texts: an empty text counts as none.
unfoldable pub text_or : Option Text → Option Text → Option Text
text_or none b = b
text_or (some []) b = b
text_or (some (c ∷ cs)) b = some (c ∷ cs)

unfoldable pub remote_host : Text → Text
remote_host h = if is_empty h then txt "0.0.0.0" else h

unfoldable pub port_number : IntResult → Result Error ℕ
port_number (number (pos n)) =
    if leb n 65535 then ok n else err (protocol "remote_port is outside the valid range")
port_number (number (negsuc n)) = err (protocol "remote_port is outside the valid range")
port_number int_overflow = err overflow_error
port_number _ = err (protocol "remote_port must be an integer")

-- `_port(value)`
unfoldable pub port : Value → Result Error ℕ
unfolding port_number to_int
port v = port_number (to_int v)

-- `{service.name: service for service in config.services}`
unfoldable pub configured_services :
    List ServerServiceConfig → Dict ServerServiceConfig → Dict ServerServiceConfig
unfolding Dict.set
configured_services [] d = d
configured_services (svc ∷ svcs) d = configured_services svcs (Dict.set svc.name svc d)

unfoldable pub configured : ServerConfig → Text → Option ServerServiceConfig
unfolding configured_services Dict.get
configured config name = Dict.get name (configured_services config.services [])

unfoldable pub dynamic_service :
    Env → ServerConfig → Text → Option Text → Fields → Result Error ServerServiceConfig
unfolding port get_value text_or_empty text_or remote_host
dynamic_service env config name provided raw =
    if is_null (get_value "remote_port" raw)
    then err (protocol "dynamic service is missing remote_port")
    else (do
      n ← port (get_value "remote_port" raw)
      ok (record {
        name = name;
        bind_host = remote_host (text_or_empty env.repr (get_value "remote_host" raw));
        bind_port = n;
        token = text_or provided config.token;
      }))

unfoldable pub named_service :
    Env
    → ServerConfig
    → Text
    → Option Text
    → Fields
    → Option ServerServiceConfig
    → Result Error ServerServiceConfig
unfolding require_token dynamic_service text_or
named_service env config name provided raw (some svc) =
    require_token (text_or svc.token config.token) provided (ok svc)
named_service env config name provided raw none =
    if config.allow_dynamic
    then require_token config.token provided (dynamic_service env config name provided raw)
    else err (protocol "service is not configured on this server")

unfoldable pub service_from_fields :
    Env → ServerConfig → Text → Fields → Result Error ServerServiceConfig
unfolding named_service configured optional_string get_value
service_from_fields env config name raw =
    if is_empty name
    then err (protocol "service name must not be empty")
    else named_service env config name (optional_string env.repr (get_value "token" raw)) raw
        (configured config name)

-- `_service_from_registration(raw)`
unfoldable pub service_from_registration :
    Env → ServerConfig → Value → Result Error ServerServiceConfig
unfolding service_from_fields text_or_empty get_value strip
service_from_registration env config (dict raw) =
    service_from_fields env config (strip (text_or_empty env.repr (get_value "name" raw))) raw
service_from_registration env config raw = err (protocol "service registration must be an object")

unfoldable pub regular_service :
    Server → ClientSession → ServerServiceConfig → ℕ → RegisteredService
unfolding configured
regular_service s c svc listener = record {
  name = svc.name;
  bind_host = svc.bind_host;
  bind_port = svc.bind_port;
  token = svc.token;
  client = c;
  listener = listener;
  configured = is_some (configured s.config svc.name);
  pool_token = none;
  priority = pos 0;
}

unfoldable pub store_new :
    ClientSession → ServerServiceConfig → ℕ → Server → Result Error RegisteredService × Server
unfolding regular_service Dict.get Dict.set close_listener
store_new c svc l s =
    if is_some (Dict.get svc.name s.services)
    then (err (protocol "service is already registered"), close_listener l s)
    else (
      ok (regular_service s c svc l),
      record s { services = Dict.set svc.name (regular_service s c svc l) s.services },
    )

unfoldable pub listening_service :
    ClientSession
    → ServerServiceConfig
    → Option ℕ × Server
    → Result Error RegisteredService × Server
unfolding store_new
listening_service c svc (none, s) = (err os_error, s)
listening_service c svc (some l, s) = store_new c svc l s

unfoldable pub open_service :
    Env
    → ClientSession
    → Server
    → Result Error ServerServiceConfig
    → Result Error RegisteredService × Server
unfolding listening_service start_server
open_service env c s (err e) = (err e, s)
open_service env c s (ok svc) =
    listening_service c svc (start_server env svc.bind_host svc.bind_port s)

unfoldable pub register_regular_service :
    Env → ClientSession → Value → Server → Result Error RegisteredService × Server
unfolding open_service service_from_registration
register_regular_service env c raw s =
    open_service env c s (service_from_registration env s.config raw)

-- `_is_pool_registration(raw)`
unfoldable pub is_pool_registration : ServerConfig → Value → Bool
unfolding get_value
is_pool_registration config (dict raw) =
    not (is_empty config.port_pool)
    && is_null (get_value "remote_port" raw)
    && is_null (get_value "remotePort" raw)
is_pool_registration config raw = false

unfoldable pub register_service :
    Env → ClientSession → Bool → Value → Server → Result Error RegisteredService × Server
unfolding is_pool_registration register_pool_service register_regular_service
register_service env c force raw s =
    if is_pool_registration s.config raw
    then register_pool_service env c raw force s
    else register_regular_service env c raw s
