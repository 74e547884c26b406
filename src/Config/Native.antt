-- ===== src/Config/Native.antt =====
-- `_load_frp_or_native_server` and `_load_frp_or_native_client`.
use py_frp.Base.{ℕ, true, false, ◌&&◌, not, Option, some, List, [], ◌∷◌, is_empty, if◌then◌else◌}
use py_frp.Base.Int.{ℤ, pos}
use py_frp.Base.Texts.{Text, txt, text_eq, lower}
use py_frp.Base.Dict.{Dict, update}
use py_frp.Base.Result.{Result, ok, err, ◌>>=◌}
use py_frp.Value.{
  Float, finite, Value, null, str, list, dict, Fields, fields, items, nil, is_str, is_null, obj,
  truthy,
}
use py_frp.Config.Types.{ServerServiceConfig, ServerConfig, ProxyConfig, ClientConfig}
use py_frp.Config.Fields.{
  ConfigError, config, Py, get_any, get_any_or, mapping_or_empty, as_mapping, string_or_none,
  string_or, required_string, int_or, port, positive_float, bool_or, auth_token, text_value,
  service_name, split_addr, addr_from_fields,
}

abbrev pub whole : ℕ → Float
whole n = finite (pos n) 0

unfoldable pub server_service :
    Py → Option Text → Text → Fields → Value → Value → Result ConfigError ServerServiceConfig
server_service py default_token name service bind_addr default_port = do
  number ← int_or default_port (pos 0)
  address ←
      addr_from_fields py bind_addr
        (string_or py (get_any ("bind_host" ∷ "bindHost" ∷ []) service) (txt "0.0.0.0")) number
  checked_name ← service_name py (str name)
  checked_port ← port true address.1
  ok (record {
    name = checked_name;
    bind_host = address.0;
    bind_port = checked_port;
    token = string_or_none py (get_any_or (text_value default_token) ("token" ∷ []) service);
  })

-- One entry of `_native_server_services`.
unfoldable pub native_server_service :
    Py → Option Text → Text → Value → Result ConfigError ServerServiceConfig
unfolding server_service
native_server_service py default_token name raw = do
  service ← as_mapping raw
  let bind_addr = get_any ("bind_addr" ∷ "bindAddr" ∷ "remote_addr" ∷ "remoteAddr" ∷ []) service
  let bind_port = get_any ("bind_port" ∷ "bindPort" ∷ "remote_port" ∷ "remotePort" ∷ []) service
  let missing = is_null bind_addr && is_null bind_port
  if missing
      then err (config "server service is missing bind_addr or bind_port")
      else server_service py default_token name service bind_addr bind_port

unfoldable pub each_service {ℓ} :
    {A : Type ℓ} → (Text → Value → Result ConfigError A) → Dict Value → Result ConfigError (List A)
each_service read [] = ok []
each_service read ((name, raw) ∷ rest) = do
  svc ← read name raw
  svcs ← each_service read rest
  ok (svc ∷ svcs)

-- `root`: the table `server` if it is not empty and the mode is "server", else the whole file.
unfoldable pub server_root : Fields → Fields → Fields
server_root table whole_file =
    if not (is_empty (fields table)) && is_str "server" (get_any ("mode" ∷ []) whole_file)
    then table
    else whole_file

-- `_load_frp_or_native_server(data)`
unfoldable pub load_native_server : Py → Fields → Result ConfigError ServerConfig
unfolding each_service native_server_service server_root
load_native_server py file = do
  table ← mapping_or_empty (get_any ("server" ∷ []) file)
  let root = server_root table file
  default_port ← int_or (get_any ("bind_port" ∷ "bindPort" ∷ []) root) (pos 7000)
  address ←
      addr_from_fields py (get_any ("bind_addr" ∷ "bindAddr" ∷ []) root)
        (string_or py (get_any ("bind_host" ∷ "bindHost" ∷ []) root) (txt "0.0.0.0")) default_port
  let token = string_or_none py (
      get_any_or (text_value (auth_token py root)) ("token" ∷ "auth_token" ∷ "authToken" ∷ []) root)
  open_timeout ← positive_float py (get_any ("open_timeout" ∷ "openTimeout" ∷ []) root) (whole 15)
  services_table ← mapping_or_empty (get_any ("services" ∷ []) root)
  services ← each_service (native_server_service py token) (fields services_table)
  checked_port ← port true address.1
  ok (record {
    bind_host = address.0;
    bind_port = checked_port;
    token = token;
    services = services;
    allow_dynamic = bool_or py (get_any ("allow_dynamic" ∷ "allowDynamic" ∷ []) root) true;
    source_flavor = if truthy (get_any ("mode" ∷ []) file) then txt "py-frp" else txt "frp";
    open_timeout = open_timeout;
    port_pool = [];
    pool_tokens = [];
    pool_bind_host = txt "0.0.0.0";
  })

-- The local address of a proxy.
unfoldable pub local_address : Py → Fields → Result ConfigError (Text × ℤ)
local_address py proxy =
    let local_addr = get_any ("local_addr" ∷ "localAddr" ∷ []) proxy in
    let local_port = get_any ("local_port" ∷ "localPort" ∷ []) proxy in
    if is_null local_addr
    then (if is_null local_port
        then err (config "missing required field local_port/localPort")
        else (do
          n ← int_or local_port (pos 0)
          ok (
            string_or py (get_any ("local_ip" ∷ "localIP" ∷ "local_host" ∷ "localHost" ∷ []) proxy)
                (txt "127.0.0.1"),
            n,
          )))
    else (do text ← required_string py local_addr; split_addr (txt "127.0.0.1") text)

-- The public address that a proxy asks for.
unfoldable pub remote_address : Py → Fields → Result ConfigError (Text × ℤ)
remote_address py proxy =
    let remote_addr = get_any ("remote_addr" ∷ "remoteAddr" ∷ []) proxy in
    let remote_port = get_any ("remote_port" ∷ "remotePort" ∷ []) proxy in
    if is_null remote_addr
    then (if is_null remote_port
        then err (config "proxy is missing remote_port/remotePort")
        else (do
          n ← int_or remote_port (pos 0)
          ok (
            string_or py
                (get_any ("remote_host" ∷ "remoteHost" ∷ "remote_ip" ∷ "remoteIP" ∷ []) proxy)
                (txt "0.0.0.0"),
            n,
          )))
    else (do text ← required_string py remote_addr; split_addr (txt "0.0.0.0") text)

unfoldable pub tcp_proxy : Py → Option Text → Fields → Result ConfigError ProxyConfig
tcp_proxy py default_token proxy = do
  name ← service_name py (get_any ("name" ∷ []) proxy)
  near ← local_address py proxy
  far ← remote_address py proxy
  local_port ← port false near.1
  remote_port ← port true far.1
  ok (record {
    name = name;
    local_host = near.0;
    local_port = local_port;
    remote_host = some far.0;
    remote_port = some remote_port;
    token = string_or_none py (get_any_or (text_value default_token) ("token" ∷ []) proxy);
  })

-- `_frp_or_native_proxy(row, default_token)`
unfoldable pub native_proxy : Py → Option Text → Value → Result ConfigError ProxyConfig
native_proxy py default_token row = do
  proxy ← as_mapping row
  let kind = lower (string_or py (get_any ("type" ∷ []) proxy) (txt "tcp"))
  if text_eq kind (txt "tcp")
      then tcp_proxy py default_token proxy
      else err (config "only tcp proxies are supported")

-- A table of proxies as rows, `{"name": name, **row}`: a field `name` of the row wins.
unfoldable pub named_rows : Dict Value → Result ConfigError (List Value)
unfolding update
named_rows [] = ok []
named_rows ((name, raw) ∷ rest) = do
  row ← as_mapping raw
  rows ← named_rows rest
  ok (obj (update ((txt "name", str name) ∷ []) (fields row)) ∷ rows)

unfoldable pub proxy_rows : Value → Result ConfigError (List Value)
unfolding named_rows
proxy_rows null = err (config "client proxies/services must be a list or table")
proxy_rows (dict table) = named_rows (fields table)
proxy_rows (list rows) = ok (items rows)
proxy_rows v = err (config "client proxies/services must be a list or table")

unfoldable pub each_proxy : Py → Option Text → List Value → Result ConfigError (List ProxyConfig)
unfolding native_proxy
each_proxy py token [] = ok []
each_proxy py token (row ∷ rows) = do
  proxy ← native_proxy py token row
  proxies ← each_proxy py token rows
  ok (proxy ∷ proxies)

-- The proxies of a client; without any the configuration is refused.
unfoldable pub some_proxies : List ProxyConfig → Result ConfigError (List ProxyConfig)
some_proxies [] = err (config "client configuration must define at least one proxy")
some_proxies (p ∷ ps) = ok (p ∷ ps)

-- `_load_frp_or_native_client(data)`
unfoldable pub load_native_client : Py → Fields → Result ConfigError ClientConfig
unfolding each_proxy some_proxies proxy_rows
load_native_client py file = do
  default_port ← int_or (get_any ("server_port" ∷ "serverPort" ∷ []) file) (pos 7000)
  address ←
      addr_from_fields py
        (get_any ("server_addr" ∷ "serverAddr" ∷ "remote_addr" ∷ "remoteAddr" ∷ []) file)
        (string_or py (get_any ("server_host" ∷ "serverHost" ∷ []) file) (txt "127.0.0.1"))
        default_port
  let token = string_or_none py (get_any_or (text_value (auth_token py file)) ("token" ∷ []) file)
  reconnect_delay ←
      positive_float py (get_any ("reconnect_delay" ∷ "reconnectDelay" ∷ []) file) (whole 3)
  connect_timeout ←
      positive_float py (get_any ("connect_timeout" ∷ "connectTimeout" ∷ []) file) (whole 10)
  heartbeat_interval ←
      positive_float py (get_any ("heartbeat_interval" ∷ "heartbeatInterval" ∷ []) file) (whole 30)
  rows ← proxy_rows (get_any_or (list nil) ("proxies" ∷ "services" ∷ []) file)
  all_proxies ← each_proxy py token rows
  proxies ← some_proxies all_proxies
  server_port ← port false address.1
  ok (record {
    server_host = address.0;
    server_port = server_port;
    proxies = proxies;
    token = token;
    source_flavor = if truthy (get_any ("mode" ∷ []) file) then txt "py-frp" else txt "frp";
    reconnect_delay = reconnect_delay;
    connect_timeout = connect_timeout;
    heartbeat_interval = heartbeat_interval;
    server_fingerprint =
        string_or_none py (get_any ("server_fingerprint" ∷ "serverFingerprint" ∷ []) file);
  })
