-- ===== src/Config/Rathole.antt =====
-- `_load_rathole_server`, `_load_rathole_client`, and the choice between the formats.
use py_frp.Base.{String, Bool, true, false, ◌||◌, Option, none, List, [], ◌∷◌, if◌then◌else◌}
use py_frp.Base.Texts.{Text, txt}
use py_frp.Base.Result.{Result, ok, err, ◌>>=◌}
use py_frp.Value.{Value, str, dict, Fields, fields, is_null}
use py_frp.Config.Types.{ServerServiceConfig, ServerConfig, ProxyConfig, ClientConfig}
use py_frp.Config.Fields.{
  ConfigError, config, Py, has_key, get_any, get_any_or, mapping_or_empty, as_mapping,
  required_mapping, string_or_none, string_or, required_string, port, positive_float, bool_or,
  text_value, service_name, split_addr,
}
use py_frp.Config.Native.{whole, each_service, load_native_server, load_native_client}

-- One entry of the services of a rathole server.
unfoldable pub rathole_service :
    Py → Option Text → Text → Value → Result ConfigError ServerServiceConfig
rathole_service py default_token name raw = do
  service ← as_mapping raw
  let bind_addr = get_any ("bind_addr" ∷ "bindAddr" ∷ []) service
  text ←
      if is_null bind_addr
      then err (config "rathole server service is missing bind_addr")
      else required_string py bind_addr
  address ← split_addr (txt "0.0.0.0") text
  checked_name ← service_name py (str name)
  checked_port ← port true address.1
  ok (record {
    name = checked_name;
    bind_host = address.0;
    bind_port = checked_port;
    token = string_or_none py (get_any_or (text_value default_token) ("token" ∷ []) service);
  })

-- `_load_rathole_server(data)`
unfoldable pub load_rathole_server : Py → Fields → Result ConfigError ServerConfig
unfolding rathole_service each_service
load_rathole_server py file = do
  server ← required_mapping "server" file
  address ←
      split_addr (txt "0.0.0.0")
        (string_or py (get_any ("bind_addr" ∷ "bindAddr" ∷ []) server) (txt "0.0.0.0:2333"))
  let default_token = string_or_none py (get_any ("default_token" ∷ "defaultToken" ∷ []) server)
  open_timeout ← positive_float py (get_any ("open_timeout" ∷ "openTimeout" ∷ []) server) (whole 15)
  services_table ← mapping_or_empty (get_any ("services" ∷ []) server)
  services ← each_service (rathole_service py default_token) (fields services_table)
  checked_port ← port true address.1
  ok (record {
    bind_host = address.0;
    bind_port = checked_port;
    token = default_token;
    services = services;
    allow_dynamic = bool_or py (get_any ("allow_dynamic" ∷ "allowDynamic" ∷ []) server) false;
    source_flavor = txt "rathole";
    open_timeout = open_timeout;
    port_pool = [];
    pool_tokens = [];
    pool_bind_host = txt "0.0.0.0";
  })

-- One entry of the services of a rathole client.
unfoldable pub rathole_proxy : Py → Option Text → Text → Value → Result ConfigError ProxyConfig
rathole_proxy py default_token name raw = do
  service ← as_mapping raw
  let local_addr = get_any ("local_addr" ∷ "localAddr" ∷ []) service
  text ←
      if is_null local_addr
      then err (config "rathole client service is missing local_addr")
      else required_string py local_addr
  address ← split_addr (txt "127.0.0.1") text
  checked_name ← service_name py (str name)
  checked_port ← port false address.1
  ok (record {
    name = checked_name;
    local_host = address.0;
    local_port = checked_port;
    remote_host = none;
    remote_port = none;
    token = string_or_none py (get_any_or (text_value default_token) ("token" ∷ []) service);
  })

some_services : List ProxyConfig → Result ConfigError (List ProxyConfig)
some_services [] = err (config "rathole client configuration must define services")
some_services (p ∷ ps) = ok (p ∷ ps)

-- `_load_rathole_client(data)`
unfoldable pub load_rathole_client : Py → Fields → Result ConfigError ClientConfig
unfolding rathole_proxy each_service some_services
load_rathole_client py file = do
  client ← required_mapping "client" file
  address ←
      split_addr (txt "127.0.0.1")
        (string_or py (get_any ("remote_addr" ∷ "remoteAddr" ∷ []) client) (txt "127.0.0.1:2333"))
  let default_token = string_or_none py (get_any ("default_token" ∷ "defaultToken" ∷ []) client)
  reconnect_delay ←
      positive_float py (get_any ("reconnect_delay" ∷ "reconnectDelay" ∷ []) client) (whole 3)
  connect_timeout ←
      positive_float py (get_any ("connect_timeout" ∷ "connectTimeout" ∷ []) client) (whole 10)
  heartbeat_interval ←
      positive_float py (get_any ("heartbeat_interval" ∷ "heartbeatInterval" ∷ []) client)
        (whole 30)
  services_table ← mapping_or_empty (get_any ("services" ∷ []) client)
  all_proxies ← each_service (rathole_proxy py default_token) (fields services_table)
  proxies ← some_services all_proxies
  server_port ← port false address.1
  ok (record {
    server_host = address.0;
    server_port = server_port;
    proxies = proxies;
    token = default_token;
    source_flavor = txt "rathole";
    reconnect_delay = reconnect_delay;
    connect_timeout = connect_timeout;
    heartbeat_interval = heartbeat_interval;
    server_fingerprint =
        string_or_none py (get_any ("server_fingerprint" ∷ "serverFingerprint" ∷ []) client);
  })

rathole_table : String → Value → Bool
rathole_table addr (dict table) = has_key addr table || has_key "services" table
rathole_table addr v = false

-- `_looks_like_rathole_server(data)` and `_looks_like_rathole_client(data)`
unfoldable pub looks_like_rathole_server : Fields → Bool
unfolding rathole_table
looks_like_rathole_server file =
    rathole_table "bind_addr" (get_any ("server" ∷ []) file)
    || rathole_table "bindAddr" (get_any ("server" ∷ []) file)

unfoldable pub looks_like_rathole_client : Fields → Bool
unfolding rathole_table
looks_like_rathole_client file =
    rathole_table "remote_addr" (get_any ("client" ∷ []) file)
    || rathole_table "remoteAddr" (get_any ("client" ∷ []) file)

-- `load_server_config` and `load_client_config` of a parsed TOML or JSON file.
unfoldable pub load_server_config : Py → Fields → Result ConfigError ServerConfig
load_server_config py file =
    if looks_like_rathole_server file
    then load_rathole_server py file
    else load_native_server py file

unfoldable pub load_client_config : Py → Fields → Result ConfigError ClientConfig
load_client_config py file =
    if looks_like_rathole_client file
    then load_rathole_client py file
    else load_native_client py file
