-- ===== src/Config/Ini.antt =====
-- `_load_frp_ini_server` and `_load_frp_ini_client`. `configparser` is outside the program: a parsed file
-- is its sections in their order, each with the options it shows, those of `[DEFAULT]` among them,
-- under lower-case names.
use mathlib.Core.Option
use py_frp.Base.{
  ℕ, String, Bool, true, false, not, Option, none, some, List, [], ◌∷◌, is_empty, is_some,
  if◌then◌else◌,
}
use py_frp.Base.Int.{ℤ, pos}
use py_frp.Base.Texts.{Text, txt, text_eq, text_in, lower, split_once}
use py_frp.Base.Dict.{Dict}
use py_frp.Base.Dict
use py_frp.Base.Result.{Result, ok, err, ◌>>=◌}
use py_frp.Value.{str}
use py_frp.Config.Types.{ServerConfig, ProxyConfig, ClientConfig}
use py_frp.Config.Fields.{ConfigError, config, Py, int_or, port, nonblank, service_name, split_addr}
use py_frp.Config.Native.{whole}
use py_frp.Server.Register.{text_or}

abbrev pub Section : Type 0
Section = Dict Text

pub record Ini : Type 0 where
  pub defaults : Section
  pub sections : Dict Section

-- `section.get(key)`, which looks for the key in lower case.
unfoldable pub option : String → Section → Option Text
unfolding Dict.get lower
option k row = Dict.get (lower (txt k)) row

-- `section.get(key, default)`
unfoldable pub option_or : String → Text → Section → Text
unfolding option
option_or k d row = Option.get_or (option k row) d

-- `_empty_to_none(value)` of an option.
unfoldable pub nonblank_option : Option Text → Option Text
unfolding nonblank
nonblank_option none = none
nonblank_option (some t) = nonblank t

-- `_required_value(row, key, section)`
unfoldable pub required_value : String → Section → Result ConfigError Text
unfolding option
required_value k row = elim (option k row) [
  | none ↦ err (config "section is missing a value")
  | some t ↦ if is_empty t then err (config "section is missing a value") else ok t
]

-- Where an ini server listens: `bind_addr`, with a port or without, before `bind_host`.
unfoldable pub ini_bind_address : Option Text → Text → ℤ → Result ConfigError (Text × ℤ)
unfolding split_addr split_once
ini_bind_address none bind_host bind_port = ok (bind_host, bind_port)
ini_bind_address (some addr) bind_host bind_port =
    if is_empty addr
    then ok (bind_host, bind_port)
    else if is_some (split_once b':' addr)
    then split_addr (txt "0.0.0.0") addr
    else ok (addr, bind_port)

-- `parser["common"] if parser.has_section("common") else parser.defaults()`
unfoldable pub common_options : Ini → Section
unfolding Dict.get
common_options file = Option.get_or (Dict.get (txt "common") file.sections) file.defaults

unfoldable pub ini_token : Section → Option Text
unfolding nonblank_option text_or option
ini_token row = nonblank_option (text_or (option "token" row) (option "auth_token" row))

unfoldable pub ini_dynamic : Section → Bool
unfolding option_or text_in lower
ini_dynamic row = not (
    text_in (lower (option_or "allow_dynamic" (txt "true") row))
      (txt "0" ∷ txt "false" ∷ txt "no" ∷ []))

unfoldable pub ini_server_of : Section → Text → ℕ → ServerConfig
unfolding ini_dynamic ini_token
ini_server_of common host port_number = record {
  bind_host = host;
  bind_port = port_number;
  token = ini_token common;
  services = [];
  allow_dynamic = ini_dynamic common;
  source_flavor = txt "frp-ini";
  open_timeout = whole 15;
  port_pool = [];
  pool_tokens = [];
  pool_bind_host = txt "0.0.0.0";
}

unfoldable pub ini_server : Section → Result ConfigError ServerConfig
unfolding ini_server_of option_or ini_bind_address int_or port
ini_server common = do
  bind_port ← int_or (str (option_or "bind_port" (txt "7000") common)) (pos 7000)
  address ←
      ini_bind_address (option "bind_addr" common) (option_or "bind_host" (txt "0.0.0.0") common)
        bind_port
  checked_port ← port true address.1
  ok (ini_server_of common address.0 checked_port)

-- `_load_frp_ini_server(path)`
unfoldable pub load_ini_server : Ini → Result ConfigError ServerConfig
unfolding ini_server common_options
load_ini_server file = ini_server (common_options file)

unfoldable pub ini_local_fields : Section → Result ConfigError (Text × ℤ)
unfolding required_value int_or option_or
ini_local_fields row = do
  text ← required_value "local_port" row
  n ← int_or (str text) (pos 0)
  ok (option_or "local_ip" (option_or "local_host" (txt "127.0.0.1") row) row, n)

-- The local side of an ini proxy: `local_addr`, or `local_ip` before `local_host` with `local_port`.
unfoldable pub ini_local_address : Section → Option Text → Result ConfigError (Text × ℤ)
unfolding ini_local_fields split_addr
ini_local_address row none = ini_local_fields row
ini_local_address row (some addr) =
    if is_empty addr then ini_local_fields row else split_addr (txt "127.0.0.1") addr

-- `row.get("remote_host") or row.get("remote_ip") or "0.0.0.0"`
unfoldable pub ini_remote_host : Section → Option Text
unfolding text_or option
ini_remote_host row =
    text_or (option "remote_host" row) (text_or (option "remote_ip" row) (some (txt "0.0.0.0")))

unfoldable pub checked_proxy : Py → Text → Section → Text → ℤ → ℤ → Result ConfigError ProxyConfig
unfolding ini_remote_host service_name port nonblank_option
checked_proxy py section row local_host local_port remote_port = do
  checked_name ← service_name py (str section)
  checked_local ← port false local_port
  checked_remote ← port true remote_port
  ok (record {
    name = checked_name;
    local_host = local_host;
    local_port = checked_local;
    remote_host = ini_remote_host row;
    remote_port = some checked_remote;
    token = nonblank_option (option "token" row);
  })

unfoldable pub tcp_section : Py → Text → Section → Result ConfigError ProxyConfig
unfolding checked_proxy ini_local_address required_value int_or
tcp_section py section row = do
  local ← ini_local_address row (option "local_addr" row)
  text ← required_value "remote_port" row
  remote_port ← int_or (str text) (pos 0)
  checked_proxy py section row local.0 local.1 remote_port

unfoldable pub ini_proxy : Py → Text → Section → Result ConfigError ProxyConfig
unfolding tcp_section option_or lower text_eq
ini_proxy py section row =
    if text_eq (lower (option_or "type" (txt "tcp") row)) (txt "tcp")
    then tcp_section py section row
    else err (config "only tcp proxies are supported")

-- The loop over the sections of a client.
unfoldable pub ini_proxies : Py → Dict Section → Result ConfigError (List ProxyConfig)
unfolding ini_proxy
ini_proxies py [] = ok []
ini_proxies py ((section, row) ∷ rest) = elim (text_eq section (txt "common")) [
  | true ↦ ini_proxies py rest
  | false ↦ (do p ← ini_proxy py section row; more ← ini_proxies py rest; ok (p ∷ more))
]

unfoldable pub some_ini_proxies : List ProxyConfig → Result ConfigError (List ProxyConfig)
some_ini_proxies [] = err (config "frp ini client configuration must define at least one proxy")
some_ini_proxies (p ∷ ps) = ok (p ∷ ps)

unfoldable pub ini_client_of : Section → List ProxyConfig → ℕ → ClientConfig
unfolding option_or ini_token nonblank_option text_or option
ini_client_of common proxies server_port = record {
  server_host = option_or "server_addr" (txt "127.0.0.1") common;
  server_port = server_port;
  proxies = proxies;
  token = ini_token common;
  source_flavor = txt "frp-ini";
  reconnect_delay = whole 3;
  connect_timeout = whole 10;
  heartbeat_interval = whole 30;
  server_fingerprint =
      nonblank_option
        (text_or (option "server_fingerprint" common) (option "serverFingerprint" common));
}

unfoldable pub ini_client : Py → Dict Section → Section → Result ConfigError ClientConfig
unfolding ini_client_of ini_proxies some_ini_proxies option_or int_or port
ini_client py sections common = do
  server_port ← int_or (str (option_or "server_port" (txt "7000") common)) (pos 7000)
  all_proxies ← ini_proxies py sections
  proxies ← some_ini_proxies all_proxies
  checked_port ← port false server_port
  ok (ini_client_of common proxies checked_port)

-- `_load_frp_ini_client(path)`
unfoldable pub load_ini_client : Py → Ini → Result ConfigError ClientConfig
unfolding ini_client Dict.get
load_ini_client py file = elim (Dict.get (txt "common") file.sections) [
  | none ↦ err (config "frp ini client config requires a [common] section")
  | some common ↦ ini_client py file.sections common
]
