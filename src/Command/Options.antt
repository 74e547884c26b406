-- ===== src/Command/Options.antt =====
-- `_load_server_command_config` and `_load_client_command_config`: the arguments, as `argparse` passes
-- them on, and the configurations that they give, from a file or without one. A control port below
-- zero, which no check stops before the socket does, is left out, and no `--port-pool` at all is the
-- empty list.
use py_frp.Base.{
  ℕ, zero, suc, Bool, true, false, Option, none, some, List, [], ◌∷◌, ◌++◌, is_empty, if◌then◌else◌,
  map, take,
}
use py_frp.Base.Int.{ℤ, pos, negsuc}
use py_frp.Base.Texts.{Text, txt}
use py_frp.Base.Result.{Result, ok, err, ◌>>=◌}
use py_frp.Value.{Float}
use py_frp.Config.Types.{ServerConfig, ClientConfig}
use py_frp.Config.Fields.{ConfigError, config, Py}
use py_frp.Config.Native.{whole}
use py_frp.Config.Files.{ConfigFile, load_server_file, load_client_file}
use py_frp.PortPool.{PoolError, parse_port_pools, range}
use py_frp.Server.Register.{text_or}
use py_frp.Command.Address.{split_host_port, positive_argument}

pub record ServerArgs : Type 0 where
  pub config : Option Text
  pub bind_host : Text
  pub bind_port : ℕ
  pub port_pool : List Text
  pub pool_bind_host : Option Text
  pub token_length : ℤ

pub record ClientArgs : Type 0 where
  pub config : Option Text
  pub server : Option Text
  pub token : Option Text
  pub force : Bool
  pub priority : ℤ
  pub server_fingerprint : Option Text
  pub local : Text
  pub reconnect_delay : Float
  pub connect_timeout : Float
  pub heartbeat_interval : Float

-- What is outside the program: Python's conversions, the file that a path leads to, the variable
-- `PY_FRP_RESTART_POOL_TOKEN`, the characters that `secrets.choice` gives, and
-- `hashlib.sha256(token).hexdigest()`.
pub record Outside : Type 0 where
  pub py : Py
  pub file : Text → ConfigFile
  pub preserved_token : Option Text
  pub choice : ℕ → ℕ
  pub sha256 : Text → Text

-- `generate_tokens(1, length=length)`
unfoldable pub generate_token : (ℕ → ℕ) → ℤ → Result ConfigError Text
unfolding range
generate_token choice (negsuc n) = err (config "token length must be greater than zero")
generate_token choice (pos zero) = err (config "token length must be greater than zero")
generate_token choice (pos (suc n)) = ok (map choice (range (suc n) 0))

-- `token_service_name(token)`
unfoldable pub token_service_name : (Text → Text) → Text → Text
token_service_name sha256 token = txt "token-" ++ take 16 (sha256 token)

-- `parse_port_pools(args.port_pool)`, whose errors are `ConfigError`s.
unfoldable pub pool_ports : Result PoolError (List ℕ) → Result ConfigError (List ℕ)
pool_ports (err e) = err (config "invalid port pool")
pool_ports (ok ports) = ok ports

-- The token of a configless server: the one that a restart preserved, or a new one.
unfoldable pub pool_token : Outside → ℤ → Option Text → Result ConfigError Text
unfolding generate_token
pool_token outside length none = generate_token outside.choice length
pool_token outside length (some []) = generate_token outside.choice length
pool_token outside length (some (c ∷ cs)) = ok (c ∷ cs)

unfoldable pub token_pool_config : ServerArgs → List ℕ → Text → ServerConfig
unfolding text_or
token_pool_config args ports token = record {
  bind_host = args.bind_host;
  bind_port = args.bind_port;
  token = none;
  services = [];
  allow_dynamic = false;
  source_flavor = txt "token-pool";
  open_timeout = whole 15;
  port_pool = ports;
  pool_tokens = token ∷ [];
  pool_bind_host = elim (text_or args.pool_bind_host none) [ none ↦ args.bind_host | some h ↦ h ];
}

unfoldable pub configless_server : Outside → ServerArgs → Result ConfigError ServerConfig
unfolding pool_ports parse_port_pools pool_token token_pool_config
configless_server outside args =
    if is_empty args.port_pool then err (config "server requires --config or --port-pool") else (do
      ports ← pool_ports (parse_port_pools args.port_pool)
      token ← pool_token outside args.token_length outside.preserved_token
      ok (token_pool_config args ports token))

-- `_load_server_command_config(args)`
unfoldable pub load_server_command_config : Outside → ServerArgs → Result ConfigError ServerConfig
unfolding text_or load_server_file configless_server
load_server_command_config outside args = elim (text_or args.config none) [
  | some path ↦ load_server_file outside.py (outside.file path)
  | none ↦ configless_server outside args
]

-- The client that has no file: one proxy for the token.
unfoldable pub token_client :
    Outside → ClientArgs → Text → Text × ℕ → Text × ℕ → Float → Float → Float → ClientConfig
unfolding token_service_name
token_client outside args token server local reconnect_delay connect_timeout heartbeat_interval =
    record {
      server_host = server.0;
      server_port = server.1;
      proxies =
          record {
            name = token_service_name outside.sha256 token;
            local_host = local.0;
            local_port = local.1;
            remote_host = none;
            remote_port = none;
            token = some token;
          }
          ∷ [];
      token = some token;
      source_flavor = txt "token-pool";
      reconnect_delay = reconnect_delay;
      connect_timeout = connect_timeout;
      heartbeat_interval = heartbeat_interval;
      server_fingerprint = args.server_fingerprint;
    }

unfoldable pub configless_client :
    Outside → ClientArgs → Text → Text → Result ConfigError ClientConfig
unfolding split_host_port positive_argument token_client
configless_client outside args server token = do
  server_address ← split_host_port (txt "127.0.0.1") server
  local_address ← split_host_port (txt "127.0.0.1") args.local
  reconnect_delay ← positive_argument args.reconnect_delay
  connect_timeout ← positive_argument args.connect_timeout
  heartbeat_interval ← positive_argument args.heartbeat_interval
  ok (
      token_client outside args token server_address local_address reconnect_delay connect_timeout
        heartbeat_interval)

unfoldable pub required_arguments :
    Outside → ClientArgs → Option Text → Option Text → Result ConfigError ClientConfig
unfolding configless_client
required_arguments outside args (some server) (some token) =
    configless_client outside args server token
required_arguments outside args server token =
    err (config "client requires --config or both --server and --token")

abbrev is_default_priority : ℤ → Bool
is_default_priority (pos zero) = true
is_default_priority n = false

unfoldable pub client_of_file : Outside → ClientArgs → Text → Result ConfigError ClientConfig
unfolding load_client_file
client_of_file outside args path =
    if args.force
    then err (config "--force is only available in configless client mode")
    else if is_default_priority args.priority
    then load_client_file outside.py (outside.file path)
    else err (config "--priority is only available in configless client mode")

-- `_load_client_command_config(args)`
unfoldable pub load_client_command_config : Outside → ClientArgs → Result ConfigError ClientConfig
unfolding client_of_file required_arguments text_or
load_client_command_config outside args = elim (text_or args.config none) [
  | some path ↦ client_of_file outside args path
  | none ↦ required_arguments outside args (text_or args.server none) (text_or args.token none)
]
