-- ===== src/Tests/Starts.antt =====
-- Starts from the command line: src/py_frp/cli.py, with the server's runs.
use py_frp.Base.{
  ℕ, ◌+◌, ◌≡◌, ◌≢◌, refl, Bool, true, false, Option, none, some, List, [], ◌∷◌, ◌++◌, arith, ap,
  ◌⊎◌,
}
use py_frp.Base.Int.{pos}
use py_frp.Base.Texts.{Text, txt, upper, text_in}
use py_frp.Base.Result.{ok}
use py_frp.Value.{finite, dict}
use py_frp.Config.Types.{ServerConfig, ClientConfig, ProxyConfig}
use py_frp.Config.Files.{wrong_root}
use py_frp.Config.Ranges.{IsClientConfig}
use py_frp.Server.State.{Server}
use py_frp.Server.Register.{is_pool_registration}
use py_frp.Server.Allocate.{pool_service_name}
use py_frp.Server.Preempt.{allocate, register_pool_service}
use py_frp.Client.Session.{service_payload}
use py_frp.Command.Options.{
  Outside, ServerArgs, ClientArgs, load_server_command_config, load_client_command_config,
  configless_server, configless_client,
}
use py_frp.Command.Limits.{
  FromFile, FromArguments, load_server_command_config-IsServerConfig,
  load_client_command_config-IsClientConfig,
}
use py_frp.Link.Configless.{configless_registration}
use py_frp.Tests.Clients.{calm, alice}

-- Every character that is drawn is an "a", and every digest is the same.
abbrev pub drawn : Outside
drawn = record {
  py = record { repr = λ v. []; parse_float = λ t. none };
  file = λ path. wrong_root;
  preserved_token = none;
  choice = λ n. b'a';
  sha256 = λ t. txt "0123456789abcdef0123";
}

abbrev pub server_args : ServerArgs
server_args = record {
  config = none;
  bind_host = txt "0.0.0.0";
  bind_port = 7000;
  port_pool = txt "6000" ∷ [];
  pool_bind_host = none;
  token_length = pos 2;
}

abbrev pub started_server : ServerConfig
started_server = record {
  bind_host = txt "0.0.0.0";
  bind_port = 7000;
  token = none;
  services = [];
  allow_dynamic = false;
  source_flavor = txt "token-pool";
  open_timeout = finite (pos 15) 0;
  port_pool = 6000 ∷ [];
  pool_tokens = txt "aa" ∷ [];
  pool_bind_host = txt "0.0.0.0";
}

pub starts_server : configless_server drawn server_args ≡ ok started_server
unfolding configless_server py_frp.Base.Texts.split py_frp.Base.Texts.strip
    py_frp.Base.Texts.split_once py_frp.PortPool.port py_frp.Base.Texts.int_of_text
starts_server = refl

loads_server : load_server_command_config drawn server_args ≡ ok started_server
unfolding load_server_command_config py_frp.Base.Texts.split py_frp.PortPool.port
loads_server = refl

load_server_command_config-IsServerConfig_example :
    FromFile server_args started_server ⊎ FromArguments server_args started_server
load_server_command_config-IsServerConfig_example =
    load_server_command_config-IsServerConfig drawn server_args started_server loads_server

abbrev pub fresh_server : Server
fresh_server = record {
  config = started_server;
  services = [];
  pending = [];
  clients = [];
  futures = [];
  attempts = 0;
  listening = [];
  trace = [];
}

abbrev client_args : ClientArgs
client_args = record {
  config = none;
  server = some (txt "[::1]:7000");
  token = some (txt "aa");
  force = false;
  priority = pos 0;
  server_fingerprint = none;
  local = txt ":22";
  reconnect_delay = finite (pos 3) 0;
  connect_timeout = finite (pos 10) 0;
  heartbeat_interval = finite (pos 30) 0;
}

abbrev token_proxy : ProxyConfig
token_proxy = record {
  name = txt "token-0123456789abcdef";
  local_host = txt "127.0.0.1";
  local_port = 22;
  remote_host = none;
  remote_port = none;
  token = some (txt "aa");
}

abbrev started_client : ClientConfig
started_client = record {
  server_host = txt "::1";
  server_port = 7000;
  proxies = token_proxy ∷ [];
  token = some (txt "aa");
  source_flavor = txt "token-pool";
  reconnect_delay = finite (pos 3) 0;
  connect_timeout = finite (pos 10) 0;
  heartbeat_interval = finite (pos 30) 0;
  server_fingerprint = none;
}

starts_client :
    configless_client drawn client_args (txt "[::1]:7000") (txt "aa") ≡ ok started_client
unfolding configless_client
starts_client = refl

loads_client : load_client_command_config drawn client_args ≡ ok started_client
unfolding load_client_command_config
loads_client = refl

load_client_command_config-IsClientConfig_example : IsClientConfig started_client
load_client_command_config-IsClientConfig_example =
    load_client_command_config-IsClientConfig drawn client_args started_client loads_client

token_known : text_in (txt "aa") started_server.pool_tokens ≡ true
unfolding text_in py_frp.Base.Texts.text_eq
token_known = refl

configless_registration_example :
    (proxy : ProxyConfig) × (started_client.proxies ≡ proxy ∷ [])
    × (is_pool_registration started_server (dict (service_payload started_client (pos 1) proxy))
        ≡ true)
    × (register_pool_service calm alice
          (dict (service_payload started_client (pos 1) proxy))
          false
          fresh_server
        ≡ allocate calm
            (record {
              client = alice;
              name = pool_service_name alice;
              token = txt "aa";
              priority = pos 1;
            })
            false
            fresh_server)
configless_registration_example =
    configless_registration drawn drawn server_args client_args (txt "[::1]:7000") (txt "aa")
      started_client calm alice (pos 1) false fresh_server starts_server starts_client token_known
