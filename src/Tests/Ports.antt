-- ===== src/Tests/Ports.antt =====
-- The pool's ports and the configurations: src/py_frp/pool.py and src/py_frp/config.py.
use py_frp.Base.{
  ℕ, ◌≡◌, ◌≢◌, ◌↔◌, refl, Bool, true, false, Option, none, some, List, [], ◌∷◌, ◌++◌, arith, All,
  Distinct, contains,
}
use py_frp.Base.Int.{pos}
use py_frp.Base.Texts.{Text, txt}
use py_frp.Base.Result.{ok}
use py_frp.Value.{Fields, finite, str, int, field, end, obj}
use py_frp.PortPool.{parse_port_pools}
use py_frp.PortPool.Ports.{InRange, all_parts, named, parse_port_pools-IsPool}
use py_frp.PortPool.Repetitions.{first_mentions}
use py_frp.PortPool.Mentions.{NamesAll, parse_port_pools-NamesAll}
use py_frp.Config.Types.{ServerConfig, ClientConfig}
use py_frp.Config.Fields.{Py}
use py_frp.Config.Rathole.{load_server_config, load_client_config}

abbrev two_values : List Text
two_values = txt "6001, 6000-6002" ∷ txt "7000" ∷ []

abbrev four_ports : List ℕ
four_ports = 6001 ∷ 6000 ∷ 6002 ∷ 7000 ∷ []

two_values-ports : parse_port_pools two_values ≡ ok four_ports
unfolding parse_port_pools py_frp.Base.Texts.split py_frp.Base.Texts.strip
    py_frp.Base.Texts.split_once py_frp.PortPool.port py_frp.Base.Texts.int_of_text
    py_frp.PortPool.range
two_values-ports = refl

parse_port_pools-NamesAll_example : (parse_port_pools two_values ≡ ok four_ports) ↔ (
    (four_ports ≢ [])
    × ((ns : List ℕ) × NamesAll (all_parts two_values) ns × (four_ports ≡ first_mentions ns)))
parse_port_pools-NamesAll_example = parse_port_pools-NamesAll two_values four_ports

parse_port_pools-IsPool_example :
    (four_ports ≢ [])
    × Distinct four_ports
    × All InRange four_ports
    × ((cs : List ℕ) × (named (all_parts two_values) ≡ ok cs)
        × ((n : ℕ) → contains four_ports n ≡ contains cs n))
parse_port_pools-IsPool_example = parse_port_pools-IsPool two_values four_ports two_values-ports

-- A `Py` for files in which no number is a text and only texts are printed.
abbrev plain : Py
plain = record { repr = λ _. []; parse_float = λ _. none }

abbrev server_file : Fields
server_file = field (txt "bind_port") (int (pos 7000)) (
    field (txt "services") (obj ((txt "ssh", obj ((txt "bind_port", int (pos 6022)) ∷ [])) ∷ []))
      end)

abbrev client_file : Fields
client_file = field (txt "server_addr") (str (txt "example.org")) (
    field (txt "proxies")
      (obj (
        (
          txt "ssh",
          obj ((txt "local_port", int (pos 22)) ∷ (txt "remote_port", int (pos 6022)) ∷ []),
        )
        ∷ []))
      end)

abbrev server_config : ServerConfig
server_config = record {
  bind_host = txt "0.0.0.0";
  bind_port = 7000;
  token = none;
  services =
      record { name = txt "ssh"; bind_host = txt "0.0.0.0"; bind_port = 6022; token = none } ∷ [];
  allow_dynamic = true;
  source_flavor = txt "frp";
  open_timeout = finite (pos 15) 0;
  port_pool = [];
  pool_tokens = [];
  pool_bind_host = txt "0.0.0.0";
}

abbrev client_config : ClientConfig
client_config = record {
  server_host = txt "example.org";
  server_port = 7000;
  proxies =
      record {
        name = txt "ssh";
        local_host = txt "127.0.0.1";
        local_port = 22;
        remote_host = some (txt "0.0.0.0");
        remote_port = some 6022;
        token = none;
      }
      ∷ [];
  token = none;
  source_flavor = txt "frp";
  reconnect_delay = finite (pos 3) 0;
  connect_timeout = finite (pos 10) 0;
  heartbeat_interval = finite (pos 30) 0;
  server_fingerprint = none;
}

server_file-loads : load_server_config plain server_file ≡ ok server_config
unfolding load_server_config py_frp.Config.Rathole.looks_like_rathole_server
    py_frp.Config.Fields.get_any py_frp.Config.Native.load_native_server
    py_frp.Config.Fields.mapping_or_empty py_frp.Config.Fields.int_or
    py_frp.Config.Fields.addr_from_fields py_frp.Config.Fields.positive_float
    py_frp.Config.Fields.as_mapping py_frp.Config.Fields.service_name py_frp.Config.Fields.port
    py_frp.Config.Fields.string_or py_frp.Config.Fields.string_or_none py_frp.Config.Fields.bool_or
    py_frp.Config.Fields.auth_token
server_file-loads = refl

client_file-loads : load_client_config plain client_file ≡ ok client_config
unfolding load_client_config py_frp.Config.Rathole.looks_like_rathole_client
    py_frp.Config.Fields.get_any py_frp.Config.Native.load_native_client py_frp.Config.Fields.int_or
    py_frp.Config.Fields.addr_from_fields py_frp.Config.Fields.positive_float
    py_frp.Config.Fields.as_mapping py_frp.Base.Texts.lower py_frp.Config.Fields.string_or
    py_frp.Config.Native.tcp_proxy py_frp.Config.Fields.service_name
    py_frp.Config.Native.local_address py_frp.Config.Native.remote_address py_frp.Config.Fields.port
    py_frp.Config.Fields.string_or_none py_frp.Config.Fields.auth_token
client_file-loads = refl
