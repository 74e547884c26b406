-- ===== src/Tests/Links.antt =====
-- A client against a server: src/py_frp/client.py and src/py_frp/server.py.
use py_frp.Base.{
  ℕ, ◌≡◌, ◌≢◌, refl, Bool, true, false, Option, none, some, List, [], ◌∷◌, arith, All, length,
  is_empty, not, ◌&&◌, is_some, if◌then◌else◌,
}
use py_frp.Base.Int.{pos}
use py_frp.Base.Texts.{Text, txt, upper, strip}
use py_frp.Base.Dict
use py_frp.Base.Dict.{or_else}
use py_frp.Base.Result.{ok}
use py_frp.Value.{Fields, finite, str, null, of_fields, dict}
use py_frp.Config.Types.{ServerConfig, ClientConfig, ProxyConfig}
use py_frp.Server.State.{
  Server, Env, ClientSession, RegisteredService, PendingTunnel, open_future, paired,
}
use py_frp.Server.Register.{configured, text_or, require_token, service_from_registration}
use py_frp.Server.Tunnels.{open_message, handle_tunnel}
use py_frp.Server.Control.{registered_message}
use py_frp.Client.State.{Client, Python, presents, replied, message, Attempt}
use py_frp.Client.Session.{run_once, service_payload, apply_aliases}
use py_frp.Client.Tunnels.{Dial, tunnel_message, open_tunnel}
use py_frp.Client.Reconnect.{run_client}
use py_frp.Client.Pinning.{Trusts, run_once-Trusts, run_client_trusted}
use py_frp.Client.Forcing.{MayForce, run_once-MayForce}
use py_frp.Link.Registration.{given, public_host, service_from_registration-payload}
use py_frp.Link.Aliases.{at_name, members, apply_aliases-registered}
use py_frp.Link.Handshake.{Wrote, tunnel_handshake}

abbrev pub ascii_python : Python
ascii_python = record {
  upper = upper;
  repr = λ v. [];
  parse_float = λ t. none;
  float_of = λ n. none;
}

abbrev web : ProxyConfig
web = record {
  name = txt "web";
  local_host = txt "127.0.0.1";
  local_port = 8080;
  remote_host = none;
  remote_port = some 6000;
  token = none;
}

abbrev pub home : ClientConfig
home = record {
  server_host = txt "example.org";
  server_port = 7000;
  proxies = web ∷ [];
  token = some (txt "secret");
  source_flavor = txt "py-frp";
  reconnect_delay = finite (pos 3) 0;
  connect_timeout = finite (pos 10) 0;
  heartbeat_interval = finite (pos 30) 0;
  server_fingerprint = none;
}

abbrev pub carol : Client
carol = record {
  config = home;
  base_proxies = (txt "web", web) ∷ [];
  proxies = (txt "web", web) ∷ [];
  force_connect = false;
  priority = pos 0;
  trusted = none;
  fingerprint_ready = none;
}

abbrev of_type : Text → Fields
of_type t = of_fields ((txt "type", str t) ∷ [])

abbrev restarting : Fields
restarting =
    of_fields
      ((txt "type", str (txt "server_restarting")) ∷ (txt "retry_after", str (txt "soon")) ∷ [])

-- The server is full, the user agrees, and the server takes the client.
abbrev agreed : Attempt
agreed = record {
  peer = presents (txt "AB");
  trust_answer = replied true;
  force_answer = replied true;
  writes = λ n. true;
  incoming =
      message (of_type (txt "hello"))
      ∷ message (of_type (txt "force_required"))
      ∷ message (
          of_fields (
            (txt "type", str (txt "registered"))
            ∷ (txt "status", str (txt "ok"))
            ∷ (txt "services", null)
            ∷ []))
      ∷ message restarting
      ∷ [];
}

agreed-writes : length (run_once ascii_python agreed carol).1.written ≡ 3
unfolding run_once
agreed-writes = refl

writes_some : (run_once ascii_python agreed carol).1.written ≢ []
writes_some h = cc (agreed-writes)

run_once-Trusts_example :
    Trusts ascii_python
      (presents (txt "AB"))
      (replied true)
      carol
      (run_once ascii_python agreed carol).1.client
run_once-Trusts_example = run_once-Trusts ascii_python agreed carol writes_some

abbrev trusting : Client
trusting = record carol { trusted = some (txt "AB") }

run_client_trusted_example :
    (run_client ascii_python (agreed ∷ agreed ∷ []) trusting).client.trusted ≡ some (txt "AB")
run_client_trusted_example =
    run_client_trusted ascii_python (agreed ∷ agreed ∷ []) trusting (txt "AB") refl

run_once-MayForce_example :
    All (MayForce agreed carol) (run_once ascii_python agreed carol).1.written
run_once-MayForce_example = run_once-MayForce ascii_python agreed carol

abbrev quiet : Env
quiet = record {
  opens = λ n host port. true;
  delivers = λ n. true;
  sockname = λ n host port. (host, port);
  repr = λ v. [];
}

abbrev dynamic_config : ServerConfig
dynamic_config = record {
  bind_host = txt "0.0.0.0";
  bind_port = 7000;
  token = some (txt "secret");
  services = [];
  allow_dynamic = true;
  source_flavor = txt "py-frp";
  open_timeout = finite (pos 15) 0;
  port_pool = [];
  pool_tokens = [];
  pool_bind_host = txt "0.0.0.0";
}

web-clean : strip (txt "web") ≡ txt "web"
unfolding strip
web-clean = refl

none_configured : configured dynamic_config (txt "web") ≡ none
unfolding configured
none_configured = refl

service_from_registration-payload_example :
    service_from_registration quiet dynamic_config (dict (service_payload home (pos 0) web))
    ≡ require_token (some (txt "secret")) (given (text_or none (some (txt "secret")))) (
        ok (record {
          name = txt "web";
          bind_host = public_host none;
          bind_port = 6000;
          token = text_or (given (text_or none (some (txt "secret")))) (some (txt "secret"));
        }))
service_from_registration-payload_example =
    service_from_registration-payload home (pos 0) web quiet dynamic_config 6000 refl (omega arith)
      web-clean refl none_configured refl

abbrev dave : ClientSession
dave = record { id = txt "dave"; created_at = 1 }

abbrev web_service : RegisteredService
web_service = record {
  name = txt "site";
  bind_host = txt "0.0.0.0";
  bind_port = 6000;
  token = some (txt "secret");
  client = dave;
  listener = 0;
  configured = false;
  pool_token = none;
  priority = pos 0;
}

apply_aliases-registered_example :
    Dict.get
      (txt "site")
      (apply_aliases (members (registered_message quiet dave (web_service ∷ []))) carol).proxies
    ≡ or_else
        (at_name (txt "site") (web_service ∷ []) (web ∷ []))
        (Dict.get (txt "site") carol.base_proxies)
apply_aliases-registered_example =
    apply_aliases-registered quiet dave (web_service ∷ []) carol refl ((λ h. cc), tt) (txt "site")

abbrev waiting_public : PendingTunnel
waiting_public = record {
  id = txt "t";
  service_name = txt "web";
  token = some (txt "secret");
  client = dave;
}

abbrev serving : Server
serving = record {
  config = dynamic_config;
  services = [];
  pending = (txt "t", waiting_public) ∷ [];
  clients = (txt "dave", dave) ∷ [];
  futures = (txt "t", open_future) ∷ [];
  attempts = 1;
  listening = 0 ∷ [];
  trace = [];
}

abbrev dialled_home : Dial
dialled_home = record {
  local_error = none;
  peer = presents (txt "AB");
  trust_answer = replied true;
  writes = true;
  time = str (txt "now");
}

abbrev tunnel_answer : Fields
tunnel_answer = tunnel_message carol web (txt "t") (txt "web") dialled_home

tunnel_answer-Wrote :
    Wrote tunnel_answer
      (open_tunnel ascii_python (members (open_message (txt "t") (txt "web"))) dialled_home carol).0
unfolding open_tunnel open_message
tunnel_answer-Wrote = refl

tunnel_handshake_example :
    handle_tunnel quiet tunnel_answer 9 serving
    ≡ ok (record serving { futures = Dict.set (txt "t") (paired 9) serving.futures })
unfolding Dict.get py_frp.Base.Texts.text_eq py_frp.Server.Register.token_allows text_or
tunnel_handshake_example =
    tunnel_handshake quiet ascii_python waiting_public dialled_home carol web 9 serving
      tunnel_answer (λ h. cc) (λ h. cc) refl refl refl refl tunnel_answer-Wrote
