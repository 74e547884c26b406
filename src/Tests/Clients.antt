-- ===== src/Tests/Clients.antt =====
-- The server with two clients: src/py_frp/server.py.
use py_frp.Base.{
  ℕ, ◌≡◌, ◌≢◌, ◌↔◌, refl, Bool, true, false, Option, none, some, List, [], ◌∷◌, arith,
}
use py_frp.Base.Int.{ℤ, pos}
use py_frp.Base.Texts.{Text, txt}
use py_frp.Base.Dict
use py_frp.Base.Result.{ok}
use py_frp.Value.{Value, Fields, finite, str, bool, field, end, obj, list, nil, cons}
use py_frp.Config.Types.{ServerConfig}
use py_frp.Server.State.{
  Server, Env, ClientSession, RegisteredService, PendingTunnel, open_future, paired, same_client,
  services_of, pending_of,
}
use py_frp.Server.Preempt.{choose_victim}
use py_frp.Server.Allocate.{PoolRequest, used_ports, bind_pool_service}
use py_frp.Server.LowestPort.{Lowest, bind_pool_service-Lowest}
use py_frp.Server.Sessions.{remove_client, register_client}
use py_frp.Server.Tunnels.{pair_tunnel, finish_public}
use py_frp.Server.Control.{handle_control}
use py_frp.Server.Run.{Action, registers, init, run}
use py_frp.Server.PortsUnique.{PortsUnique, run-PortsUnique}
use py_frp.Server.Victim.{Choice, choose_victim-Choice}
use py_frp.Server.Cleanup.{HasTables, remove_client_lem, handle_control_leaves}
use py_frp.Server.Pairing.{Waits, pair_tunnel-ok, pair_tunnel_once, finish_public_lem}

abbrev pub pool_config : ServerConfig
pool_config = record {
  bind_host = txt "0.0.0.0";
  bind_port = 7000;
  token = none;
  services = [];
  allow_dynamic = true;
  source_flavor = txt "cli";
  open_timeout = finite (pos 15) 0;
  port_pool = 6001 ∷ 6000 ∷ [];
  pool_tokens = txt "secret" ∷ [];
  pool_bind_host = txt "0.0.0.0";
}

-- Every call succeeds, and a value that is no text prints as an empty one.
abbrev pub calm : Env
calm = record {
  opens = λ n host port. true;
  delivers = λ n. true;
  sockname = λ n host port. (host, port);
  repr = λ v. [];
}

abbrev pub alice : ClientSession
alice = record { id = txt "alice"; created_at = 1 }

abbrev bob : ClientSession
bob = record { id = txt "bob"; created_at = 2 }

abbrev pool_request : Value
pool_request = obj ((txt "pool", bool true) ∷ (txt "token", str (txt "secret")) ∷ [])

abbrev pub two_registrations : List Action
two_registrations = registers alice false pool_request ∷ registers bob false pool_request ∷ []

run-PortsUnique_example :
    PortsUnique pool_config (run calm two_registrations (init pool_config)).services
run-PortsUnique_example = run-PortsUnique calm pool_config two_registrations

abbrev service_of : ClientSession → ℕ → ℤ → RegisteredService
service_of c port priority = record {
  name = c.id;
  bind_host = txt "0.0.0.0";
  bind_port = port;
  token = some (txt "secret");
  client = c;
  listener = port;
  configured = true;
  pool_token = some (txt "secret");
  priority = priority;
}

choose_victim-Choice_example :
    Choice true (pos 2) (service_of alice 6000 (pos 5) ∷ service_of bob 6001 (pos 1) ∷ []) (
      choose_victim true (pos 2) (service_of alice 6000 (pos 5) ∷ service_of bob 6001 (pos 1) ∷ []))
choose_victim-Choice_example =
    choose_victim-Choice true (pos 2)
      (service_of alice 6000 (pos 5) ∷ service_of bob 6001 (pos 1) ∷ [])

abbrev registering : Fields
registering =
    field (txt "type") (str (txt "register"))
      (field (txt "services") (list (cons pool_request nil)) end)

handle_control_leaves_example :
    services_of bob
      (handle_control calm bob registering [] (run calm two_registrations (init pool_config)))
    ≡ []
handle_control_leaves_example =
    handle_control_leaves calm pool_config two_registrations bob registering []

abbrev waiting_tunnel : PendingTunnel
waiting_tunnel = record {
  id = txt "t";
  service_name = txt "alice";
  token = some (txt "secret");
  client = alice;
}

-- A service of each client, and a public connection that waits for a tunnel.
abbrev busy : Server
busy = record {
  config = pool_config;
  services =
      (txt "alice", service_of alice 6000 (pos 0)) ∷ (txt "bob", service_of bob 6001 (pos 0)) ∷ [];
  pending = (txt "t", waiting_tunnel) ∷ [];
  clients = (txt "alice", alice) ∷ (txt "bob", bob) ∷ [];
  futures = (txt "t", open_future) ∷ [];
  attempts = 2;
  listening = 6000 ∷ 6001 ∷ [];
  trace = [];
}

busy-HasTables : HasTables busy
unfolding Dict.get py_frp.Base.Texts.text_eq
busy-HasTables = ((refl, refl, (refl, refl, tt)), (refl, refl, tt))

remove_client_lem_example :
    (services_of bob (remove_client bob busy) ≡ [])
    × (pending_of bob (remove_client bob busy) ≡ [])
    × ((k : Text) (svc : RegisteredService)
        → Dict.get k busy.services ≡ some svc
        → same_client svc.client bob ≡ false
        → Dict.get k (remove_client bob busy).services ≡ some svc)
    × ((k : Text) (p : PendingTunnel)
        → Dict.get k busy.pending ≡ some p
        → same_client p.client bob ≡ false
        → Dict.get k (remove_client bob busy).pending ≡ some p)
remove_client_lem_example = remove_client_lem bob busy busy-HasTables

abbrev after_pairing : Server
after_pairing = record busy { futures = Dict.set (txt "t") (paired 9) busy.futures }

pair_tunnel-ok_example :
    (pair_tunnel (txt "t") (txt "alice") (some (txt "secret")) 9 busy ≡ ok after_pairing) ↔ (
      Waits (txt "t") (txt "alice") (some (txt "secret")) busy
      × (after_pairing ≡ record busy { futures = Dict.set (txt "t") (paired 9) busy.futures }))
pair_tunnel-ok_example =
    pair_tunnel-ok (txt "t") (txt "alice") (some (txt "secret")) 9 busy after_pairing

pairs : pair_tunnel (txt "t") (txt "alice") (some (txt "secret")) 9 busy ≡ ok after_pairing
unfolding pair_tunnel
pairs = refl

pair_tunnel_once_example :
    (txt "t" ≡ txt "t"
      → (conn : ℕ) (u : Server) → pair_tunnel (txt "t") (txt "bob") none conn after_pairing ≢ ok u)
    × (txt "t" ≢ txt "t"
        → Waits (txt "t") (txt "bob") none after_pairing ↔ Waits (txt "t") (txt "bob") none busy)
pair_tunnel_once_example =
    pair_tunnel_once (txt "t") (txt "alice") (some (txt "secret")) 9 busy after_pairing pairs
      (txt "t") (txt "bob") none

finish_public_lem_example :
    pair_tunnel (txt "t") (txt "alice") (some (txt "secret")) 9 (finish_public waiting_tunnel busy)
    ≢ ok after_pairing
finish_public_lem_example =
    finish_public_lem waiting_tunnel busy (txt "alice") (some (txt "secret")) 9 after_pairing

abbrev third_request : PoolRequest
third_request = record {
  client = alice;
  name = txt "pool-alice";
  token = txt "secret";
  priority = pos 0;
}

bind_pool_service-Lowest_example :
    Lowest third_request
      (txt "0.0.0.0")
      (used_ports busy)
      (6001 ∷ 6000 ∷ [])
      busy
      (bind_pool_service calm third_request busy).0
bind_pool_service-Lowest_example =
    bind_pool_service-Lowest calm (λ n host port. refl) third_request busy

-- Two pool registrations in one request take two listeners under one name. When the client is removed,
-- the first of them still listens.
abbrev bob_twice : Server
bob_twice =
    (register_client calm bob (list (cons pool_request (cons pool_request nil))) false
      (init pool_config)).1

bob_twice-listening : (remove_client bob bob_twice).listening ≡ 0 ∷ []
unfolding register_client remove_client init
bob_twice-listening = refl
