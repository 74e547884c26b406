-- ===== src/Server/Allocate.antt =====
-- `_bind_pool_service_locked` and `_register_pool_service`: a port of the pool for a client.
use py_frp.Base.{
  ℕ, Bool, true, false, Option, none, some, List, [], ◌∷◌, leb, contains, keep_if, is_some,
  if◌then◌else◌, map, ◌++◌,
}
use py_frp.Base.Int.{ℤ, pos}
use py_frp.Base.Texts.{Text, txt}
use py_frp.Base.Dict.{Dict, values}
use py_frp.Base.Dict
use py_frp.Base.Result.{Result, ok, err}
use py_frp.Value.{Value, null, int, to_text}
use py_frp.Server.State.{
  Server, Env, ClientSession, RegisteredService, Error, protocol, start_server,
}

-- `text or None`
unfoldable pub text_or_none : Text → Option Text
text_or_none [] = none
text_or_none (c ∷ cs) = some (c ∷ cs)

-- `_optional_string(value)`
unfoldable pub optional_string : (Value → Text) → Value → Option Text
unfolding to_text text_or_none
optional_string repr null = none
optional_string repr v = text_or_none (to_text repr v)

-- `_priority(raw.get("priority", 0))`
unfoldable pub priority_of : Option Value → Result Error ℤ
priority_of none = ok (pos 0)
priority_of (some (int n)) = ok n
priority_of (some _) = err (protocol "priority must be an integer")

-- `_pool_service_name(client)`
unfoldable pub pool_service_name : ClientSession → Text
pool_service_name c = txt "pool-" ++ c.id

-- `sorted(…)`
unfoldable pub insert : ℕ → List ℕ → List ℕ
insert p [] = p ∷ []
insert p (q ∷ qs) = if leb p q then p ∷ q ∷ qs else q ∷ insert p qs

unfoldable pub sorted : List ℕ → List ℕ
unfolding insert
sorted [] = []
sorted (p ∷ ps) = insert p (sorted ps)

-- The arguments of `_bind_pool_service_locked`.
pub record PoolRequest : Type 0 where
  pub client : ClientSession
  pub name : Text
  pub token : Text
  pub priority : ℤ

unfoldable pub pool_service : PoolRequest → Text → ℕ → ℕ → RegisteredService
pool_service r host port listener = record {
  name = r.name;
  bind_host = host;
  bind_port = port;
  token = some r.token;
  client = r.client;
  listener = listener;
  configured = true;
  pool_token = some r.token;
  priority = r.priority;
}

unfoldable pub is_pool_service : RegisteredService → Bool
is_pool_service svc = is_some svc.pool_token

unfoldable pub used_ports : Server → List ℕ
unfolding values is_pool_service
used_ports s =
    map (λ (svc : RegisteredService). svc.bind_port) (keep_if is_pool_service (values s.services))

-- After one `start_server`: the service is stored, or the loop goes on to `later`.
unfoldable pub store_or :
    PoolRequest
    → Text
    → ℕ
    → (Server → Option RegisteredService × Server)
    → Option ℕ × Server
    → Option RegisteredService × Server
unfolding pool_service Dict.set
store_or r host port later (none, s) = later s
store_or r host port later (some l, s) = (
  some (pool_service r host port l),
  record s { services = Dict.set r.name (pool_service r host port l) s.services },
)

-- The loop over the ports in ascending order.
unfoldable pub bind_ports :
    Env → PoolRequest → Text → List ℕ → List ℕ → Server → Option RegisteredService × Server
unfolding store_or start_server
bind_ports env r host used [] s = (none, s)
bind_ports env r host used (p ∷ ps) s = elim (contains used p) [
  | true ↦ bind_ports env r host used ps s
  | false ↦ store_or r host p (bind_ports env r host used ps) (start_server env host p s)
]

unfoldable pub bind_pool_service : Env → PoolRequest → Server → Option RegisteredService × Server
unfolding bind_ports sorted used_ports
bind_pool_service env r s =
    bind_ports env r s.config.pool_bind_host (used_ports s) (sorted s.config.port_pool) s
