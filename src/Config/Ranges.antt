-- ===== src/Config/Ranges.antt =====
-- What a loaded configuration keeps, whatever the file holds.
use py_frp.Base.{ℕ, ◌≤◌, ◌≡◌, ◌≢◌, Bool, Option, some, List, [], ◌∷◌, arith, All, if◌then◌else◌}
use py_frp.Base.Int.{ℤ, pos, negsuc}
use py_frp.Base.Texts.{Text}
use py_frp.Base.Dict.{Dict}
use py_frp.Base.Result.{Result, ok, ◌>>=◌, >>=-eq-ok}
use py_frp.Value.{Value, Fields}
use py_frp.Config.Types.{ServerServiceConfig, ServerConfig, ProxyConfig, ClientConfig}
use py_frp.Config.Fields.{ConfigError, Py, port, service_name}
use py_frp.Config.Native.{
  native_server_service, server_service, each_service, load_native_server, native_proxy, tcp_proxy,
  each_proxy, some_proxies, load_native_client,
}
use py_frp.Config.Rathole.{
  rathole_service, load_rathole_server, rathole_proxy, load_rathole_client, load_server_config,
  load_client_config,
}

abbrev pub lowest : Bool → ℕ
lowest allow_zero = if allow_zero then 0 else 1

-- A checked port.
pub port-range :
    (allow_zero : Bool) (n : ℤ) (p : ℕ)
    → port allow_zero n ≡ ok p
    → (lowest allow_zero ≤ p) × (p ≤ 65535)
unfolding port
port-range allow_zero (pos n) p e = ground arith
port-range allow_zero (negsuc n) p e = cc

pub service_name-nonempty :
    (py : Py) (v : Value) (name : Text) → service_name py v ≡ ok name → name ≢ []
unfolding service_name
service_name-nonempty py v name e h = ground arith

abbrev pub IsService : ServerServiceConfig → Type 0
IsService svc = (svc.name ≢ []) × (svc.bind_port ≤ 65535)

abbrev pub IsServerConfig : ServerConfig → Type 0
IsServerConfig c = (c.bind_port ≤ 65535) × (c.port_pool ≡ []) × All IsService c.services

server_service-IsService :
    (py : Py) (t : Option Text) (name : Text) (service : Fields) (a p : Value)
    (svc : ServerServiceConfig)
    → server_service py t name service a p ≡ ok svc
    → IsService svc
unfolding server_service
server_service-IsService py t name service a p svc e =
    grind (arith, service_name-nonempty, port-range)

native_server_service-IsService :
    (py : Py) (t : Option Text) (name : Text) (raw : Value) (svc : ServerServiceConfig)
    → native_server_service py t name raw ≡ ok svc
    → IsService svc
unfolding native_server_service
native_server_service-IsService py t name raw svc e = grind (arith, server_service-IsService)

rathole_service-IsService :
    (py : Py) (t : Option Text) (name : Text) (raw : Value) (svc : ServerServiceConfig)
    → rathole_service py t name raw ≡ ok svc
    → IsService svc
unfolding rathole_service
rathole_service-IsService py t name raw svc e = grind (arith, service_name-nonempty, port-range)

module _ {A : Type 0} (P : A → Type 0) (read : Text → Value → Result ConfigError A) where
  each_service-All :
      ((name : Text) (raw : Value) (a : A) → read name raw ≡ ok a → P a)
      → (table : Dict Value) (as' : List A) → each_service read table ≡ ok as'
      → All P as'
  unfolding each_service
  each_service-All h [] as' e = let q : [] ≡ as' = cc in rw (← q) tt
  each_service-All h ((name, raw) ∷ rest) as' e =
      let (a, p, e') =
        >>=-eq-ok (read name raw) (λ (a : A). each_service read rest >>= λ more. ok (a ∷ more)) e in
      let (more, q, r) = >>=-eq-ok (each_service read rest) (λ (more : List A). ok (a ∷ more)) e' in
      let s : a ∷ more ≡ as' = cc in rw (← s) (h name raw a p, each_service-All h rest more q)

native_services-All :
    (py : Py) (t : Option Text) (table : Dict Value) (svcs : List ServerServiceConfig)
    → each_service (native_server_service py t) table ≡ ok svcs
    → All IsService svcs
native_services-All py t = each_service-All IsService _ (native_server_service-IsService py t)

rathole_services-All :
    (py : Py) (t : Option Text) (table : Dict Value) (svcs : List ServerServiceConfig)
    → each_service (rathole_service py t) table ≡ ok svcs
    → All IsService svcs
rathole_services-All py t = each_service-All IsService _ (rathole_service-IsService py t)

load_native_server-IsServerConfig :
    (py : Py) (file : Fields) (c : ServerConfig)
    → load_native_server py file ≡ ok c
    → IsServerConfig c
unfolding load_native_server
load_native_server-IsServerConfig py file c e = grind (arith, native_services-All, port-range)

load_rathole_server-IsServerConfig :
    (py : Py) (file : Fields) (c : ServerConfig)
    → load_rathole_server py file ≡ ok c
    → IsServerConfig c
unfolding load_rathole_server
load_rathole_server-IsServerConfig py file c e = grind (arith, rathole_services-All, port-range)

-- A server configuration that loads has no pool and only ports up to 65535, and every service has a
-- name.
pub load_server_config-IsServerConfig :
    (py : Py) (file : Fields) (c : ServerConfig)
    → load_server_config py file ≡ ok c
    → IsServerConfig c
unfolding load_server_config
load_server_config-IsServerConfig py file c e = ground (
  arith,
  load_native_server-IsServerConfig py file c,
  load_rathole_server-IsServerConfig py file c,
)

abbrev pub IsProxy : ProxyConfig → Type 0
IsProxy p =
    (p.name ≢ [])
    × (1 ≤ p.local_port)
    × (p.local_port ≤ 65535)
    × ((n : ℕ) → p.remote_port ≡ some n → n ≤ 65535)

abbrev pub IsClientConfig : ClientConfig → Type 0
IsClientConfig c =
    (1 ≤ c.server_port) × (c.server_port ≤ 65535) × (c.proxies ≢ []) × All IsProxy c.proxies

tcp_proxy-IsProxy :
    (py : Py) (t : Option Text) (proxy : Fields) (p : ProxyConfig)
    → tcp_proxy py t proxy ≡ ok p
    → IsProxy p
unfolding tcp_proxy
tcp_proxy-IsProxy py t proxy p e = grind (arith, service_name-nonempty, port-range)

native_proxy-IsProxy :
    (py : Py) (t : Option Text) (row : Value) (p : ProxyConfig)
    → native_proxy py t row ≡ ok p
    → IsProxy p
unfolding native_proxy
native_proxy-IsProxy py t row p e = grind (arith, tcp_proxy-IsProxy)

rathole_proxy-IsProxy :
    (py : Py) (t : Option Text) (name : Text) (raw : Value) (p : ProxyConfig)
    → rathole_proxy py t name raw ≡ ok p
    → IsProxy p
unfolding rathole_proxy
rathole_proxy-IsProxy py t name raw p e = grind (arith, service_name-nonempty, port-range)

rathole_proxies-All :
    (py : Py) (t : Option Text) (table : Dict Value) (ps : List ProxyConfig)
    → each_service (rathole_proxy py t) table ≡ ok ps
    → All IsProxy ps
rathole_proxies-All py t = each_service-All IsProxy _ (rathole_proxy-IsProxy py t)

each_proxy-All :
    (py : Py) (t : Option Text) (rows : List Value) (ps : List ProxyConfig)
    → each_proxy py t rows ≡ ok ps
    → All IsProxy ps
unfolding each_proxy
each_proxy-All py t [] ps e = let q : [] ≡ ps = cc in rw (← q) tt
each_proxy-All py t (row ∷ rows) ps e =
    let (p, q, e') =
      >>=-eq-ok (native_proxy py t row)
        (λ (p : ProxyConfig). each_proxy py t rows >>= λ more. ok (p ∷ more)) e in
    let (more, r, e'') =
      >>=-eq-ok (each_proxy py t rows) (λ (more : List ProxyConfig). ok (p ∷ more)) e' in
    let s : p ∷ more ≡ ps = cc in
    rw (← s) (native_proxy-IsProxy py t row p q, each_proxy-All py t rows more r)

load_native_client-IsClientConfig :
    (py : Py) (file : Fields) (c : ClientConfig)
    → load_native_client py file ≡ ok c
    → IsClientConfig c
unfolding load_native_client some_proxies
load_native_client-IsClientConfig py file c e = grind (arith, each_proxy-All, port-range)

load_rathole_client-IsClientConfig :
    (py : Py) (file : Fields) (c : ClientConfig)
    → load_rathole_client py file ≡ ok c
    → IsClientConfig c
unfolding load_rathole_client
load_rathole_client-IsClientConfig py file c e = grind (arith, rathole_proxies-All, port-range)

-- A client configuration that loads has a server port and local ports from 1 to 65535, at least one
-- proxy, a name for each of them, and no public port above 65535.
pub load_client_config-IsClientConfig :
    (py : Py) (file : Fields) (c : ClientConfig)
    → load_client_config py file ≡ ok c
    → IsClientConfig c
unfolding load_client_config
load_client_config-IsClientConfig py file c e = ground (
  arith,
  load_native_client-IsClientConfig py file c,
  load_rathole_client-IsClientConfig py file c,
)
