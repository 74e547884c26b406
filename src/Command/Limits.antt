-- ===== src/Command/Limits.antt =====
-- The limits that a configuration from the command line keeps.
use py_frp.Base.{
  ℕ, zero, suc, Distinct, ◌≡◌, ◌≢◌, refl, Option, none, some, List, [], ◌∷◌, arith, is_empty, All,
  Option-cases, ◌⊎◌, inl, inr, Bool-cases, false,
}
use py_frp.Base.Int.{ℤ, pos, negsuc}
use py_frp.Base.Texts.{Text, txt, strip, int_of_text}
use py_frp.Base.Result.{Result, ok, err, >>=-eq-ok}
use py_frp.Value.{Float}
use py_frp.Config.Types.{ServerConfig, ClientConfig}
use py_frp.Config.Ranges.{IsServerConfig, IsClientConfig}
use py_frp.Config.Files.{load_server_file-IsServerConfig, load_client_file-IsClientConfig}
use py_frp.PortPool.{PoolError, parse_port_pools}
use py_frp.PortPool.Ports.{InRange, parse_port_pools-IsPool}
use py_frp.Server.Register.{text_or}
use py_frp.Command.Address.{
  split_host_port, address_of, address_parts, argument_port, checked_port, positive_argument,
}
use py_frp.Command.Options.{
  ServerArgs, ClientArgs, Outside, generate_token, pool_ports, pool_token, token_pool_config,
  configless_server, load_server_command_config, configless_client, token_client,
  required_arguments, client_of_file, load_client_command_config, token_service_name,
}

checked_port-InRange : (o : Option ℤ) (p : ℕ) → checked_port o ≡ ok p → InRange p
unfolding checked_port
checked_port-InRange none p e = cc
checked_port-InRange (some (negsuc n)) p e = cc
checked_port-InRange (some (pos n)) p e = ground arith

address_of-InRange :
    (d : Text) (o : Option (Text × Text)) (a : Text × ℕ) → address_of d o ≡ ok a → InRange a.1
unfolding address_of argument_port
address_of-InRange d none a e = cc
address_of-InRange d (some (host, t)) a e =
    let (p, f, g) = >>=-eq-ok (argument_port t) _ e in
    let same : p ≡ a.1 = cc in rw (← same) (checked_port-InRange (int_of_text t) p f)

pub split_host_port-InRange :
    (d value : Text) (a : Text × ℕ) → split_host_port d value ≡ ok a → InRange a.1
unfolding split_host_port
split_host_port-InRange d value a e = address_of-InRange d (address_parts (strip value)) a e

generate_token-nonempty :
    (choice : ℕ → ℕ) (n : ℤ) (t : Text) → generate_token choice n ≡ ok t → t ≢ []
unfolding generate_token
generate_token-nonempty choice (negsuc n) t e = cc
generate_token-nonempty choice (pos zero) t e = cc
generate_token-nonempty choice (pos (suc n)) t e = cc

pool_token-nonempty :
    (outside : Outside) (n : ℤ) (o : Option Text) (t : Text)
    → pool_token outside n o ≡ ok t
    → t ≢ []
unfolding pool_token
pool_token-nonempty outside n none t e = generate_token-nonempty outside.choice n t e
pool_token-nonempty outside n (some []) t e = generate_token-nonempty outside.choice n t e
pool_token-nonempty outside n (some (c ∷ cs)) t e = cc

-- The server's own checks of a configless start.
abbrev pub IsPoolConfig : ServerConfig → Type 0
IsPoolConfig c =
    (c.port_pool ≢ [])
    × Distinct c.port_pool
    × All InRange c.port_pool
    × ((token : Text) × (c.pool_tokens ≡ token ∷ []) × (token ≢ []))

pool_ports-ok :
    (r : Result PoolError (List ℕ)) (ports : List ℕ) → pool_ports r ≡ ok ports → r ≡ ok ports
unfolding pool_ports
pool_ports-ok (err e) ports h = cc
pool_ports-ok (ok ps) ports h = cc

-- What a configless server that starts is made of.
abbrev pub IsMade : Outside → ServerArgs → ServerConfig → Type 0
IsMade outside args c =
    (ports : List ℕ) × (token : Text) × (parse_port_pools args.port_pool ≡ ok ports)
    × (token ≢ [])
    × (token_pool_config args ports token ≡ c)

pub configless_server-IsMade :
    (outside : Outside) (args : ServerArgs) (c : ServerConfig)
    → configless_server outside args ≡ ok c
    → IsMade outside args c
unfolding configless_server
configless_server-IsMade outside args c e = elim (Bool-cases (is_empty args.port_pool)) [
  | inl y ↦ let f = rw (y, configless_server) at e in cc
  | inr n ↦
      let f = rw (n, configless_server) at e in
      let (ports, g, h) = >>=-eq-ok (pool_ports (parse_port_pools args.port_pool)) _ f in
      let (token, i, j) =
        >>=-eq-ok (pool_token outside args.token_length outside.preserved_token) _ h in
      (
        ports,
        token,
        pool_ports-ok (parse_port_pools args.port_pool) ports g,
        pool_token-nonempty outside args.token_length outside.preserved_token token i,
        cc,
      )
]

-- A configless server that starts has a pool with at least one port, no port twice and only ports from
-- 1 to 65535, and exactly one token, which is not empty.
pub configless_server-IsPoolConfig :
    (outside : Outside) (args : ServerArgs) (c : ServerConfig)
    → configless_server outside args ≡ ok c
    → IsPoolConfig c
unfolding token_pool_config
configless_server-IsPoolConfig outside args c e =
    let (ports, token, f, full, same) = configless_server-IsMade outside args c e in
    let pool = parse_port_pools-IsPool args.port_pool ports f in
    rw (← same) (pool.0, pool.1, pool.2, (token, refl, full))

-- A configuration that a file gives: the file is named, and there is no pool.
abbrev pub FromFile : ServerArgs → ServerConfig → Type 0
FromFile args c = ((path : Text) × (text_or args.config none ≡ some path)) × IsServerConfig c

-- A configuration that the arguments give: no file is named, the pool and the port are those of the
-- arguments, and there is no fixed service and no dynamic registration.
abbrev pub FromArguments : ServerArgs → ServerConfig → Type 0
FromArguments args c =
    (text_or args.config none ≡ none)
    × IsPoolConfig c
    × (parse_port_pools args.port_pool ≡ ok c.port_pool)
    × (c.bind_port ≡ args.bind_port)
    × (c.services ≡ [])
    × (c.allow_dynamic ≡ false)

configless_server-FromArguments :
    (outside : Outside) (args : ServerArgs) (c : ServerConfig)
    → text_or args.config none ≡ none
    → configless_server outside args ≡ ok c
    → FromArguments args c
unfolding token_pool_config
configless_server-FromArguments outside args c n e =
    let limits = configless_server-IsPoolConfig outside args c e in
    let (ports, token, f, full, same) = configless_server-IsMade outside args c e in
    let rest : (parse_port_pools args.port_pool ≡ ok c.port_pool)
        × (c.bind_port ≡ args.bind_port)
        × (c.services ≡ [])
        × (c.allow_dynamic ≡ false) =
      rw (← same) (f, refl, refl, refl) in
    (n, limits, rest.0, rest.1, rest.2, rest.3)

-- A server configuration that the command line gives is one of two. From a file, it has a control port
-- and service ports up to 65535, a name for every service and no pool. Without a file, it has the pool
-- of the arguments, with at least one port, no port twice and only ports from 1 to 65535, exactly one
-- token, which is not empty, the control port of the arguments, and no other service.
pub load_server_command_config-IsServerConfig :
    (outside : Outside) (args : ServerArgs) (c : ServerConfig)
    → load_server_command_config outside args ≡ ok c
    → FromFile args c ⊎ FromArguments args c
unfolding load_server_command_config
load_server_command_config-IsServerConfig outside args c e =
    elim (Option-cases (text_or args.config none)) [
      | inl n ↦
          let f = rw (n, load_server_command_config) at e in
          inr (configless_server-FromArguments outside args c n f)
      | inr (path, h) ↦
          let f = rw (h, load_server_command_config) at e in
          inl ((path, h), load_server_file-IsServerConfig outside.py (outside.file path) c f)
    ]

-- What a configless client that starts is made of.
abbrev pub IsTokenClient : Outside → ClientArgs → Text → ClientConfig → Type 0
IsTokenClient outside args token c =
    (server : Text × ℕ) × (local : Text × ℕ) × (r : Float) × (t : Float) × (h : Float) × InRange
      server.1
    × InRange local.1
    × (token_client outside args token server local r t h ≡ c)

pub configless_client-IsTokenClient :
    (outside : Outside) (args : ClientArgs) (server token : Text) (c : ClientConfig)
    → configless_client outside args server token ≡ ok c
    → IsTokenClient outside args token c
unfolding configless_client
configless_client-IsTokenClient outside args server token c e =
    let host = txt "127.0.0.1" in
    let (a, f, e') = >>=-eq-ok (split_host_port host server) _ e in
    let (b, g, e'') = >>=-eq-ok (split_host_port host args.local) _ e' in
    let (r, i, e3) = >>=-eq-ok (positive_argument args.reconnect_delay) _ e'' in
    let (t, j, e4) = >>=-eq-ok (positive_argument args.connect_timeout) _ e3 in
    let (h, k, e5) = >>=-eq-ok (positive_argument args.heartbeat_interval) _ e4 in
    (
      a,
      b,
      r,
      t,
      h,
      split_host_port-InRange host server a f,
      split_host_port-InRange host args.local b g,
      cc,
    )

configless_client-IsClientConfig :
    (outside : Outside) (args : ClientArgs) (server token : Text) (c : ClientConfig)
    → configless_client outside args server token ≡ ok c
    → IsClientConfig c
unfolding token_client token_service_name
configless_client-IsClientConfig outside args server token c e =
    let (a, b, r, t, h, f, g, same) =
      configless_client-IsTokenClient outside args server token c e in
    rw (← same) (f.0, f.1, (λ k. cc), (((λ k. cc), g.0, g.1, (λ n k. cc)), tt))

required_arguments-IsClientConfig :
    (outside : Outside) (args : ClientArgs) (server token : Option Text) (c : ClientConfig)
    → required_arguments outside args server token ≡ ok c
    → IsClientConfig c
unfolding required_arguments
required_arguments-IsClientConfig outside args (some server) (some token) c e =
    configless_client-IsClientConfig outside args server token c e
required_arguments-IsClientConfig outside args none token c e = cc
required_arguments-IsClientConfig outside args (some server) none c e = cc

client_of_file-IsClientConfig :
    (outside : Outside) (args : ClientArgs) (path : Text) (c : ClientConfig)
    → client_of_file outside args path ≡ ok c
    → IsClientConfig c
unfolding client_of_file
client_of_file-IsClientConfig outside args path c e =
    ground (arith, load_client_file-IsClientConfig outside.py (outside.file path) c)

-- Whatever the command line gives, from a file or without one, a client has a server port and local
-- ports from 1 to 65535, at least one proxy, a name for each of them, and no public port above 65535.
pub load_client_command_config-IsClientConfig :
    (outside : Outside) (args : ClientArgs) (c : ClientConfig)
    → load_client_command_config outside args ≡ ok c
    → IsClientConfig c
unfolding load_client_command_config
load_client_command_config-IsClientConfig outside args c e =
    elim (Option-cases (text_or args.config none)) [
      | inl n ↦
          let f = rw (n, load_client_command_config) at e in
          required_arguments-IsClientConfig outside args (text_or args.server none)
            (text_or args.token none) c f
      | inr (path, h) ↦
          let f = rw (h, load_client_command_config) at e in
          client_of_file-IsClientConfig outside args path c f
    ]
