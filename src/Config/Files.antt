-- ===== src/Config/Files.antt =====
-- `load_server_config` and `load_client_config` of a path, and what they keep in every format.
use py_frp.Base.{
  ◌≡◌, ◌≢◌, refl, true, false, List, [], ◌∷◌, arith, All, Option-cases, inl, inr, Bool-cases,
}
use py_frp.Base.Int.{ℤ, pos}
use py_frp.Base.Texts.{Text, txt, text_eq, lower}
use py_frp.Base.Dict.{Dict}
use py_frp.Base.Dict
use py_frp.Base.Result.{Result, ok, err, ◌>>=◌, >>=-eq-ok}
use py_frp.Value.{Fields, str}
use py_frp.Config.Types.{ServerConfig, ClientConfig, ProxyConfig}
use py_frp.Config.Fields.{ConfigError, config, uncaught, Py, int_or, port}
use py_frp.Config.Rathole.{load_server_config, load_client_config}
use py_frp.Config.Ranges.{
  IsServerConfig, IsClientConfig, IsProxy, load_server_config-IsServerConfig,
  load_client_config-IsClientConfig, port-range, service_name-nonempty,
}
use py_frp.Config.Ini.{
  Ini, Section, common_options, ini_server, ini_server_of, ini_client_of, checked_proxy,
  tcp_section, option, option_or, required_value, ini_bind_address, ini_local_address,
  load_ini_server, load_ini_client, ini_proxy, ini_proxies, ini_client, some_ini_proxies,
}

-- What a path leads to. A path that ends in `.ini` or `.conf` is read by `configparser`, which takes a
-- file that it cannot open for an empty one and raises an error of its own for a wrong syntax; any
-- other is read as JSON or TOML.
pub data ConfigFile : Type 0 where
  ini : Ini → ConfigFile
  broken_ini : ConfigFile
  mapping : Fields → ConfigFile
  unreadable wrong_syntax wrong_root : ConfigFile

-- `load_server_config(path)`
unfoldable pub load_server_file : Py → ConfigFile → Result ConfigError ServerConfig
unfolding load_ini_server load_server_config
load_server_file py (ini file) = load_ini_server file
load_server_file py broken_ini = err uncaught
load_server_file py (mapping file) = load_server_config py file
load_server_file py unreadable = err (config "cannot read configuration file")
load_server_file py wrong_syntax = err (config "invalid configuration syntax")
load_server_file py wrong_root = err (config "configuration root must be a table/object")

-- `load_client_config(path)`
unfoldable pub load_client_file : Py → ConfigFile → Result ConfigError ClientConfig
unfolding load_ini_client load_client_config
load_client_file py (ini file) = load_ini_client py file
load_client_file py broken_ini = err uncaught
load_client_file py (mapping file) = load_client_config py file
load_client_file py unreadable = err (config "cannot read configuration file")
load_client_file py wrong_syntax = err (config "invalid configuration syntax")
load_client_file py wrong_root = err (config "configuration root must be a table/object")

ini_server-IsServerConfig :
    (common : Section) (c : ServerConfig) → ini_server common ≡ ok c → IsServerConfig c
unfolding ini_server ini_server_of
ini_server-IsServerConfig common c e =
    let (n, f, g) =
      >>=-eq-ok (int_or (str (option_or "bind_port" (txt "7000") common)) (pos 7000)) _ e in
    let (address, h, i) =
      >>=-eq-ok
        (ini_bind_address (option "bind_addr" common) (option_or "bind_host" (txt "0.0.0.0") common)
          n)
        _ g in
    let (p, j, k) = >>=-eq-ok (port true address.1) _ i in
    let same : ini_server_of common address.0 p ≡ c = cc in
    rw (← same) ((port-range true address.1 p j).1, refl, tt)

load_ini_server-IsServerConfig :
    (file : Ini) (c : ServerConfig) → load_ini_server file ≡ ok c → IsServerConfig c
unfolding load_ini_server
load_ini_server-IsServerConfig file c e = ini_server-IsServerConfig (common_options file) c e

checked_proxy-IsProxy :
    (py : Py) (section : Text) (row : Section) (host : Text) (m n : ℤ) (p : ProxyConfig)
    → checked_proxy py section row host m n ≡ ok p
    → IsProxy p
unfolding checked_proxy
checked_proxy-IsProxy py section row host m n p e = grind (arith, service_name-nonempty, port-range)

tcp_section-IsProxy :
    (py : Py) (section : Text) (row : Section) (p : ProxyConfig)
    → tcp_section py section row ≡ ok p
    → IsProxy p
unfolding tcp_section
tcp_section-IsProxy py section row p e =
    let (local, f, g) = >>=-eq-ok (ini_local_address row (option "local_addr" row)) _ e in
    let (text, h, i) = >>=-eq-ok (required_value "remote_port" row) _ g in
    let (n, j, k) = >>=-eq-ok (int_or (str text) (pos 0)) _ i in
    checked_proxy-IsProxy py section row local.0 local.1 n p k

ini_proxy-IsProxy :
    (py : Py) (section : Text) (row : Section) (p : ProxyConfig)
    → ini_proxy py section row ≡ ok p
    → IsProxy p
unfolding ini_proxy
ini_proxy-IsProxy py section row p e =
    elim (Bool-cases (text_eq (lower (option_or "type" (txt "tcp") row)) (txt "tcp"))) [
      | inl y ↦ let f = rw (y, ini_proxy) at e in tcp_section-IsProxy py section row p f
      | inr n ↦ let f = rw (n, ini_proxy) at e in cc
    ]

ini_proxies-All :
    (py : Py) (sections : Dict Section) (ps : List ProxyConfig)
    → ini_proxies py sections ≡ ok ps
    → All IsProxy ps
unfolding ini_proxies
ini_proxies-All py [] ps e = let q : [] ≡ ps = cc in rw (← q) tt
ini_proxies-All py ((section, row) ∷ rest) ps e =
    elim (Bool-cases (text_eq section (txt "common"))) [
      | inl y ↦ let e' = rw (y, ini_proxies) at e in ini_proxies-All py rest ps e'
      | inr n ↦
          let e' = rw (n, ini_proxies) at e in
          let (p, q, f) =
            >>=-eq-ok (ini_proxy py section row)
              (λ (p : ProxyConfig). ini_proxies py rest >>= λ more. ok (p ∷ more)) e' in
          let (more, r, g) =
            >>=-eq-ok (ini_proxies py rest) (λ (more : List ProxyConfig). ok (p ∷ more)) f in
          let s : p ∷ more ≡ ps = cc in
          rw (← s) (ini_proxy-IsProxy py section row p q, ini_proxies-All py rest more r)
    ]

some_ini_proxies_lem :
    (all_proxies proxies : List ProxyConfig)
    → some_ini_proxies all_proxies ≡ ok proxies
    → (proxies ≢ []) × (all_proxies ≡ proxies)
unfolding some_ini_proxies
some_ini_proxies_lem [] proxies e = cc
some_ini_proxies_lem (p ∷ ps) proxies e = let f : p ∷ ps ≡ proxies = cc in ((λ h. cc), f)

ini_client-IsClientConfig :
    (py : Py) (sections : Dict Section) (common : Section) (c : ClientConfig)
    → ini_client py sections common ≡ ok c
    → IsClientConfig c
unfolding ini_client ini_client_of
ini_client-IsClientConfig py sections common c e =
    let (n, f, g) =
      >>=-eq-ok (int_or (str (option_or "server_port" (txt "7000") common)) (pos 7000)) _ e in
    let (all_proxies, h, i) = >>=-eq-ok (ini_proxies py sections) _ g in
    let (proxies, j, k) = >>=-eq-ok (some_ini_proxies all_proxies) _ i in
    let (p, l, m) = >>=-eq-ok (port false n) _ k in
    let same : ini_client_of common proxies p ≡ c = cc in
    let range = port-range false n p l in
    let kept = some_ini_proxies_lem all_proxies proxies j in
    rw (← same)
      (range.0, range.1, kept.0, rw (← kept.1) (ini_proxies-All py sections all_proxies h))

load_ini_client-IsClientConfig :
    (py : Py) (file : Ini) (c : ClientConfig) → load_ini_client py file ≡ ok c → IsClientConfig c
unfolding load_ini_client
load_ini_client-IsClientConfig py file c e =
    elim (Option-cases (Dict.get (txt "common") file.sections)) [
      | inl n ↦ let f = rw (n, load_ini_client) at e in cc
      | inr (common, h) ↦
          let f = rw (h, load_ini_client) at e in
          ini_client-IsClientConfig py file.sections common c f
    ]

-- A server configuration that loads, from a file of any format, has no pool and only ports up to 65535,
-- and every service has a name.
pub load_server_file-IsServerConfig :
    (py : Py) (file : ConfigFile) (c : ServerConfig)
    → load_server_file py file ≡ ok c
    → IsServerConfig c
unfolding load_server_file
load_server_file-IsServerConfig py (ini file) c e = load_ini_server-IsServerConfig file c e
load_server_file-IsServerConfig py broken_ini c e = cc
load_server_file-IsServerConfig py (mapping file) c e =
    load_server_config-IsServerConfig py file c e
load_server_file-IsServerConfig py unreadable c e = cc
load_server_file-IsServerConfig py wrong_syntax c e = cc
load_server_file-IsServerConfig py wrong_root c e = cc

pub load_client_file-IsClientConfig :
    (py : Py) (file : ConfigFile) (c : ClientConfig)
    → load_client_file py file ≡ ok c
    → IsClientConfig c
unfolding load_client_file
load_client_file-IsClientConfig py (ini file) c e = load_ini_client-IsClientConfig py file c e
load_client_file-IsClientConfig py broken_ini c e = cc
load_client_file-IsClientConfig py (mapping file) c e =
    load_client_config-IsClientConfig py file c e
load_client_file-IsClientConfig py unreadable c e = cc
load_client_file-IsClientConfig py wrong_syntax c e = cc
load_client_file-IsClientConfig py wrong_root c e = cc
