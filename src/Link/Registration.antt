-- ===== src/Link/Registration.antt =====
-- The registration that a client writes, as `_is_pool_registration`, `_register_pool_service` and
-- `_service_from_registration` read it.
use py_frp.Base.{
  ℕ, ◌≤◌, ◌≡◌, refl, ap, ◌∙◌, Bool, true, false, ◌&&◌, not, Option, none, some, [], ◌∷◌, arith,
  is_empty, if◌then◌else◌, is_some,
}
use py_frp.Base.Int.{ℤ}
use py_frp.Base.Texts.{Text, txt, text_eq, text_in, strip}
use py_frp.Base.Result.{Result, ok, err}
use py_frp.Value.{
  Value, Fields, null, int, str, dict, get_value, member, is_null, of_fields, to_int, text_or_empty,
}
use py_frp.Config.Types.{ServerConfig, ClientConfig, ProxyConfig}
use py_frp.Config.Fields.{text_value}
use py_frp.Server.State.{Server, Env, ClientSession, RegisteredService, Error, authentication}
use py_frp.Server.Allocate.{optional_string, priority_of, pool_service_name}
use py_frp.Server.Preempt.{allocate, with_token, with_priority, register_pool_service}
use py_frp.Server.Register.{
  text_or, configured, is_pool_registration, service_from_registration, service_from_fields,
  named_service, dynamic_service, require_token, port, port_number, remote_host,
}
use py_frp.Client.Session.{service_payload, payload_entries, optional_entry, port_value}

-- The fields of a payload, as `get` finds them.
entries-get :
    (name : Text) (token host : Option Text) (n : Option ℕ) (pool : Bool) (priority : ℤ)
    → (get_value "name" (of_fields (payload_entries name token host n pool priority)) ≡ str name)
      × (get_value "token" (of_fields (payload_entries name token host n pool priority))
          ≡ text_value token)
      × (get_value "remote_host" (of_fields (payload_entries name token host n pool priority))
          ≡ text_value host)
      × (get_value "remote_port" (of_fields (payload_entries name token host n pool priority))
          ≡ port_value n)
      × (get_value "remotePort" (of_fields (payload_entries name token host n pool priority))
          ≡ null)
      × (member "priority" (of_fields (payload_entries name token host n pool priority))
          ≡ (if pool then some (int priority) else none))
unfolding payload_entries optional_entry get_value member
entries-get name token none none true priority = (refl, refl, refl, refl, refl, refl)
entries-get name token none none false priority = (refl, refl, refl, refl, refl, refl)
entries-get name token none (some n) true priority = (refl, refl, refl, refl, refl, refl)
entries-get name token none (some n) false priority = (refl, refl, refl, refl, refl, refl)
entries-get name token (some h) none true priority = (refl, refl, refl, refl, refl, refl)
entries-get name token (some h) none false priority = (refl, refl, refl, refl, refl, refl)
entries-get name token (some h) (some n) true priority = (refl, refl, refl, refl, refl, refl)
entries-get name token (some h) (some n) false priority = (refl, refl, refl, refl, refl, refl)

-- A text that the server reads as none when it is empty.
abbrev pub given : Option Text → Option Text
given t = text_or t none

pub optional_string-text_value :
    (repr : Value → Text) (t : Option Text) → optional_string repr (text_value t) ≡ given t
unfolding optional_string text_or
optional_string-text_value repr none = refl
optional_string-text_value repr (some []) = refl
optional_string-text_value repr (some (c ∷ cs)) = refl

-- The address at which a dynamic service listens.
abbrev pub public_host : Option Text → Text
public_host none = txt "0.0.0.0"
public_host (some []) = txt "0.0.0.0"
public_host (some (c ∷ cs)) = c ∷ cs

host-text_value :
    (repr : Value → Text) (h : Option Text)
    → remote_host (text_or_empty repr (text_value h)) ≡ public_host h
unfolding remote_host text_or_empty
host-text_value repr none = refl
host-text_value repr (some []) = refl
host-text_value repr (some (c ∷ cs)) = refl

pub name-text : (repr : Value → Text) (t : Text) → text_or_empty repr (str t) ≡ t
unfolding text_or_empty
name-text repr [] = refl
name-text repr (c ∷ cs) = refl

-- What a token of the pool gives access to.
abbrev pub with_pool_token :
    Env → ClientSession → Bool → Server → Option Text → ℤ → Result Error RegisteredService × Server
with_pool_token env session force s none priority = (err authentication, s)
with_pool_token env session force s (some t) priority =
    if text_in t s.config.pool_tokens
    then allocate env
        (record {
          client = session;
          name = pool_service_name session;
          token = t;
          priority = priority;
        })
        force s
    else (err authentication, s)

module _ (config : ClientConfig) (priority : ℤ) (proxy : ProxyConfig) where
  abbrev payload : Fields
  payload = service_payload config priority proxy

  payload-get :
      (get_value "name" payload ≡ str proxy.name)
      × (get_value "token" payload ≡ text_value (text_or proxy.token config.token))
      × (get_value "remote_host" payload ≡ text_value proxy.remote_host)
      × (get_value "remote_port" payload ≡ port_value proxy.remote_port)
      × (get_value "remotePort" payload ≡ null)
      × (member "priority" payload
          ≡ (if text_eq config.source_flavor (txt "token-pool") then some (int priority) else none))
  unfolding service_payload
  payload-get =
      entries-get proxy.name (text_or proxy.token config.token) proxy.remote_host proxy.remote_port
        (text_eq config.source_flavor (txt "token-pool")) priority

  is_null-port : (n : Option ℕ) → is_null (port_value n) ≡ not (is_some n)
  is_null-port none = refl
  is_null-port (some n) = refl

  -- The registration of a proxy asks for a port of the pool exactly when the server has a pool and the
  -- proxy names no remote port.
  pub is_pool_registration-payload :
      (server : ServerConfig)
      → is_pool_registration server (dict (service_payload config priority proxy))
        ≡ (not (is_empty server.port_pool) && not (is_some proxy.remote_port))
  unfolding is_pool_registration
  is_pool_registration-payload server =
      let g = payload-get in
      rw (is_pool_registration, g.3, g.4) (ground (arith, is_null-port proxy.remote_port))

  dynamic-payload :
      (env : Env) (server : ServerConfig) (name : Text) (provided : Option Text) (n : ℕ)
      → proxy.remote_port ≡ some n
      → n ≤ 65535
      → dynamic_service env server name provided payload
        ≡ ok (record {
          name = name;
          bind_host = public_host proxy.remote_host;
          bind_port = n;
          token = text_or provided server.token;
        })
  unfolding dynamic_service port port_number to_int
  dynamic-payload env server name provided n e le =
      let g = payload-get in
      rw (dynamic_service, g.2, g.3, e, host-text_value env.repr proxy.remote_host) (ground arith)

  fields_lem :
      (env : Env) (server : ServerConfig)
      → is_empty proxy.name ≡ false
      → service_from_fields env server proxy.name payload
        ≡ named_service env server proxy.name
            (optional_string env.repr (get_value "token" payload))
            payload
            (configured server proxy.name)
  unfolding service_from_fields
  fields_lem env server full = rw (full, service_from_fields) refl

  named_lem :
      (env : Env) (server : ServerConfig) (t : Option Text)
      → server.allow_dynamic ≡ true
      → named_service env server proxy.name t payload none
        ≡ require_token server.token t (dynamic_service env server proxy.name t payload)
  unfolding named_service
  named_lem env server t allowed = rw (allowed, named_service) refl

  -- A server that allows dynamic services and has none of that name configured takes the registration
  -- of a proxy with a remote port up to 65535 as the service of its name, at its address and port and
  -- with its token, if the server's own token allows that token; else it refuses it.
  pub service_from_registration-payload :
      (env : Env) (server : ServerConfig) (n : ℕ)
      → proxy.remote_port ≡ some n
      → n ≤ 65535
      → strip proxy.name ≡ proxy.name
      → is_empty proxy.name ≡ false
      → configured server proxy.name ≡ none
      → server.allow_dynamic ≡ true
      → service_from_registration env server (dict (service_payload config priority proxy))
        ≡ require_token server.token (given (text_or proxy.token config.token)) (
            ok (record {
              name = proxy.name;
              bind_host = public_host proxy.remote_host;
              bind_port = n;
              token = text_or (given (text_or proxy.token config.token)) server.token;
            }))
  unfolding service_from_registration
  service_from_registration-payload env server n e le clean full new allowed =
      let t = given (text_or proxy.token config.token) in
      let g = payload-get in
      ap (λ v. service_from_fields env server (strip v) payload)
        (ap (text_or_empty env.repr) g.0 ∙ name-text env.repr proxy.name)
      ∙ ap (λ name. service_from_fields env server name payload) clean
      ∙ fields_lem env server full
      ∙ ap (λ p. named_service env server proxy.name p payload (configured server proxy.name))
          (ap (optional_string env.repr) g.1
            ∙ optional_string-text_value env.repr (text_or proxy.token config.token))
      ∙ ap (named_service env server proxy.name t payload) new
      ∙ named_lem env server t allowed
      ∙ ap (require_token server.token t) (dynamic-payload env server proxy.name t n e le)

  -- A client in token-pool mode whose token is one of the pool's gets what `allocate` gives it, under
  -- its priority; with another token, or with none, it is refused.
  pub register_pool_service-payload :
      (env : Env) (session : ClientSession) (force : Bool) (s : Server)
      → text_eq config.source_flavor (txt "token-pool") ≡ true
      → register_pool_service env session (dict (service_payload config priority proxy)) force s
        ≡ with_pool_token env session force s (given (text_or proxy.token config.token)) priority
  unfolding register_pool_service with_token priority_of with_priority
  register_pool_service-payload env session force s pool =
      let g = payload-get in
      rw
        (
          register_pool_service,
          g.1,
          g.5,
          pool,
          optional_string-text_value env.repr (text_or proxy.token config.token),
        )
        (by_token (given (text_or proxy.token config.token)))
    where
      by_token :
          (t : Option Text)
          → with_token env session t (some (int priority)) force s
            ≡ with_pool_token env session force s t priority
      by_token none = refl
      by_token (some t) = refl
