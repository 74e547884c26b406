-- ===== src/Link/Configless.antt =====
-- A server and a client that the command line starts without files: the client's registration.
use py_frp.Base.{
  ◌≡◌, ◌≢◌, refl, ap, sym, ◌∙◌, Bool, true, false, some, List, [], ◌∷◌, arith, is_empty, not, ◌&&◌,
}
use py_frp.Base.Int.{ℤ}
use py_frp.Base.Texts.{Text, txt, text_eq_iff, text_eq_refl, text_in}
use py_frp.Base.Result.{ok}
use py_frp.Value.{dict}
use py_frp.Config.Types.{ClientConfig, ProxyConfig}
use py_frp.Server.State.{Server, Env, ClientSession}
use py_frp.Server.Allocate.{pool_service_name}
use py_frp.Server.Preempt.{allocate, register_pool_service}
use py_frp.Server.Register.{is_pool_registration, text_or}
use py_frp.Client.Session.{service_payload}
use py_frp.Command.Options.{
  Outside, ServerArgs, ClientArgs, configless_server, configless_client, token_client,
}
use py_frp.Command.Limits.{configless_client-IsTokenClient, configless_server-IsPoolConfig}
use py_frp.Link.Registration.{
  given, is_pool_registration-payload, register_pool_service-payload, with_pool_token,
}

given_self : (t : Text) → t ≢ [] → given (text_or (some t) (some t)) ≡ some t
unfolding text_or
given_self [] n = absurd (n refl)
given_self (c ∷ cs) n = refl

member-one : (t u : Text) → text_in t (u ∷ []) ≡ true → t ≡ u
unfolding text_in
member-one t u e = ground (arith, text_eq_iff t u)

with_pool_token-in :
    (env : Env) (session : ClientSession) (force : Bool) (s : Server) (t : Text) (priority : ℤ)
    → text_in t s.config.pool_tokens ≡ true
    → with_pool_token env session force s (some t) priority
      ≡ allocate env
          (record {
            client = session;
            name = pool_service_name session;
            token = t;
            priority = priority;
          })
          force
          s
with_pool_token-in env session force s t priority h = rw h refl

nonempty-false : {A : Type 0} (xs : List A) → xs ≢ [] → is_empty xs ≡ false
nonempty-false [] n = absurd (n refl)
nonempty-false (x ∷ xs) n = refl

-- A client that is started without a file, with one of the tokens of a server that is started without a
-- file, registers one service: the server takes its registration for one that asks for a port of the
-- pool, and gives it the port that `allocate` gives under that token and the client's priority.
pub configless_registration :
    (outside away : Outside) (server_args : ServerArgs) (client_args : ClientArgs)
    (address token : Text) (config : ClientConfig) (env : Env) (session : ClientSession)
    (priority : ℤ) (force : Bool) (s : Server)
    → configless_server outside server_args ≡ ok s.config
    → configless_client away client_args address token ≡ ok config
    → text_in token s.config.pool_tokens ≡ true
    → (proxy : ProxyConfig) × (config.proxies ≡ proxy ∷ [])
      × (is_pool_registration s.config (dict (service_payload config priority proxy)) ≡ true)
      × (register_pool_service env session (dict (service_payload config priority proxy)) force s
          ≡ allocate env
              (record {
                client = session;
                name = pool_service_name session;
                token = token;
                priority = priority;
              })
              force
              s)
unfolding token_client
configless_registration outside away server_args client_args address token config env session
      priority force s e f h =
    let pool = configless_server-IsPoolConfig outside server_args s.config e in
    let (t, one, full) = pool.3 in
    let same = member-one token t (ap (text_in token) (sym one) ∙ h) in
    let nonempty : token ≢ [] = λ n. full (sym same ∙ n) in
    let (a, b, r, w, k, x, y, made) =
      configless_client-IsTokenClient away client_args address token config f in
    rw (← made) (
      _,
      refl,
      is_pool_registration-payload _ priority _ s.config
          ∙ ap (λ (b : Bool). not b && true) (nonempty-false s.config.port_pool pool.0),
      register_pool_service-payload _ priority _ env session force s
            (text_eq_refl (txt "token-pool"))
          ∙ ap (λ o. with_pool_token env session force s o priority) (given_self token nonempty)
          ∙ with_pool_token-in env session force s token priority h,
    )
