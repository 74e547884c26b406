-- ===== src/Link/ServerRestarts.antt =====
-- A configless server and the server after it.
use py_frp.Base.{
  ℕ, ◌≡◌, ◌≢◌, refl, ap, sym, ◌∙◌, false, Option, none, some, List, [], ◌∷◌, is_empty, Bool-cases,
  inl, inr,
}
use py_frp.Base.Int.{ℤ}
use py_frp.Base.Texts.{Text, text_eq}
use py_frp.Base.Dict.{Dict, get, set}
use py_frp.Base.Result.{ok}
use py_frp.Config.Types.{ServerConfig}
use py_frp.Channel.{Channel, restart_state}
use py_frp.Server.State.{Server, Env}
use py_frp.Server.Register.{text_or}
use py_frp.Command.Options.{Outside, ServerArgs, configless_server, token_pool_config, pool_token}
use py_frp.Command.Limits.{configless_server-IsMade}
use py_frp.Supervisor.Monitor.{child_restart_exit_code}
use py_frp.Restart.Request.{Process, request_restart}
use py_frp.Restart.Tls.{
  ServerTls, preserve_for_restart, restored_tls_material, restored, decoded, restart_cert_env,
  restart_key_env,
}
use py_frp.Restart.Children.{
  restart_server, restart_preserved, restart_told, notify_restarting, preserve_server_restart_state,
  preserve_pool_token, preserve_first_token, pool_token_env,
}
use py_frp.Link.Restarts.{
  RunsUnder, RunsUnder-set, next_environment, request_restart-IsHandedOver, get-other, set-get,
  token-IsPassed, cert-IsPassed, key-IsPassed, IsOther,
}

token-IsOther : IsOther pool_token_env
unfolding text_eq
token-IsOther = (refl, refl, refl)

cert-IsOther : IsOther restart_cert_env
unfolding text_eq
cert-IsOther = (refl, refl, refl)

key-IsOther : IsOther restart_key_env
unfolding text_eq
key-IsOther = (refl, refl, refl)

pool_token-preserved :
    (outside : Outside) (n : ℤ) (t : Text) → t ≢ [] → pool_token outside n (some t) ≡ ok t
unfolding pool_token
pool_token-preserved outside n [] full = absurd (full refl)
pool_token-preserved outside n (c ∷ cs) full = refl

-- A configless server whose token is preserved has the same configuration as before.
configless_server-preserved :
    (outside : Outside) (args : ServerArgs) (c : ServerConfig)
    → configless_server outside args ≡ ok c
    → (token : Text) × (token ≢ [])
      × (ports : List ℕ) × (token_pool_config args ports token ≡ c)
      × (configless_server (record outside { preserved_token = some token }) args ≡ ok c)
unfolding configless_server
configless_server-preserved outside args c e =
    let (ports, token, f, full, same) = configless_server-IsMade outside args c e in
    (
      token,
      full,
      ports,
      same,
      elim (Bool-cases (is_empty args.port_pool)) [
        | inl y ↦ let g = rw (y, configless_server) at e in cc
        | inr n ↦
            rw
              (
                n,
                configless_server,
                f,
                pool_token-preserved (record outside { preserved_token = some token })
                    args.token_length token full,
              )
              (ap (λ d. ok d) same)
      ],
    )

-- What the environment holds when the state is preserved.
abbrev preserved : (List ℕ → Text) → ServerTls → Text → Dict Text → Dict Text
preserved encode tls token environment =
    set restart_key_env (encode tls.private_key)
      (set restart_cert_env (encode tls.certificate) (set pool_token_env token environment))

preserve_pool_token_lem :
    (args : ServerArgs) (ports : List ℕ) (token : Text) (config : ServerConfig)
    (environment : Dict Text)
    → token_pool_config args ports token ≡ config
    → preserve_pool_token config environment ≡ set pool_token_env token environment
unfolding preserve_pool_token preserve_first_token token_pool_config text_eq
preserve_pool_token_lem args ports token config environment same =
    ap (λ c. preserve_pool_token c environment) (sym same)

key-cert : text_eq restart_key_env restart_cert_env ≡ false
unfolding text_eq
key-cert = refl

key-pool : text_eq restart_key_env pool_token_env ≡ false
unfolding text_eq
key-pool = refl

cert-pool : text_eq restart_cert_env pool_token_env ≡ false
unfolding text_eq
cert-pool = refl

restart_server_lem :
    (encode : List ℕ → Text) (env : Env) (version : Text) (tls : ServerTls) (s : Server)
    (p : Process) (args : ServerArgs) (ports : List ℕ) (token : Text)
    → token_pool_config args ports token ≡ s.config
    → ((restart_server encode env version (some tls) s p).0
        ≡ (request_restart version
            (record p { environment = preserved encode tls token p.environment })).0)
      × ((restart_server encode env version (some tls) s p).1
          ≡ (request_restart version
              (record p { environment = preserved encode tls token p.environment })).1)
unfolding restart_server restart_preserved restart_told notify_restarting
    preserve_server_restart_state preserve_for_restart
restart_server_lem encode env version tls s p args ports token same =
    let kept = preserve_pool_token_lem args ports token s.config p.environment same in
    let after = λ (e : Dict Text).
      request_restart version (record p { environment = preserve_for_restart encode tls e }) in
    (ap (λ e. (after e).0) kept, ap (λ e. (after e).1) kept)

given-full : (t : Text) → t ≢ [] → text_or (some t) none ≡ some t
unfolding text_or
given-full [] n = absurd (n refl)
given-full (c ∷ cs) n = refl

-- The TLS material comes back from an environment that has its two texts.
restored-tls :
    (encode : List ℕ → Text) (decode : Text → Option (List ℕ)) (tls : ServerTls)
    (environment : Dict Text)
    → ((bytes : List ℕ) → decode (encode bytes) ≡ some bytes)
    → encode tls.certificate ≢ []
    → encode tls.private_key ≢ []
    → get restart_cert_env environment ≡ some (encode tls.certificate)
    → get restart_key_env environment ≡ some (encode tls.private_key)
    → restored_tls_material decode environment ≡ ok (some tls)
unfolding restored_tls_material restored decoded
restored-tls encode decode tls environment inverse cert_full key_full cert key =
    rw
      (
        cert,
        key,
        given-full (encode tls.certificate) cert_full,
        given-full (encode tls.private_key) key_full,
        restored,
        inverse tls.certificate,
        inverse tls.private_key,
      )
      refl

-- A configless server that has its TLS material and runs under a supervisor asks for the restart with
-- the exit code 75, and its supervisor finds the new version; the next child, started with the same
-- arguments, has the same configuration, its token and pool among it, and the same certificate and
-- private key, if Base64 can be decoded and the two texts are not empty.
pub restart_server-configless :
    (outside : Outside) (args : ServerArgs) (encode : List ℕ → Text)
    (decode : Text → Option (List ℕ)) (env : Env) (generation version : Text) (base : Dict Text)
    (tls : ServerTls) (s : Server) (p : Process)
    → RunsUnder generation p
    → configless_server outside args ≡ ok s.config
    → ((bytes : List ℕ) → decode (encode bytes) ≡ some bytes)
    → encode tls.certificate ≢ []
    → encode tls.private_key ≢ []
    → ((restart_server encode env version (some tls) s p).0 ≡ ok child_restart_exit_code)
      × ((passed : Dict Text) × (restart_state generation
              (restart_server encode env version (some tls) s p).1.channel
            ≡ some (record { target_version = version; environment = passed }))
          × ((root next : Text) (channel : Channel)
              → (configless_server
                    (record outside {
                      preserved_token =
                          get pool_token_env (next_environment base passed root next channel);
                    })
                    args
                  ≡ ok s.config)
                × (restored_tls_material decode (next_environment base passed root next channel)
                    ≡ ok (some tls))))
restart_server-configless outside args encode decode env generation version base tls s p under e
      inverse cert_full key_full =
    let (token, full, ports, same, again) = configless_server-preserved outside args s.config e in
    let one : Process = record p { environment = set pool_token_env token p.environment } in
    let two : Process = record one {
      environment = set restart_cert_env (encode tls.certificate) one.environment;
    } in
    let three : Process = record two {
      environment = set restart_key_env (encode tls.private_key) two.environment;
    } in
    let first = RunsUnder-set generation pool_token_env token p token-IsOther under in
    let second =
      RunsUnder-set generation restart_cert_env (encode tls.certificate) one cert-IsOther first in
    let third =
      RunsUnder-set generation restart_key_env (encode tls.private_key) two key-IsOther second in
    let (zero_is, one_is) = restart_server_lem encode env version tls s p args ports token same in
    let (code, (passed, state, kept)) =
      request_restart-IsHandedOver generation version base three third in
    (
      zero_is ∙ code,
      (
        passed,
        ap (λ (q : Process). restart_state generation q.channel) one_is ∙ state,
        λ root next channel.
            let cert =
              kept restart_cert_env cert-IsPassed root next channel
              ∙ get-other restart_key_env restart_cert_env (encode tls.private_key) two.environment
                  key-cert
              ∙ set-get restart_cert_env (encode tls.certificate) one.environment in
            let key =
              kept restart_key_env key-IsPassed root next channel
              ∙ set-get restart_key_env (encode tls.private_key) two.environment in
            let pool =
              kept pool_token_env token-IsPassed root next channel
              ∙ get-other restart_key_env pool_token_env (encode tls.private_key) two.environment
                  key-pool
              ∙ get-other restart_cert_env pool_token_env (encode tls.certificate) one.environment
                  cert-pool
              ∙ set-get pool_token_env token p.environment in
            (
              ap (λ t. configless_server (record outside { preserved_token = t }) args) pool
                  ∙ again,
              restored-tls encode decode tls (next_environment base passed root next channel)
                  inverse cert_full key_full cert key,
            ),
      ),
    )
