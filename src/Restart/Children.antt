-- ===== src/Restart/Children.antt =====
-- The last steps of a child that a new version ends.
use py_frp.Base.{ℕ, Option, none, some, List, [], ◌∷◌, if◌then◌else◌}
use py_frp.Base.Int.{ℤ}
use py_frp.Base.Texts.{Text, txt, text_eq}
use py_frp.Base.Dict.{Dict, values, set}
use py_frp.Base.Result.{Result, ok, err}
use py_frp.Value.{Value, Float, float, str, obj}
use py_frp.Config.Types.{ServerConfig}
use py_frp.Config.Fields.{not_positive}
use py_frp.Config.Native.{whole}
use py_frp.Server.State.{Server, Env, ClientSession, send}
use py_frp.Server.Sessions.{close}
use py_frp.Client.State.{Client, Failure}
use py_frp.Client.Trust.{fingerprint_for_restart}
use py_frp.Restart.Request.{
  Process, RestartError, not_started, not_trusted, not_positive_delay, request_restart,
}
use py_frp.Restart.Tls.{ServerTls, preserve_for_restart}

abbrev pub pool_token_env : Text
pool_token_env = txt "PY_FRP_RESTART_POOL_TOKEN"

abbrev pub restart_server_fingerprint_env : Text
restart_server_fingerprint_env = txt "PY_FRP_RESTART_SERVER_FINGERPRINT"

-- The message of `notify_restarting`.
unfoldable pub restarting_message : Float → Value
restarting_message retry_after = obj (
    (txt "type", str (txt "server_restarting"))
    ∷ (txt "reason", str (txt "package_update"))
    ∷ (txt "retry_after", float retry_after)
    ∷ [])

-- `_notify_restarting_client` of each client: a message that is not sent, or not in time, is let go.
unfoldable pub notify_clients : Env → Value → List ClientSession → Server → Server
unfolding send
notify_clients env message [] s = s
notify_clients env message (c ∷ cs) s = notify_clients env message cs (send env c message s).1

-- `notify_restarting(retry_after)`, `none` for the `ValueError` of a delay that is not positive.
unfoldable pub notify_restarting : Env → Float → Server → Option Server
unfolding not_positive restarting_message notify_clients values
notify_restarting env retry_after s =
    if not_positive retry_after
    then none
    else some (notify_clients env (restarting_message retry_after) (values s.clients) s)

unfoldable pub preserve_first_token : List Text → Dict Text → Dict Text
unfolding set
preserve_first_token [] environment = environment
preserve_first_token (token ∷ tokens) environment = set pool_token_env token environment

unfoldable pub preserve_pool_token : ServerConfig → Dict Text → Dict Text
unfolding preserve_first_token text_eq
preserve_pool_token config environment =
    if text_eq config.source_flavor (txt "token-pool")
    then preserve_first_token config.pool_tokens environment
    else environment

-- `_preserve_server_restart_state(server)`, which raises an exception when the server has no TLS
-- material, that is before it is started.
unfoldable pub preserve_server_restart_state :
    (List ℕ → Text) → ServerConfig → Option ServerTls → Process → Option RestartError × Process
unfolding preserve_pool_token preserve_for_restart
preserve_server_restart_state encode config none p =
    (some not_started, record p { environment = preserve_pool_token config p.environment })
preserve_server_restart_state encode config (some tls) p = (
  none,
  record p {
    environment = preserve_for_restart encode tls (preserve_pool_token config p.environment);
  },
)

-- `preserve_fingerprint_for_restart`, whose exception ends the client, and `request_restart`.
unfoldable pub restart_trusted :
    Text → Process → Result Failure Text → Result RestartError ℤ × Process
unfolding request_restart set
restart_trusted version p (err f) = (err not_trusted, p)
restart_trusted version p (ok fingerprint) =
    request_restart version
      (record p { environment = set restart_server_fingerprint_env fingerprint p.environment })

-- What `_run_client_until_update` does when the version has changed to this one.
unfoldable pub restart_client : Text → Client → Process → Result RestartError ℤ × Process
unfolding restart_trusted fingerprint_for_restart
restart_client version c p = restart_trusted version p (fingerprint_for_restart c)

-- `SERVER_RESTART_RETRY_DELAY`
abbrev pub server_restart_retry_delay : Float
server_restart_retry_delay = whole 3

-- The clients are told, the server is closed, and the restart is asked for; an exception of the first
-- closes the server too.
unfoldable pub restart_told :
    Text → Server → Process → Option Server → Result RestartError ℤ × Process × Server
unfolding request_restart close
restart_told version s p none = (err not_positive_delay, p, close s)
restart_told version s p (some told) = let r = request_restart version p in (r.0, r.1, close told)

unfoldable pub restart_preserved :
    Env → Text → Server → Option RestartError × Process → Result RestartError ℤ × Process × Server
unfolding restart_told notify_restarting close
restart_preserved env version s (some e, p) = (err e, p, close s)
restart_preserved env version s (none, p) =
    restart_told version s p (notify_restarting env server_restart_retry_delay s)

-- What `_run_server_until_update` does when the version has changed to this one.
unfoldable pub restart_server :
    (List ℕ → Text)
    → Env
    → Text
    → Option ServerTls
    → Server
    → Process
    → Result RestartError ℤ × Process × Server
unfolding restart_preserved preserve_server_restart_state
restart_server encode env version tls s p =
    restart_preserved env version s (preserve_server_restart_state encode s.config tls p)
