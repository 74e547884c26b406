-- ===== src/Restart/Closing.antt =====
-- `_run_server_until_update` closes its server on every way out.
use py_frp.Base.{ℕ, ◌≡◌, ◌≢◌, refl, Bool, true, Option, none, some, List, [], ◌∷◌}
use py_frp.Base.Texts.{Text}
use py_frp.Base.Dict.{values}
use py_frp.Base.Result.{Result}
use py_frp.Server.State.{
  Server, Env, ClientSession, RegisteredService, close_listeners, close_listener, close_writer,
}
use py_frp.Server.Sessions.{close, close_writers}
use py_frp.Update.{
  VersionChange, WatchError, Runtime, Race, waiting, runtime_returned, runtime_raised, watch_raised,
  updated,
}
use py_frp.Restart.Request.{Process, RestartError}
use py_frp.Restart.Tls.{ServerTls}
use py_frp.Restart.Children.{
  restart_server, restart_preserved, restart_told, notify_restarting, preserve_server_restart_state,
  server_restart_retry_delay,
}
use py_frp.Restart.Runtime.{going, run_server_until_update, server_after, race_of}

-- A server that keeps nothing of its clients.
abbrev pub IsEmptied : Server → Type 0
IsEmptied s = (s.services ≡ []) × (s.pending ≡ []) × (s.clients ≡ [])

close_listeners-IsEmptied :
    (svcs : List RegisteredService) (s : Server) → IsEmptied s → IsEmptied (close_listeners svcs s)
unfolding close_listeners close_listener
close_listeners-IsEmptied [] s h = h
close_listeners-IsEmptied (svc ∷ svcs) s h =
    close_listeners-IsEmptied svcs (close_listener svc.listener s) h

close_writers-IsEmptied :
    (cs : List ClientSession) (s : Server) → IsEmptied s → IsEmptied (close_writers cs s)
unfolding close_writers close_writer
close_writers-IsEmptied [] s h = h
close_writers-IsEmptied (c ∷ cs) s h = close_writers-IsEmptied cs (close_writer c s) h

close-IsEmptied : (s : Server) → IsEmptied (close s)
unfolding close
close-IsEmptied s =
    close_writers-IsEmptied (values s.clients) _
      (close_listeners-IsEmptied (values s.services) _ (refl, refl, refl))

restart_told-IsEmptied :
    (version : Text) (s : Server) (p : Process) (o : Option Server)
    → IsEmptied (restart_told version s p o).2
unfolding restart_told
restart_told-IsEmptied version s p none = close-IsEmptied s
restart_told-IsEmptied version s p (some told) = close-IsEmptied told

restart_preserved-IsEmptied :
    (env : Env) (version : Text) (s : Server) (r : Option RestartError × Process)
    → IsEmptied (restart_preserved env version s r).2
unfolding restart_preserved
restart_preserved-IsEmptied env version s (some e, p) = close-IsEmptied s
restart_preserved-IsEmptied env version s (none, p) =
    restart_told-IsEmptied version s p (notify_restarting env server_restart_retry_delay s)

module _ {Raised : Type 0} (encode : List ℕ → Text) (env : Env) (tls : Option ServerTls)
    (s : Server) (p : Process) where
  server_after-IsEmptied :
      (r : Race Raised)
      → (server_after encode env tls s p r).0 ≢ going
      → IsEmptied (server_after encode env tls s p r).2
  unfolding server_after restart_server
  server_after-IsEmptied waiting h = absurd (h refl)
  server_after-IsEmptied runtime_returned h = close-IsEmptied s
  server_after-IsEmptied (runtime_raised e) h = close-IsEmptied s
  server_after-IsEmptied (watch_raised e) h = close-IsEmptied s
  server_after-IsEmptied (updated change) h =
      restart_preserved-IsEmptied env change.current s
        (preserve_server_restart_state encode s.config tls p)

  -- However the child of a server ends, by its runtime, by an exception, or by a new version with or
  -- without the state that it needs, its server has no service, no pending tunnel and no client left.
  pub run_server_until_update-IsEmptied :
      (auto_restart : Bool) (runtime : Runtime Raised)
      (change : Result WatchError (Option VersionChange))
      → (run_server_until_update encode env tls auto_restart runtime change s p).0 ≢ going
      → IsEmptied (run_server_until_update encode env tls auto_restart runtime change s p).2
  unfolding run_server_until_update
  run_server_until_update-IsEmptied auto_restart runtime change h =
      server_after-IsEmptied (race_of auto_restart runtime true change) h
