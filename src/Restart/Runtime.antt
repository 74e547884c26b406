-- ===== src/Restart/Runtime.antt =====
-- `_run_server_until_update` and `_run_client_until_update` of src/py_frp/cli.py: a runtime that may be
-- ended by a new version.
use py_frp.Base.{ℕ, Bool, true, Option, List, if◌then◌else◌}
use py_frp.Base.Int.{ℤ, pos}
use py_frp.Base.Texts.{Text}
use py_frp.Base.Result.{Result, ok, err}
use py_frp.Server.State.{Server, Env}
use py_frp.Server.Sessions.{close}
use py_frp.Client.State.{Client}
use py_frp.Client.Trust.{wait_until_trusted}
use py_frp.Update.{
  VersionChange, WatchError, Runtime, Race, waiting, runtime_returned, runtime_raised, watch_raised,
  updated, runtime_end, run_until_version_change,
}
use py_frp.Restart.Request.{Process, RestartError}
use py_frp.Restart.Tls.{ServerTls}
use py_frp.Restart.Children.{restart_client, restart_server}

-- How a child ends: it goes on, it returns an exit code, or an exception passes through.
pub data ChildEnd (Raised : Type 0) : Type 0 where
  going : ChildEnd Raised
  exits : ℤ → ChildEnd Raised
  raises : Raised → ChildEnd Raised
  watch_raises : WatchError → ChildEnd Raised
  restart_raises : RestartError → ChildEnd Raised

unfoldable pub restart_end : {Raised : Type 0} → Result RestartError ℤ → ChildEnd Raised
restart_end (ok code) = exits code
restart_end (err e) = restart_raises e

-- The runtime alone, or against the watch.
unfoldable pub race_of :
    {Raised : Type 0}
    → Bool
    → Runtime Raised
    → Bool
    → Result WatchError (Option VersionChange)
    → Race Raised
unfolding run_until_version_change runtime_end
race_of auto_restart runtime ready change =
    if auto_restart then run_until_version_change runtime ready change else runtime_end runtime

unfoldable pub client_after :
    {Raised : Type 0} → Client → Process → Race Raised → ChildEnd Raised × Process
unfolding restart_client restart_end
client_after c p waiting = (going, p)
client_after c p runtime_returned = (exits (pos 0), p)
client_after c p (runtime_raised e) = (raises e, p)
client_after c p (watch_raised e) = (watch_raises e, p)
client_after c p (updated change) =
    let r = restart_client change.current c p in (restart_end r.0, r.1)

-- `_run_client_until_update` of a client that is `c` when one of the tasks is done.
unfoldable pub run_client_until_update :
    {Raised : Type 0}
    → Bool
    → Runtime Raised
    → Result WatchError (Option VersionChange)
    → Client
    → Process
    → ChildEnd Raised × Process
unfolding client_after race_of wait_until_trusted
run_client_until_update auto_restart runtime change c p =
    client_after c p (race_of auto_restart runtime (wait_until_trusted c).0 change)

unfoldable pub server_after :
    {Raised : Type 0}
    → (List ℕ → Text)
    → Env
    → Option ServerTls
    → Server
    → Process
    → Race Raised
    → ChildEnd Raised × Process × Server
unfolding restart_server restart_end close
server_after encode env tls s p waiting = (going, p, s)
server_after encode env tls s p runtime_returned = (exits (pos 0), p, close s)
server_after encode env tls s p (runtime_raised e) = (raises e, p, close s)
server_after encode env tls s p (watch_raised e) = (watch_raises e, p, close s)
server_after encode env tls s p (updated change) =
    let r = restart_server encode env change.current tls s p in (restart_end r.0, r.1, r.2)

-- `_run_server_until_update` of a server that is `s` when one of the tasks is done.
unfoldable pub run_server_until_update :
    {Raised : Type 0}
    → (List ℕ → Text)
    → Env
    → Option ServerTls
    → Bool
    → Runtime Raised
    → Result WatchError (Option VersionChange)
    → Server
    → Process
    → ChildEnd Raised × Process × Server
unfolding server_after race_of
run_server_until_update encode env tls auto_restart runtime change s p =
    server_after encode env tls s p (race_of auto_restart runtime true change)
