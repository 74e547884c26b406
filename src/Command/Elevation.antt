-- ===== src/Command/Elevation.antt =====
-- `_run_server_command` and `_run_client_command` up to the runtime, the relaunch with administrator
-- rights of src/py_frp/elevate.py, and the exit codes of `main`.
use py_frp.Base.{
  ℕ, Bool, false, ◌&&◌, ◌||◌, not, Option, none, some, List, [], ◌∷◌, ◌++◌, is_empty, ltb, keep_if,
  map, if◌then◌else◌,
}
use py_frp.Base.Int.{ℤ, pos}
use py_frp.Base.Texts.{Text, txt}
use py_frp.Base.Result.{Result, ok, err}
use py_frp.Value.{Float}
use py_frp.Config.Types.{ServerConfig, ServerServiceConfig, ClientConfig}
use py_frp.Config.Fields.{ConfigError, config, overflow, uncaught}
use py_frp.Command.Address.{positive_argument}
use py_frp.Command.Options.{
  Outside, ServerArgs, ClientArgs, load_server_command_config, load_client_command_config,
}

-- The system: whether it is Windows, whether the process has administrator rights, and the exit code of
-- a relaunched command, `none` where `py_admin_launch` is not installed.
pub record System : Type 0 where
  pub windows : Bool
  pub admin : Bool
  pub launch : List Text → Option ℤ

pub record Elevation : Type 0 where
  pub elevate : Bool
  pub auto_elevate : Bool
  pub elevation_attempted : Bool

-- What a command comes to before its runtime: an exception, the exit code of a relaunched command, or a
-- runtime with its configuration and the interval of the watch.
pub data Start (Config : Type 0) : Type 0 where
  refused : ConfigError → Start Config
  not_elevated : Start Config
  relaunched : ℤ → Start Config
  starts : Config → Float → Start Config

-- `privileged_listen_ports(config)`
unfoldable pub privileged_listen_ports : ServerConfig → List ℕ
privileged_listen_ports c =
    keep_if (λ p. ltb 0 p && ltb p 1024)
      (c.bind_port ∷ map (λ (svc : ServerServiceConfig). svc.bind_port) c.services ++ c.port_pool)

-- `should_elevate_server(config)`
unfoldable pub should_elevate_server : System → ServerConfig → Bool
unfolding privileged_listen_ports
should_elevate_server system c =
    if system.windows then false else not (is_empty (privileged_listen_ports c))

unfoldable pub needs_relaunch : System → Elevation → ServerConfig → Bool
unfolding should_elevate_server
needs_relaunch system e c =
    (e.elevate || (e.auto_elevate && should_elevate_server system c))
    && not e.elevation_attempted
    && not system.admin

-- `relaunch_once(argv)`, whose command is that of the process with one argument more.
unfoldable pub relaunch_once : {Config : Type 0} → System → List Text → Start Config
relaunch_once system argv = elim (system.launch (argv ++ txt "--elevation-attempted" ∷ [])) [
  | none ↦ not_elevated
  | some code ↦ relaunched code
]

unfoldable pub with_interval : {Config : Type 0} → Config → Result ConfigError Float → Start Config
with_interval c (err e) = refused e
with_interval c (ok interval) = starts c interval

unfoldable pub server_with :
    System → Elevation → List Text → Float → Result ConfigError ServerConfig → Start ServerConfig
unfolding needs_relaunch relaunch_once with_interval positive_argument
server_with system e argv interval (err f) = refused f
server_with system e argv interval (ok c) =
    if needs_relaunch system e c
    then relaunch_once system argv
    else with_interval c (positive_argument interval)

-- `_run_server_command(args, effective_argv)`
unfoldable pub run_server_command :
    Outside → System → ServerArgs → Elevation → List Text → Float → Start ServerConfig
unfolding server_with load_server_command_config
run_server_command outside system args e argv interval =
    server_with system e argv interval (load_server_command_config outside args)

unfoldable pub client_with : Float → Result ConfigError ClientConfig → Start ClientConfig
unfolding with_interval positive_argument
client_with interval (err f) = refused f
client_with interval (ok c) = with_interval c (positive_argument interval)

-- `_run_client_command(args)`
unfoldable pub run_client_command : Outside → ClientArgs → Float → Start ClientConfig
unfolding client_with load_client_command_config
run_client_command outside args interval =
    client_with interval (load_client_command_config outside args)

-- The exit code of `main` for a command that does not come to its runtime.
unfoldable pub exit_code_of : {Config : Type 0} → Start Config → Option ℤ
exit_code_of (refused (config why)) = some (pos 2)
exit_code_of (refused overflow) = some (pos 1)
exit_code_of (refused uncaught) = some (pos 1)
exit_code_of not_elevated = some (pos 1)
exit_code_of (relaunched code) = some code
exit_code_of (starts c interval) = none
