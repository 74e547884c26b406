-- ===== src/Restart/Request.antt =====
-- `request_restart`: the child publishes its restart variables and asks its parent for a new child.
use py_frp.Base.{if◌then◌else◌}
use py_frp.Base.Int.{ℤ}
use py_frp.Base.Texts.{Text, txt}
use py_frp.Base.Dict.{Dict, set}
use py_frp.Base.Result.{Result, ok, err}
use py_frp.Supervisor.Monitor.{child_restart_exit_code}
use py_frp.Channel.{Channel, publish_restart_state}

abbrev pub restart_target_version_env : Text
restart_target_version_env = txt "PY_FRP_RESTART_TARGET_VERSION"

-- A child: its environment and the files it shares with its parent.
pub record Process : Type 0 where
  pub environment : Dict Text
  pub channel : Channel

-- The exceptions on the way to a restart: no supervisor, no TLS material, no trusted fingerprint,
-- and a retry delay that is not positive.
pub data RestartError : Type 0 where
  no_supervisor not_started not_trusted not_positive_delay : RestartError

-- `request_restart(expected_version)`: the exit code, or an exception.
unfoldable pub request_restart : Text → Process → Result RestartError ℤ × Process
unfolding publish_restart_state set
request_restart expected_version p =
    let environment = set restart_target_version_env expected_version p.environment in
    let published = publish_restart_state environment expected_version p.channel in
    (
      (if published.0 then ok child_restart_exit_code else err no_supervisor),
      record { environment = environment; channel = published.1 },
    )
