-- ===== src/Supervisor/Rounds.antt =====
-- `_run_children`: one child after another.
use py_frp.Base.{
  ℕ, Bool, true, false, not, Option, none, some, List, [], ◌∷◌, is_some, if◌then◌else◌,
}
use py_frp.Base.Int.{ℤ, pos}
use py_frp.Base.Texts.{Text, txt, text_eq}
use py_frp.Base.Dict
use py_frp.Base.Dict.{Dict}
use py_frp.Channel.{ChildStatus, RestartState, replace_restart_environment}
use py_frp.Supervisor.Breaker.{Supervisor, record_failure, clear_failures, wait_until_clear}
use py_frp.Supervisor.Monitor.{MonitorResult, Tick, Watch, monitor_child}

abbrev pub target_version_env : Text
target_version_env = txt "PY_FRP_RESTART_TARGET_VERSION"

pub record LaunchResult : Type 0 where
  pub status : Option ChildStatus
  pub returncode : Option ℤ

-- What happens to one child.
pub record Generation : Type 0 where
  pub launch : LaunchResult
  pub now : ℕ
  pub readings : List (Option Text)
  pub ticks : List Tick
  pub state : Option RestartState

-- After a round of `_run_children`: the next child, the end, or a wait that goes on.
pub data Next : Type 0 where
  again : Option Text → Supervisor → Next
  exits : ℤ → Supervisor → Next
  waits : Supervisor → Next

-- `1 if returncode is None else returncode`
abbrev pub exit_code : Option ℤ → ℤ
exit_code none = pos 1
exit_code (some code) = code

waited : Option (Text × Supervisor) → Supervisor → Next
waited none s = waits s
waited (some (target, s')) s = again (some target) s'

-- A failure is recorded; when that suppresses the target, the supervisor waits for another version.
retry_after : Text → List (Option Text) → Bool × Supervisor → Next
unfolding waited wait_until_clear
retry_after target readings (true, s) = waited (wait_until_clear target readings s) s
retry_after target readings (false, s) = again (some target) s

failed_launch : Option Text → Generation → Supervisor → Next
unfolding retry_after record_failure
failed_launch none g s = exits (exit_code g.launch.returncode) s
failed_launch (some target) g s = retry_after target g.readings (record_failure target g.now s)

-- `target is not None and child_version != target`
unfoldable pub version_mismatch : Option Text → Text → Bool
version_mismatch none version = false
version_mismatch (some target) version = not (text_eq version target)

unfoldable pub note_mismatch : Bool → Option Text → ℕ → Supervisor → Supervisor
unfolding record_failure
note_mismatch true (some target) now s = (record_failure target now s).1
note_mismatch _ target now s = s

unfoldable pub unstable_launch : Bool → Option Text → Generation → Supervisor → Next
unfolding failed_launch
unstable_launch mismatch none g s = exits (exit_code g.launch.returncode) s
unstable_launch true (some target) g s = again (some target) s
unstable_launch false (some target) g s = failed_launch (some target) g s

settle : Bool → Option Text → Supervisor → Supervisor
unfolding clear_failures
settle false (some target) s = clear_failures target s
settle _ target s = s

-- `state.target_version or result.restart_target`
abbrev next_target : Text → Text → Text
next_target [] t = t
next_target (c ∷ cs) t = c ∷ cs

take_over : Text → Option RestartState → Supervisor → Next
unfolding replace_restart_environment
take_over target none s = exits (pos 1) s
take_over target (some state) s = again (some (next_target state.target_version target)) (record s {
  environment =
      Dict.pop target_version_env (replace_restart_environment s.environment state.environment);
})

monitored : Option MonitorResult × Watch → Option RestartState → Next
unfolding take_over
monitored (none, w) state = waits w.supervisor
monitored (some r, w) state = elim r.restart_target [
  | none ↦ exits (exit_code r.returncode) w.supervisor
  | some target ↦ take_over target state w.supervisor
]

monitor : Text → Generation → Supervisor → Next
unfolding monitored monitor_child
monitor version g s =
    monitored
      (monitor_child version g.ticks
        (record { supervisor = s; next_check = 0; requested_target = none; requests = [] }))
      g.state

unfoldable pub launched : Option Text → Generation → Text → Bool → Supervisor → Next
unfolding unstable_launch monitor settle
launched target g version mismatch s =
    if is_some g.launch.returncode
    then unstable_launch mismatch target g s
    else monitor version g (settle mismatch target s)

-- One round of the loop of `_run_children`.
unfoldable pub run_child : Option Text → Generation → Supervisor → Next
unfolding failed_launch launched note_mismatch version_mismatch
run_child target g s = elim g.launch.status [
  | none ↦ failed_launch target g s
  | some status ↦
      let mismatch = version_mismatch target status.version in
      launched target g status.version mismatch (note_mismatch mismatch target g.now s)
]

-- `_run_children(channel)` over the children to come.
unfoldable pub run_children : List Generation → Option Text → Supervisor → Next
unfolding run_child
run_children [] target s = again target s
run_children (g ∷ gs) target s = elim (run_child target g s) [
  | again next s' ↦ run_children gs next s'
  | exits code s' ↦ exits code s'
  | waits s' ↦ waits s'
]
