-- ===== src/Update.antt =====
-- src/py_frp/update.py: the watch for a new version beside the runtime. What is read at each tick is an
-- argument: the version that is installed, and the files of the supervisor.
pub mod Watch
use py_frp.Base.{
  Bool, true, false, ◌||◌, Option, none, some, List, [], ◌∷◌, if◌then◌else◌, is_empty,
}
use py_frp.Base.Texts.{Text, text_eq}
use py_frp.Base.Dict.{Dict, get, pop}
use py_frp.Base.Result.{Result, ok, err}
use py_frp.Value.{Float}
use py_frp.Config.Fields.{not_positive}
use py_frp.Channel.{Channel, is_supervised_child, supervisor_restart_target}
use py_frp.Restart.Request.{restart_target_version_env}

pub record VersionChange : Type 0 where
  pub previous : Text
  pub current : Text

-- A tick of the watch: the supervisor's files, and what `version_reader` returns.
pub record VersionTick : Type 0 where
  pub channel : Channel
  pub installed : Option Text

unfoldable pub failed_target : Text → Dict Text → Option Text → Option Text × Dict Text
unfolding pop text_eq
failed_target loaded_version environment none = (none, environment)
failed_target loaded_version environment (some target) =
    if is_empty target
    then (none, environment)
    else if text_eq target loaded_version
    then (none, pop restart_target_version_env environment)
    else (some target, environment)

-- `_failed_restart_target(loaded_version)`: a target that an earlier restart has missed, and the
-- environment.
unfoldable pub failed_restart_target : Text → Dict Text → Option Text × Dict Text
unfolding failed_target get
failed_restart_target loaded_version environment =
    failed_target loaded_version environment (get restart_target_version_env environment)

unfoldable pub is_target : Option Text → Text → Bool
unfolding text_eq
is_target none v = false
is_target (some target) v = text_eq v target

-- Whether what is read is the baseline, the suppressed target, or nothing.
unfoldable pub is_old : Text → Option Text → Option Text → Bool
unfolding is_target text_eq
is_old baseline suppressed none = true
is_old baseline suppressed (some v) = text_eq v baseline || is_target suppressed v

unfoldable pub change_to : Text → Option Text → Option VersionChange
change_to baseline none = none
change_to baseline (some v) = some (record { previous = baseline; current = v })

-- The loop over what is read; `none` when the watch goes on.
unfoldable pub watch : Text → Option Text → List (Option Text) → Option VersionChange
unfolding is_old change_to
watch baseline suppressed [] = none
watch baseline suppressed (current ∷ later) = elim (is_old baseline suppressed current) [
  | true ↦ watch baseline suppressed later
  | false ↦ change_to baseline current
]

unfoldable pub readings : Bool → Dict Text → List VersionTick → List (Option Text)
unfolding supervisor_restart_target
readings supervised environment [] = []
readings supervised environment (t ∷ ticks) =
    (if supervised then supervisor_restart_target environment t.channel else t.installed)
    ∷ readings supervised environment ticks

unfoldable pub suppressed_target : Bool → Text → Dict Text → Option Text
unfolding failed_restart_target
suppressed_target supervised baseline environment =
    if supervised then none else (failed_restart_target baseline environment).0

-- `ValueError`
pub data WatchError : Type 0 where
  not_positive_interval : WatchError

-- `wait_for_version_change(interval=interval)` of the loaded version, with no `initial_version`.
unfoldable pub wait_for_version_change :
    Text → Float → Dict Text → List VersionTick → Result WatchError (Option VersionChange)
unfolding watch readings suppressed_target not_positive is_supervised_child
wait_for_version_change loaded_version interval environment ticks =
    if not_positive interval
    then err not_positive_interval
    else ok (
        watch loaded_version
          (suppressed_target (is_supervised_child environment) loaded_version environment)
          (readings (is_supervised_child environment) environment ticks))

-- How far the runtime is when one of the two tasks is first done.
pub data Runtime (Raised : Type 0) : Type 0 where
  running returned : Runtime Raised
  raised : Raised → Runtime Raised

-- How `run_until_version_change` ends, if it does.
pub data Race (Raised : Type 0) : Type 0 where
  waiting runtime_returned : Race Raised
  runtime_raised : Raised → Race Raised
  watch_raised : WatchError → Race Raised
  updated : VersionChange → Race Raised

unfoldable pub runtime_end : {Raised : Type 0} → Runtime Raised → Race Raised
runtime_end running = waiting
runtime_end returned = runtime_returned
runtime_end (raised e) = runtime_raised e

-- `_wait_until_restart_ready`: a change counts when the child is ready.
unfoldable pub when_ready : Bool → Option VersionChange → Option VersionChange
when_ready ready none = none
when_ready ready (some change) = if ready then some change else none

-- `run_until_version_change`: the watch wins over a runtime that is done at the same time.
unfoldable pub run_until_version_change :
    {Raised : Type 0}
    → Runtime Raised
    → Bool
    → Result WatchError (Option VersionChange)
    → Race Raised
unfolding runtime_end when_ready
run_until_version_change runtime ready (err e) = watch_raised e
run_until_version_change runtime ready (ok change) = elim (when_ready ready change) [
  | none ↦ runtime_end runtime
  | some c ↦ updated c
]
