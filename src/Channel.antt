-- ===== src/Channel.antt =====
-- src/py_frp/supervisor_ipc.py: the files by which the supervisor and one generation of its child talk,
-- and the environment that passes from child to child. A file holds the JSON value last written to
-- it, which is the value that is read; `none` is a file that is missing or unreadable.
pub mod Handover
pub mod Generations
use py_frp.Base.{
  String, Bool, true, false, ◌&&◌, ◌||◌, not, Option, none, some, List, [], ◌∷◌, is_some, is_empty,
  if◌then◌else◌,
}
use py_frp.Base.Int.{ℤ}
use py_frp.Base.Texts.{Text, txt, text_eq, text_in, starts_with}
use py_frp.Base.Dict.{Dict, get, set, pop, update, filter_keys}
use py_frp.Value.{Value, Fields, str, int, dict, obj, fields, of_fields, get_value, is_str}

abbrev pub supervised_child_env : Text
supervised_child_env = txt "PY_FRP_SUPERVISED_CHILD"

abbrev pub supervisor_root_env : Text
supervisor_root_env = txt "PY_FRP_SUPERVISOR_ROOT"

abbrev pub supervisor_generation_env : Text
supervisor_generation_env = txt "PY_FRP_SUPERVISOR_GENERATION"

abbrev pub legacy_windows_supervisor_env : Text
legacy_windows_supervisor_env = txt "PY_FRP_WINDOWS_RESTART_SUPERVISOR"

abbrev pub restart_env_prefix : Text
restart_env_prefix = txt "PY_FRP_RESTART_"

pub record ChildStatus : Type 0 where
  pub version : Text
  pub pid : ℤ

pub record RestartState : Type 0 where
  pub target_version : Text
  pub environment : Dict Text

-- The files in the supervisor's directory.
pub record Channel : Type 0 where
  pub status_file : Option Value
  pub command_file : Option Value
  pub restart_state_file : Option Value

-- A variable that passes from one child to the next.
unfoldable pub is_restart_key : Text → Bool
unfolding starts_with
is_restart_key k = starts_with k restart_env_prefix

-- `prepare_child_environment`: the files go, and the child is told where it belongs.
unfoldable pub prepare_child_environment : Text → Dict Text → Text → Channel → Dict Text × Channel
prepare_child_environment root base generation channel = (
  set supervisor_generation_env generation
      (set supervisor_root_env root (set supervised_child_env (txt "1") base)),
  record { status_file = none; command_file = none; restart_state_file = none },
)

-- `_read_json(path)`, and the generation that a payload must have.
unfoldable pub payload_of : Option Value → Text → Option Fields
unfolding get_value text_eq
payload_of none generation = none
payload_of (some (dict fs)) generation = elim (get_value "generation" fs) [
  | str g ↦ if text_eq g generation then some fs else none
  | _ ↦ none
]
payload_of (some v) generation = none

unfoldable pub status_of : Value → Value → Option ChildStatus
status_of (str version) (int pid) = some (record { version = version; pid = pid })
status_of v p = none

unfoldable pub read_status : Option Fields → Option ChildStatus
unfolding status_of get_value
read_status none = none
read_status (some fs) = status_of (get_value "version" fs) (get_value "pid" fs)

-- `child_status(generation)`. A pid is a number; `True` and `False` pass Python's test too.
unfoldable pub child_status : Text → Channel → Option ChildStatus
unfolding read_status payload_of
child_status generation channel = read_status (payload_of channel.status_file generation)

-- `request_restart(generation, target_version)`
unfoldable pub request_restart : Text → Text → Channel → Channel
request_restart generation target_version channel = record channel {
  command_file = some (
      obj (
        (txt "generation", str generation)
        ∷ (txt "command", str (txt "restart"))
        ∷ (txt "target_version", str target_version)
        ∷ []));
}

-- The entries of a JSON object that are restart variables with a text.
unfoldable pub restart_entries : Dict Value → Dict Text
restart_entries [] = []
restart_entries ((k, str v) ∷ d) =
    if is_restart_key k then (k, v) ∷ restart_entries d else restart_entries d
restart_entries ((k, v) ∷ d) = restart_entries d

state_of : Value → Value → Option RestartState
unfolding restart_entries
state_of (str target) (dict environment) =
    some (record { target_version = target; environment = restart_entries (fields environment) })
state_of t e = none

unfoldable pub read_state : Option Fields → Option RestartState
unfolding state_of get_value
read_state none = none
read_state (some fs) = state_of (get_value "target_version" fs) (get_value "environment" fs)

-- `restart_state(generation)`
unfoldable pub restart_state : Text → Channel → Option RestartState
unfolding read_state payload_of
restart_state generation channel = read_state (payload_of channel.restart_state_file generation)

-- `bool(os.environ.get(key))` and `os.environ.get(key) == "1"` of what `get` finds
unfoldable pub is_set : Option Text → Bool
is_set none = false
is_set (some v) = not (is_empty v)

unfoldable pub is_one : Option Text → Bool
is_one none = false
is_one (some v) = text_eq v (txt "1")

-- `is_supervised_child()`
unfoldable pub is_supervised_child : Dict Text → Bool
unfolding is_one is_set
is_supervised_child env =
    is_one (get supervised_child_env env)
    && is_set (get supervisor_root_env env)
    && is_set (get supervisor_generation_env env)

-- `_child_channel()`: the generation; the root is the channel itself.
unfoldable pub child_generation : Dict Text → Option Text
unfolding is_supervised_child
child_generation env = if is_supervised_child env then get supervisor_generation_env env else none

unfoldable pub publish_status : Option Text → Text → ℤ → Channel → Channel
publish_status none version pid channel = channel
publish_status (some generation) version pid channel = record channel {
  status_file = some (
      obj (
        (txt "generation", str generation)
        ∷ (txt "version", str version)
        ∷ (txt "pid", int pid)
        ∷ []));
}

-- `publish_child_status(version)` of the process with this environment and pid.
unfoldable pub publish_child_status : Dict Text → ℤ → Text → Channel → Channel
unfolding publish_status
publish_child_status env pid version channel =
    publish_status (child_generation env) version pid channel

unfoldable pub target_of : Option Fields → Option Text
unfolding get_value is_str
target_of none = none
target_of (some fs) =
    if is_str "restart" (get_value "command" fs)
    then (elim (get_value "target_version" fs) [
      | str t ↦ if is_empty t then none else some t
      | _ ↦ none
    ])
    else none

unfoldable pub command_target : Option Text → Channel → Option Text
unfolding target_of payload_of
command_target none channel = none
command_target (some generation) channel = target_of (payload_of channel.command_file generation)

-- `supervisor_restart_target()`
unfoldable pub supervisor_restart_target : Dict Text → Channel → Option Text
unfolding command_target
supervisor_restart_target env channel = command_target (child_generation env) channel

unfoldable pub text_values : Dict Text → Dict Value
text_values [] = []
text_values ((k, v) ∷ d) = (k, str v) ∷ text_values d

unfoldable pub publish_state : Option Text → Dict Text → Text → Channel → Bool × Channel
unfolding text_values
publish_state none env target_version channel = (false, channel)
publish_state (some generation) env target_version channel = (
  true,
  record channel {
    restart_state_file = some (
        obj (
          (txt "generation", str generation)
          ∷ (txt "target_version", str target_version)
          ∷ (txt "environment", obj (text_values (filter_keys is_restart_key env)))
          ∷ []));
  },
)

-- `publish_restart_state(target_version)`
unfoldable pub publish_restart_state : Dict Text → Text → Channel → Bool × Channel
unfolding publish_state
publish_restart_state env target_version channel =
    publish_state (child_generation env) env target_version channel

-- `clear_internal_environment(environment)`
unfoldable pub clear_internal_environment : Dict Text → Dict Text
clear_internal_environment = filter_keys (λ k. not (
    text_in k (
      supervised_child_env ∷ supervisor_root_env ∷ supervisor_generation_env
      ∷ legacy_windows_supervisor_env ∷ [])))

-- `replace_restart_environment(environment, restart_environment)`
unfoldable pub replace_restart_environment : Dict Text → Dict Text → Dict Text
replace_restart_environment env restart_env =
    update (filter_keys (λ k. not (is_restart_key k)) env) restart_env
