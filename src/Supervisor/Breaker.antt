-- ===== src/Supervisor/Breaker.antt =====
-- The state of `ProcessSupervisor` and the failures of a target. Times are whole milliseconds of a
-- monotonic clock.
use py_frp.Base.{
  ℕ, ◌+◌, Bool, true, false, ◌&&◌, not, Option, none, some, List, [], ◌∷◌, ◌++◌, length, ltb,
  is_some, if◌then◌else◌,
}
use py_frp.Base.Texts.{Text, text_eq}
use py_frp.Base.Dict
use py_frp.Base.Dict.{Dict}

-- RESTART_FAILURE_LIMIT
abbrev pub restart_failure_limit : ℕ
restart_failure_limit = 3

-- RESTART_FAILURE_WINDOW
abbrev pub restart_failure_window : ℕ
restart_failure_window = 30000

pub record Supervisor : Type 0 where
  pub auto_restart : Bool
  pub update_interval : ℕ
  pub environment : Dict Text
  pub failures : Dict (List ℕ)
  pub suppressed_target : Option Text

-- `a == b` where a text is compared with an optional one.
unfoldable pub is_text : Text → Option Text → Bool
is_text t none = false
is_text t (some u) = text_eq t u

-- `while failures and failures[0] < cutoff: failures.popleft()`
unfoldable pub drop_old : ℕ → List ℕ → List ℕ
drop_old now [] = []
drop_old now (t ∷ ts) = if ltb (t + restart_failure_window) now then drop_old now ts else t ∷ ts

-- The failures of a target after one at `now`; a missing entry is an empty deque.
unfoldable pub failures_at : ℕ → Option (List ℕ) → List ℕ
unfolding drop_old
failures_at now none = now ∷ []
failures_at now (some ts) = drop_old now ts ++ now ∷ []

-- `_record_failure(target, reason)`: whether the target is now suppressed.
unfoldable pub record_failure : Text → ℕ → Supervisor → Bool × Supervisor
unfolding failures_at
record_failure target now s =
    let times = failures_at now (Dict.get target s.failures) in
    let kept = Dict.set target times s.failures in
    if ltb (length times) restart_failure_limit
    then (false, record s { failures = kept })
    else (true, record s { failures = kept; suppressed_target = some target })

-- `_clear_failures(target)`
unfoldable pub clear_failures : Text → Supervisor → Supervisor
unfolding is_text
clear_failures target s = record s {
  failures = Dict.pop target s.failures;
  suppressed_target = if is_text target s.suppressed_target then none else s.suppressed_target;
}

-- `_clear_suppression_if_version_changed(current)`
unfoldable pub clear_suppression : Text → Supervisor → Supervisor
unfolding is_text
clear_suppression current s =
    if is_some s.suppressed_target && not (is_text current s.suppressed_target)
    then record s { failures = []; suppressed_target = none }
    else s

-- `_wait_until_suppression_clears(target)` over the versions that are read; `none` is to wait on.
unfoldable pub wait_until_clear :
    Text → List (Option Text) → Supervisor → Option (Text × Supervisor)
unfolding clear_suppression
wait_until_clear target [] s = none
wait_until_clear target (none ∷ readings) s = wait_until_clear target readings s
wait_until_clear target (some current ∷ readings) s =
    if text_eq current target
    then wait_until_clear target readings s
    else some (current, clear_suppression current s)
