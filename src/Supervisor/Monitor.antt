-- ===== src/Supervisor/Monitor.antt =====
-- `_monitor_child`: a child runs until it exits, and is asked to restart when another version is found.
use py_frp.Base.{ℕ, ◌+◌, ◌||◌, not, Option, none, some, List, [], ◌∷◌, ◌++◌, ltb, if◌then◌else◌}
use py_frp.Base.Int.{ℤ, pos, eqb_ℤ}
use py_frp.Base.Texts.{Text, txt, text_eq}
use py_frp.Supervisor.Breaker.{Supervisor, is_text, clear_suppression}

-- CHILD_RESTART_EXIT_CODE
abbrev pub child_restart_exit_code : ℤ
child_restart_exit_code = pos 75

pub record MonitorResult : Type 0 where
  pub returncode : Option ℤ
  pub restart_target : Option Text

-- One round of the loop of `_monitor_child`: the child has exited, or it runs at a time at which the
-- version would be read as given.
pub data Tick : Type 0 where
  exited : ℤ → Tick
  runs : ℕ → Option Text → Tick

-- The variables of that loop, with the restart requests that it sends.
pub record Watch : Type 0 where
  pub supervisor : Supervisor
  pub next_check : ℕ
  pub requested_target : Option Text
  pub requests : List Text

-- `requested_target or "unknown"`
known_target : Option Text → Text
known_target none = txt "unknown"
known_target (some []) = txt "unknown"
known_target (some (c ∷ cs)) = c ∷ cs

exit_result : ℤ → Option Text → MonitorResult
unfolding known_target
exit_result code requested =
    if eqb_ℤ code child_restart_exit_code
    then record { returncode = none; restart_target = some (known_target requested) }
    else record { returncode = some code; restart_target = none }

-- A check that finds `current` installed.
unfoldable pub see_version : Text → Text → Watch → Watch
unfolding clear_suppression is_text
see_version child_version current w =
    let s = clear_suppression current w.supervisor in
    if text_eq current child_version || is_text current s.suppressed_target
    then record w { supervisor = s }
    else if is_text current w.requested_target
    then record w { supervisor = s }
    else record w {
      supervisor = s;
      requested_target = some current;
      requests = w.requests ++ current ∷ [];
    }

check_version : Text → ℕ → Option Text → Watch → Watch
unfolding see_version
check_version child_version now none w = record w {
  next_check = now + w.supervisor.update_interval;
}
check_version child_version now (some current) w =
    see_version child_version current (record w { next_check = now + w.supervisor.update_interval })

-- One tick at which the child runs.
unfoldable pub watch_tick : Text → ℕ → Option Text → Watch → Watch
unfolding check_version
watch_tick child_version now installed w =
    if not w.supervisor.auto_restart || ltb now w.next_check
    then w
    else check_version child_version now installed w

-- `_monitor_child(channel, generation, child_version)`; no result while the child runs on.
unfoldable pub monitor_child : Text → List Tick → Watch → Option MonitorResult × Watch
unfolding watch_tick exit_result
monitor_child child_version [] w = (none, w)
monitor_child child_version (exited code ∷ ticks) w =
    (some (exit_result code w.requested_target), w)
monitor_child child_version (runs now installed ∷ ticks) w =
    monitor_child child_version ticks (watch_tick child_version now installed w)
