-- ===== src/Supervisor/Rotation.antt =====
-- Children that report another version than the target, and exit during startup validation.
use py_frp.Base.{◌≡◌, refl, false, some, List, [], ◌∷◌, arith, All}
use py_frp.Base.Int.{ℤ}
use py_frp.Base.Texts.{Text, text_eq}
use py_frp.Channel.{ChildStatus}
use py_frp.Supervisor.Breaker.{Supervisor, record_failure}
use py_frp.Supervisor.Rounds.{
  Generation, again, run_child, run_children, version_mismatch, note_mismatch, launched,
  unstable_launch,
}

-- The launch of a child that reports a version other than `target` and exits before it is stable.
abbrev pub IsWrong : Text → Generation → Type 0
IsWrong target g =
    (status : ChildStatus) × (code : ℤ) × (g.launch.status ≡ some status)
    × (g.launch.returncode ≡ some code)
    × (text_eq status.version target ≡ false)

-- The failures of such children, recorded one after another.
abbrev pub failures_of : Text → List Generation → Supervisor → Supervisor
failures_of target [] s = s
failures_of target (g ∷ gs) s = failures_of target gs (record_failure target g.now s).1

run_child_wrong :
    (target : Text) (g : Generation) (s : Supervisor)
    → IsWrong target g
    → run_child (some target) g s ≡ again (some target) (record_failure target g.now s).1
unfolding run_child version_mismatch note_mismatch launched unstable_launch
run_child_wrong target g s (status, code, e, r, v) = ground arith

-- However many children in a row load a wrong version and exit during startup, the supervisor launches
-- the next one for the same target, with each failure on record: no number of failures makes it wait.
pub run_children_wrong :
    (target : Text) (gs : List Generation) (s : Supervisor)
    → All (IsWrong target) gs
    → run_children gs (some target) s ≡ again (some target) (failures_of target gs s)
unfolding run_children
run_children_wrong target [] s a = refl
run_children_wrong target (g ∷ gs) s (w, a) = ground (
  arith,
  run_child_wrong target g s w,
  run_children_wrong target gs (record_failure target g.now s).1 a,
)
