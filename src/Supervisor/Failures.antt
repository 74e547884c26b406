-- ===== src/Supervisor/Failures.antt =====
-- When failures of a target suppress it.
use py_frp.Base.{
  ℕ, ◌+◌, ◌≤◌, ◌≡◌, ◌↔◌, refl, ap, ◌∙◌, Bool, true, false, Option, none, some, List, [], ◌∷◌, ◌++◌,
  arith, length, length-append, keep_if, leb, ltb, if◌then◌else◌, All,
}
use py_frp.Base.Texts.{Text, text_eq}
use py_frp.Base.Dict
use py_frp.Base.Dict.{get-set}
use py_frp.Supervisor.Breaker.{
  Supervisor, restart_failure_window, restart_failure_limit, drop_old, failures_at, record_failure,
}

-- Failures are recorded in the order of their times.
abbrev pub IsAscending : List ℕ → Type 0
IsAscending [] = Unit
IsAscending (t ∷ ts) = All (λ u. t ≤ u) ts × IsAscending ts

-- The failures of the last 30 seconds.
abbrev pub recent : ℕ → List ℕ → List ℕ
recent now = keep_if (λ t. leb now (t + restart_failure_window))

recent-All :
    (now t : ℕ) (ts : List ℕ)
    → now ≤ t + restart_failure_window
    → All (λ u. t ≤ u) ts
    → recent now ts ≡ ts
recent-All now t [] h a = refl
recent-All now t (u ∷ ts) h a = ground (arith, recent-All now t ts h a.1)

drop_old-recent : (now : ℕ) (ts : List ℕ) → IsAscending ts → drop_old now ts ≡ recent now ts
unfolding drop_old
drop_old-recent now [] a = refl
drop_old-recent now (t ∷ ts) a = ground (arith, drop_old-recent now ts a.1, recent-All now t ts)

-- The failures that are on record for a target.
abbrev pub recorded : Text → Supervisor → List ℕ
recorded target s = elim (Dict.get target s.failures) [ none ↦ [] | some ts ↦ ts ]

failures_at-recorded :
    (now : ℕ) (o : Option (List ℕ)) (ts : List ℕ)
    → (elim o [ none ↦ [] | some us ↦ us ]) ≡ ts
    → IsAscending ts
    → failures_at now o ≡ recent now ts ++ now ∷ []
unfolding failures_at
failures_at-recorded now none ts e a = rw (← e) refl
failures_at-recorded now (some us) ts e a =
    ap (λ (x : List ℕ). x ++ now ∷ []) (ap (drop_old now) e ∙ drop_old-recent now ts a)

times-length :
    (now : ℕ) (ts : List ℕ) → length (recent now ts ++ now ∷ []) ≡ length (recent now ts) + 1
times-length now ts = length-append (recent now ts) (now ∷ [])

-- The conclusion for the failures `times` of the target, `m` of them old.
limit-outcome :
    (target : Text) (times : List ℕ) (m : ℕ) (s : Supervisor)
    → length times ≡ m + 1
    → (r : Bool × Supervisor)
    → r ≡ (
        if ltb (length times) restart_failure_limit
        then (false, record s { failures = Dict.set target times s.failures })
        else (
          true,
          record s { failures = Dict.set target times s.failures; suppressed_target = some target },
        ))
    → ((r.0 ≡ true) ↔ (2 ≤ m))
      × (r.1.suppressed_target ≡ (if leb 2 m then some target else s.suppressed_target))
      × (r.1.failures ≡ Dict.set target times s.failures)
limit-outcome target times m s n r e = ground arith

-- Where the failures on record for a target are in the order of their times: a failure suppresses its
-- target exactly when two more of the target's failures lie in the 30 seconds before it; it is put on
-- record behind those, and the records of the other targets stay.
pub record_failure_lem :
    (target : Text) (now : ℕ) (s : Supervisor)
    → IsAscending (recorded target s)
    → (((record_failure target now s).0 ≡ true) ↔ (2 ≤ length (recent now (recorded target s))))
      × ((record_failure target now s).1.suppressed_target ≡ (
          if leb 2 (length (recent now (recorded target s)))
          then some target
          else s.suppressed_target))
      × ((k : Text)
          → Dict.get k (record_failure target now s).1.failures ≡ (
              if text_eq target k
              then some (recent now (recorded target s) ++ now ∷ [])
              else Dict.get k s.failures))
unfolding record_failure
record_failure_lem target now s a =
    let times = failures_at now (Dict.get target s.failures) in
    let old = recent now (recorded target s) in
    let e = failures_at-recorded now (Dict.get target s.failures) (recorded target s) refl a in
    let o =
      limit-outcome target times (length old) s
        (ap (length {A = ℕ}) e ∙ times-length now (recorded target s)) (record_failure target now s)
        refl in
    (
      o.0,
      o.1,
      λ k.
          ap (Dict.get k) o.2
          ∙ get-set target k times s.failures
          ∙ ap (λ x. if text_eq target k then some x else Dict.get k s.failures) e,
    )
