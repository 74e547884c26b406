-- ===== src/Tests/Children.antt =====
-- The supervisor and its children, and the fingerprints: src/py_frp/supervisor.py,
-- src/py_frp/supervisor_ipc.py and src/py_frp/security.py.
use py_frp.Base.{
  ℕ, ◌≤◌, ◌≡◌, ◌↔◌, refl, true, false, none, some, List, [], ◌∷◌, ◌++◌, arith, length, leb,
  if◌then◌else◌, is_empty, not, ◌&&◌,
}
use py_frp.Base.Int.{pos}
use py_frp.Base.Texts.{Text, txt, text_eq}
use py_frp.Base.Dict
use py_frp.Base.Dict.{Dict, IsDict, get}
use py_frp.Channel.{
  Channel, child_generation, publish_restart_state, restart_state, replace_restart_environment,
  is_restart_key, publish_child_status, child_status, request_restart, supervisor_restart_target,
}
use py_frp.Channel.Handover.{handover}
use py_frp.Channel.Generations.{child_status-publish, supervisor_restart_target-request}
use py_frp.Supervisor.Breaker.{Supervisor, record_failure}
use py_frp.Supervisor.Rounds.{Generation, run_children, again}
use py_frp.Supervisor.Failures.{IsAscending, recent, recorded, record_failure_lem}
use py_frp.Supervisor.Rotation.{IsWrong, failures_of, run_children_wrong}
use py_frp.Fingerprint.{Parsed, parse_fingerprint, fingerprints_equal}
use py_frp.Fingerprint.Matching.{Fits, fingerprints_equal_lem, fingerprints_equal_comm}

abbrev pub empty_channel : Channel
empty_channel = record { status_file = none; command_file = none; restart_state_file = none }

-- The environment of a child of generation "g", with a restart variable.
abbrev pub child_environment : Dict Text
child_environment =
    (txt "PY_FRP_SUPERVISED_CHILD", txt "1")
    ∷ (txt "PY_FRP_SUPERVISOR_ROOT", txt "/tmp/x")
    ∷ (txt "PY_FRP_SUPERVISOR_GENERATION", txt "g")
    ∷ (txt "PY_FRP_RESTART_POOL_TOKEN", txt "secret")
    ∷ []

pub child_environment-generation : child_generation child_environment ≡ some (txt "g")
unfolding child_generation get text_eq
child_environment-generation = refl

pub child_environment-IsDict : IsDict child_environment
unfolding get text_eq
child_environment-IsDict = (refl, (refl, (refl, (refl, tt))))

handover_example :
    (passed : Dict Text) × (restart_state
        (txt "g")
        (publish_restart_state child_environment (txt "2.0") empty_channel).1
      ≡ some (record { target_version = txt "2.0"; environment = passed }))
    × ((k : Text)
        → get k (replace_restart_environment [] passed)
          ≡ (if is_restart_key k then get k child_environment else get k []))
handover_example =
    handover (txt "g") [] child_environment empty_channel (txt "2.0") child_environment-generation
      child_environment-IsDict

child_status-publish_example :
    child_status
      (txt "h")
      (publish_child_status child_environment (pos 7) (txt "2.0") empty_channel)
    ≡ (if text_eq (txt "g") (txt "h")
        then some (record { version = txt "2.0"; pid = pos 7 })
        else none)
child_status-publish_example =
    child_status-publish (txt "g") (txt "h") child_environment (pos 7) (txt "2.0") empty_channel
      child_environment-generation

supervisor_restart_target-request_example :
    supervisor_restart_target child_environment
      (request_restart (txt "g") (txt "2.0") empty_channel)
    ≡ (if text_eq (txt "g") (txt "g") && not (is_empty (txt "2.0")) then some (txt "2.0") else none)
supervisor_restart_target-request_example =
    supervisor_restart_target-request (txt "g") (txt "g") child_environment (txt "2.0")
      empty_channel child_environment-generation

abbrev two_failures : Supervisor
two_failures = record {
  auto_restart = true;
  update_interval = 60000;
  environment = [];
  failures = (txt "2.0", 1000 ∷ 2000 ∷ []) ∷ [];
  suppressed_target = none;
}

two_failures-IsAscending : IsAscending (recorded (txt "2.0") two_failures)
unfolding get text_eq
two_failures-IsAscending = ground arith

record_failure_lem_example :
    (((record_failure (txt "2.0") 3000 two_failures).0 ≡ true)
      ↔ (2 ≤ length (recent 3000 (recorded (txt "2.0") two_failures))))
    × ((record_failure (txt "2.0") 3000 two_failures).1.suppressed_target ≡ (
        if leb 2 (length (recent 3000 (recorded (txt "2.0") two_failures)))
        then some (txt "2.0")
        else two_failures.suppressed_target))
    × ((k : Text)
        → Dict.get k (record_failure (txt "2.0") 3000 two_failures).1.failures ≡ (
            if text_eq (txt "2.0") k
            then some (recent 3000 (recorded (txt "2.0") two_failures) ++ 3000 ∷ [])
            else Dict.get k two_failures.failures))
record_failure_lem_example =
    record_failure_lem (txt "2.0") 3000 two_failures two_failures-IsAscending

abbrev wrong_child : Generation
wrong_child = record {
  launch = record {
    status = some (record { version = txt "1.0"; pid = pos 7 });
    returncode = some (pos 1);
  };
  now = 3000;
  readings = [];
  ticks = [];
  state = none;
}

wrong_child-IsWrong : IsWrong (txt "2.0") wrong_child
unfolding text_eq
wrong_child-IsWrong = (record { version = txt "1.0"; pid = pos 7 }, pos 1, refl, refl, refl)

run_children_wrong_example :
    run_children (wrong_child ∷ wrong_child ∷ []) (some (txt "2.0")) two_failures
    ≡ again
        (some (txt "2.0"))
        (failures_of (txt "2.0") (wrong_child ∷ wrong_child ∷ []) two_failures)
run_children_wrong_example =
    run_children_wrong (txt "2.0") (wrong_child ∷ wrong_child ∷ []) two_failures
      (wrong_child-IsWrong, (wrong_child-IsWrong, tt))

abbrev as_given : Text → Text
as_given t = t

abbrev digest_text : Text
digest_text = txt "000102030405060708090A0B0C0D0E0F101112131415161718191A1B1C1D1E1F"

abbrev digest : List ℕ
digest =
    0 ∷ 1 ∷ 2 ∷ 3 ∷ 4 ∷ 5 ∷ 6 ∷ 7 ∷ 8 ∷ 9 ∷ 10 ∷ 11 ∷ 12 ∷ 13 ∷ 14 ∷ 15 ∷ 16 ∷ 17 ∷ 18 ∷ 19 ∷ 20
    ∷ 21 ∷ 22 ∷ 23 ∷ 24 ∷ 25 ∷ 26 ∷ 27 ∷ 28 ∷ 29 ∷ 30 ∷ 31 ∷ []

abbrev pinned : Parsed
pinned = record { head = 0 ∷ 1 ∷ []; rest = 31 ∷ []; wildcard = true }

abbrev presented : Parsed
presented = record { head = digest; rest = []; wildcard = false }

pinned-parses : parse_fingerprint as_given (txt "SHA256:00:01...1F") ≡ some pinned
unfolding parse_fingerprint
pinned-parses = refl

presented-parses : parse_fingerprint as_given digest_text ≡ some presented
unfolding parse_fingerprint
presented-parses = refl

fingerprints_equal_lem_example :
    (fingerprints_equal as_given (txt "SHA256:00:01...1F") digest_text ≡ true) ↔ (
      if pinned.wildcard
      then Fits pinned.head pinned.rest presented.head
      else (pinned.head ≡ presented.head))
fingerprints_equal_lem_example =
    fingerprints_equal_lem as_given (txt "SHA256:00:01...1F") digest_text pinned presented
      pinned-parses presented-parses refl

fingerprints_equal_comm_example :
    fingerprints_equal as_given (txt "SHA256:00:01...1F") digest_text
    ≡ fingerprints_equal as_given digest_text (txt "SHA256:00:01...1F")
fingerprints_equal_comm_example =
    fingerprints_equal_comm as_given (txt "SHA256:00:01...1F") digest_text
