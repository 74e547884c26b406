-- ===== src/Client/Reconnect.antt =====
-- `run`: one connection after another, with a pause in between.
use py_frp.Base.{Option, none, some, List, [], ◌∷◌}
use py_frp.Value.{Float}
use py_frp.Client.State.{Client, Failure, security, fatal, other, restarting, Python, Attempt}
use py_frp.Client.Session.{Connection, Ended, raised, waits, run_once}

-- The client has stopped after `SecurityError` or `FatalClientError`, a connection goes on, or the
-- next connection is to come.
pub data ClientEnd : Type 0 where
  stopped : Failure → ClientEnd
  connection_open next_connection : ClientEnd

pub record ClientRun : Type 0 where
  pub end : ClientEnd
  pub client : Client
  pub pauses : List Float

-- The clause of `run` for an exception: the pause before the next connection, or none.
unfoldable pub pause_after : Failure → Float → Option Float
pause_after security reconnect_delay = none
pause_after fatal reconnect_delay = none
pause_after (restarting retry_after) reconnect_delay = some retry_after
pause_after other reconnect_delay = some reconnect_delay

abbrev pub paused : Float → ClientRun → ClientRun
paused delay r = record r { pauses = delay ∷ r.pauses }

-- What follows the end of one connection, with the rest of the loop.
unfoldable pub after_connection : (Client → ClientRun) → Ended × Connection → ClientRun
unfolding pause_after
after_connection later (waits, s) = record { end = connection_open; client = s.client; pauses = [] }
after_connection later (raised f, s) = elim (pause_after f s.client.config.reconnect_delay) [
  | none ↦ record { end = stopped f; client = s.client; pauses = [] }
  | some delay ↦ paused delay (later s.client)
]

-- `run()` over the connections to come.
unfoldable pub run_client : Python → List Attempt → Client → ClientRun
unfolding after_connection run_once
run_client python [] c = record { end = next_connection; client = c; pauses = [] }
run_client python (a ∷ attempts) c =
    after_connection (run_client python attempts) (run_once python a c)
