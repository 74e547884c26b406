-- ===== src/Client/Pauses.antt =====
-- How long a client waits between two connections, and when it stops.
use py_frp.Base.{◌≡◌, ◌≢◌, List, [], ◌∷◌, ◌⊎◌}
use py_frp.Base.Result.{Result}
use py_frp.Value.{Float}
use py_frp.Config.Types.{ClientConfig}
use py_frp.Client.State.{Client, Failure, security, fatal, other, restarting, Python, Attempt}
use py_frp.Client.PauseLengths.{IsPause}
use py_frp.Client.Session.{Connection, Ended, raised, waits, run_once}
use py_frp.Client.Reconnect.{ClientRun, stopped, connection_open, next_connection}

-- What an exception of a connection asks for as a pause.
abbrev Paces : ClientConfig → Ended → Connection → Type 0
Paces config waits s = s.client.config ≡ config
Paces config (raised f) s =
    (s.client.config ≡ config) × ((d : Float) → f ≡ restarting d → IsPause config.reconnect_delay d)

-- Which pause an exception asks for: that of a restarting server, else `reconnect_delay`.
abbrev pub Asks : Float → Failure → Float → Type 0
Asks reconnect_delay f delay =
    IsPause reconnect_delay delay
    × (f ≡ other → delay ≡ reconnect_delay)
    × ((d : Float) → f ≡ restarting d → delay ≡ d)

-- A run over the connections to come: one connection after another, and what follows the end of each.
-- A run goes on only after an exception that does not stop it, and only after a pause.
pub data IsPaced (python : Python) : List Attempt → Client → ClientRun → Type 0 where
  no_more :
      (c : Client) → IsPaced python [] c (record { end = next_connection; client = c; pauses = [] })
  goes_on :
      (a : Attempt) (attempts : List Attempt) (c : Client)
      → (run_once python a c).0 ≡ waits
      → IsPaced python
          (a ∷ attempts)
          c
          (record { end = connection_open; client = (run_once python a c).1.client; pauses = [] })
  stops :
      (a : Attempt) (attempts : List Attempt) (c : Client) (f : Failure)
      → (run_once python a c).0 ≡ raised f
      → (f ≡ security) ⊎ (f ≡ fatal)
      → IsPaced python
          (a ∷ attempts)
          c
          (record { end = stopped f; client = (run_once python a c).1.client; pauses = [] })
  pauses :
      (a : Attempt) (attempts : List Attempt) (c : Client) (f : Failure) (delay : Float)
      (later : ClientRun)
      → (run_once python a c).0 ≡ raised f
      → f ≢ security
      → f ≢ fatal
      → Asks c.config.reconnect_delay f delay
      → IsPaced python attempts (run_once python a c).1.client later
      → IsPaced python
          (a ∷ attempts)
          c
          (record { end = later.end; client = later.client; pauses = delay ∷ later.pauses })
