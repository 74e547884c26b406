-- ===== src/Client/State.antt =====
-- The state of `Client`, its exceptions, and what it does not decide: Python's conversions, the peer
-- that a connection reaches, the answers of the user, and what is read and written.
use py_frp.Base.{ℕ, Bool, false, Option, none, some, List, [], ◌∷◌}
use py_frp.Base.Int.{ℤ}
use py_frp.Base.Texts.{Text, txt, text_in, strip, lower}
use py_frp.Base.Dict.{Dict}
use py_frp.Base.Dict
use py_frp.Base.Result.{Result, ok, err}
use py_frp.Value.{Value, Fields, Float}
use py_frp.Config.Types.{ClientConfig, ProxyConfig}
use py_frp.Fingerprint.{normalize_fingerprint}
use py_frp.Server.Register.{text_or}

pub record Client : Type 0 where
  pub config : ClientConfig
  pub base_proxies : Dict ProxyConfig
  pub proxies : Dict ProxyConfig
  pub force_connect : Bool
  pub priority : ℤ
  pub trusted : Option Text
  pub fingerprint_ready : Option Bool

-- The exceptions that `run` tells apart: `SecurityError`, `FatalClientError`, `ServerRestartingError`
-- with its delay, and any other.
pub data Failure : Type 0 where
  security fatal other : Failure
  restarting : Float → Failure

-- `str.upper`, `str` of a value, `float` of a text (none is `ValueError`), and `float` of an integer
-- (none is `OverflowError`).
pub record Python : Type 0 where
  pub upper : Text → Text
  pub repr : Value → Text
  pub parse_float : Text → Option Float
  pub float_of : ℤ → Option Float

-- What `asyncio.open_connection` and `peer_fingerprint` give: no connection, one without a
-- certificate, or the fingerprint of the certificate.
pub data Peer : Type 0 where
  unreachable no_certificate : Peer
  presents : Text → Peer

-- The answer to a question: a line that is typed, an interrupted input, or what a callback returns.
pub data Answer : Type 0 where
  typed : Text → Answer
  interrupted : Answer
  replied : Bool → Answer

-- What a connected client finds at its next await: a message, the end of input, an exception of
-- `read_message`, or the end of its heartbeat task.
pub data Incoming : Type 0 where
  message : Fields → Incoming
  closed broken heartbeat_ended : Incoming

-- One connection to the server: its peer, the user's answers, whether the n-th message can be
-- written, and what is read.
pub record Attempt : Type 0 where
  pub peer : Peer
  pub trust_answer : Answer
  pub force_answer : Answer
  pub writes : ℕ → Bool
  pub incoming : List Incoming

-- `answer.strip().lower() in {"y", "yes"}`, or `bool` of what a callback returns.
unfoldable pub confirmed : Answer → Bool
unfolding text_in lower strip
confirmed (typed line) = text_in (lower (strip line)) (txt "y" ∷ txt "yes" ∷ [])
confirmed interrupted = false
confirmed (replied b) = b

-- `{proxy.name: proxy for proxy in proxies}`, behind the entries that there are.
unfoldable pub by_name : Dict ProxyConfig → List ProxyConfig → Dict ProxyConfig
unfolding Dict.set
by_name d [] = d
by_name d (p ∷ ps) = by_name (Dict.set p.name p d) ps

-- The fingerprint that the client is started with, from the configuration or from the environment.
unfoldable pub trusted_at_start : Python → Option Text → Result Failure (Option Text)
unfolding normalize_fingerprint
trusted_at_start python none = ok none
trusted_at_start python (some value) = elim (normalize_fingerprint python.upper value) [
  | none ↦ err security
  | some t ↦ ok (some t)
]

unfoldable pub started :
    ClientConfig → Bool → ℤ → Result Failure (Option Text) → Result Failure Client
unfolding by_name
started config force priority (err e) = err e
started config force priority (ok trusted) = ok (record {
  config = config;
  base_proxies = by_name [] config.proxies;
  proxies = by_name [] config.proxies;
  force_connect = force;
  priority = priority;
  trusted = trusted;
  fingerprint_ready = none;
})

-- `Client(config, …)` with the fingerprint that `RESTART_SERVER_FINGERPRINT_ENV` holds.
unfoldable pub new_client : Python → Option Text → ClientConfig → Bool → ℤ → Result Failure Client
unfolding started trusted_at_start text_or
new_client python kept config force priority =
    started config force priority
      (trusted_at_start python (text_or config.server_fingerprint (text_or kept none)))
