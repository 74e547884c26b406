-- ===== src/Client/Trust.antt =====
-- `_open_server_connection` and `_verify_server_fingerprint`: whom the client talks to.
use py_frp.Base.{Bool, true, false, Option, none, some, if◌then◌else◌}
use py_frp.Base.Texts.{Text}
use py_frp.Base.Result.{Result, ok, err}
use py_frp.Fingerprint.{fingerprints_equal}
use py_frp.Client.State.{
  Client, Failure, security, other, Python, Peer, unreachable, no_certificate, presents, Answer,
  confirmed,
}

-- `self._fingerprint_ready.set()` of an event that exists.
set_ready : Option Bool → Option Bool
set_ready none = none
set_ready (some b) = some true

-- A first fingerprint is trusted when the user confirms it.
unfoldable pub first_trust : Text → Answer → Client → Result Failure Client
unfolding confirmed set_ready
first_trust fingerprint answer c =
    if confirmed answer
    then ok
        (record c { trusted = some fingerprint; fingerprint_ready = set_ready c.fingerprint_ready })
    else err security

-- `_verify_server_fingerprint(writer)` of a peer with this fingerprint.
unfoldable pub verify_fingerprint :
    Python → Text → Answer → Client → Option Text → Result Failure Client
unfolding first_trust fingerprints_equal
verify_fingerprint python fingerprint answer c none = first_trust fingerprint answer c
verify_fingerprint python fingerprint answer c (some trusted) =
    if fingerprints_equal python.upper fingerprint trusted then ok c else err security

-- `_open_server_connection()`: the client that goes on with the connection.
unfoldable pub open_server_connection : Python → Peer → Answer → Client → Result Failure Client
unfolding verify_fingerprint
open_server_connection python unreachable answer c = err other
open_server_connection python no_certificate answer c = err security
open_server_connection python (presents fingerprint) answer c =
    verify_fingerprint python fingerprint answer c c.trusted

-- `wait_until_fingerprint_trusted()`: whether it returns at once, and the client with its event.
unfoldable pub wait_until_trusted : Client → Bool × Client
wait_until_trusted c = elim c.trusted [
  | some t ↦ (true, c)
  | none ↦ elim c.fingerprint_ready [
    | none ↦ (false, record c { fingerprint_ready = some false })
    | some b ↦ (b, c)
  ]
]

-- `preserve_fingerprint_for_restart()`: the value for `RESTART_SERVER_FINGERPRINT_ENV`.
unfoldable pub fingerprint_for_restart : Client → Result Failure Text
fingerprint_for_restart c = elim c.trusted [ none ↦ err security | some t ↦ ok t ]
