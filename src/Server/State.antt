-- ===== src/Server/State.antt =====
-- The state of `Server`, its exceptions, and what it does to the outside: listeners, messages and
-- writers. A session is known by its id, a tunnel's future by the tunnel's id, and a listener by the
-- number of the `start_server` call that made it.
use py_frp.Base.{
  ℕ, ◌+◌, String, Bool, true, false, not, Option, none, some, List, [], ◌∷◌, length, keep_if, ◌==◌,
  if◌then◌else◌,
}
use py_frp.Base.Int.{ℤ}
use py_frp.Base.Texts.{Text, text_eq}
use py_frp.Base.Dict.{Dict, values}
use py_frp.Base.Dict
use py_frp.Value.{Value}
use py_frp.Config.Types.{ServerConfig}

pub record ClientSession : Type 0 where
  pub id : Text
  pub created_at : ℕ

pub record RegisteredService : Type 0 where
  pub name : Text
  pub bind_host : Text
  pub bind_port : ℕ
  pub token : Option Text
  pub client : ClientSession
  pub listener : ℕ
  pub configured : Bool
  pub pool_token : Option Text
  pub priority : ℤ

pub record PendingTunnel : Type 0 where
  pub id : Text
  pub service_name : Text
  pub token : Option Text
  pub client : ClientSession

-- The future of a pending tunnel: a tunnel connection is known by a number.
pub data Future : Type 0 where
  open_future cancelled : Future
  paired : ℕ → Future
  failed : String → Future

pub data Event : Type 0 where
  sent : Text → Value → Event
  send_failed : Text → Event
  listener_closed : ℕ → Event
  writer_closed : Text → Event

pub record Server : Type 0 where
  pub config : ServerConfig
  pub services : Dict RegisteredService
  pub pending : Dict PendingTunnel
  pub clients : Dict ClientSession
  pub futures : Dict Future
  pub attempts : ℕ
  pub listening : List ℕ
  pub trace : List Event

-- What the server does not decide: whether the n-th call of `start_server` binds its address, whether
-- the n-th event is a message that arrives, a socket's own address, and the text of a value.
pub record Env : Type 0 where
  pub opens : ℕ → Text → ℕ → Bool
  pub delivers : ℕ → Bool
  pub sockname : ℕ → Text → ℕ → Text × ℕ
  pub repr : Value → Text

-- The exceptions: `ProtocolError` and its subclasses, and what the system raises.
pub data Error : Type 0 where
  protocol : String → Error
  authentication exhausted force_required : Error
  priority_preemption : ℤ → ℤ → Error
  os_error overflow_error value_error : Error

unfoldable pub same_client : ClientSession → ClientSession → Bool
same_client a b = text_eq a.id b.id

-- `asyncio.start_server(…, host, port)`: a new listener, or `OSError`.
unfoldable pub start_server : Env → Text → ℕ → Server → Option ℕ × Server
start_server env host port s =
    if env.opens s.attempts host port
    then (
      some s.attempts,
      record s { attempts = s.attempts + 1; listening = s.attempts ∷ s.listening },
    )
    else (none, record s { attempts = s.attempts + 1 })

-- `listener.close()`
unfoldable pub close_listener : ℕ → Server → Server
close_listener l s = record s {
  listening = keep_if (λ k. not (k == l)) s.listening;
  trace = listener_closed l ∷ s.trace;
}

-- `close_writer(client.writer)`
unfoldable pub close_writer : ClientSession → Server → Server
close_writer c s = record s { trace = writer_closed c.id ∷ s.trace }

-- `client.send(message)`: `false` when it raises `ConnectionError`, `OSError` or `ProtocolError`.
unfoldable pub send : Env → ClientSession → Value → Server → Bool × Server
send env c message s =
    if env.delivers (length s.trace)
    then (true, record s { trace = sent c.id message ∷ s.trace })
    else (false, record s { trace = send_failed c.id ∷ s.trace })

-- `future.set_exception(…)` unless the future is done.
unfoldable pub fail_future : String → Future → Future
fail_future reason open_future = failed reason
fail_future reason f = f

fail_at : String → Text → Option Future → Dict Future → Dict Future
unfolding fail_future
fail_at reason id none futures = futures
fail_at reason id (some f) futures = Dict.set id (fail_future reason f) futures

unfoldable pub fail_futures : String → List PendingTunnel → Dict Future → Dict Future
unfolding fail_at Dict.get Dict.set
fail_futures reason [] futures = futures
fail_futures reason (p ∷ ps) futures =
    fail_futures reason ps (fail_at reason p.id (Dict.get p.id futures) futures)

-- `[item for item in self._services.values() if item.client is client]`
unfoldable pub services_of : ClientSession → Server → List RegisteredService
unfolding values same_client
services_of c s = keep_if (λ svc. same_client svc.client c) (values s.services)

unfoldable pub pending_of : ClientSession → Server → List PendingTunnel
unfolding values same_client
pending_of c s = keep_if (λ p. same_client p.client c) (values s.pending)

unfoldable pub pop_services :
    List RegisteredService → Dict RegisteredService → Dict RegisteredService
unfolding Dict.pop
pop_services [] d = d
pop_services (svc ∷ svcs) d = pop_services svcs (Dict.pop svc.name d)

unfoldable pub pop_pending : List PendingTunnel → Dict PendingTunnel → Dict PendingTunnel
unfolding Dict.pop
pop_pending [] d = d
pop_pending (p ∷ ps) d = pop_pending ps (Dict.pop p.id d)

unfoldable pub close_listeners : List RegisteredService → Server → Server
unfolding close_listener
close_listeners [] s = s
close_listeners (svc ∷ svcs) s = close_listeners svcs (close_listener svc.listener s)
