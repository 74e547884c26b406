-- ===== src/Server/Preempt.antt =====
-- `_register_pool_service`: a pool service, at the cost of another client where it is forced.
use py_frp.Base.{
  Bool, false, not, ◌&&◌, Option, none, some, List, [], ◌∷◌, ltb, keep_if, if◌then◌else◌,
}
use py_frp.Base.Int.{ℤ, leb_ℤ, max_ℤ, eqb_ℤ}
use py_frp.Base.Texts.{Text, txt, text_in}
use py_frp.Base.Dict.{values}
use py_frp.Base.Result.{Result, ok, err}
use py_frp.Value.{Value, bool, int, str, dict, obj, member, get_value}
use py_frp.Server.State.{
  Server, Env, ClientSession, RegisteredService, PendingTunnel, Error, protocol, authentication,
  exhausted, force_required, priority_preemption, value_error, close_writer, send, fail_futures,
  services_of, pending_of, pop_services, pop_pending, close_listeners, same_client,
}
use py_frp.Server.Allocate.{
  PoolRequest, optional_string, priority_of, pool_service_name, is_pool_service, bind_pool_service,
}

-- The pool services of the other clients.
unfoldable pub other_pool_services : ClientSession → Server → List RegisteredService
unfolding values is_pool_service same_client
other_pool_services c s =
    keep_if (λ svc. is_pool_service svc && not (same_client svc.client c)) (values s.services)

-- `max(service.priority for service in …)` of a list that has a head.
unfoldable pub max_priority : ℤ → List RegisteredService → ℤ
max_priority m [] = m
max_priority m (svc ∷ svcs) = max_priority (max_ℤ m svc.priority) svcs

unfoldable pub eligible : ℤ → List RegisteredService → List RegisteredService
eligible priority = keep_if (λ svc. leb_ℤ priority svc.priority)

-- `min(…, key=created_at)`: the first of the oldest.
unfoldable pub oldest_of : RegisteredService → List RegisteredService → RegisteredService
oldest_of best [] = best
oldest_of best (svc ∷ svcs) =
    oldest_of (if ltb svc.client.created_at best.client.created_at then svc else best) svcs

unfoldable pub oldest : List RegisteredService → Result Error RegisteredService
unfolding oldest_of
oldest [] = err value_error
oldest (svc ∷ svcs) = ok (oldest_of svc svcs)

unfoldable pub pick_victim : ℤ → ℤ → List RegisteredService → Result Error RegisteredService
unfolding oldest max_priority
pick_victim priority highest [] = err (priority_preemption priority highest)
pick_victim priority highest (svc ∷ svcs) =
    oldest (keep_if (λ e. eqb_ℤ e.priority (max_priority svc.priority svcs)) (svc ∷ svcs))

-- The victim's service among the pool services of the others, or the exception.
unfoldable pub choose_victim : Bool → ℤ → List RegisteredService → Result Error RegisteredService
unfolding pick_victim eligible max_priority
choose_victim force priority [] = err exhausted
choose_victim force priority (svc ∷ svcs) =
    if force
    then pick_victim priority (max_priority svc.priority svcs) (eligible priority (svc ∷ svcs))
    else err force_required

-- Every service and pending tunnel of the victim goes, and its listeners close.
unfoldable pub evict : ClientSession → Server → Server
unfolding services_of pending_of pop_services pop_pending close_listeners
evict victim s = close_listeners (services_of victim s) (record s {
  services = pop_services (services_of victim s) s.services;
  pending = pop_pending (pending_of victim s) s.pending;
})

unfoldable pub preempted_message : ℤ → ℤ → Value
preempted_message victim_priority priority = obj (
    (txt "type", str (txt "error"))
    ∷ (txt "error", str (txt "connection preempted by a forced pool connection"))
    ∷ (txt "code", str (txt "preempted"))
    ∷ (txt "fatal", bool false)
    ∷ (txt "priority", int victim_priority)
    ∷ (txt "preempted_by_priority", int priority)
    ∷ [])

or_exhausted : Option RegisteredService → Result Error RegisteredService
or_exhausted none = err exhausted
or_exhausted (some svc) = ok svc

-- After the second `_bind_pool_service_locked`: the victim's futures fail, it is told and closed.
unfoldable pub finish_preemption :
    Env
    → RegisteredService
    → ℤ
    → List PendingTunnel
    → Option RegisteredService × Server
    → Result Error RegisteredService × Server
unfolding or_exhausted fail_futures send close_writer preempted_message
finish_preemption env victim priority victim_pending (bound, s) = (
  or_exhausted bound,
  close_writer victim.client
      (send env victim.client (preempted_message victim.priority priority)
        (record s { futures = fail_futures "client was preempted" victim_pending s.futures })).1,
)

unfoldable pub preempt :
    Env
    → PoolRequest
    → Server
    → Result Error RegisteredService
    → Result Error RegisteredService × Server
unfolding finish_preemption evict pending_of bind_pool_service
preempt env r s (err e) = (err e, s)
preempt env r s (ok victim) =
    finish_preemption env victim r.priority (pending_of victim.client s)
      (bind_pool_service env r (evict victim.client s))

unfoldable pub allocate_or :
    Env
    → PoolRequest
    → Bool
    → Option RegisteredService × Server
    → Result Error RegisteredService × Server
unfolding preempt choose_victim other_pool_services
allocate_or env r force (some svc, s) = (ok svc, s)
allocate_or env r force (none, s) =
    preempt env r s (choose_victim force r.priority (other_pool_services r.client s))

-- A free port, or one that a victim gives up.
unfoldable pub allocate :
    Env → PoolRequest → Bool → Server → Result Error RegisteredService × Server
unfolding allocate_or bind_pool_service
allocate env r force s = allocate_or env r force (bind_pool_service env r s)

unfoldable pub with_priority :
    Env
    → ClientSession
    → Text
    → Bool
    → Server
    → Result Error ℤ
    → Result Error RegisteredService × Server
unfolding allocate pool_service_name
with_priority env c token force s (err e) = (err e, s)
with_priority env c token force s (ok p) =
    allocate env (record { client = c; name = pool_service_name c; token = token; priority = p })
      force s

unfoldable pub with_token :
    Env
    → ClientSession
    → Option Text
    → Option Value
    → Bool
    → Server
    → Result Error RegisteredService × Server
unfolding with_priority priority_of text_in
with_token env c none priority force s = (err authentication, s)
with_token env c (some token) priority force s =
    if text_in token s.config.pool_tokens
    then with_priority env c token force s (priority_of priority)
    else (err authentication, s)

unfoldable pub register_pool_service :
    Env → ClientSession → Value → Bool → Server → Result Error RegisteredService × Server
unfolding with_token optional_string member get_value
register_pool_service env c (dict raw) force s =
    with_token env c (optional_string env.repr (get_value "token" raw)) (member "priority" raw)
      force s
register_pool_service env c raw force s =
    (err (protocol "service registration must be an object"), s)
