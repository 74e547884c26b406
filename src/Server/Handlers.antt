-- ===== src/Server/Handlers.antt =====
-- Every handler changes the table of services by the moves of `Server.Moves` alone.
use py_frp.Base.{
  ℕ, ◌≡◌, refl, Bool, Option, none, some, List, [], ◌∷◌, arith, Bool-cases, Option-cases, inl, inr,
}
use py_frp.Base.Int.{ℤ}
use py_frp.Base.Texts.{Text, text_in}
use py_frp.Base.Dict
use py_frp.Base.Result.{Result, ok, err}
use py_frp.Value.{Value, dict}
use py_frp.Config.Types.{ServerServiceConfig}
use py_frp.Server.State.{
  Server, Env, ClientSession, RegisteredService, PendingTunnel, Error, close_listeners,
  close_listener, services_of, pending_of, start_server, fail_futures, send, close_writer,
}
use py_frp.Server.Allocate.{PoolRequest, bind_pool_service, priority_of, is_pool_service}
use py_frp.Server.Preempt.{
  evict, finish_preemption, preempt, allocate_or, allocate, with_priority, with_token,
  register_pool_service, choose_victim, other_pool_services, preempted_message,
}
use py_frp.Server.Register.{
  store_new, listening_service, open_service, register_regular_service, register_service,
  is_pool_registration, is_pool_registration, regular_service, service_from_registration,
}
use py_frp.Server.Sessions.{drop_registered_service, drop_all, remove_client}
use py_frp.Server.Moves.{
  Moves, Moves-refl, Moves-same, Moves-trans, Steps-pop_services, close_listeners-same, here, next,
  popped, regular_stored, bind_pool_service-Moves,
}

-- Closing listeners comes after a change and moves nothing.
close_listeners-Moves :
    (svcs : List RegisteredService) (s t : Server) → Moves s t → Moves s (close_listeners svcs t)
close_listeners-Moves svcs s t m = Moves-trans s t (close_listeners svcs t) m (
    Moves-same t (close_listeners svcs t) (close_listeners-same svcs t).0
      (close_listeners-same svcs t).1)

pub evict-Moves : (victim : ClientSession) (s : Server) → Moves s (evict victim s)
unfolding evict
evict-Moves victim s = close_listeners-Moves (services_of victim s) s _ (record {
  config_same = refl;
  steps = Steps-pop_services s.config (services_of victim s) s.services;
})

pub send-same :
    (env : Env) (c : ClientSession) (m : Value) (s : Server)
    → ((send env c m s).1.config ≡ s.config) × ((send env c m s).1.services ≡ s.services)
unfolding send
send-same env c m s = ground arith

finish_preemption-Moves :
    (env : Env) (victim : RegisteredService) (priority : ℤ) (ps : List PendingTunnel) (s : Server)
    (b : Option RegisteredService × Server)
    → Moves s b.1
    → Moves s (finish_preemption env victim priority ps b).1
unfolding finish_preemption close_writer
finish_preemption-Moves env victim priority ps s (o, t) m =
    let told : Server = record t { futures = fail_futures "client was preempted" ps t.futures } in
    let message : Value = preempted_message victim.priority priority in
    Moves-trans s t _ m (
      Moves-same t (close_writer victim.client (send env victim.client message told).1)
        (send-same env victim.client message told).0 (send-same env victim.client message told).1)

pub preempt-Moves :
    (env : Env) (r : PoolRequest) (s : Server) (v : Result Error RegisteredService)
    → Moves s (preempt env r s v).1
unfolding preempt
preempt-Moves env r s (err e) = Moves-refl s
preempt-Moves env r s (ok victim) =
    finish_preemption-Moves env victim r.priority (pending_of victim.client s) s
      (bind_pool_service env r (evict victim.client s))
      (Moves-trans s (evict victim.client s) _ (evict-Moves victim.client s)
        (bind_pool_service-Moves env r (evict victim.client s)))

allocate_or-Moves :
    (env : Env) (r : PoolRequest) (force : Bool) (s : Server)
    (b : Option RegisteredService × Server)
    → Moves s b.1
    → Moves s (allocate_or env r force b).1
unfolding allocate_or
allocate_or-Moves env r force s (some svc, t) m = m
allocate_or-Moves env r force s (none, t) m =
    Moves-trans s t _ m
      (preempt-Moves env r t (choose_victim force r.priority (other_pool_services r.client t)))

pub allocate-Moves :
    (env : Env) (r : PoolRequest) (force : Bool) (s : Server) → Moves s (allocate env r force s).1
unfolding allocate
allocate-Moves env r force s =
    allocate_or-Moves env r force s (bind_pool_service env r s) (bind_pool_service-Moves env r s)

with_priority-Moves :
    (env : Env) (c : ClientSession) (t : Text) (force : Bool) (s : Server) (p : Result Error ℤ)
    → Moves s (with_priority env c t force s p).1
unfolding with_priority
with_priority-Moves env c t force s (err e) = Moves-refl s
with_priority-Moves env c t force s (ok p) = allocate-Moves env _ force s

with_token-Moves :
    (env : Env) (c : ClientSession) (t : Option Text) (p : Option Value) (force : Bool) (s : Server)
    → Moves s (with_token env c t p force s).1
unfolding with_token
with_token-Moves env c none p force s = Moves-refl s
with_token-Moves env c (some t) p force s = elim (Bool-cases (text_in t s.config.pool_tokens)) [
  | inl known ↦ rw (known, with_token) (with_priority-Moves env c t force s (priority_of p))
  | inr unknown ↦ rw (unknown, with_token) (Moves-refl s)
]

pub register_pool_service-Moves :
    (env : Env) (c : ClientSession) (raw : Value) (force : Bool) (s : Server)
    → Moves s (register_pool_service env c raw force s).1
unfolding register_pool_service
register_pool_service-Moves env c (dict raw) force s = with_token-Moves env c _ _ force s
register_pool_service-Moves env c _ force s = Moves-refl s

pub store_new-Moves :
    (c : ClientSession) (svc : ServerServiceConfig) (l : ℕ) (s : Server)
    → Moves s (store_new c svc l s).1
unfolding store_new regular_service is_pool_service close_listener
store_new-Moves c svc l s = elim (Option-cases (Dict.get svc.name s.services)) [
  | inl new ↦
      rw (new, store_new)
        (record {
          config_same = refl;
          steps = next here (regular_stored (regular_service s c svc l) refl new);
        })
  | inr (old, taken) ↦ rw (taken, store_new) (Moves-same s _ refl refl)
]

pub start_server-same :
    (env : Env) (host : Text) (p : ℕ) (s : Server)
    → ((start_server env host p s).1.config ≡ s.config)
      × ((start_server env host p s).1.services ≡ s.services)
unfolding start_server
start_server-same env host p s = ground arith

listening_service-Moves :
    (c : ClientSession) (svc : ServerServiceConfig) (s : Server) (b : Option ℕ × Server)
    → Moves s b.1
    → Moves s (listening_service c svc b).1
unfolding listening_service
listening_service-Moves c svc s (none, t) m = m
listening_service-Moves c svc s (some l, t) m = Moves-trans s t _ m (store_new-Moves c svc l t)

open_service-Moves :
    (env : Env) (c : ClientSession) (s : Server) (r : Result Error ServerServiceConfig)
    → Moves s (open_service env c s r).1
unfolding open_service
open_service-Moves env c s (err e) = Moves-refl s
open_service-Moves env c s (ok svc) =
    listening_service-Moves c svc s (start_server env svc.bind_host svc.bind_port s) (
      Moves-same s _ (start_server-same env svc.bind_host svc.bind_port s).0
        (start_server-same env svc.bind_host svc.bind_port s).1)

pub register_service-Moves :
    (env : Env) (c : ClientSession) (force : Bool) (raw : Value) (s : Server)
    → Moves s (register_service env c force raw s).1
unfolding register_service register_regular_service
register_service-Moves env c force raw s = elim (Bool-cases (is_pool_registration s.config raw)) [
  | inl pool ↦ rw (pool, register_service) (register_pool_service-Moves env c raw force s)
  | inr regular ↦
      rw (regular, register_service)
        (open_service-Moves env c s (service_from_registration env s.config raw))
]

pub drop_all-Moves : (svcs : List RegisteredService) (s : Server) → Moves s (drop_all svcs s)
unfolding drop_all drop_registered_service close_listener
drop_all-Moves [] s = Moves-refl s
drop_all-Moves (svc ∷ svcs) s =
    Moves-trans s (drop_registered_service svc s) _
      (record { config_same = refl; steps = next here (popped svc.name) })
      (drop_all-Moves svcs (drop_registered_service svc s))

pub remove_client-Moves : (c : ClientSession) (s : Server) → Moves s (remove_client c s)
unfolding remove_client
remove_client-Moves c s = close_listeners-Moves (services_of c s) s _ (record {
  config_same = refl;
  steps = Steps-pop_services s.config (services_of c s) s.services;
})
