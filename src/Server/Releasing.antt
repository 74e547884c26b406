-- ===== src/Server/Releasing.antt =====
-- What the removal of a client does to the leases: `_remove_client`, and the end of a victim's services
-- in `_register_pool_service`.
use py_frp.Base.{◌≡◌, refl, ap, ◌∙◌, Option, none, some, List, arith, keep_if, inl, inr, Bool-cases}
use py_frp.Base.Texts.{Text}
use py_frp.Base.Dict.{Dict, get-set, values}
use py_frp.Base.Dict
use py_frp.Server.State.{Server, ClientSession, RegisteredService, same_client, services_of}
use py_frp.Server.Preempt.{evict}
use py_frp.Server.Moves.{close_listeners-same}
use py_frp.Server.Tables.{IsTable, pop_each, get-pop_each, pop_each-kept, pop_each-dropped}
use py_frp.Server.Cleanup.{service_name, pop_services-lem}
use py_frp.Server.Leases.{lease_of, leases, without, Releases}

-- Popping the services of a client ends its leases and no other.
abbrev mine_of : ClientSession → Dict RegisteredService → List RegisteredService
mine_of c d = keep_if (λ (svc : RegisteredService). same_client svc.client c) (values d)

popped-without :
    (c : ClientSession) (k : Text) (d : Dict RegisteredService) (o : Option RegisteredService)
    → IsTable service_name d
    → Dict.get k d ≡ o
    → leases (pop_each service_name (mine_of c d) d) k ≡ without c (lease_of o)
popped-without c k d none t e =
    ap lease_of (get-pop_each service_name k (mine_of c d) d) ∙ ground (arith, e)
popped-without c k d (some svc) t e = elim (Bool-cases (same_client svc.client c)) [
  | inl mine ↦
      let gone = pop_each-dropped service_name (λ a. same_client a.client c) k d svc t e mine in
      ap lease_of (get-pop_each service_name k (mine_of c d) d) ∙ ground (arith, gone)
  | inr other ↦
      let kept = pop_each-kept service_name (λ a. same_client a.client c) k d svc t e other in
      ap lease_of (get-pop_each service_name k (mine_of c d) d) ∙ ground (arith, kept, e)
]

pub popped-Releases :
    (c : ClientSession) (s : Server) (e : Dict RegisteredService)
    → IsTable service_name s.services
    → e ≡ pop_each service_name (services_of c s) s.services
    → Releases c (leases s.services) (leases e)
unfolding services_of
popped-Releases c s e t q k =
    ap (λ (d : Dict RegisteredService). leases d k) q
    ∙ popped-without c k s.services (Dict.get k s.services) t refl

pub evict-services :
    (victim : ClientSession) (s : Server)
    → (evict victim s).services ≡ pop_each service_name (services_of victim s) s.services
unfolding evict
evict-services victim s =
    (close_listeners-same (services_of victim s) _).1
    ∙ pop_services-lem (services_of victim s) s.services

pub evict-config : (victim : ClientSession) (s : Server) → (evict victim s).config ≡ s.config
unfolding evict
evict-config victim s = (close_listeners-same (services_of victim s) _).0
