-- ===== src/Server/Moves.antt =====
-- What the handlers do to the table of services: every change is a removal by name, a pool service on
-- a free port of the pool, or a new service under a name that is free.
use py_frp.Base.{
  ℕ, ◌+◌, ◌≡◌, refl, sym, ◌∙◌, true, false, Option, none, some, List, [], ◌∷◌, arith, contains,
  Bool-cases, inl, inr, All, subst, map, keep_if,
}
use py_frp.Base.Texts.{Text}
use py_frp.Base.Dict.{Dict, values}
use py_frp.Base.Dict
use py_frp.Config.Types.{ServerConfig}
use py_frp.Server.State.{
  Server, Env, RegisteredService, pop_services, close_listeners, close_listener, start_server,
}
use py_frp.Server.Allocate.{
  PoolRequest, pool_service, is_pool_service, used_ports, store_or, bind_ports, bind_pool_service,
  sorted, insert,
}

-- The ports of the pool services of a table.
abbrev pub IsFree : ℕ → Dict RegisteredService → Type 0
IsFree p d =
    (k : Text) (a : RegisteredService)
    → Dict.get k d ≡ some a
    → is_pool_service a ≡ true
    → a.bind_port ≡ p
    → ⊥

pub data Step (config : ServerConfig)
    : Dict RegisteredService → Dict RegisteredService → Type 0 where
  popped : {d : Dict RegisteredService} (k : Text) → Step config d (Dict.pop k d)
  pool_stored :
      {d : Dict RegisteredService} (svc : RegisteredService)
      → is_pool_service svc ≡ true
      → contains config.port_pool svc.bind_port ≡ true
      → IsFree svc.bind_port d
      → Step config d (Dict.set svc.name svc d)
  regular_stored :
      {d : Dict RegisteredService} (svc : RegisteredService)
      → is_pool_service svc ≡ false
      → Dict.get svc.name d ≡ none
      → Step config d (Dict.set svc.name svc d)
  cleared : {d : Dict RegisteredService} → Step config d []

pub data Steps (config : ServerConfig) (d : Dict RegisteredService)
    : Dict RegisteredService → Type 0 where
  here : Steps config d d
  next : {e f : Dict RegisteredService} → Steps config d e → Step config e f → Steps config d f

pub Steps-trans :
    {config : ServerConfig} {d e f : Dict RegisteredService}
    → Steps config d e
    → Steps config e f
    → Steps config d f
Steps-trans p here = p
Steps-trans p (next q st) = next (Steps-trans p q) st

-- From `s` the server came to `t` by such changes, under one configuration.
pub record Moves (s t : Server) : Type 0 where
  pub config_same : t.config ≡ s.config
  pub steps : Steps s.config s.services t.services

pub Moves-refl : (s : Server) → Moves s s
Moves-refl s = record { config_same = refl; steps = here }

-- Nothing of the table or the configuration changed.
pub Moves-same : (s t : Server) → t.config ≡ s.config → t.services ≡ s.services → Moves s t
Moves-same s t c e = record {
  config_same = c;
  steps = subst (Steps s.config s.services) (sym e) here;
}

pub Moves-trans : (s t u : Server) → Moves s t → Moves t u → Moves s u
Moves-trans s t u p q = record {
  config_same = q.config_same ∙ p.config_same;
  steps = Steps-trans p.steps (subst (λ c. Steps c t.services u.services) p.config_same q.steps);
}

-- A relation of states that says nothing of what is neither configuration nor table, and can be composed.
pub record IsChange (P : Server → Server → Type 0) : Type 0 where
  pub same : (s t : Server) → t.config ≡ s.config → t.services ≡ s.services → P s t
  pub then_next : (s t u : Server) → P s t → P t u → P s u

pub Moves-IsChange : IsChange Moves
Moves-IsChange = record { same = Moves-same; then_next = Moves-trans }

pub Steps-pop_services :
    (config : ServerConfig) (svcs : List RegisteredService) (d : Dict RegisteredService)
    → Steps config d (pop_services svcs d)
unfolding pop_services
Steps-pop_services config [] d = here
Steps-pop_services config (svc ∷ svcs) d =
    Steps-trans (next here (popped svc.name)) (Steps-pop_services config svcs (Dict.pop svc.name d))

pub close_listeners-same :
    (svcs : List RegisteredService) (s : Server)
    → ((close_listeners svcs s).config ≡ s.config)
      × ((close_listeners svcs s).services ≡ s.services)
unfolding close_listeners close_listener
close_listeners-same [] s = (refl, refl)
close_listeners-same (svc ∷ svcs) s = close_listeners-same svcs (close_listener svc.listener s)

-- The loop of `_bind_pool_service_locked`.
module _ (env : Env) (r : PoolRequest) (host : Text) where
  store_or-Moves :
      (p : ℕ) (later : Server → Option RegisteredService × Server) (s : Server)
      → ((t : Server) → t.config ≡ s.config → t.services ≡ s.services → Moves t (later t).1)
      → contains s.config.port_pool p ≡ true
      → IsFree p s.services
      → Moves s (store_or r host p later (start_server env host p s)).1
  unfolding store_or start_server pool_service is_pool_service
  store_or-Moves p later s ih m f = elim (Bool-cases (env.opens s.attempts host p)) [
    | inl bound ↦
        rw (bound, start_server, store_or)
          (record {
            config_same = refl;
            steps = next here (pool_stored (pool_service r host p s.attempts) refl m f);
          })
    | inr refused ↦
        rw (refused, start_server, store_or)
          (Moves-trans s (record s { attempts = s.attempts + 1 }) _
            (Moves-same s (record s { attempts = s.attempts + 1 }) refl refl)
            (ih (record s { attempts = s.attempts + 1 }) refl refl))
  ]

  bind_ports-Moves :
      (used ps : List ℕ) (s : Server)
      → ((p : ℕ) → contains used p ≡ false → IsFree p s.services)
      → All (λ p. contains s.config.port_pool p ≡ true) ps
      → Moves s (bind_ports env r host used ps s).1
  unfolding bind_ports
  bind_ports-Moves used [] s free m = Moves-refl s
  bind_ports-Moves used (p ∷ ps) s free m = elim (Bool-cases (contains used p)) [
    | inl taken ↦ rw (taken, bind_ports) (bind_ports-Moves used ps s free m.1)
    | inr open_port ↦
        rw (open_port, bind_ports)
          (store_or-Moves p (bind_ports env r host used ps) s
            (λ t c e. bind_ports-Moves used ps t (λ q h. rw e (free q h)) (rw c m.1)) m.0
            (free p open_port))
  ]

insert-All : (P : ℕ → Type 0) (p : ℕ) (ps : List ℕ) → P p → All P ps → All P (insert p ps)
unfolding insert
insert-All P p [] h k = (h, tt)
insert-All P p (q ∷ qs) h k = ground (arith, insert-All P p qs h)

pub sorted-All : (P : ℕ → Type 0) (ps : List ℕ) → All P ps → All P (sorted ps)
unfolding sorted
sorted-All P [] h = tt
sorted-All P (p ∷ ps) h = insert-All P p (sorted ps) h.0 (sorted-All P ps h.1)

All-mono : (P Q : ℕ → Type 0) → ((p : ℕ) → P p → Q p) → (ps : List ℕ) → All P ps → All Q ps
All-mono P Q f [] h = tt
All-mono P Q f (p ∷ ps) h = (f p h.0, All-mono P Q f ps h.1)

pub All-contains : (ps : List ℕ) → All (λ p. contains ps p ≡ true) ps
All-contains [] = tt
All-contains (p ∷ ps) = (
  ground arith,
  All-mono (λ q. contains ps q ≡ true) (λ q. contains (p ∷ ps) q ≡ true) (λ q h. ground arith) ps
      (All-contains ps),
)

pub used_ports-IsFree :
    (d : Dict RegisteredService) (p : ℕ)
    → contains
        (map (λ (svc : RegisteredService). svc.bind_port) (keep_if is_pool_service (values d)))
        p
      ≡ false
    → IsFree p d
unfolding values Dict.get
used_ports-IsFree [] p h k a e t q = cc
used_ports-IsFree ((j, b) ∷ d) p h k a e t q = ground (arith, used_ports-IsFree d p h' k a)
  where
    h' :
        contains
          (map (λ (svc : RegisteredService). svc.bind_port) (keep_if is_pool_service (values d)))
          p
        ≡ false
    h' = ground arith

pub bind_pool_service-Moves :
    (env : Env) (r : PoolRequest) (s : Server) → Moves s (bind_pool_service env r s).1
unfolding bind_pool_service used_ports
bind_pool_service-Moves env r s =
    bind_ports-Moves env r s.config.pool_bind_host _ (sorted s.config.port_pool) s
      (λ p h. used_ports-IsFree s.services p h)
      (sorted-All _ s.config.port_pool (All-contains s.config.port_pool))
