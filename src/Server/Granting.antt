-- ===== src/Server/Granting.antt =====
-- What a pool registration does to the leases: `_bind_pool_service_locked` and
-- `_register_pool_service`.
use py_frp.Base.{
  ℕ, ◌≡◌, ◌≢◌, refl, ap, ◌∙◌, Bool, true, false, not, ◌&&◌, Option, none, some, List, [], ◌∷◌,
  arith, contains, if◌then◌else◌, inl, inr, Bool-cases, All, Among, sym, keep_if-Among,
}
use py_frp.Base.Int.{ℤ}
use py_frp.Base.Texts.{Text, text_eq, text_in}
use py_frp.Base.Dict.{Dict, get-set, values}
use py_frp.Base.Dict
use py_frp.Base.Result.{Result, ok, err}
use py_frp.Value.{Value, dict}
use py_frp.Config.Types.{ServerConfig}
use py_frp.Server.State.{
  Server, Env, ClientSession, RegisteredService, PendingTunnel, Error, same_client, start_server,
  pending_of, close_writer, fail_futures,
}
use py_frp.Server.Allocate.{
  PoolRequest, pool_service, is_pool_service, pool_service_name, store_or, bind_ports, sorted,
  bind_pool_service, used_ports, priority_of,
}
use py_frp.Server.Preempt.{
  other_pool_services, choose_victim, evict, finish_preemption, preempt, allocate_or, allocate,
  preempted_message, with_priority, with_token, register_pool_service,
}
use py_frp.Server.Victim.{choose_victim-Choice}
use py_frp.Server.Moves.{IsFree, used_ports-IsFree, sorted-All, All-contains}
use py_frp.Server.Handlers.{send-same}
use py_frp.Server.Tables.{IsTable, Among-get}
use py_frp.Server.Cleanup.{service_name}
use py_frp.Server.Releasing.{popped-Releases, evict-services, evict-config}
use py_frp.Server.Leases.{Holds, lease_of, leases, Unleased, MayGrant, Registers}

-- The loop over the ports stores one service on a free port of the pool, or changes nothing.
abbrev Bound : PoolRequest → Server → Option RegisteredService × Server → Type 0
Bound r s (none, t) = (t.services ≡ s.services) × (t.config ≡ s.config)
Bound r s (some svc, t) =
    (host : Text) × (p : ℕ) × (l : ℕ) × (contains s.config.port_pool p ≡ true)
    × IsFree p s.services
    × (t.services ≡ Dict.set r.name (pool_service r host p l) s.services)

module _ (env : Env) (r : PoolRequest) (host : Text) (s : Server) where
  store_or-Bound :
      (p : ℕ) (later : Server → Option RegisteredService × Server) (b : Option ℕ × Server)
      → (b.1.services ≡ s.services) × (b.1.config ≡ s.config)
      → ((t : Server) → t.services ≡ s.services → t.config ≡ s.config → Bound r s (later t))
      → contains s.config.port_pool p ≡ true
      → IsFree p s.services
      → Bound r s (store_or r host p later b)
  unfolding store_or
  store_or-Bound p later (none, t) same h c free = h t same.0 same.1
  store_or-Bound p later (some l, t) same h c free =
      (host, p, l, c, free, ap (λ d. Dict.set r.name (pool_service r host p l) d) same.0)

  started :
      (p : ℕ) (t : Server)
      → t.services ≡ s.services
      → t.config ≡ s.config
      → ((start_server env host p t).1.services ≡ s.services)
        × ((start_server env host p t).1.config ≡ s.config)
  unfolding start_server
  started p t e c = ground arith

  bind_ports-Bound :
      (used ps : List ℕ) (t : Server)
      → t.services ≡ s.services
      → t.config ≡ s.config
      → ((p : ℕ) → contains used p ≡ false → IsFree p s.services)
      → All (λ p. contains s.config.port_pool p ≡ true) ps
      → Bound r s (bind_ports env r host used ps t)
  unfolding bind_ports
  bind_ports-Bound used [] t e c free m = (e, c)
  bind_ports-Bound used (p ∷ ps) t e c free m = elim (Bool-cases (contains used p)) [
    | inl taken ↦ rw (taken, bind_ports) (bind_ports-Bound used ps t e c free m.1)
    | inr open_port ↦
        rw (open_port, bind_ports)
          (store_or-Bound p (bind_ports env r host used ps) (start_server env host p t)
            (started p t e c) (λ u f d. bind_ports-Bound used ps u f d free m.1) m.0
            (free p open_port))
  ]

bind_pool_service-Bound :
    (env : Env) (r : PoolRequest) (s : Server) → Bound r s (bind_pool_service env r s)
unfolding bind_pool_service used_ports
bind_pool_service-Bound env r s =
    bind_ports-Bound env r s.config.pool_bind_host s _ (sorted s.config.port_pool) s refl refl
      (λ p h. used_ports-IsFree s.services p h)
      (sorted-All _ s.config.port_pool (All-contains s.config.port_pool))

-- Who has the lease of a port is a pool service on it.
Unleased-free : (p : ℕ) (d : Dict RegisteredService) → IsFree p d → Unleased p (leases d)
Unleased-free p d free j a e = at (Dict.get j d) refl e
  where
    at : (o : Option RegisteredService) → Dict.get j d ≡ o → lease_of o ≡ some a → a.port ≢ p
    at none h e = cc
    at (some svc) h e = λ q. free j svc h (ground arith) (ground arith)

pool_lease :
    (b : Bool) (r : PoolRequest) (host : Text) (p l : ℕ) (o : Option RegisteredService)
    → lease_of (if b then some (pool_service r host p l) else o)
      ≡ (if b then some (record { owner = r.client; port = p }) else lease_of o)
unfolding pool_service is_pool_service
pool_lease true r host p l o = refl
pool_lease false r host p l o = refl

Bound-MayGrant :
    (r : PoolRequest) (s : Server) (b : Option RegisteredService × Server)
    → r.name ≡ pool_service_name r.client
    → Bound r s b
    → MayGrant s.config.port_pool r.client (leases s.services) (leases b.1.services)
Bound-MayGrant r s (none, t) n h = inl (λ j. ap (λ (d : Dict RegisteredService). leases d j) h.0)
Bound-MayGrant r s (some svc, t) n (host, p, l, c, free, e) = inr (
  p,
  c,
  Unleased-free p s.services free,
  λ j.
      ap (λ (d : Dict RegisteredService). leases d j) e
      ∙ ap lease_of (get-set r.name j (pool_service r host p l) s.services)
      ∙ pool_lease (text_eq r.name j) r host p l (Dict.get j s.services)
      ∙ ap
          (λ (k : Text).
            if text_eq k j
            then some (record { owner = r.client; port = p })
            else leases s.services j)
          n,
)

-- The second part of a forced registration keeps the table.
finish_preemption-services :
    (env : Env) (victim : RegisteredService) (priority : ℤ) (ps : List PendingTunnel)
    (b : Option RegisteredService × Server)
    → (finish_preemption env victim priority ps b).1.services ≡ b.1.services
unfolding finish_preemption close_writer
finish_preemption-services env victim priority ps (o, t) =
    (send-same env victim.client (preempted_message victim.priority priority)
      (record t { futures = fail_futures "client was preempted" ps t.futures })).1

and_left : (a b : Bool) → (a && b) ≡ true → a ≡ true
and_left a b h = ground arith

not_owner : (a b : Bool) → (a && not b) ≡ true → b ≡ false
not_owner a b h = ground arith

module _ (env : Env) (r : PoolRequest) (force : Bool) (s : Server)
    (table : IsTable service_name s.services) (named : r.name ≡ pool_service_name r.client) where
  abbrev RegistersTo : Server → Type 0
  RegistersTo t =
      Registers s.config.port_pool r.client force (leases s.services) (leases t.services)

  same-RegistersTo : (t : Server) → t.services ≡ s.services → RegistersTo t
  same-RegistersTo t e = inl (inl (λ j. ap (λ (d : Dict RegisteredService). leases d j) e))

  victim-RegistersTo :
      (victim : ClientSession) (t : Server)
      → t.services ≡ s.services
      → t.config ≡ s.config
      → force ≡ true
      → same_client victim r.client ≡ false
      → Holds victim (leases s.services)
      → (u : Server) → u.services ≡ (bind_pool_service env r (evict victim t)).1.services
      → RegistersTo u
  victim-RegistersTo victim t e c f other holds u q =
      let gone =
        popped-Releases victim t (evict victim t).services (rw e table) (evict-services victim t) in
      let granted =
        Bound-MayGrant r (evict victim t) _ named
          (bind_pool_service-Bound env r (evict victim t)) in
      let pool : (evict victim t).config.port_pool ≡ s.config.port_pool =
        ap (λ (k : ServerConfig). k.port_pool) (evict-config victim t ∙ c) in
      inr (
        f,
        (
          victim,
          other,
          holds,
          (leases (evict victim t).services, (rw (← e) gone), (rw (q, ← pool) granted)),
        ),
      )

  victim-Holds :
      (t : Server) (v : RegisteredService)
      → t.services ≡ s.services
      → is_pool_service v ≡ true
      → Among v (values t.services)
      → Holds v.client (leases s.services)
  victim-Holds t v e pool m =
      let found = Among-get service_name t.services v (rw e table) m in
      let here : leases s.services v.name ≡ lease_of (some v) =
        ap (λ (d : Dict RegisteredService). leases d v.name) (sym e) ∙ ap lease_of found in
      (v.name, record { owner = v.client; port = v.bind_port }, ground (arith, here), refl)

  preempt-RegistersTo :
      (t : Server) (v : Result Error RegisteredService)
      → t.services ≡ s.services
      → t.config ≡ s.config
      → choose_victim force r.priority (other_pool_services r.client t) ≡ v
      → RegistersTo (preempt env r t v).1
  unfolding preempt other_pool_services
  preempt-RegistersTo t (err x) e c h = same-RegistersTo t e
  preempt-RegistersTo t (ok victim) e c h =
      let choice = choose_victim-Choice force r.priority (other_pool_services r.client t) in
      let (f, among, above, greatest) = rw h at choice in
      let (here, m) =
        keep_if-Among
          (λ (a : RegisteredService). is_pool_service a && not (same_client a.client r.client))
          victim (values t.services) among in
      let other = not_owner (is_pool_service victim) (same_client victim.client r.client) here in
      let bound = bind_pool_service env r (evict victim.client t) in
      let pending = pending_of victim.client t in
      victim-RegistersTo victim.client t e c f other (victim-Holds t victim e (and_left _ _ here) m)
        (finish_preemption env victim r.priority pending bound).1
        (finish_preemption-services env victim r.priority pending bound)

  allocate_or-RegistersTo :
      (b : Option RegisteredService × Server)
      → Bound r s b
      → RegistersTo (allocate_or env r force b).1
  unfolding allocate_or
  allocate_or-RegistersTo (some svc, t) h = inl (Bound-MayGrant r s (some svc, t) named h)
  allocate_or-RegistersTo (none, t) h = preempt-RegistersTo t _ h.0 h.1 refl

  allocate-RegistersTo : RegistersTo (allocate env r force s).1
  unfolding allocate
  allocate-RegistersTo = allocate_or-RegistersTo _ (bind_pool_service-Bound env r s)

abbrev pub PoolRegisters : ClientSession → Bool → Server → Server → Type 0
PoolRegisters c force s t =
    Registers s.config.port_pool c force (leases s.services) (leases t.services)

module _ (env : Env) (c : ClientSession) (force : Bool) (s : Server)
    (table : IsTable service_name s.services) where
  refused : PoolRegisters c force s s
  refused = inl (inl (λ j. refl))

  with_priority-Registers :
      (token : Text) (p : Result Error ℤ)
      → PoolRegisters c force s (with_priority env c token force s p).1
  unfolding with_priority
  with_priority-Registers token (err e) = refused
  with_priority-Registers token (ok p) = allocate-RegistersTo env _ force s table refl

  with_token-Registers :
      (token : Option Text) (p : Option Value)
      → PoolRegisters c force s (with_token env c token p force s).1
  unfolding with_token
  with_token-Registers none p = refused
  with_token-Registers (some token) p = elim (Bool-cases (text_in token s.config.pool_tokens)) [
    | inl known ↦ rw (known, with_token) (with_priority-Registers token (priority_of p))
    | inr unknown ↦ rw (unknown, with_token) refused
  ]

  pub register_pool_service-Registers :
      (raw : Value) → PoolRegisters c force s (register_pool_service env c raw force s).1
  unfolding register_pool_service
  register_pool_service-Registers (dict raw) = with_token-Registers _ _
  register_pool_service-Registers _ = refused
