-- ===== src/Server/LowestPort.antt =====
-- Which port a pool registration gets when no one has to be preempted.
use py_frp.Base.{
  ℕ, ◌≤◌, ◌≡◌, refl, ◌∙◌, true, false, Option, none, some, List, [], ◌∷◌, arith, contains, All,
  Bool-cases, inl, inr, sym, subst,
}
use py_frp.Base.Texts.{Text}
use py_frp.Server.State.{Server, Env, RegisteredService, start_server}
use py_frp.Server.Allocate.{
  PoolRequest, pool_service, used_ports, store_or, bind_ports, bind_pool_service, sorted, insert,
}

-- The numbers do not decrease.
abbrev IsSorted : List ℕ → Type 0
IsSorted [] = Unit
IsSorted (p ∷ ps) = All (λ q. p ≤ q) ps × IsSorted ps

-- The outcome for the ports `ps`, where no call of `start_server` fails.
abbrev pub Lowest :
    PoolRequest → Text → List ℕ → List ℕ → Server → Option RegisteredService → Type 0
Lowest r host used ps s none = (p : ℕ) → contains ps p ≡ true → contains used p ≡ true
Lowest r host used ps s (some svc) =
    (svc ≡ pool_service r host svc.bind_port s.attempts)
    × (contains ps svc.bind_port ≡ true)
    × (contains used svc.bind_port ≡ false)
    × ((p : ℕ) → contains ps p ≡ true → contains used p ≡ false → svc.bind_port ≤ p)

Lowest-skip :
    (r : PoolRequest) (host : Text) (used : List ℕ) (p : ℕ) (ps : List ℕ) (s : Server)
    (o : Option RegisteredService)
    → contains used p ≡ true
    → Lowest r host used ps s o
    → Lowest r host used (p ∷ ps) s o
Lowest-skip r host used p ps s none taken l = λ q c. ground (arith, l q)
Lowest-skip r host used p ps s (some svc) taken (e, c, u, l) =
    (e, ground arith, u, λ q d v. ground (arith, l q))

module _ (env : Env) (opens : (n : ℕ) (host : Text) (port : ℕ) → env.opens n host port ≡ true) where
  All-least : (p q : ℕ) (ps : List ℕ) → All (λ x. p ≤ x) ps → contains ps q ≡ true → p ≤ q
  All-least p q [] a c = cc
  All-least p q (x ∷ ps) a c = ground (arith, All-least p q ps)

  bind_ports-first :
      (r : PoolRequest) (host : Text) (used : List ℕ) (p : ℕ) (ps : List ℕ) (s : Server)
      → contains used p ≡ false
      → (bind_ports env r host used (p ∷ ps) s).0 ≡ some (pool_service r host p s.attempts)
  unfolding bind_ports store_or start_server
  bind_ports-first r host used p ps s c =
      rw (c, opens s.attempts host p, bind_ports, start_server, store_or) refl

  bind_ports-skip :
      (r : PoolRequest) (host : Text) (used : List ℕ) (p : ℕ) (ps : List ℕ) (s : Server)
      → contains used p ≡ true
      → bind_ports env r host used (p ∷ ps) s ≡ bind_ports env r host used ps s
  unfolding bind_ports
  bind_ports-skip r host used p ps s c = rw (c, bind_ports) refl

  bind_ports-Lowest :
      (r : PoolRequest) (host : Text) (used ps : List ℕ) (s : Server)
      → IsSorted ps
      → Lowest r host used ps s (bind_ports env r host used ps s).0
  unfolding bind_ports
  bind_ports-Lowest r host used [] s o = λ p c. cc
  bind_ports-Lowest r host used (p ∷ ps) s o = elim (Bool-cases (contains used p)) [
    | inl taken ↦
        subst (λ (b : Option RegisteredService × Server). Lowest r host used (p ∷ ps) s b.0)
          (sym (bind_ports-skip r host used p ps s taken))
          (Lowest-skip r host used p ps s (bind_ports env r host used ps s).0 taken
            (bind_ports-Lowest r host used ps s o.1))
    | inr free ↦
        subst (Lowest r host used (p ∷ ps) s) (sym (bind_ports-first r host used p ps s free))
          (refl, ground arith, free, λ q c u. All-least p q (p ∷ ps) (ground arith, o.0) c)
  ]

contains-insert : (p q : ℕ) (ps : List ℕ) → contains (insert p ps) q ≡ contains (p ∷ ps) q
unfolding insert
contains-insert p q [] = refl
contains-insert p q (x ∷ ps) = ground (arith, contains-insert p q ps)

contains-sorted : (q : ℕ) (ps : List ℕ) → contains (sorted ps) q ≡ contains ps q
unfolding sorted
contains-sorted q [] = refl
contains-sorted q (p ∷ ps) = ground (arith, contains-insert p q (sorted ps), contains-sorted q ps)

insert-least :
    (p q : ℕ) (ps : List ℕ) → p ≤ q → All (λ x. p ≤ x) ps → All (λ x. p ≤ x) (insert q ps)
unfolding insert
insert-least p q [] le a = (le, tt)
insert-least p q (x ∷ ps) le a = ground (arith, insert-least p q ps)

least_trans : (p q : ℕ) (ps : List ℕ) → p ≤ q → All (λ x. q ≤ x) ps → All (λ x. p ≤ x) ps
least_trans p q [] le a = tt
least_trans p q (x ∷ ps) le a = (omega (arith, le, a.0), least_trans p q ps le a.1)

insert-IsSorted : (p : ℕ) (ps : List ℕ) → IsSorted ps → IsSorted (insert p ps)
unfolding insert
insert-IsSorted p [] o = (tt, tt)
insert-IsSorted p (x ∷ ps) o =
    ground (arith, insert-IsSorted p ps, insert-least x p ps, least_trans p x ps)

sorted-IsSorted : (ps : List ℕ) → IsSorted (sorted ps)
unfolding sorted
sorted-IsSorted [] = tt
sorted-IsSorted (p ∷ ps) = insert-IsSorted p (sorted ps) (sorted-IsSorted ps)

Lowest-sorted :
    (r : PoolRequest) (host : Text) (used ps : List ℕ) (s : Server) (o : Option RegisteredService)
    → Lowest r host used (sorted ps) s o
    → Lowest r host used ps s o
Lowest-sorted r host used ps s none l = λ p c. l p (contains-sorted p ps ∙ c)
Lowest-sorted r host used ps s (some svc) (e, c, u, l) =
    (e, sym (contains-sorted svc.bind_port ps) ∙ c, u, λ p d v. l p (contains-sorted p ps ∙ d) v)

-- Where no call of `start_server` fails, a pool registration gets the lowest port of the pool that no
-- pool service has, and gets none only when every port of the pool is in use.
pub bind_pool_service-Lowest :
    (env : Env)
    → ((n : ℕ) (host : Text) (port : ℕ) → env.opens n host port ≡ true)
    → (r : PoolRequest) (s : Server)
    → Lowest r s.config.pool_bind_host
        (used_ports s)
        s.config.port_pool
        s
        (bind_pool_service env r s).0
unfolding bind_pool_service
bind_pool_service-Lowest env opens r s =
    Lowest-sorted r s.config.pool_bind_host (used_ports s) s.config.port_pool s
      (bind_pool_service env r s).0
      (bind_ports-Lowest env opens r s.config.pool_bind_host (used_ports s)
        (sorted s.config.port_pool) s (sorted-IsSorted s.config.port_pool))
