-- ===== src/Server/PortsUnique.antt =====
-- No two pool services share a port, whatever the server does.
use py_frp.Base.{ℕ, ◌≡◌, ◌≢◌, true, false, some, List, [], ◌∷◌, arith, contains, keep_if, map}
use py_frp.Base.Texts.{Text, text_eq_iff}
use py_frp.Base.Dict.{Dict, values, get-set, get-pop}
use py_frp.Base.Dict
use py_frp.Config.Types.{ServerConfig}
use py_frp.Server.State.{Env, RegisteredService, pop_services}
use py_frp.Server.Moves.{Step, Steps, popped, pool_stored, regular_stored, cleared, here, next}
use py_frp.Server.Run.{Action, init, run}
use py_frp.Server.RunMoves.{run-Moves}
use py_frp.Server.Allocate.{is_pool_service}

-- The services stand under their names; a pool service has a port of the pool, and no other has it.
pub record PortsUnique (config : ServerConfig) (services : Dict RegisteredService) : Type 0 where
  pub member :
      (k : Text) (a : RegisteredService)
      → Dict.get k services ≡ some a
      → is_pool_service a ≡ true
      → contains config.port_pool a.bind_port ≡ true
  pub unique :
      (k j : Text) (a b : RegisteredService)
      → Dict.get k services ≡ some a
      → Dict.get j services ≡ some b
      → is_pool_service a ≡ true
      → is_pool_service b ≡ true
      → a.bind_port ≡ b.bind_port
      → k ≡ j

-- A port outside `used_ports` is no pool service's port.
used_ports-get :
    (d : Dict RegisteredService) (p : ℕ) (k : Text) (a : RegisteredService)
    → contains
        (map (λ (svc : RegisteredService). svc.bind_port) (keep_if is_pool_service (values d)))
        p
      ≡ false
    → Dict.get k d ≡ some a
    → is_pool_service a ≡ true
    → a.bind_port ≢ p
unfolding values Dict.get
used_ports-get [] p k a h e t = cc
used_ports-get ((j, b) ∷ d) p k a h e t = ground (arith, used_ports-get d p k a)

module _ (config : ServerConfig) where
  pub PortsUnique-pop :
      (k : Text) (d : Dict RegisteredService)
      → PortsUnique config d
      → PortsUnique config (Dict.pop k d)
  PortsUnique-pop k d v = record {
    member = λ j a e t. ground (arith, get-pop k j d, v.member j a);
    unique = λ i j a b e f t u q. ground (arith, get-pop k i d, get-pop k j d, v.unique i j a b);
  }

  -- A service whose port no pool service has, if it is a pool service itself.
  pub PortsUnique-set :
      (k : Text) (svc : RegisteredService) (d : Dict RegisteredService)
      → PortsUnique config d
      → (is_pool_service svc ≡ true → contains config.port_pool svc.bind_port ≡ true)
      → ((j : Text) (a : RegisteredService)
          → Dict.get j d ≡ some a
          → is_pool_service a ≡ true
          → is_pool_service svc ≡ true
          → a.bind_port ≢ svc.bind_port)
      → PortsUnique config (Dict.set k svc d)
  PortsUnique-set k svc d v fits free = record {
    member = λ j a e t. ground (arith, get-set k j svc d, v.member j a);
    unique = λ i j a b e f t u q. ground (
      arith,
      get-set k i svc d,
      get-set k j svc d,
      text_eq_iff k i,
      text_eq_iff k j,
      v.unique i j a b,
      free i a,
      free j b,
    );
  }

  pub PortsUnique-pop_services :
      (svcs : List RegisteredService) (d : Dict RegisteredService)
      → PortsUnique config d
      → PortsUnique config (pop_services svcs d)
  unfolding pop_services
  PortsUnique-pop_services [] d v = v
  PortsUnique-pop_services (svc ∷ svcs) d v =
      PortsUnique-pop_services svcs (Dict.pop svc.name d) (PortsUnique-pop svc.name d v)

Step-PortsUnique :
    {config : ServerConfig} {d e : Dict RegisteredService}
    → Step config d e
    → PortsUnique config d
    → PortsUnique config e
Step-PortsUnique {config} {d} (popped k) v = PortsUnique-pop config k d v
Step-PortsUnique {config} {d} (pool_stored svc pool here_port free) v =
    PortsUnique-set config svc.name svc d v (λ _. here_port) (λ j a e t _ q. free j a e t q)
Step-PortsUnique {config} {d} (regular_stored svc regular new) v =
    PortsUnique-set config svc.name svc d v (λ t. cc) (λ j a e t u q. cc)
Step-PortsUnique cleared v = record {
  member = λ k a e t. unfold Dict.get in cc;
  unique = λ k j a b e f t u q. unfold Dict.get in cc;
}

pub Steps-PortsUnique :
    {config : ServerConfig} {d e : Dict RegisteredService}
    → Steps config d e
    → PortsUnique config d
    → PortsUnique config e
Steps-PortsUnique here v = v
Steps-PortsUnique (next p st) v = Step-PortsUnique st (Steps-PortsUnique p v)

-- Whatever the server's steps and their order, and whatever binds or fails: every pool service has a
-- port of the configured pool, and two pool services under different names have different ports.
pub run-PortsUnique :
    (env : Env) (config : ServerConfig) (actions : List Action)
    → PortsUnique config (run env actions (init config)).services
unfolding init Dict.get
run-PortsUnique env config actions =
    let m = run-Moves env actions (init config) in
    Steps-PortsUnique m.steps (record { member = λ k a e t. cc; unique = λ k j a b e f t u q. cc })
