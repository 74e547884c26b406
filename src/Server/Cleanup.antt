-- ===== src/Server/Cleanup.antt =====
-- What is left of a client: `_remove_client`, and `_handle_control`, which ends with it.
use py_frp.Base.{◌≡◌, refl, ap, ◌∙◌, false, none, some, List, [], ◌∷◌, keep_if, if◌then◌else◌}
use py_frp.Base.Texts.{Text}
use py_frp.Base.Dict
use py_frp.Base.Dict.{Dict, values}
use py_frp.Value.{Fields}
use py_frp.Config.Types.{ServerConfig}
use py_frp.Server.State.{
  Server, Env, ClientSession, RegisteredService, PendingTunnel, same_client, services_of,
  pending_of, pop_services, pop_pending, close_listeners, close_listener, close_writer,
}
use py_frp.Server.Sessions.{remove_client}
use py_frp.Server.Control.{Incoming, run_control, report, handle_control}
use py_frp.Server.Moves.{
  Step, Steps, popped, pool_stored, regular_stored, cleared, here, next, close_listeners-same,
}
use py_frp.Server.Connections.{reported-Moves}
use py_frp.Server.Run.{Action, init, run}
use py_frp.Server.RunMoves.{run-Moves}
use py_frp.Server.Tables.{
  IsTable, set-IsTable, pop-IsTable, pop_each, get-pop_each, pop_each-gone, pop_each-kept,
}

abbrev pub service_name : RegisteredService → Text
service_name svc = svc.name

abbrev tunnel_id : PendingTunnel → Text
tunnel_id p = p.id

-- The services stand under their names, the pending tunnels under their ids.
abbrev pub HasTables : Server → Type 0
HasTables s = IsTable service_name s.services × IsTable tunnel_id s.pending

pub pop_services-lem :
    (svcs : List RegisteredService) (d : Dict RegisteredService)
    → pop_services svcs d ≡ pop_each service_name svcs d
unfolding pop_services
pop_services-lem [] d = refl
pop_services-lem (svc ∷ svcs) d = pop_services-lem svcs (Dict.pop svc.name d)

pop_pending-lem :
    (ps : List PendingTunnel) (d : Dict PendingTunnel) → pop_pending ps d ≡ pop_each tunnel_id ps d
unfolding pop_pending
pop_pending-lem [] d = refl
pop_pending-lem (p ∷ ps) d = pop_pending-lem ps (Dict.pop p.id d)

close_listeners-pending :
    (svcs : List RegisteredService) (s : Server) → (close_listeners svcs s).pending ≡ s.pending
unfolding close_listeners close_listener
close_listeners-pending [] s = refl
close_listeners-pending (svc ∷ svcs) s =
    close_listeners-pending svcs (close_listener svc.listener s)

pub remove_client-services :
    (c : ClientSession) (s : Server)
    → (remove_client c s).services ≡ pop_each service_name (services_of c s) s.services
unfolding remove_client
remove_client-services c s =
    (close_listeners-same (services_of c s) _).1 ∙ pop_services-lem (services_of c s) s.services

remove_client-pending :
    (c : ClientSession) (s : Server)
    → (remove_client c s).pending ≡ pop_each tunnel_id (pending_of c s) s.pending
unfolding remove_client
remove_client-pending c s =
    close_listeners-pending (services_of c s) _ ∙ pop_pending-lem (pending_of c s) s.pending

services_of-removed :
    (c : ClientSession) (s : Server)
    → IsTable service_name s.services
    → services_of c (remove_client c s) ≡ []
unfolding services_of
services_of-removed c s t =
    ap (λ d. keep_if (λ (svc : RegisteredService). same_client svc.client c) (values d))
      (remove_client-services c s)
    ∙ pop_each-gone service_name (λ svc. same_client svc.client c) s.services t

pending_of-removed :
    (c : ClientSession) (s : Server)
    → IsTable tunnel_id s.pending
    → pending_of c (remove_client c s) ≡ []
unfolding pending_of
pending_of-removed c s t =
    ap (λ d. keep_if (λ (p : PendingTunnel). same_client p.client c) (values d))
      (remove_client-pending c s)
    ∙ pop_each-gone tunnel_id (λ p. same_client p.client c) s.pending t

services-kept :
    (c : ClientSession) (s : Server) (k : Text) (svc : RegisteredService)
    → IsTable service_name s.services
    → Dict.get k s.services ≡ some svc
    → same_client svc.client c ≡ false
    → Dict.get k (remove_client c s).services ≡ some svc
unfolding services_of
services-kept c s k svc t e o =
    ap (Dict.get k) (remove_client-services c s)
    ∙ get-pop_each service_name k (services_of c s) s.services
    ∙ ap (λ b. if b then none else Dict.get k s.services)
        (pop_each-kept service_name (λ a. same_client a.client c) k s.services svc t e o)
    ∙ e

pending-kept :
    (c : ClientSession) (s : Server) (k : Text) (p : PendingTunnel)
    → IsTable tunnel_id s.pending
    → Dict.get k s.pending ≡ some p
    → same_client p.client c ≡ false
    → Dict.get k (remove_client c s).pending ≡ some p
unfolding pending_of
pending-kept c s k p t e o =
    ap (Dict.get k) (remove_client-pending c s)
    ∙ get-pop_each tunnel_id k (pending_of c s) s.pending
    ∙ ap (λ b. if b then none else Dict.get k s.pending)
        (pop_each-kept tunnel_id (λ a. same_client a.client c) k s.pending p t e o)
    ∙ e

-- In a state whose tables are in order, removing a client leaves no service and no pending tunnel of
-- it, and keeps every service and every pending tunnel of another client.
pub remove_client_lem :
    (c : ClientSession) (s : Server)
    → HasTables s
    → (services_of c (remove_client c s) ≡ [])
      × (pending_of c (remove_client c s) ≡ [])
      × ((k : Text) (svc : RegisteredService)
          → Dict.get k s.services ≡ some svc
          → same_client svc.client c ≡ false
          → Dict.get k (remove_client c s).services ≡ some svc)
      × ((k : Text) (p : PendingTunnel)
          → Dict.get k s.pending ≡ some p
          → same_client p.client c ≡ false
          → Dict.get k (remove_client c s).pending ≡ some p)
remove_client_lem c s (t, u) = (
  services_of-removed c s t,
  pending_of-removed c s u,
  λ k svc e o. services-kept c s k svc t e o,
  λ k p e o. pending-kept c s k p u e o,
)

Step-IsTable :
    {config : ServerConfig} {d e : Dict RegisteredService}
    → Step config d e
    → IsTable service_name d
    → IsTable service_name e
Step-IsTable {config} {d} (popped k) t = pop-IsTable service_name k d t
Step-IsTable {config} {d} (pool_stored svc pool port free) t = set-IsTable service_name svc d t
Step-IsTable {config} {d} (regular_stored svc regular new) t = set-IsTable service_name svc d t
Step-IsTable cleared t = tt

pub Steps-IsTable :
    {config : ServerConfig} {d e : Dict RegisteredService}
    → Steps config d e
    → IsTable service_name d
    → IsTable service_name e
Steps-IsTable here t = t
Steps-IsTable (next p st) t = Step-IsTable st (Steps-IsTable p t)

run-IsTable :
    (env : Env) (config : ServerConfig) (actions : List Action)
    → IsTable service_name (run env actions (init config)).services
unfolding init
run-IsTable env config actions = Steps-IsTable (run-Moves env actions (init config)).steps tt

-- Whatever the server did before, and whatever the client sends, whichever message or listener fails
-- and however its connection ends: once `_handle_control` returns, no service of the client is left.
pub handle_control_leaves :
    (env : Env) (config : ServerConfig) (actions : List Action) (c : ClientSession) (first : Fields)
    (incoming : List Incoming)
    → services_of c (handle_control env c first incoming (run env actions (init config))) ≡ []
unfolding handle_control close_writer services_of
handle_control_leaves env config actions c first incoming =
    let s = run env actions (init config) in
    let known : Server = record s { clients = Dict.set c.id c s.clients } in
    let m = reported-Moves env c first incoming s in
    services_of-removed c (report env c (run_control env c first incoming known))
      (Steps-IsTable m.steps (run-IsTable env config actions))
