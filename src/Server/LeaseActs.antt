-- ===== src/Server/LeaseActs.antt =====
-- The server's runs refine the machine of leases, step by step.
use py_frp.Base.Dict.{Dict}
use py_frp.Base.Dict
use py_frp.Base.Result.{Result}
use py_frp.Value.{Value}
use py_frp.Server.State.{Server, ClientSession}
use py_frp.Server.Moves.{Moves}
use py_frp.Server.Tables.{IsTable}
use py_frp.Server.Cleanup.{service_name}
use py_frp.Server.Leases.{Session, leases}

-- The change of a control connection, with what it needs of the tables.
record LeaseMoves (c : ClientSession) (s t : Server) : Type 0 where
  moves : Moves s t
  session :
      IsTable service_name s.services
      → Session s.config.port_pool c (leases s.services) (leases t.services)
