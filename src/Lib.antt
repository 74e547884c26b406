-- ===== src/Lib.antt =====
-- py-frp: a TCP reverse tunnel. A server listens for its clients, a client registers services, and
-- each public connection to a service is carried to the client through a tunnel connection.
--
-- The parts and their files, with the paths of the repository:
--   Protocol (src/py_frp/protocol.py). Protocol/Frames: `copy_to_tunnel` is `_copy_to_tunnel` over the
--     results of its reads, `copy_from_tunnel` is `_copy_from_tunnel` over the bytes that arrive until
--     the peer closes. Protocol/Relay: `relay` is `pipe_tunnel_streams`, and `pipe_streams`, over what
--     each `asyncio.wait` finds. Protocol/Messages: `read_message` and `write_message`; the JSON text
--     of an object is a parameter `Json`, and a theorem about a message assumes of it that the text
--     has no raw newline and decodes to the message.
--   PortPool (src/py_frp/pool.py): `parse_port_pools`. The tokens are with the command line.
--   Config (src/py_frp/config.py): Config/Types has the dataclasses, Config/Native, Config/Rathole and
--     Config/Ini the loaders of the three formats on a parsed file, Config/Fields what they share, and
--     Config/Files the choice between them. The texts that `str` and `float` give for values which are
--     no text are the parameter `Py`; a parsed ini file is what `configparser` shows of it.
--   Server (src/py_frp/server.py): Server/State is the state of `Server` with its listeners, futures
--     and what was sent. Server/Allocate and Server/Preempt are `_register_pool_service`,
--     Server/Register the other registrations, Server/Sessions `_register_client`, `_remove_client`
--     and `close`, Server/Tunnels `_handle_public` and `_handle_tunnel`, Server/Control
--     `_handle_control`. Server/Run is a sequence of such steps. What binds, what arrives and the
--     addresses of sockets are the parameter `Env`. Server/Moves sums up what a handler can do to the
--     table of services; Server/Handlers, Server/Connections and Server/RunMoves show it of each.
--     Server/Leases has the abstract machine of leases that the table stands for, Server/Releasing and
--     Server/Granting what removals and registrations are to it, Server/LeaseActs each step.
--   Channel (src/py_frp/supervisor_ipc.py): the files between the supervisor and its child, each the
--     JSON value last written to it, and the environments.
--   Supervisor (src/py_frp/supervisor.py): Supervisor/Rounds is `_run_children` over a list of children,
--     each with what the supervisor sees of it, Supervisor/Monitor `_monitor_child`, and
--     Supervisor/Breaker the failures per target.
--   Fingerprint (src/py_frp/security.py): the fingerprints of certificates, with `str.upper` as a
--     parameter.
--   Client (src/py_frp/client.py): Client/State is the state of `Client` and what it does not decide,
--     an `Attempt` for each connection: its peer, the user's answers, what can be written and what is
--     read. Client/Trust is `_open_server_connection`, Client/Session `_run_once`, Client/Delay
--     `_server_restart_delay`, Client/Tunnels `_open_tunnel`, and Client/Reconnect `run`. Client/Rule is
--     the induction over one connection that the theorems on `_run_once` use.
--   Command (src/py_frp/cli.py): the configurations that the arguments give. Command/Address is
--     `_split_host_port`, Command/Options the two `_load_..._command_config`, with `generate_tokens`
--     and `token_service_name` of src/py_frp/pool.py. The parameter `Outside` has the files, the
--     characters drawn for a token and SHA-256. Command/Elevation is what the two commands come to
--     before their runtime, with src/py_frp/elevate.py.
--   Update (src/py_frp/update.py): the watch for a new version and its race with the runtime.
--   Restart (src/py_frp/restart.py, src/py_frp/cli.py, src/py_frp/security.py): Restart/Request is
--     `request_restart`, Restart/Tls the TLS material in the environment, Restart/Children and
--     Restart/Runtime `_run_server_until_update` and `_run_client_until_update`.
--   Link: the parts together. Link/Registration, Link/Aliases and Link/Handshake put what a client writes
--     into the server's handlers and back, Link/Configless starts both from the command line, and
--     Link/Restarts and Link/ServerRestarts follow a child to the next one through the supervisor.
--   Base and Value hold Python's numbers, texts, dicts and decoded JSON values. Tests has the theorems
--     at concrete inputs.
--
-- The client registers with the server through messages; the configurations feed the server; the port
-- pool is a field of its configuration; the supervisor and its child meet only in the channel.
--
-- Bounds and fuel: bytes are numbers below 256 where a theorem needs that, and a frame's length is
-- packed modulo 2 ^ 32, four bytes of it. `copy_from_tunnel` has one round of fuel for each byte and
-- one more; a round takes at least five bytes, and the loop is shown to end. `show_int` has one digit
-- of fuel for each unit of the value. All other loops are structural.
--
-- Abstractions: a handler that gives up its lock between two sections is one step, except
-- `_handle_public`, which is three; a session is known by its id and a listener by the number of the
-- call that opened it; times are whole milliseconds; case mapping is that of ASCII letters; the texts
-- of error replies are left out. A supervisor's child is given by what it does. The client's heartbeat is
-- the event that it has ended, and a control port below zero is left out.
--
-- At the EOF frame `write_eof` of the plain side is taken to work: the fallback that closes its writer is
-- left out. A cancelled task of the relay is the relay's own cancellation.
--
-- Not modelled: the event loop behind the copying tasks and the closing of sockets, starting the
-- server and its dispatch of connections, the tracking of the client's tunnel tasks, the making of
-- certificates, `argparse`, the choice of the command in `main`, the metadata of installed packages,
-- and the thin wrappers of the operating system in src/py_frp/compat.py.
pub mod Base
pub mod Value
pub mod Protocol
pub mod PortPool
pub mod Config
pub mod Server
pub mod Client
pub mod Command
pub mod Update
pub mod Restart
pub mod Link
pub mod Channel
pub mod Supervisor
pub mod Fingerprint
mod Tests
