-- ===== src/Server/Connections.antt =====
-- A whole control connection, from its first message to its cleanup: what holds of a registration and of a
-- dropped service, as a relation of the states before and after, holds of the connection up to its
-- `finally` block. With the moves of `Server.Moves` as the relation it holds of the whole.
use py_frp.Base.{refl, Bool, true, List, [], ◌∷◌, ◌++◌, Bool-cases, inl, inr, ◌&&◌}
use py_frp.Base.Dict
use py_frp.Base.Dict.{values}
use py_frp.Base.Result.{Result, ok, err}
use py_frp.Value.{Value, Fields, list, cons, items, end, is_str, is_true, get_value}
use py_frp.Server.State.{
  Server, Env, ClientSession, RegisteredService, Error, send, close_writer, force_required,
}
use py_frp.Server.Sessions.{
  register_client, remove_client, drop_registered_service, drop_all, and_then, register_services,
}
use py_frp.Server.Register.{register_service}
use py_frp.Server.Control.{
  Incoming, message, broken, Finish, finished, raised, sending, serve, welcome, retried,
  force_retry, answer, register_first, after_hello, run_control, report, handle_control,
  pong_message, registered_message, force_required_message, error_message, hello_message,
}
use py_frp.Server.Moves.{Moves, Moves-same, Moves-trans, IsChange, Moves-IsChange}
use py_frp.Server.Handlers.{send-same, register_service-Moves, drop_all-Moves, remove_client-Moves}

module _ (env : Env) (c : ClientSession) (P : Server → Server → Type 0) (change : IsChange P)
    (registers : (force : Bool) (raw : Value) (s : Server)
      → P s (register_service env c force raw s).1)
    (drops : (svc : RegisteredService) (s : Server) → P s (drop_registered_service svc s)) where
  nothing : (s : Server) → P s s
  nothing s = change.same s s refl refl

  drop_all-change : (svcs : List RegisteredService) (s : Server) → P s (drop_all svcs s)
  unfolding drop_all
  drop_all-change [] s = nothing s
  drop_all-change (svc ∷ svcs) s =
      change.then_next s (drop_registered_service svc s) _ (drops svc s)
        (drop_all-change svcs (drop_registered_service svc s))

  and_then-change :
      (registered : List RegisteredService)
      (rest : List RegisteredService → Server → Result Error (List RegisteredService) × Server)
      (s : Server) (b : Result Error RegisteredService × Server)
      → ((svcs : List RegisteredService) (t : Server) → P t (rest svcs t).1)
      → P s b.1
      → P s (and_then registered rest b).1
  unfolding and_then
  and_then-change registered rest s (ok svc, t) later m =
      change.then_next s t _ m (later (registered ++ svc ∷ []) t)
  and_then-change registered rest s (err e, t) later m =
      change.then_next s t _ m (drop_all-change registered t)

  register_services-change :
      (force : Bool) (raws : List Value) (registered : List RegisteredService) (s : Server)
      → P s (register_services env c force raws registered s).1
  unfolding register_services
  register_services-change force [] registered s = nothing s
  register_services-change force (raw ∷ raws) registered s =
      and_then-change registered (register_services env c force raws) s
        (register_service env c force raw s) (register_services-change force raws)
        (registers force raw s)

  register_client-change :
      (raw_services : Value) (force : Bool) (s : Server)
      → P s (register_client env c raw_services force s).1
  unfolding register_client
  register_client-change (list (cons raw raws)) force s =
      register_services-change force (items (cons raw raws)) [] s
  register_client-change _ force s = nothing s

  sending-change :
      (m : Value) (next : Server → Finish × Server) (s : Server)
      → ((t : Server) → P t (next t).1)
      → P s (sending env c m next s).1
  unfolding sending
  sending-change m next s later =
      let sent = change.same s (send env c m s).1 (send-same env c m s).0 (send-same env c m s).1 in
      elim (Bool-cases (send env c m s).0) [
        | inl delivered ↦
            rw (delivered, sending)
              (change.then_next s (send env c m s).1 _ sent (later (send env c m s).1))
        | inr lost ↦ rw (lost, sending) sent
      ]

  serve-change : (incoming : List Incoming) (s : Server) → P s (serve env c incoming s).1
  unfolding serve
  serve-change [] s = nothing s
  serve-change (broken e ∷ rest) s = nothing s
  serve-change (message m ∷ rest) s =
      let pong =
        sending-change (pong_message (get_value "time" m)) (serve env c rest) s
          (serve-change rest) in
      let ignored = serve-change rest s in
      elim (Bool-cases (is_str "ping" (get_value "type" m))) [
        | inl ping ↦ rw (ping, serve) pong
        | inr other ↦ elim (Bool-cases (is_str "close" (get_value "type" m))) [
          | inl closing ↦ rw (other, closing, serve) (nothing s)
          | inr unknown ↦ rw (other, unknown, serve) ignored
        ]
      ]

  welcome-change :
      (incoming : List Incoming) (svcs : List RegisteredService) (s : Server)
      → P s (welcome env c incoming svcs s).1
  unfolding welcome
  welcome-change incoming svcs s =
      sending-change (registered_message env c svcs) (serve env c incoming) s
        (serve-change incoming)

  retried-change :
      (incoming : List Incoming) (s : Server) (r : Result Error (List RegisteredService) × Server)
      → P s r.1
      → P s (retried env c incoming r).1
  unfolding retried
  retried-change incoming s (ok svcs, t) m =
      change.then_next s t _ m (welcome-change incoming svcs t)
  retried-change incoming s (err e, t) m = m

  force_retry-change :
      (incoming : List Incoming) (s : Server) → P s (force_retry env c incoming s).1
  unfolding force_retry
  force_retry-change [] s = nothing s
  force_retry-change (broken e ∷ rest) s = nothing s
  force_retry-change (message m ∷ rest) s =
      elim (Bool-cases (is_str "close" (get_value "type" m))) [
        | inl closing ↦ rw (closing, force_retry) (nothing s)
        | inr other ↦
            elim (Bool-cases
              (is_str "register" (get_value "type" m) && is_true (get_value "force" m))) [
                | inl again ↦
                    rw (other, again, force_retry)
                      (retried-change rest s (register_client env c (get_value "services" m) true s)
                        (register_client-change (get_value "services" m) true s))
                | inr bad ↦ rw (other, bad, force_retry) (nothing s)
              ]
      ]

  answer-change :
      (incoming : List Incoming) (s : Server) (r : Result Error (List RegisteredService) × Server)
      → P s r.1
      → P s (answer env c incoming r).1
  unfolding answer
  answer-change incoming s (ok svcs, t) m =
      change.then_next s t _ m (welcome-change incoming svcs t)
  answer-change incoming s (err force_required, t) m = change.then_next s t _ m (
      sending-change force_required_message (force_retry env c incoming) t
        (force_retry-change incoming))
  answer-change incoming s (err _, t) m = m

  register_first-change :
      (m : Fields) (incoming : List Incoming) (s : Server)
      → P s (register_first env c m incoming s).1
  unfolding register_first
  register_first-change m incoming s = elim (Bool-cases (is_str "register" (get_value "type" m))) [
    | inl yes_register ↦
        rw (yes_register, register_first)
          (answer-change incoming s _
            (register_client-change (get_value "services" m) (is_true (get_value "force" m)) s))
    | inr other ↦ rw (other, register_first) (nothing s)
  ]

  after_hello-change :
      (incoming : List Incoming) (s : Server) → P s (after_hello env c incoming s).1
  unfolding after_hello
  after_hello-change [] s = register_first-change end [] s
  after_hello-change (broken e ∷ rest) s = nothing s
  after_hello-change (message m ∷ rest) s = register_first-change m rest s

  run_control-change :
      (first : Fields) (incoming : List Incoming) (s : Server)
      → P s (run_control env c first incoming s).1
  unfolding run_control
  run_control-change first incoming s =
      elim (Bool-cases (is_str "hello" (get_value "type" first))) [
        | inl hello ↦
            rw (hello, run_control)
              (sending-change hello_message (after_hello env c incoming) s
                (after_hello-change incoming))
        | inr other ↦ rw (other, run_control) (register_first-change first incoming s)
      ]

  report-change : (s : Server) (r : Finish × Server) → P s r.1 → P s (report env c r)
  unfolding report
  report-change s (finished, t) m = m
  report-change s (raised e, t) m = change.then_next s t _ m (
      change.same t (send env c (error_message e) t).1 (send-same env c (error_message e) t).0
        (send-same env c (error_message e) t).1)

  -- Up to the `finally` block.
  pub reported-change :
      (first : Fields) (incoming : List Incoming) (s : Server)
      → P s (
          report env c
            (run_control env c first incoming (record s { clients = Dict.set c.id c s.clients })))
  reported-change first incoming s =
      let known : Server = record s { clients = Dict.set c.id c s.clients } in
      change.then_next s known _ (change.same s known refl refl) (
        report-change known (run_control env c first incoming known)
          (run_control-change first incoming known))

-- With the moves as the relation.
pub reported-Moves :
    (env : Env) (c : ClientSession) (first : Fields) (incoming : List Incoming) (s : Server)
    → Moves s (
        report env c
          (run_control env c first incoming (record s { clients = Dict.set c.id c s.clients })))
unfolding drop_registered_service drop_all
reported-Moves env c =
    reported-change env c Moves Moves-IsChange (register_service-Moves env c)
      (λ svc s. drop_all-Moves (svc ∷ []) s)

pub handle_control-Moves :
    (env : Env) (c : ClientSession) (first : Fields) (incoming : List Incoming) (s : Server)
    → Moves s (handle_control env c first incoming s)
unfolding handle_control close_writer
handle_control-Moves env c first incoming s =
    let known : Server = record s { clients = Dict.set c.id c s.clients } in
    let before = report env c (run_control env c first incoming known) in
    Moves-trans s before _ (reported-Moves env c first incoming s) (
      Moves-trans before (remove_client c before) _ (remove_client-Moves c before)
        (Moves-same (remove_client c before) _ refl refl))
