-- ===== src/Client/Rule.antt =====
-- The rule for the steps of one connection: what holds of it while it goes on, and when it ends.
use py_frp.Base.{
  ◌≡◌, refl, Bool, true, false, ◌||◌, Option, none, some, List, [], ◌∷◌, ◌++◌, inl, inr, Bool-cases,
  Among, length, ◌&&◌, if◌then◌else◌,
}
use py_frp.Base.Result.{Result, ok, err}
use py_frp.Value.{Fields, get_value, is_str, is_true}
use py_frp.Client.State.{
  Failure, fatal, other, Python, Incoming, message, closed, broken, heartbeat_ended, Attempt,
  confirmed,
}
use py_frp.Client.Delay.{restart_delay}
use py_frp.Client.Session.{
  Connection, Ended, raised, waits, write_then, read_then, control_message, control_loop, on_answer,
  on_registration, on_hello, on_connection, apply_aliases, after_message, unless_error,
  on_registered, error_response, register_message, send_registration, client_hello, raise_error,
}

-- The connection after a message was written.
abbrev pub wrote : Fields → Connection → Connection
wrote m s = record s { written = s.written ++ m ∷ [] }

-- `Good` is kept by every change of a connection, and gives `Done` of every end.
pub record IsRule (python : Python) (a : Attempt) (Good : Connection → Type 0)
    (Done : Ended → Connection → Type 0) : Type 0 where
  pub when_waiting : (s : Connection) → Good s → Done waits s
  pub when_fatal : (s : Connection) → Good s → Done (raised fatal) s
  pub when_other : (s : Connection) → Good s → Done (raised other) s
  pub when_restarting :
      (s : Connection) (m : Fields)
      → Good s
      → Done (raised (restart_delay python s.client.config.reconnect_delay m)) s
  pub hello : (s : Connection) → Good s → Good (wrote client_hello s)
  pub registration :
      (s : Connection) → Good s → Good (wrote (register_message s.client s.client.force_connect) s)
  pub forced :
      (s : Connection) (m : Fields)
      → Good s
      → Among (message m) a.incoming
      → is_str "force_required" (get_value "type" m) ≡ true
      → (s.client.force_connect || confirmed a.force_answer) ≡ true
      → Good (wrote (register_message s.client true) s)
  pub opening :
      (s : Connection) (m : Fields) → Good s → Good (record s { opened = s.opened ++ m ∷ [] })
  pub registering :
      (s : Connection) (m : Fields)
      → Good s
      → Good (record s { client = apply_aliases m s.client; registered = s.registered ++ m ∷ [] })

module _ (python : Python) (a : Attempt) (Good : Connection → Type 0)
    (Done : Ended → Connection → Type 0) (rule : IsRule python a Good Done) where
  abbrev Ends : Ended × Connection → Type 0
  Ends r = Done r.0 r.1

  write_then-Ends :
      (m : Fields) (next : Connection → Ended × Connection) (s : Connection)
      → Good s
      → Good (wrote m s)
      → ((t : Connection) → Good t → Ends (next t))
      → Ends (write_then a m next s)
  unfolding write_then
  write_then-Ends m next s g k h = elim (Bool-cases (a.writes (length s.written))) [
    | inl y ↦ rw (y, write_then) (h (wrote m s) k)
    | inr n ↦ rw (n, write_then) (rule.when_other s g)
  ]

  -- What is read is some of what was to come.
  abbrev Within : List Incoming → Type 0
  Within incoming = (m : Fields) → Among (message m) incoming → Among (message m) a.incoming

  read_then-Ends :
      (next : Fields → List Incoming → Connection → Ended × Connection) (incoming : List Incoming)
      (s : Connection)
      → Within incoming
      → Good s
      → ((m : Fields) (rest : List Incoming)
          → Among (message m) a.incoming
          → Within rest
          → Ends (next m rest s))
      → Ends (read_then next incoming s)
  unfolding read_then
  read_then-Ends next [] s w g h = rule.when_waiting s g
  read_then-Ends next (message m ∷ rest) s w g h = h m rest (w m (inl refl)) (λ n k. w n (inr k))
  read_then-Ends next (heartbeat_ended ∷ rest) s w g h =
      read_then-Ends next rest s (λ n k. w n (inr k)) g h
  read_then-Ends next (closed ∷ rest) s w g h = rule.when_other s g
  read_then-Ends next (broken ∷ rest) s w g h = rule.when_other s g

  error-Ends :
      (s : Connection) (m : Fields) (f : Failure)
      → Good s
      → error_response m ≡ some f
      → Done (raised f) s
  unfolding error_response
  error-Ends s m f g e =
      by_flag (is_str "error" (get_value "type" m)) (is_true (get_value "fatal" m)) e
    where
      by_flag :
          (b d : Bool)
          → (if b then some (if d then fatal else other) else none) ≡ some f
          → Done (raised f) s
      by_flag true true e = let q : fatal ≡ f = cc in rw (← q) (rule.when_fatal s g)
      by_flag true false e = let q : other ≡ f = cc in rw (← q) (rule.when_other s g)
      by_flag false d e = cc

  unless_error-Ends :
      (next : Connection → Ended × Connection) (s : Connection) (m : Fields) (o : Option Failure)
      → error_response m ≡ o
      → Good s
      → Ends (next s)
      → Ends (unless_error next s o)
  unfolding unless_error
  unless_error-Ends next s m none e g h = h
  unless_error-Ends next s m (some f) e g h = error-Ends s m f g e

  abbrev Sound : Connection → Result Failure Connection → Type 0
  Sound s (ok t) = Good t
  Sound s (err f) = Done (raised f) s

  error_done : (b : Bool) (s : Connection) → Good s → Done (raised (if b then fatal else other)) s
  error_done true s g = rule.when_fatal s g
  error_done false s g = rule.when_other s g

  control_message-Sound :
      (m : Fields) (s : Connection) → Good s → Sound s (control_message python m s)
  unfolding control_message error_response raise_error
  control_message-Sound m s g = elim (Bool-cases (is_str "open" (get_value "type" m))) [
    | inl opens ↦ rw (opens, control_message) (rule.opening s m g)
    | inr a ↦ elim (Bool-cases (is_str "pong" (get_value "type" m))) [
      | inl pong ↦ rw (a, pong, control_message) g
      | inr b ↦ elim (Bool-cases (is_str "error" (get_value "type" m))) [
        | inl bad ↦ rw (a, b, bad, control_message) (error_done (is_true (get_value "fatal" m)) s g)
        | inr c ↦ elim (Bool-cases (is_str "server_restarting" (get_value "type" m))) [
          | inl restarts ↦ rw (a, b, c, restarts, control_message) (rule.when_restarting s m g)
          | inr d ↦ rw (a, b, c, d, control_message) g
        ]
      ]
    ]
  ]

  after_message-Ends :
      (next : Connection → Ended × Connection) (s : Connection) (r : Result Failure Connection)
      → Sound s r
      → ((t : Connection) → Good t → Ends (next t))
      → Ends (after_message next s r)
  unfolding after_message
  after_message-Ends next s (err f) d h = d
  after_message-Ends next s (ok t) g h = h t g

  control_loop-Ends :
      (incoming : List Incoming) (s : Connection) → Good s → Ends (control_loop python incoming s)
  unfolding control_loop
  control_loop-Ends [] s g = rule.when_waiting s g
  control_loop-Ends (message m ∷ rest) s g =
      after_message-Ends (control_loop python rest) s (control_message python m s)
        (control_message-Sound m s g) (control_loop-Ends rest)
  control_loop-Ends (heartbeat_ended ∷ rest) s g = rule.when_other s g
  control_loop-Ends (closed ∷ rest) s g = rule.when_other s g
  control_loop-Ends (broken ∷ rest) s g = rule.when_other s g

  on_registered-Ends :
      (m : Fields) (rest : List Incoming) (s : Connection)
      → Good s
      → Ends (on_registered python m rest s)
  unfolding on_registered
  on_registered-Ends m rest s g =
      elim (Bool-cases
        (is_str "registered" (get_value "type" m) && is_str "ok" (get_value "status" m))) [
          | inl y ↦ rw (y, on_registered) (control_loop-Ends rest _ (rule.registering s m g))
          | inr n ↦ rw (n, on_registered) (rule.when_other s g)
        ]

  on_answer-Ends :
      (m : Fields) (rest : List Incoming) (s : Connection)
      → Good s
      → Ends (on_answer python m rest s)
  unfolding on_answer
  on_answer-Ends m rest s g =
      unless_error-Ends (on_registered python m rest) s m (error_response m) refl g
        (on_registered-Ends m rest s g)

  on_registration-Ends :
      (m : Fields) (rest : List Incoming) (s : Connection)
      → Among (message m) a.incoming
      → Within rest
      → Good s
      → Ends (on_registration python a m rest s)
  unfolding on_registration
  on_registration-Ends m rest s here w g =
      elim (Bool-cases (is_str "force_required" (get_value "type" m))) [
        | inr n ↦ rw (n, on_registration) (on_answer-Ends m rest s g)
        | inl f ↦ elim (Bool-cases (s.client.force_connect || confirmed a.force_answer)) [
          | inr no_force ↦ rw (f, no_force, on_registration) (rule.when_fatal s g)
          | inl force ↦
              rw (f, force, on_registration)
                (write_then-Ends (register_message s.client true)
                  (read_then (on_answer python) rest) s g (rule.forced s m g here f force)
                  (λ t q.
                    read_then-Ends (on_answer python) rest t w q
                      (λ n more k v. on_answer-Ends n more t q)))
        ]
      ]

  send_registration-Ends :
      (rest : List Incoming) (s : Connection)
      → Within rest
      → Good s
      → Ends (send_registration python a rest s)
  unfolding send_registration
  send_registration-Ends rest s w g =
      write_then-Ends (register_message s.client s.client.force_connect)
        (read_then (on_registration python a) rest) s g (rule.registration s g)
        (λ t q.
          read_then-Ends (on_registration python a) rest t w q
            (λ n more k v. on_registration-Ends n more t k v q))

  on_hello-Ends :
      (m : Fields) (rest : List Incoming) (s : Connection)
      → Within rest
      → Good s
      → Ends (on_hello python a m rest s)
  unfolding on_hello
  on_hello-Ends m rest s w g =
      unless_error-Ends (send_registration python a rest) s m (error_response m) refl g
        (send_registration-Ends rest s w g)

  pub on_connection-Ends : (s : Connection) → Good s → Ends (on_connection python a s)
  unfolding on_connection
  on_connection-Ends s g =
      write_then-Ends client_hello (read_then (on_hello python a) a.incoming) s g (rule.hello s g)
        (λ t q.
          read_then-Ends (on_hello python a) a.incoming t (λ n k. k) q
            (λ m rest k v. on_hello-Ends m rest t v q))
