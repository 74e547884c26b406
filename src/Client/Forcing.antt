-- ===== src/Client/Forcing.antt =====
-- When a client forces its connection.
use py_frp.Base.{
  ◌≡◌, refl, sym, ◌∙◌, Bool, true, false, ◌||◌, List, [], ◌∷◌, ◌++◌, arith, ◌⊎◌, inl, inr, All,
  Among,
}
use py_frp.Base.Result.{Result, ok, err}
use py_frp.Value.{Fields, get_value, is_str, is_true}
use py_frp.Client.State.{Client, Failure, Python, Incoming, message, Attempt, confirmed}
use py_frp.Client.Trust.{open_server_connection}
use py_frp.Client.Session.{
  Connection, connected, run_once, apply_aliases, register_message, client_hello,
}
use py_frp.Client.Rule.{IsRule, on_connection-Ends}
use py_frp.Client.Pinning.{open_server_connection-SameSettings}

-- The server has answered `force_required`.
abbrev pub IsFull : List Incoming → Type 0
IsFull incoming =
    (m : Fields) × Among (message m) incoming
    × (is_str "force_required" (get_value "type" m) ≡ true)

-- A forced message is one of a client that forces every connection, or the server was full and the
-- user agreed.
abbrev pub MayForce : Attempt → Client → Fields → Type 0
MayForce a c m =
    is_true (get_value "force" m) ≡ true
    → (c.force_connect ≡ true) ⊎ ((confirmed a.force_answer ≡ true) × IsFull a.incoming)

module _ (python : Python) (a : Attempt) (c : Client) where
  abbrev Obeys : Connection → Type 0
  Obeys s = (s.client.force_connect ≡ c.force_connect) × All (MayForce a c) s.written

  All-snoc :
      (ms : List Fields) (m : Fields)
      → All (MayForce a c) ms
      → MayForce a c m
      → All (MayForce a c) (ms ++ m ∷ [])
  All-snoc [] m h k = (k, tt)
  All-snoc (n ∷ ms) m h k = (h.0, All-snoc ms m h.1 k)

  hello_unforced : is_true (get_value "force" client_hello) ≡ false
  unfolding client_hello get_value
  hello_unforced = refl

  unforced : (d : Client) → is_true (get_value "force" (register_message d false)) ≡ false
  unfolding register_message get_value
  unforced d = refl

  registration-MayForce :
      (d : Client) (b : Bool)
      → (b ≡ true
          → (c.force_connect ≡ true) ⊎ ((confirmed a.force_answer ≡ true) × IsFull a.incoming))
      → MayForce a c (register_message d b)
  registration-MayForce d true h k = h refl
  registration-MayForce d false h k = ground (arith, unforced d)

  agreed :
      (b : Bool)
      → b ≡ c.force_connect
      → IsFull a.incoming
      → (b || confirmed a.force_answer) ≡ true
      → (c.force_connect ≡ true) ⊎ ((confirmed a.force_answer ≡ true) × IsFull a.incoming)
  agreed true e full y = inl (sym e)
  agreed false e full y = inr (y, full)

  Obeys-IsRule : IsRule python a Obeys (λ ended s. All (MayForce a c) s.written)
  unfolding apply_aliases
  Obeys-IsRule = record {
    when_waiting = λ s g. g.1;
    when_fatal = λ s g. g.1;
    when_other = λ s g. g.1;
    when_restarting = λ s m g. g.1;
    hello = λ s g. (g.0, All-snoc s.written client_hello g.1 (λ k. ground (arith, hello_unforced)));
    registration = λ s g. (
      g.0,
      All-snoc s.written (register_message s.client s.client.force_connect) g.1
          (registration-MayForce s.client s.client.force_connect (λ y. inl (sym g.0 ∙ y))),
    );
    forced = λ s m g here full y. (
      g.0,
      All-snoc s.written (register_message s.client true) g.1 (
          registration-MayForce s.client true
            (λ _. agreed s.client.force_connect g.0 (m, here, full) y)),
    );
    opening = λ s m g. g;
    registering = λ s m g. g;
  }

connected-MayForce :
    (python : Python) (a : Attempt) (c : Client) (r : Result Failure Client)
    → open_server_connection python a.peer a.trust_answer c ≡ r
    → All (MayForce a c) (connected python a c r).1.written
unfolding connected
connected-MayForce python a c (err f) e = tt
connected-MayForce python a c (ok d) e =
    on_connection-Ends python a (Obeys python a c) (λ ended s. All (MayForce a c) s.written)
      (Obeys-IsRule python a c) (record { client = d; written = []; opened = []; registered = [] })
      ((open_server_connection-SameSettings python a.peer a.trust_answer c d e).3, tt)

-- In one connection a client writes a message with `force` set only if it forces every connection, or
-- the server has answered `force_required` and the user has agreed.
pub run_once-MayForce :
    (python : Python) (a : Attempt) (c : Client)
    → All (MayForce a c) (run_once python a c).1.written
unfolding run_once
run_once-MayForce python a c =
    connected-MayForce python a c (open_server_connection python a.peer a.trust_answer c) refl
