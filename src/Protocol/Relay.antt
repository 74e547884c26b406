-- ===== src/Protocol/Relay.antt =====
-- `pipe_streams` and `pipe_tunnel_streams`: two copying tasks side by side. What each
-- `asyncio.wait` finds is an argument, so a sequence of them is an interleaving of the two tasks.
use py_frp.Base.{
  ◌≡◌, ◌≢◌, refl, Bool, true, false, ◌||◌, not, Option, none, some, List, [], ◌∷◌, arith, ◌⊎◌, inl,
  inr, if◌then◌else◌, Bool-cases,
}
use py_frp.Protocol.Frames.{Ending, waiting, returned, raised}

-- A copying task: it runs, it has returned, it has raised an exception, or it was cancelled.
pub data Task : Type 0 where
  running finished failed cancelled : Task

pub record Relay : Type 0 where
  pub first : Task
  pub second : Task
  pub writers_closed : Bool

-- What one `asyncio.wait` finds of the two tasks; or the relay itself is cancelled while it waits. Nobody
-- but the relay has the tasks, so a task that is found cancelled without the relay having done it comes
-- of the event loop's end: its `CancelledError` is raised again, the other task is cancelled, and the
-- relay leaves the writers as they are, which is `interrupt` too.
pub data Wake : Type 0 where
  woken : Option Ending → Option Ending → Wake
  interrupt : Wake

pub data RelayEnd : Type 0 where
  relaying ended interrupted : RelayEnd

unfoldable pub ending_of : Ending → Task
ending_of waiting = running
ending_of returned = finished
ending_of (raised e) = failed

-- A task that is pending, and what is found of it; a task that is done is not asked for again.
unfoldable pub task_after : Option Ending → Task → Task
unfolding ending_of
task_after none t = t
task_after (some e) running = ending_of e
task_after (some e) t = t

-- `task.cancel()` of a task that is pending.
unfoldable pub cancel : Task → Task
cancel running = cancelled
cancel t = t

unfoldable pub is_failed : Task → Bool
is_failed failed = true
is_failed t = false

unfoldable pub is_pending : Task → Bool
is_pending running = true
is_pending t = false

-- The `finally` block.
unfoldable pub cancel_pending : Relay → Relay
unfolding cancel
cancel_pending r = record r { first = cancel r.first; second = cancel r.second }

unfoldable pub close_writers_of : Relay → Relay
close_writers_of r = record r { writers_closed = true }

-- After one wait: an exception, or no task that is pending, ends the loop.
unfoldable pub relay_on : (Relay → RelayEnd × Relay) → Relay → RelayEnd × Relay
unfolding is_failed is_pending cancel_pending close_writers_of
relay_on later r =
    if (is_failed r.first || is_failed r.second) || not (is_pending r.first || is_pending r.second)
    then (ended, close_writers_of (cancel_pending r))
    else later r

-- `pipe_tunnel_streams(…)`, and `pipe_streams(…)`, over what the waits find.
unfoldable pub relay : List Wake → Relay → RelayEnd × Relay
unfolding relay_on task_after cancel_pending
relay [] r = (relaying, r)
relay (interrupt ∷ later) r = (interrupted, cancel_pending r)
relay (woken a b ∷ later) r =
    relay_on (relay later)
      (record r { first = task_after a r.first; second = task_after b r.second })

abbrev pub both_running : Relay
both_running = record { first = running; second = running; writers_closed = false }

-- A task that no exception has ended and nobody has cancelled.
abbrev pub IsWell : Task → Type 0
IsWell t = (t ≡ running) ⊎ (t ≡ finished)

-- Both directions came to their end, or an exception of one has ended the other.
abbrev pub IsSettled : Relay → Type 0
IsSettled r =
    ((r.first ≡ finished) × (r.second ≡ finished))
    ⊎ ((r.first ≡ failed) × (r.second ≢ running))
    ⊎ ((r.second ≡ failed) × (r.first ≢ running))

-- How the relay stands, by how far it is.
abbrev pub Relayed : RelayEnd → Relay → Type 0
Relayed relaying r = (r.writers_closed ≡ false) × IsWell r.first × IsWell r.second
Relayed ended r = (r.writers_closed ≡ true) × IsSettled r
Relayed interrupted r = (r.writers_closed ≡ false) × (r.first ≢ running) × (r.second ≢ running)

cancel-stopped : (t : Task) → cancel t ≢ running
unfolding cancel
cancel-stopped running e = cc
cancel-stopped finished e = cc
cancel-stopped failed e = cc
cancel-stopped cancelled e = cc

-- A task of a relay that goes on, after one wait.
abbrev IsFound : Task → Type 0
IsFound t = IsWell t ⊎ (t ≡ failed)

not_cancelled : IsFound cancelled → ⊥
not_cancelled (inl (inl e)) = cc
not_cancelled (inl (inr e)) = cc
not_cancelled (inr e) = cc

ending_of-IsFound : (e : Ending) → IsFound (ending_of e)
unfolding ending_of
ending_of-IsFound waiting = inl (inl refl)
ending_of-IsFound returned = inl (inr refl)
ending_of-IsFound (raised e) = inr refl

task_after-IsFound : (o : Option Ending) (t : Task) → IsWell t → IsFound (task_after o t)
unfolding task_after
task_after-IsFound none t h = inl h
task_after-IsFound (some e) running h = ending_of-IsFound e
task_after-IsFound (some e) finished h = inl h
task_after-IsFound (some e) failed h = inl h
task_after-IsFound (some e) cancelled h = inl h

abbrev stops : Task → Task → Bool
stops f s = (is_failed f || is_failed s) || not (is_pending f || is_pending s)

-- The end of the loop, from what the wait has found of two sound tasks.
ended-IsSettled :
    (f s : Task) (c : Bool)
    → IsFound f
    → IsFound s
    → stops f s ≡ true
    → IsSettled (cancel_pending (record { first = f; second = s; writers_closed = c }))
unfolding cancel_pending cancel is_failed is_pending
ended-IsSettled cancelled s c g h e = elim (not_cancelled g) [ ]
ended-IsSettled running cancelled c g h e = elim (not_cancelled h) [ ]
ended-IsSettled finished cancelled c g h e = elim (not_cancelled h) [ ]
ended-IsSettled failed cancelled c g h e = elim (not_cancelled h) [ ]
ended-IsSettled running running c g h e = cc
ended-IsSettled running finished c g h e = cc
ended-IsSettled finished running c g h e = cc
ended-IsSettled finished finished c g h e = inl (refl, refl)
ended-IsSettled running failed c g h e = inr (inr (refl, λ q. cc))
ended-IsSettled finished failed c g h e = inr (inr (refl, λ q. cc))
ended-IsSettled failed running c g h e = inr (inl (refl, λ q. cc))
ended-IsSettled failed finished c g h e = inr (inl (refl, λ q. cc))
ended-IsSettled failed failed c g h e = inr (inl (refl, λ q. cc))

goes_on-IsWell : (f s : Task) → IsFound f → IsFound s → stops f s ≡ false → IsWell f × IsWell s
unfolding is_failed
goes_on-IsWell f s (inl g) (inl h) e = (g, h)
goes_on-IsWell f s (inr g) h e = let e' = rw (g, is_failed) at e in cc
goes_on-IsWell f s (inl g) (inr h) e = let e' = rw (h, is_failed) at e in ground (arith)

relay_on-Relayed :
    (later : Relay → RelayEnd × Relay) (r : Relay)
    → IsFound r.first
    → IsFound r.second
    → (IsWell r.first → IsWell r.second → Relayed (later r).0 (later r).1)
    → Relayed (relay_on later r).0 (relay_on later r).1
unfolding relay_on close_writers_of
relay_on-Relayed later r f s goes = elim (Bool-cases (stops r.first r.second)) [
  | inl y ↦ rw (y, relay_on) (refl, ended-IsSettled r.first r.second r.writers_closed f s y)
  | inr n ↦
      let sound = goes_on-IsWell r.first r.second f s n in rw (n, relay_on) (goes sound.0 sound.1)
]

relay-Relayed :
    (wakes : List Wake) (r : Relay)
    → r.writers_closed ≡ false
    → IsWell r.first
    → IsWell r.second
    → Relayed (relay wakes r).0 (relay wakes r).1
unfolding relay cancel_pending
relay-Relayed [] r c f s = (c, f, s)
relay-Relayed (interrupt ∷ later) r c f s = (c, cancel-stopped r.first, cancel-stopped r.second)
relay-Relayed (woken a b ∷ later) r c f s =
    let q : Relay = record r { first = task_after a r.first; second = task_after b r.second } in
    relay_on-Relayed (relay later) q (task_after-IsFound a r.first f)
      (task_after-IsFound b r.second s) (λ g h. relay-Relayed later q c g h)

-- However the two directions of a tunnel interleave: while the relay goes on, its writers are open and
-- no direction has failed or been cancelled, so that a half-close leaves the other direction be; when it
-- has ended, the writers are closed, and both directions came to their end or the exception of one has
-- ended the other; when it is cancelled itself, no direction runs on.
pub relay_lem :
    (wakes : List Wake) → Relayed (relay wakes both_running).0 (relay wakes both_running).1
relay_lem wakes = relay-Relayed wakes both_running refl (inl refl) (inl refl)
