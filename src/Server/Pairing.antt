-- ===== src/Server/Pairing.antt =====
-- Which tunnel connections pair with a public connection, and how often.
use py_frp.Base.{
  ℕ, ◌≡◌, ◌≢◌, ◌↔◌, refl, sym, ap, ◌∙◌, true, Option, none, some, [], arith, if◌then◌else◌, inl,
  inr, Option-cases,
}
use py_frp.Base.Texts.{Text, text_eq, text_eq_iff}
use py_frp.Base.Dict
use py_frp.Base.Dict.{get-set, get-pop}
use py_frp.Base.Result.{ok}
use py_frp.Server.State.{Server, PendingTunnel, Future, open_future, paired}
use py_frp.Server.Register.{token_allows, require_token}
use py_frp.Server.Tunnels.{
  finish_public, pair_tunnel, pair_pending, pair_future, cancel_future, pop_own,
}

-- A pending tunnel that waits under `id` for a connection with this service and token.
abbrev pub Waits : Text → Text → Option Text → Server → Type 0
Waits id name provided s =
    (id ≢ [])
    × (name ≢ [])
    × (p : PendingTunnel) × (Dict.get id s.pending ≡ some p)
    × (p.service_name ≡ name)
    × (token_allows p.token provided ≡ true)
    × (Dict.get id s.futures ≡ some open_future)

-- The pending tunnel is the one looked for, and its future is still open.
abbrev Suits : Text → Text → Option Text → Server → PendingTunnel → Type 0
Suits id name provided s p =
    (p.service_name ≡ name)
    × (token_allows p.token provided ≡ true)
    × (Dict.get id s.futures ≡ some open_future)

module _ (id name : Text) (provided : Option Text) (conn : ℕ) (s t : Server) where
  pair_future-ok :
      (f : Option Future)
      → (pair_future conn id s f ≡ ok t) ↔ (
          (f ≡ some open_future) × (t ≡ record s { futures = Dict.set id (paired conn) s.futures }))
  unfolding pair_future
  pair_future-ok f = ground arith

  pair_pending-some :
      (p : PendingTunnel)
      → (pair_pending id name provided conn s (some p) ≡ ok t) ↔ (
          Suits id name provided s p
          × (t ≡ record s { futures = Dict.set id (paired conn) s.futures }))
  unfolding pair_pending require_token
  pair_pending-some p =
      ground (arith, pair_future-ok (Dict.get id s.futures), text_eq_iff p.service_name name)

  pair_pending-none : pair_pending id name provided conn s none ≢ ok t
  unfolding pair_pending
  pair_pending-none e = cc

  accepted :
      pair_tunnel id name provided conn s ≡ ok t
      → (id ≢ [])
        × (name ≢ [])
        × (pair_pending id name provided conn s (Dict.get id s.pending) ≡ ok t)
  unfolding pair_tunnel
  accepted e = ground arith

  accepts :
      id ≢ []
      → name ≢ []
      → pair_pending id name provided conn s (Dict.get id s.pending) ≡ ok t
      → pair_tunnel id name provided conn s ≡ ok t
  unfolding pair_tunnel
  accepts f g e = ground arith

  pair_tunnel-Waits :
      pair_tunnel id name provided conn s ≡ ok t
      → Waits id name provided s × (t ≡ record s { futures = Dict.set id (paired conn) s.futures })
  pair_tunnel-Waits e =
      let a = accepted e in
      elim (Option-cases (Dict.get id s.pending)) [
        | inl h ↦
            elim (pair_pending-none (ap (pair_pending id name provided conn s) (sym h) ∙ a.2)) [ ]
        | inr (p, h) ↦
            let b =
              (pair_pending-some p).0 (ap (pair_pending id name provided conn s) (sym h) ∙ a.2) in
            ((a.0, a.1, p, h, b.0.0, b.0.1, b.0.2), b.1)
      ]

  Waits-pair_tunnel :
      Waits id name provided s × (t ≡ record s { futures = Dict.set id (paired conn) s.futures })
      → pair_tunnel id name provided conn s ≡ ok t
  Waits-pair_tunnel ((f, g, p, h, q, k, o), e) =
      accepts f g
        (ap (pair_pending id name provided conn s) h ∙ (pair_pending-some p).1 ((q, k, o), e))

Waits-cong :
    (id name : Text) (provided : Option Text) (s t : Server)
    → t.pending ≡ s.pending
    → Dict.get id t.futures ≡ Dict.get id s.futures
    → Waits id name provided s
    → Waits id name provided t
Waits-cong id name provided s t e f (g, h, p, i, q, k, o) =
    (g, h, p, ap (Dict.get id) e ∙ i, q, k, f ∙ o)

-- The future of another id is the same, that of the id itself is not open.
future-set :
    (id id' : Text) (conn : ℕ) (s t : Server)
    → t ≡ record s { futures = Dict.set id (paired conn) s.futures }
    → (t.pending ≡ s.pending)
      × (Dict.get id' t.futures
          ≡ (if text_eq id id' then some (paired conn) else Dict.get id' s.futures))
future-set id id' conn s t e = (
  ap (λ (u : Server). u.pending) e,
  ap (λ (u : Server). Dict.get id' u.futures) e ∙ get-set id id' (paired conn) s.futures,
)

-- A tunnel connection is accepted exactly when a public connection waits under its id for a tunnel of
-- its service and its token is right; accepting it gives the connection to that one future.
pub pair_tunnel-ok :
    (id name : Text) (provided : Option Text) (conn : ℕ) (s t : Server)
    → (pair_tunnel id name provided conn s ≡ ok t) ↔ (
        Waits id name provided s × (t ≡ record s { futures = Dict.set id (paired conn) s.futures }))
pair_tunnel-ok id name provided conn s t =
    (pair_tunnel-Waits id name provided conn s t, Waits-pair_tunnel id name provided conn s t)

-- After a tunnel connection was accepted, every other one with its id is refused, whatever its service
-- and token; for another id the same connections are accepted as before.
pub pair_tunnel_once :
    (id name : Text) (provided : Option Text) (conn : ℕ) (s t : Server)
    → pair_tunnel id name provided conn s ≡ ok t
    → (id' name' : Text) (provided' : Option Text)
    → (id ≡ id' → (conn' : ℕ) (u : Server) → pair_tunnel id' name' provided' conn' t ≢ ok u)
      × (id ≢ id' → Waits id' name' provided' t ↔ Waits id' name' provided' s)
pair_tunnel_once id name provided conn s t e id' name' provided' =
    let w = pair_tunnel-Waits id name provided conn s t e in
    let f = future-set id id' conn s t w.1 in
    (
      λ q conn' u g. taken q (pair_tunnel-Waits id' name' provided' conn' t u g).0 f.1,
      λ q. (
        Waits-cong id' name' provided' t s (sym f.0) (sym (other q f.1)),
        Waits-cong id' name' provided' s t f.0 (other q f.1),
      ),
    )
  where
    other :
        id ≢ id'
        → Dict.get id' t.futures
          ≡ (if text_eq id id' then some (paired conn) else Dict.get id' s.futures)
        → Dict.get id' t.futures ≡ Dict.get id' s.futures
    other q f = ground (arith, text_eq_iff id id')

    taken :
        id ≡ id'
        → Waits id' name' provided' t
        → Dict.get id' t.futures
          ≡ (if text_eq id id' then some (paired conn) else Dict.get id' s.futures)
        → ⊥
    taken q (g, h, p, i, r, k, o) f = ground (arith, text_eq_iff id id')

cancel_future-pending :
    (f : Option Future) (id : Text) (s : Server) → (cancel_future f id s).pending ≡ s.pending
unfolding cancel_future
cancel_future-pending f id s = ground arith

pop_own-gone :
    (p : PendingTunnel) (s : Server) (o : Option PendingTunnel)
    → Dict.get p.id s.pending ≡ o
    → Dict.get p.id (pop_own o p s).pending ≡ none
unfolding pop_own
pop_own-gone p s none e = e
pop_own-gone p s (some q) e = ground (arith, get-pop p.id p.id s.pending, text_eq_iff p.id p.id)

-- Once `_handle_public` has ended, no tunnel connection is accepted for its id.
pub finish_public_lem :
    (p : PendingTunnel) (s : Server) (name : Text) (provided : Option Text) (conn : ℕ) (t : Server)
    → pair_tunnel p.id name provided conn (finish_public p s) ≢ ok t
unfolding finish_public
finish_public_lem p s name provided conn t e =
    let gone = pop_own-gone p s (Dict.get p.id s.pending) refl in
    let same =
      cancel_future-pending (Dict.get p.id s.futures) p.id
        (pop_own (Dict.get p.id s.pending) p s) in
    refused (pair_tunnel-Waits p.id name provided conn (finish_public p s) t e).0
      (ap (Dict.get p.id) same ∙ gone)
  where
    refused :
        Waits p.id name provided (finish_public p s)
        → Dict.get p.id (finish_public p s).pending ≡ none
        → ⊥
    refused (g, h, q, i, r, k, o) n = cc
