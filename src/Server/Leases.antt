-- ===== src/Server/Leases.antt =====
-- The table of services as a table of leases: under a name the client and the port of its pool service,
-- or none. The abstract machine says of each step of the server what it does to the leases.
use py_frp.Base.{
  ℕ, ◌≡◌, ◌≢◌, Bool, true, false, Option, none, some, List, [], ◌∷◌, contains, if◌then◌else◌, ◌⊎◌,
  inl, inr, ◌∙◌,
}
use py_frp.Base.Texts.{Text, text_eq}
use py_frp.Base.Dict.{Dict}
use py_frp.Base.Dict
use py_frp.Server.State.{ClientSession, RegisteredService, same_client}
use py_frp.Server.Allocate.{is_pool_service, pool_service_name}
use py_frp.Server.Run.{
  Action, controls, registers, drops, removes, awaits, offers, finishes, tunnels, closes,
}

pub record Lease : Type 0 where
  pub owner : ClientSession
  pub port : ℕ

abbrev pub Leases : Type 0
Leases = Text → Option Lease

abbrev pub no_leases : Leases
no_leases k = none

-- The lease of a service that stands in a table.
abbrev pub lease_of : Option RegisteredService → Option Lease
lease_of none = none
lease_of (some svc) =
    if is_pool_service svc then some (record { owner = svc.client; port = svc.bind_port }) else none

abbrev pub leases : Dict RegisteredService → Leases
leases d k = lease_of (Dict.get k d)

abbrev pub Same : Leases → Leases → Type 0
Same l m = (j : Text) → m j ≡ l j

-- The leases without those of a client.
abbrev pub without : ClientSession → Option Lease → Option Lease
without c none = none
without c (some a) = if same_client a.owner c then none else some a

abbrev pub Releases : ClientSession → Leases → Leases → Type 0
Releases c l m = (j : Text) → m j ≡ without c (l j)

-- Nobody has a lease of the port.
abbrev pub Unleased : ℕ → Leases → Type 0
Unleased p l = (j : Text) (a : Lease) → l j ≡ some a → a.port ≢ p

-- A client is granted a port of the pool that nobody has, under the name of its pool service.
abbrev pub Grants : List ℕ → ClientSession → Leases → Leases → Type 0
Grants pool c l m =
    (p : ℕ) × (contains pool p ≡ true)
    × Unleased p l
    × ((j : Text)
        → m j ≡ (
            if text_eq (pool_service_name c) j then some (record { owner = c; port = p }) else l j))

abbrev pub MayGrant : List ℕ → ClientSession → Leases → Leases → Type 0
MayGrant pool c l m = Same l m ⊎ Grants pool c l m

-- The client has a lease.
abbrev pub Holds : ClientSession → Leases → Type 0
Holds c l = (k : Text) × (a : Lease) × (l k ≡ some a) × (a.owner ≡ c)

-- A registration grants its client at most one port, and only by force all leases of one other client,
-- which has one, end before that.
abbrev pub Registers : List ℕ → ClientSession → Bool → Leases → Leases → Type 0
Registers pool c force l m =
    MayGrant pool c l m
    ⊎ ((force ≡ true)
        × ((victim : ClientSession) × (same_client victim c ≡ false)
            × Holds victim l
            × ((n : Leases) × Releases victim l n × MayGrant pool c n m)))

-- Nothing but the lease under one name ends.
abbrev pub Drops : Text → Leases → Leases → Type 0
Drops k l m = (j : Text) → m j ≡ (if text_eq k j then none else l j)

-- What a client's control connection does before its end: registrations of that client, and drops of a
-- service by its name.
pub data Session (pool : List ℕ) (c : ClientSession) (l : Leases) : Leases → Type 0 where
  idle : {m : Leases} → Same l m → Session pool c l m
  registering :
      {m n : Leases} (force : Bool)
      → Session pool c l m
      → Registers pool c force m n
      → Session pool c l n
  dropping : {m n : Leases} (k : Text) → Session pool c l m → Drops k m n → Session pool c l n

Registers-Same :
    (pool : List ℕ) (c : ClientSession) (force : Bool) {l m n : Leases}
    → Registers pool c force l m
    → Same m n
    → Registers pool c force l n
Registers-Same pool c force (inl (inl f)) e = inl (inl (λ j. e j ∙ f j))
Registers-Same pool c force (inl (inr (p, m, free, f))) e = inl (inr (p, m, free, λ j. e j ∙ f j))
Registers-Same pool c force (inr (h, (victim, other, holds, (n, gone, inl f)))) e =
    inr (h, (victim, other, holds, (n, gone, inl (λ j. e j ∙ f j))))
Registers-Same pool c force (inr (h, (victim, other, holds, (n, gone, inr (p, m, free, f))))) e =
    inr (h, (victim, other, holds, (n, gone, inr (p, m, free, λ j. e j ∙ f j))))

Session-Same :
    {pool : List ℕ} {c : ClientSession} {l m n : Leases}
    → Session pool c l m
    → Same m n
    → Session pool c l n
Session-Same (idle f) e = idle (λ j. e j ∙ f j)
Session-Same (registering force q r) e = registering force q (Registers-Same _ _ force r e)
Session-Same (dropping k q r) e = dropping k q (λ j. e j ∙ r j)

pub Session-trans :
    {pool : List ℕ} {c : ClientSession} {l m n : Leases}
    → Session pool c l m
    → Session pool c m n
    → Session pool c l n
Session-trans p (idle e) = Session-Same p e
Session-trans p (registering force q r) = registering force (Session-trans p q) r
Session-trans p (dropping k q r) = dropping k (Session-trans p q) r

-- What the machine does in each step of the server.
abbrev pub LeaseAct : List ℕ → Action → Leases → Leases → Type 0
LeaseAct pool (controls c first incoming) l m = (n : Leases) × Session pool c l n × Releases c n m
LeaseAct pool (registers c force raw) l m = Registers pool c force l m
LeaseAct pool (drops svc) l m = Drops svc.name l m
LeaseAct pool (removes c) l m = Releases c l m
LeaseAct pool (awaits p) l m = Same l m
LeaseAct pool (offers p) l m = Same l m
LeaseAct pool (finishes p) l m = Same l m
LeaseAct pool (tunnels message conn) l m = Same l m
LeaseAct pool closes l m = Same no_leases m

pub data LeaseRun (pool : List ℕ) : List Action → Leases → Leases → Type 0 where
  done : {l m : Leases} → Same l m → LeaseRun pool [] l m
  follows :
      {a : Action} {later : List Action} {l m n : Leases}
      → LeaseAct pool a l m
      → LeaseRun pool later m n
      → LeaseRun pool (a ∷ later) l n
