-- ===== src/Link/Handshake.antt =====
-- The two ends of a tunnel: the `open` message of the server, the client's answer to it, and what the
-- server does with that.
use py_frp.Base.{
  ℕ, ◌≡◌, ◌≢◌, refl, ap, sym, ◌∙◌, Bool, true, false, Option, none, some, [], ◌∷◌, if◌then◌else◌,
  subst,
}
use py_frp.Base.Texts.{Text}
use py_frp.Base.Dict
use py_frp.Base.Result.{Result, ok, err}
use py_frp.Value.{Fields, str, get_value, text_or_empty}
use py_frp.Config.Types.{ProxyConfig}
use py_frp.Server.State.{Server, Env, PendingTunnel, open_future, paired}
use py_frp.Server.Register.{text_or, token_allows}
use py_frp.Server.Tunnels.{open_message, handle_tunnel, pair_tunnel}
use py_frp.Server.Pairing.{pair_tunnel-ok}
use py_frp.Client.State.{Client, Failure, Python}
use py_frp.Client.Trust.{open_server_connection}
use py_frp.Client.Tunnels.{
  Dial, TunnelEnd, unwritten, reported, relayed, open_tunnel, tunnel_message, dial, dialled,
  write_tunnel,
}
use py_frp.Client.Pinning.{open_server_connection-SameSettings}
use py_frp.Link.Registration.{given, optional_string-text_value, name-text}
use py_frp.Link.Aliases.{members}

-- The client's task has written this message.
abbrev pub Wrote : Fields → TunnelEnd → Type 0
Wrote m (relayed n) = n ≡ m
Wrote m (reported n) = n ≡ m
Wrote m t = ⊥

-- What the server reads of a tunnel message.
handle_tunnel-message :
    (env : Env) (c : Client) (proxy : ProxyConfig) (id service : Text) (d : Dial) (conn : ℕ)
    (s : Server)
    → handle_tunnel env (tunnel_message c proxy id service d) conn s
      ≡ pair_tunnel id service (given (text_or proxy.token c.config.token)) conn s
unfolding handle_tunnel tunnel_message get_value
handle_tunnel-message env c proxy id service d conn s =
    ap (λ t. pair_tunnel t (text_or_empty env.repr (str service)) _ conn s) (name-text env.repr id)
    ∙ ap (λ t. pair_tunnel id t _ conn s) (name-text env.repr service)
    ∙ ap (λ t. pair_tunnel id service t conn s)
        (optional_string-text_value env.repr (text_or proxy.token c.config.token))

-- What the client writes is the tunnel message.
write_tunnel-message : (m n : Fields) (d : Dial) → Wrote n (write_tunnel m d) → m ≡ n
unfolding write_tunnel
write_tunnel-message m n d w = by_cases d.writes d.local_error w
  where
    by_cases :
        (b : Bool) (e : Option Text)
        → Wrote n (if b then (elim e [ none ↦ relayed m | some t ↦ reported m ]) else unwritten)
        → m ≡ n
    by_cases true none w = w
    by_cases true (some t) w = w
    by_cases false e w = elim w [ ]

dialled-message :
    (c : Client) (proxy : ProxyConfig) (id service : Text) (d : Dial) (r : Result Failure Client)
    (n : Fields)
    → ((c' : Client) → r ≡ ok c' → c'.config ≡ c.config)
    → Wrote n (dialled c proxy id service d r).0
    → tunnel_message c proxy id service d ≡ n
unfolding dialled tunnel_message
dialled-message c proxy id service d (err f) n same w = elim w [ ]
dialled-message c proxy id service d (ok c') n same w =
    ap (λ config. tunnel_message (record c { config = config }) proxy id service d)
      (sym (same c' refl))
    ∙ write_tunnel-message (tunnel_message c' proxy id service d) n d w

open_tunnel_lem :
    (python : Python) (id service : Text) (d : Dial) (c : Client)
    → open_tunnel python (members (open_message id service)) d c
      ≡ dial python c id service d (Dict.get service c.proxies)
unfolding open_tunnel open_message get_value
open_tunnel_lem python id service d c =
    ap
      (λ t.
        dial python c t (text_or_empty python.repr (str service)) d
          (Dict.get (text_or_empty python.repr (str service)) c.proxies))
      (name-text python.repr id)
    ∙ ap (λ t. dial python c id t d (Dict.get t c.proxies)) (name-text python.repr service)

dial_lem :
    (python : Python) (id service : Text) (d : Dial) (c : Client) (proxy : ProxyConfig)
    → id ≢ []
    → dial python c id service d (some proxy)
      ≡ dialled c proxy id service d (open_server_connection python d.peer d.trust_answer c)
unfolding dial
dial_lem python [] service d c proxy full = absurd (full refl)
dial_lem python (k ∷ ks) service d c proxy full = refl

-- The client answers an `open` message for one of its proxies by the tunnel message.
open_tunnel-message :
    (python : Python) (id service : Text) (d : Dial) (c : Client) (proxy : ProxyConfig) (n : Fields)
    → id ≢ []
    → Dict.get service c.proxies ≡ some proxy
    → Wrote n (open_tunnel python (members (open_message id service)) d c).0
    → tunnel_message c proxy id service d ≡ n
open_tunnel-message python id service d c proxy n full found w =
    let same =
      open_tunnel_lem python id service d c
      ∙ ap (dial python c id service d) found
      ∙ dial_lem python id service d c proxy full in
    dialled-message c proxy id service d (open_server_connection python d.peer d.trust_answer c) n
      (λ c' e. (open_server_connection-SameSettings python d.peer d.trust_answer c c' e).0)
      (subst (λ (r : TunnelEnd × Client). Wrote n r.0) same w)

-- A tunnel that the server asks for by `open` opens: when a public connection waits under the id of
-- the message, the client has a proxy for the service, and the token of that proxy, or else of the
-- client, is the one of the service, then the message that the client writes, whether it reaches its
-- local service or reports that it does not, gives the tunnel's connection to the waiting one.
pub tunnel_handshake :
    (env : Env) (python : Python) (p : PendingTunnel) (d : Dial) (c : Client) (proxy : ProxyConfig)
    (conn : ℕ) (s : Server) (m : Fields)
    → p.id ≢ []
    → p.service_name ≢ []
    → Dict.get p.id s.pending ≡ some p
    → Dict.get p.id s.futures ≡ some open_future
    → Dict.get p.service_name c.proxies ≡ some proxy
    → token_allows p.token (given (text_or proxy.token c.config.token)) ≡ true
    → Wrote m (open_tunnel python (members (open_message p.id p.service_name)) d c).0
    → handle_tunnel env m conn s ≡ ok (record s { futures = Dict.set p.id (paired conn) s.futures })
tunnel_handshake env python p d c proxy conn s m full named here future found allowed w =
    ap (λ n. handle_tunnel env n conn s)
      (sym (open_tunnel-message python p.id p.service_name d c proxy m full found w))
    ∙ handle_tunnel-message env c proxy p.id p.service_name d conn s
    ∙ (pair_tunnel-ok p.id p.service_name (given (text_or proxy.token c.config.token)) conn s
          (record s { futures = Dict.set p.id (paired conn) s.futures })).1
        ((full, named, p, here, refl, allowed, future), refl)
