-- ===== src/Link/Aliases.antt =====
-- The answer to a registration, as the client reads it: the server's names for its proxies.
use py_frp.Base.{
  suc, ◌≡◌, ◌≢◌, refl, ap, ◌∙◌, Bool, true, false, Option, none, some, List, [], ◌∷◌, length,
  if◌then◌else◌, map, All, ==_iff,
}
use py_frp.Base.Texts.{Text, text_eq}
use py_frp.Base.Dict
use py_frp.Base.Dict.{Dict, get-set, or_else}
use py_frp.Value.{Value, Fields, str, dict, list, items, of_items, get_value}
use py_frp.Config.Types.{ProxyConfig}
use py_frp.Server.State.{Env, ClientSession, RegisteredService}
use py_frp.Server.Control.{registered_message, service_entry}
use py_frp.Client.State.{Client}
use py_frp.Client.Session.{alias_name, alias_services, aliases, apply_aliases}

-- The proxy at the place of the last service of a name.
abbrev pub at_name : Text → List RegisteredService → List ProxyConfig → Option ProxyConfig
at_name k (svc ∷ svcs) (p ∷ ps) =
    or_else (at_name k svcs ps) (if text_eq svc.name k then some p else none)
at_name k svcs ps = none

abbrev pub IsNamed : RegisteredService → Type 0
IsNamed svc = svc.name ≢ []

or_else_assoc : (a b c : Option ProxyConfig) → or_else a (or_else b c) ≡ or_else (or_else a b) c
or_else_assoc none b c = refl
or_else_assoc (some x) b c = refl

-- The members of an object that is received.
abbrev pub members : Value → Fields
members (dict fs) = fs
members v = Fields.end

alias_name-get :
    (k name : Text) (p : ProxyConfig) (d : Dict ProxyConfig)
    → name ≢ []
    → Dict.get k (alias_name (str name) p d)
      ≡ or_else (if text_eq name k then some p else none) (Dict.get k d)
unfolding alias_name
alias_name-get k [] p d n = absurd (n refl)
alias_name-get k (c ∷ cs) p d n = get-set (c ∷ cs) k p d ∙ by_test (text_eq (c ∷ cs) k)
  where
    by_test :
        (b : Bool)
        → (if b then some p else Dict.get k d) ≡ or_else (if b then some p else none) (Dict.get k d)
    by_test true = refl
    by_test false = refl

module _ (env : Env) where
  alias_services-get :
      (k : Text) (svcs : List RegisteredService) (ps : List ProxyConfig) (d : Dict ProxyConfig)
      → All IsNamed svcs
      → Dict.get k (alias_services (map (service_entry env) svcs) ps d)
        ≡ or_else (at_name k svcs ps) (Dict.get k d)
  unfolding alias_services service_entry get_value
  alias_services-get k [] ps d n = refl
  alias_services-get k (svc ∷ svcs) [] d n = refl
  alias_services-get k (svc ∷ svcs) (p ∷ ps) d n =
      alias_services-get k svcs ps (alias_name (str svc.name) p d) n.1
      ∙ ap (or_else (at_name k svcs ps)) (alias_name-get k svc.name p d n.0)
      ∙ or_else_assoc (at_name k svcs ps) (if text_eq svc.name k then some p else none)
          (Dict.get k d)

  items-of_items : (vs : List Value) → items (of_items vs) ≡ vs
  items-of_items [] = refl
  items-of_items (v ∷ vs) = ap (λ ws. v ∷ ws) (items-of_items vs)

  length-entries :
      (svcs : List RegisteredService) → length (map (service_entry env) svcs) ≡ length svcs
  length-entries [] = refl
  length-entries (svc ∷ svcs) = ap suc (length-entries svcs)

  aliases-get :
      (k : Text) (svcs : List RegisteredService) (ps : List ProxyConfig) (d : Dict ProxyConfig)
      → length svcs ≡ length ps
      → All IsNamed svcs
      → Dict.get k (aliases (list (of_items (map (service_entry env) svcs))) ps d)
        ≡ or_else (at_name k svcs ps) (Dict.get k d)
  unfolding aliases
  aliases-get k svcs ps d e n =
      let vs = map (service_entry env) svcs in
      let same = ap (length {A = Value}) (items-of_items vs) ∙ length-entries svcs ∙ e in
      rw ((==_iff (length (items (of_items vs))) (length ps)).1 same, aliases)
        (ap (λ ws. Dict.get k (alias_services ws ps d)) (items-of_items vs)
          ∙ alias_services-get k svcs ps d n)

-- A client that registered one service for each of its proxies finds, under a name, the proxy whose
-- service the server has answered under that name, the last of several; under any other name it finds
-- the proxy that it has configured under it.
pub apply_aliases-registered :
    (env : Env) (session : ClientSession) (svcs : List RegisteredService) (c : Client)
    → length svcs ≡ length c.config.proxies
    → All IsNamed svcs
    → (k : Text)
    → Dict.get k (apply_aliases (members (registered_message env session svcs)) c).proxies
      ≡ or_else (at_name k svcs c.config.proxies) (Dict.get k c.base_proxies)
unfolding apply_aliases registered_message get_value
apply_aliases-registered env session svcs c e n k =
    aliases-get env k svcs c.config.proxies c.base_proxies e n
