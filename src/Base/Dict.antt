-- ===== src/Base/Dict.antt =====
-- Python's `dict` with text keys: an association list in insertion order, one entry to a key.
use mathlib.Core.Path.{◌≡◌, refl}
use mathlib.Core.Bool.{Bool}
use mathlib.Core.Option.{Option, none, some}
use mathlib.Core.List.{List, [], ◌∷◌}
use native.Mathlib.Omega.{arith}
use py_frp.Base.Tests.{if◌then◌else◌}
use py_frp.Base.Lists.{All}
use py_frp.Base.Texts.{Text, text_eq, text_eq_iff}

abbrev pub Dict {ℓ} : Type ℓ → Type ℓ
Dict V = List (Text × V)

module _ {ℓ} {V : Type ℓ} where
  -- `d.get(k)`
  unfoldable pub get : Text → Dict V → Option V
  get k [] = none
  get k ((j, v) ∷ d) = if text_eq j k then some v else get k d

  -- `d[k] = v`: an old entry keeps its place, a new one comes last.
  unfoldable pub set : Text → V → Dict V → Dict V
  set k v [] = (k, v) ∷ []
  set k v ((j, w) ∷ d) = if text_eq j k then (j, v) ∷ d else (j, w) ∷ set k v d

  -- `d.pop(k, None)`
  unfoldable pub pop : Text → Dict V → Dict V
  pop k [] = []
  pop k ((j, w) ∷ d) = if text_eq j k then pop k d else (j, w) ∷ pop k d

  -- `d.update(e)`
  unfoldable pub update : Dict V → Dict V → Dict V
  unfolding set
  update d [] = d
  update d ((k, v) ∷ e) = update (set k v d) e

  -- `{key: value for key, value in d.items() if p(key)}`
  unfoldable pub filter_keys : (Text → Bool) → Dict V → Dict V
  filter_keys p [] = []
  filter_keys p ((k, v) ∷ d) = if p k then (k, v) ∷ filter_keys p d else filter_keys p d

  -- One entry to a key, as in every dict.
  abbrev pub IsDict : Dict V → Type ℓ
  IsDict [] = Unit
  IsDict ((k, v) ∷ d) = (get k d ≡ none) × IsDict d

  abbrev pub or_else : Option V → Option V → Option V
  or_else none b = b
  or_else (some a) b = some a

  -- `list(d.values())`
  unfoldable pub values : Dict V → List V
  values [] = []
  values ((j, v) ∷ d) = v ∷ values d

  pub get-set :
      (k j : Text) (v : V) (d : Dict V)
      → get j (set k v d) ≡ (if text_eq k j then some v else get j d)
  unfolding get set
  get-set k j v [] = refl
  get-set k j v ((i, w) ∷ d) =
      ground (arith, get-set k j v d, text_eq_iff i k, text_eq_iff i j, text_eq_iff k j)

  pub get-pop :
      (k j : Text) (d : Dict V) → get j (pop k d) ≡ (if text_eq k j then none else get j d)
  unfolding get pop
  get-pop k j [] = ground arith
  get-pop k j ((i, w) ∷ d) =
      ground (arith, get-pop k j d, text_eq_iff i k, text_eq_iff i j, text_eq_iff k j)

  pub get-filter_keys :
      (p : Text → Bool) (j : Text) (d : Dict V)
      → get j (filter_keys p d) ≡ (if p j then get j d else none)
  unfolding get filter_keys
  get-filter_keys p j [] = ground arith
  get-filter_keys p j ((i, w) ∷ d) = ground (arith, get-filter_keys p j d, text_eq_iff i j)

  pub set-IsDict : (k : Text) (v : V) (d : Dict V) → IsDict d → IsDict (set k v d)
  unfolding set get
  set-IsDict k v [] u = (refl, tt)
  set-IsDict k v ((i, w) ∷ d) u =
      ground (arith, get-set k i v d, set-IsDict k v d u.1, text_eq_iff i k, text_eq_iff k i)

  pub filter_keys-IsDict : (p : Text → Bool) (d : Dict V) → IsDict d → IsDict (filter_keys p d)
  unfolding filter_keys
  filter_keys-IsDict p [] u = tt
  filter_keys-IsDict p ((i, w) ∷ d) u =
      ground (arith, get-filter_keys p i d, filter_keys-IsDict p d u.1)

  pub get-update :
      (j : Text) (d e : Dict V) → IsDict e → get j (update d e) ≡ or_else (get j e) (get j d)
  unfolding update get
  get-update j d [] u = refl
  get-update j d ((i, w) ∷ e) u =
      ground (arith, get-update j (set i w d) e u.1, get-set i j w d, text_eq_iff i j)

  module _ {κ} (P : V → Type κ) where
    pub set-All :
        (k : Text) (v : V) (d : Dict V) → P v → All P (values d) → All P (values (set k v d))
    unfolding set values
    set-All k v [] p h = (p, tt)
    set-All k v ((j, w) ∷ d) p h = ground (arith, set-All k v d)

    pub pop-All : (k : Text) (d : Dict V) → All P (values d) → All P (values (pop k d))
    unfolding pop values
    pop-All k [] h = tt
    pop-All k ((j, w) ∷ d) h = ground (arith, pop-All k d)

    pub get-All : (k : Text) (d : Dict V) (v : V) → All P (values d) → get k d ≡ some v → P v
    unfolding get values
    get-All k [] v h e = cc
    get-All k ((j, w) ∷ d) v h e = ground (arith, get-All k d v)
