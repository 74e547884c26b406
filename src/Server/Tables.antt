-- ===== src/Server/Tables.antt =====
-- The server's tables keep each value under its own name, one value to a name.
use py_frp.Base.{
  ◌≡◌, refl, Bool, true, false, ◌||◌, none, some, List, [], ◌∷◌, keep_if, arith, Among, inl, inr,
  if◌then◌else◌,
}
use py_frp.Base.Texts.{Text, text_eq, text_eq_iff}
use py_frp.Base.Dict
use py_frp.Base.Dict.{Dict, values, get-set, get-pop}

module _ {V : Type 0} (name : V → Text) where
  abbrev pub IsTable : Dict V → Type 0
  IsTable [] = Unit
  IsTable ((k, v) ∷ d) = (name v ≡ k) × (Dict.get k d ≡ none) × IsTable d

  pub set-IsTable : (v : V) (d : Dict V) → IsTable d → IsTable (Dict.set (name v) v d)
  unfolding Dict.set Dict.get
  set-IsTable v [] t = (refl, refl, tt)
  set-IsTable v ((k, w) ∷ d) t = ground (
    arith,
    set-IsTable v d,
    get-set (name v) k v d,
    text_eq_iff k (name v),
    text_eq_iff (name v) k,
  )

  pub pop-IsTable : (k : Text) (d : Dict V) → IsTable d → IsTable (Dict.pop k d)
  unfolding Dict.pop
  pop-IsTable k [] t = tt
  pop-IsTable k ((j, w) ∷ d) t = ground (arith, pop-IsTable k d, get-pop k j d)

  absent_name :
      (k : Text) (d : Dict V) (v : V)
      → IsTable d
      → Dict.get k d ≡ none
      → Among v (values d)
      → text_eq k (name v) ≡ false
  unfolding Dict.get values
  absent_name k [] v t e m = absurd m
  absent_name k ((j, w) ∷ d) v t e (inl q) = ground (arith, text_eq_iff j k, text_eq_iff k j)
  absent_name k ((j, w) ∷ d) v t e (inr m) = absent_name k d v t.2 (ground arith) m

  -- A value of a table is found under its name.
  pub Among-get :
      (d : Dict V) (v : V) → IsTable d → Among v (values d) → Dict.get (name v) d ≡ some v
  unfolding Dict.get values
  Among-get [] v t m = absurd m
  Among-get ((k, w) ∷ d) v t (inl q) = ground (arith, text_eq_iff k (name v))
  Among-get ((k, w) ∷ d) v t (inr m) =
      ground (arith, absent_name k d v t.2 t.1 m, Among-get d v t.2 m)

  -- `for item in items: d.pop(item.name, None)`
  abbrev pub pop_each : List V → Dict V → Dict V
  pop_each [] d = d
  pop_each (v ∷ vs) d = pop_each vs (Dict.pop (name v) d)

  abbrev pub in_names : Text → List V → Bool
  in_names k [] = false
  in_names k (v ∷ vs) = text_eq (name v) k || in_names k vs

  pub get-pop_each :
      (k : Text) (vs : List V) (d : Dict V)
      → Dict.get k (pop_each vs d) ≡ (if in_names k vs then none else Dict.get k d)
  get-pop_each k [] d = refl
  get-pop_each k (v ∷ vs) d =
      ground (arith, get-pop_each k vs (Dict.pop (name v) d), get-pop (name v) k d)

  module _ (chosen : V → Bool) where
    -- Every chosen value of the table is named in the list.
    Covers : List V → Dict V → Type 0
    Covers vs [] = Unit
    Covers vs ((k, v) ∷ d) = (chosen v ≡ true → in_names k vs ≡ true) × Covers vs d

    Covers-more : (v : V) (vs : List V) (d : Dict V) → Covers vs d → Covers (v ∷ vs) d
    unfolding Covers
    Covers-more v vs [] h = tt
    Covers-more v vs ((k, w) ∷ d) h = ((λ p. ground (arith, h.0 p)), Covers-more v vs d h.1)

    Covers-pop :
        (v : V) (vs : List V) (d : Dict V) → Covers (v ∷ vs) d → Covers vs (Dict.pop (name v) d)
    unfolding Covers Dict.pop
    Covers-pop v vs [] h = tt
    Covers-pop v vs ((k, w) ∷ d) h =
        ground (arith, Covers-pop v vs d, text_eq_iff k (name v), text_eq_iff (name v) k)

    Covers-chosen : (d : Dict V) → IsTable d → Covers (keep_if chosen (values d)) d
    unfolding Covers values
    Covers-chosen [] t = tt
    Covers-chosen ((k, w) ∷ d) t = ground (
      arith,
      Covers-chosen d,
      Covers-more w (keep_if chosen (values d)) d,
      text_eq_iff (name w) k,
    )

    none-chosen : (d : Dict V) → Covers [] d → keep_if chosen (values d) ≡ []
    unfolding Covers values
    none-chosen [] h = refl
    none-chosen ((k, w) ∷ d) h = ground (arith, none-chosen d)

    pop_each-Covers :
        (vs : List V) (d : Dict V) → Covers vs d → keep_if chosen (values (pop_each vs d)) ≡ []
    pop_each-Covers [] d h = none-chosen d h
    pop_each-Covers (v ∷ vs) d h = pop_each-Covers vs (Dict.pop (name v) d) (Covers-pop v vs d h)

    pub pop_each-gone :
        (d : Dict V)
        → IsTable d
        → keep_if chosen (values (pop_each (keep_if chosen (values d)) d)) ≡ []
    pop_each-gone d t = pop_each-Covers (keep_if chosen (values d)) d (Covers-chosen d t)

    Covers-get :
        (vs : List V) (k : Text) (d : Dict V) (v : V)
        → Covers vs d
        → Dict.get k d ≡ some v
        → chosen v ≡ true
        → in_names k vs ≡ true
    unfolding Covers Dict.get
    Covers-get vs k [] v h e c = cc
    Covers-get vs k ((j, w) ∷ d) v h e c = ground (arith, Covers-get vs k d v, text_eq_iff j k)

    pub pop_each-dropped :
        (k : Text) (d : Dict V) (v : V)
        → IsTable d
        → Dict.get k d ≡ some v
        → chosen v ≡ true
        → in_names k (keep_if chosen (values d)) ≡ true
    pop_each-dropped k d v t e c =
        Covers-get (keep_if chosen (values d)) k d v (Covers-chosen d t) e c

    absent :
        (k : Text) (d : Dict V)
        → IsTable d
        → Dict.get k d ≡ none
        → in_names k (keep_if chosen (values d)) ≡ false
    unfolding values Dict.get
    absent k [] t e = refl
    absent k ((j, w) ∷ d) t e = ground (arith, absent k d)

    pub pop_each-kept :
        (k : Text) (d : Dict V) (v : V)
        → IsTable d
        → Dict.get k d ≡ some v
        → chosen v ≡ false
        → in_names k (keep_if chosen (values d)) ≡ false
    unfolding values Dict.get
    pop_each-kept k [] v t e c = refl
    pop_each-kept k ((j, w) ∷ d) v t e c =
        ground (arith, pop_each-kept k d v, absent k d, text_eq_iff j k)
