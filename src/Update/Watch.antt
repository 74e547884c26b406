-- ===== src/Update/Watch.antt =====
-- What the watch returns.
use py_frp.Base.{
  ◌≡◌, ◌≢◌, refl, ap, true, false, Option, none, some, List, [], ◌∷◌, ◌++◌, arith, All, ◌⊎◌, inl,
  inr, Bool-cases,
}
use py_frp.Base.Texts.{Text, text_eq, text_eq_iff}
use py_frp.Base.Dict.{Dict}
use py_frp.Base.Result.{Result, ok}
use py_frp.Value.{Float}
use py_frp.Config.Fields.{not_positive}
use py_frp.Channel.{is_supervised_child}
use py_frp.Update.{
  VersionChange, VersionTick, WatchError, is_old, is_target, watch, change_to, readings,
  suppressed_target, wait_for_version_change,
}

-- What is read at a tick is no news: nothing, the baseline, or the suppressed target.
abbrev pub IsOld : Text → Option Text → Option Text → Type 0
IsOld baseline suppressed r = (r ≡ none) ⊎ (r ≡ some baseline) ⊎ (r ≡ suppressed)

-- The first news among what is read.
pub record FirstNews (baseline : Text) (suppressed : Option Text) (rs : List (Option Text))
    (v : Text) : Type 0 where
  pub before : List (Option Text)
  pub behind : List (Option Text)
  pub split_at : rs ≡ before ++ some v ∷ behind
  pub quiet : All (IsOld baseline suppressed) before
  pub not_baseline : v ≢ baseline
  pub not_suppressed : some v ≢ suppressed

is_target-IsOld :
    (suppressed : Option Text) (v : Text) → (is_target suppressed v ≡ true) → some v ≡ suppressed
unfolding is_target
is_target-IsOld none v e = cc
is_target-IsOld (some t) v e = ap (λ u. some u) ((text_eq_iff v t).0 e)

not_target :
    (suppressed : Option Text) (v : Text) → (is_target suppressed v ≡ false) → some v ≢ suppressed
unfolding is_target
not_target none v e = λ h. cc
not_target (some t) v e = λ h. ground (arith, text_eq_iff v t)

old-IsOld :
    (baseline : Text) (suppressed r : Option Text)
    → is_old baseline suppressed r ≡ true
    → IsOld baseline suppressed r
unfolding is_old
old-IsOld baseline suppressed none e = inl refl
old-IsOld baseline suppressed (some v) e = elim (Bool-cases (text_eq v baseline)) [
  | inl y ↦ inr (inl (ap (λ u. some u) ((text_eq_iff v baseline).0 y)))
  | inr n ↦ inr (inr (is_target-IsOld suppressed v (ground arith)))
]

-- The two ways in which the watch comes out of what is read.
abbrev pub Watched : Text → Option Text → List (Option Text) → Type 0
Watched baseline suppressed rs =
    (All (IsOld baseline suppressed) rs × (watch baseline suppressed rs ≡ none))
    ⊎ ((v : Text) × FirstNews baseline suppressed rs v
        × (watch baseline suppressed rs ≡ some (record { previous = baseline; current = v })))

module _ (baseline : Text) (suppressed : Option Text) where
  Watched-old :
      (r : Option Text) (rs : List (Option Text))
      → is_old baseline suppressed r ≡ true
      → Watched baseline suppressed rs
      → Watched baseline suppressed (r ∷ rs)
  unfolding watch
  Watched-old r rs old (inl (quiet, e)) =
      inl ((old-IsOld baseline suppressed r old, quiet), rw (old, watch) e)
  Watched-old r rs old (inr (v, news, e)) = inr (
    v,
    record {
      before = r ∷ news.before;
      behind = news.behind;
      split_at = ap (λ l. r ∷ l) news.split_at;
      quiet = (old-IsOld baseline suppressed r old, news.quiet);
      not_baseline = news.not_baseline;
      not_suppressed = news.not_suppressed;
    },
    rw (old, watch) e,
  )

  not_old :
      (v : Text)
      → is_old baseline suppressed (some v) ≡ false
      → (v ≢ baseline) × (some v ≢ suppressed)
  unfolding is_old
  not_old v e =
      ((λ h. ground (arith, text_eq_iff v baseline)), not_target suppressed v (ground arith))

  Watched-new :
      (v : Text) (rs : List (Option Text))
      → is_old baseline suppressed (some v) ≡ false
      → Watched baseline suppressed (some v ∷ rs)
  unfolding watch
  Watched-new v rs new =
      let (f, g) = not_old v new in
      inr (
        v,
        record {
          before = [];
          behind = rs;
          split_at = refl;
          quiet = tt;
          not_baseline = f;
          not_suppressed = g;
        },
        rw (new, watch, change_to) refl,
      )

  watch-Watched : (rs : List (Option Text)) → Watched baseline suppressed rs
  unfolding watch is_old
  watch-Watched [] = inl (tt, refl)
  watch-Watched (none ∷ rs) = Watched-old none rs refl (watch-Watched rs)
  watch-Watched (some v ∷ rs) = elim (Bool-cases (is_old baseline suppressed (some v))) [
    | inl old ↦ Watched-old (some v) rs old (watch-Watched rs)
    | inr new ↦ Watched-new v rs new
  ]

-- The two ways in which a watch that raises nothing comes out of what is read.
abbrev pub Awaited :
    Text → Option Text → List (Option Text) → Result WatchError (Option VersionChange) → Type 0
Awaited baseline suppressed rs r =
    (All (IsOld baseline suppressed) rs × (r ≡ ok none))
    ⊎ ((v : Text) × FirstNews baseline suppressed rs v
        × (r ≡ ok (some (record { previous = baseline; current = v }))))

Watched-Awaited :
    (baseline : Text) (suppressed : Option Text) (rs : List (Option Text))
    → Watched baseline suppressed rs
    → Awaited baseline suppressed rs (ok (watch baseline suppressed rs))
Watched-Awaited baseline suppressed rs (inl (quiet, e)) = inl (quiet, ap (λ c. ok c) e)
Watched-Awaited baseline suppressed rs (inr (v, news, e)) = inr (v, news, ap (λ c. ok c) e)

-- The watch with a positive interval goes on exactly while every tick reads nothing, the loaded version
-- or, without a supervisor, the target that an earlier restart has missed; at the first other version
-- it ends with the change from the loaded version to that one.
pub wait_for_version_change-Awaited :
    (loaded : Text) (interval : Float) (environment : Dict Text) (ticks : List VersionTick)
    → not_positive interval ≡ false
    → Awaited loaded
        (suppressed_target (is_supervised_child environment) loaded environment)
        (readings (is_supervised_child environment) environment ticks)
        (wait_for_version_change loaded interval environment ticks)
unfolding wait_for_version_change
wait_for_version_change-Awaited loaded interval environment ticks positive =
    rw (positive, wait_for_version_change)
      (Watched-Awaited loaded _ _ (
        watch-Watched loaded
          (suppressed_target (is_supervised_child environment) loaded environment)
          (readings (is_supervised_child environment) environment ticks)))
