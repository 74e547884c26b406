-- ===== src/Server/Victim.antt =====
-- Which client a forced registration disconnects.
use py_frp.Base.{
  ◌≤◌, ◌≡◌, ◌≢◌, refl, ap, sym, subst, ◌∙◌, Bool, true, false, List, [], ◌∷◌, arith, keep_if, Among,
  Among-keep_if, keep_if-Among, if◌then◌else◌, ltb, inl, inr, Bool-cases,
}
use py_frp.Base.Int.{ℤ, pos_part, neg_part, ◌≤ℤ◌, leb_ℤ, ltb_ℤ, max_ℤ, eqb_ℤ, eqb_ℤ_iff}
use py_frp.Base.Result.{Result, ok, err}
use py_frp.Server.State.{RegisteredService, Error, exhausted, force_required, priority_preemption}
use py_frp.Server.Preempt.{choose_victim, pick_victim, oldest, oldest_of, eligible, max_priority}

-- What each outcome of the choice means, for an incoming priority `p` and the other pool services.
abbrev pub Choice : Bool → ℤ → List RegisteredService → Result Error RegisteredService → Type 0
Choice force p svcs (ok v) =
    (force ≡ true)
    × Among v svcs
    × (p ≤ℤ v.priority)
    × ((e : RegisteredService)
        → Among e svcs
        → p ≤ℤ e.priority
        → (e.priority ≤ℤ v.priority)
          × (e.priority ≡ v.priority → v.client.created_at ≤ e.client.created_at))
Choice force p svcs (err exhausted) = svcs ≡ []
Choice force p svcs (err force_required) = (force ≡ false) × (svcs ≢ [])
Choice force p svcs (err (priority_preemption q m)) =
    (force ≡ true)
    × (svcs ≢ [])
    × (q ≡ p)
    × ((e : RegisteredService) → Among e svcs → (¬ (p ≤ℤ e.priority)) × (e.priority ≤ℤ m))
    × ((e : RegisteredService) × Among e svcs × (e.priority ≡ m))
Choice force p svcs (err _) = ⊥

-- The greatest number, and that one has it.
max_priority-ge : (m : ℤ) (svcs : List RegisteredService) → m ≤ℤ max_priority m svcs
unfolding max_priority
max_priority-ge m [] = omega arith
max_priority-ge m (svc ∷ svcs) = ground (arith, max_priority-ge (max_ℤ m svc.priority) svcs)

max_priority-Among :
    (m : ℤ) (svcs : List RegisteredService) (e : RegisteredService)
    → Among e svcs
    → e.priority ≤ℤ max_priority m svcs
unfolding max_priority
max_priority-Among m [] e h = absurd h
max_priority-Among m (svc ∷ svcs) e (inl q) =
    ground (arith, max_priority-ge (max_ℤ m svc.priority) svcs)
max_priority-Among m (svc ∷ svcs) e (inr h) = max_priority-Among (max_ℤ m svc.priority) svcs e h

max_priority-all :
    (svc : RegisteredService) (svcs : List RegisteredService) (e : RegisteredService)
    → Among e (svc ∷ svcs)
    → e.priority ≤ℤ max_priority svc.priority svcs
max_priority-all svc svcs e (inl q) = omega (
  arith,
  ap (λ (x : RegisteredService). pos_part x.priority) q,
  ap (λ (x : RegisteredService). neg_part x.priority) q,
  max_priority-ge svc.priority svcs,
)
max_priority-all svc svcs e (inr m) = max_priority-Among svc.priority svcs e m

skip_second :
    (a b : RegisteredService) (svcs : List RegisteredService) (e : RegisteredService)
    → Among e (a ∷ svcs)
    → Among e (a ∷ b ∷ svcs)
skip_second a b svcs e (inl q) = inl q
skip_second a b svcs e (inr m) = inr (inr m)

max_priority-reached :
    (svc : RegisteredService) (svcs : List RegisteredService)
    → (e : RegisteredService) × Among e (svc ∷ svcs) × (e.priority ≡ max_priority svc.priority svcs)
unfolding max_priority
max_priority-reached svc [] = (svc, inl refl, refl)
max_priority-reached svc (next ∷ svcs) = elim (Bool-cases (ltb_ℤ svc.priority next.priority)) [
  | inl above ↦
      let (e, m, q) = max_priority-reached next svcs in rw (above, max_priority) (e, inr m, q)
  | inr below ↦
      let (e, m, q) = max_priority-reached svc svcs in
      rw (below, max_priority) (e, skip_second svc next svcs e m, q)
]

abbrev IsOldest : RegisteredService → List RegisteredService → Type 0
IsOldest v svcs =
    Among v svcs
    × ((e : RegisteredService) → Among e svcs → v.client.created_at ≤ e.client.created_at)

oldest_of-step :
    (best svc : RegisteredService) (svcs : List RegisteredService) (older : Bool)
    → ltb svc.client.created_at best.client.created_at ≡ older
    → IsOldest (oldest_of svc svcs) (svc ∷ svcs)
    → IsOldest (oldest_of best svcs) (best ∷ svcs)
    → IsOldest (oldest_of (if older then svc else best) svcs) (best ∷ svc ∷ svcs)
oldest_of-step best svc svcs true q h k =
    (inr h.0, λ e m. ground (arith, h.1 svc (inl refl), h.1 e))
oldest_of-step best svc svcs false q h k =
    (skip_second best svc svcs _ k.0, λ e m. ground (arith, k.1 best (inl refl), k.1 e))

oldest_of-IsOldest :
    (best : RegisteredService) (svcs : List RegisteredService)
    → IsOldest (oldest_of best svcs) (best ∷ svcs)
unfolding oldest_of
oldest_of-IsOldest best [] = (inl refl, λ e m. ground arith)
oldest_of-IsOldest best (svc ∷ svcs) =
    oldest_of-step best svc svcs _ refl (oldest_of-IsOldest svc svcs) (oldest_of-IsOldest best svcs)

oldest-ok :
    (svcs : List RegisteredService) (v : RegisteredService) → oldest svcs ≡ ok v → IsOldest v svcs
unfolding oldest
oldest-ok [] v q = cc
oldest-ok (svc ∷ svcs) v q =
    let same : oldest_of svc svcs ≡ v = cc in
    subst (λ w. IsOldest w (svc ∷ svcs)) same (oldest_of-IsOldest svc svcs)

-- `oldest` of a list with a member has no `ValueError`.
oldest-total :
    (svcs : List RegisteredService) (e : RegisteredService)
    → Among e svcs
    → (v : RegisteredService) × (oldest svcs ≡ ok v)
unfolding oldest
oldest-total [] e m = absurd m
oldest-total (svc ∷ svcs) e m = (oldest_of svc svcs, refl)

module _ (p : ℤ) (svc : RegisteredService) (svcs : List RegisteredService) where
  Among-eligible :
      (e : RegisteredService)
      → Among e (svc ∷ svcs)
      → p ≤ℤ e.priority
      → Among e (eligible p (svc ∷ svcs))
  unfolding eligible
  Among-eligible e m le = Among-keep_if (λ x. leb_ℤ p x.priority) e (svc ∷ svcs) (ground arith) m

  eligible-Among :
      (e : RegisteredService)
      → Among e (eligible p (svc ∷ svcs))
      → (p ≤ℤ e.priority) × Among e (svc ∷ svcs)
  unfolding eligible
  eligible-Among e m =
      let (le, n) = keep_if-Among (λ x. leb_ℤ p x.priority) e (svc ∷ svcs) m in (ground arith, n)

  abbrev top : RegisteredService → List RegisteredService → List RegisteredService
  top e es = keep_if (λ x. eqb_ℤ x.priority (max_priority e.priority es)) (e ∷ es)

  victim-Choice :
      (e : RegisteredService) (es : List RegisteredService) (v : RegisteredService)
      → eligible p (svc ∷ svcs) ≡ e ∷ es
      → oldest (top e es) ≡ ok v
      → Choice true p (svc ∷ svcs) (ok v)
  victim-Choice e es v q o =
      let highest = max_priority e.priority es in
      let (m, least) = oldest-ok (top e es) v o in
      let (eq, chosen) = keep_if-Among (λ x. eqb_ℤ x.priority highest) v (e ∷ es) m in
      let same = (eqb_ℤ_iff v.priority highest).0 eq in
      let (le, here) = eligible-Among v (subst (Among v) (sym q) chosen) in
      (
        refl,
        here,
        le,
        λ f n lf.
            let among = subst (Among f) q (Among-eligible f n lf) in
            (
              rw same (max_priority-all e es f among),
              λ t. least f (
                  Among-keep_if (λ x. eqb_ℤ x.priority highest) f (e ∷ es)
                    ((eqb_ℤ_iff f.priority highest).1 (t ∙ same)) among),
            ),
      )

  pick_victim-Choice :
      (chosen : List RegisteredService)
      → eligible p (svc ∷ svcs) ≡ chosen
      → Choice true p (svc ∷ svcs) (pick_victim p (max_priority svc.priority svcs) chosen)
  unfolding pick_victim
  pick_victim-Choice [] q = (
    refl,
    (λ h. cc),
    refl,
    (λ e m. ((λ le. subst (Among e) q (Among-eligible e m le)), max_priority-all svc svcs e m)),
    max_priority-reached svc svcs,
  )
  pick_victim-Choice (e ∷ es) q =
      let (t, m, tq) = max_priority-reached e es in
      let highest = max_priority e.priority es in
      let (v, o) = oldest-total (top e es) t (
        Among-keep_if (λ x. eqb_ℤ x.priority highest) t (e ∷ es)
          ((eqb_ℤ_iff t.priority highest).1 tq) m) in
      subst (Choice true p (svc ∷ svcs)) (sym o) (victim-Choice e es v q o)

-- The choice: without force nobody is disconnected. With force the victim has a number of the newcomer's
-- or above, none of the eligible ones has a greater number, and of those with its number none is
-- older; where nobody is eligible the error says the newcomer's number and the greatest one.
pub choose_victim-Choice :
    (force : Bool) (p : ℤ) (svcs : List RegisteredService)
    → Choice force p svcs (choose_victim force p svcs)
unfolding choose_victim
choose_victim-Choice force p [] = refl
choose_victim-Choice true p (svc ∷ svcs) = pick_victim-Choice p svc svcs _ refl
choose_victim-Choice false p (svc ∷ svcs) = (refl, λ h. cc)
