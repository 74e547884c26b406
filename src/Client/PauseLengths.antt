-- ===== src/Client/PauseLengths.antt =====
-- The length of a pause: `_server_restart_delay` and what it calls.
use py_frp.Base.{
  ◌≡◌, refl, true, false, ◌||◌, not, Option, none, some, arith, ◌⊎◌, inl, inr, Bool-cases,
}
use py_frp.Value.{Float, finite, inf, neg_inf, nan, Value, null, bool, int, float, str, list, dict}
use py_frp.Config.Fields.{not_positive, to_float}
use py_frp.Client.State.{restarting, Python}
use py_frp.Client.Delay.{lt_float, is_finite, max_float, delay_of, integer_delay, suggested_delay}

-- A pause that is as long as `reconnect_delay`, or longer and finite.
abbrev pub IsPause : Float → Float → Type 0
IsPause reconnect_delay delay =
    (lt_float delay reconnect_delay ≡ false)
    × ((delay ≡ reconnect_delay) ⊎ ((is_finite delay ≡ true) × (not_positive delay ≡ false)))

pub lt_float_irrefl : (x : Float) → lt_float x x ≡ false
unfolding lt_float
lt_float_irrefl (finite m k) = ground arith
lt_float_irrefl inf = refl
lt_float_irrefl neg_inf = refl
lt_float_irrefl nan = refl

lt_float-asym : (x y : Float) → lt_float x y ≡ true → lt_float y x ≡ false
unfolding lt_float
lt_float-asym (finite m k) (finite n j) e = ground arith
lt_float-asym (finite m k) inf e = refl
lt_float-asym (finite m k) neg_inf e = cc
lt_float-asym (finite m k) nan e = refl
lt_float-asym inf (finite n j) e = cc
lt_float-asym inf inf e = cc
lt_float-asym inf neg_inf e = cc
lt_float-asym inf nan e = cc
lt_float-asym neg_inf (finite n j) e = refl
lt_float-asym neg_inf inf e = refl
lt_float-asym neg_inf neg_inf e = cc
lt_float-asym neg_inf nan e = refl
lt_float-asym nan (finite n j) e = cc
lt_float-asym nan inf e = cc
lt_float-asym nan neg_inf e = cc
lt_float-asym nan nan e = cc

delay_of-IsPause : (r : Float) (o : Option Float) → IsPause r (delay_of r o)
unfolding delay_of max_float
delay_of-IsPause r none = (lt_float_irrefl r, inl refl)
delay_of-IsPause r (some x) = elim (Bool-cases (not (is_finite x) || not_positive x)) [
  | inl bad ↦ rw (bad, delay_of) (lt_float_irrefl r, inl refl)
  | inr good ↦ elim (Bool-cases (lt_float r x)) [
    | inl less ↦
        rw (good, less, delay_of, max_float)
          (lt_float-asym r x less, inr (ground arith, ground arith))
    | inr more ↦ rw (good, more, delay_of, max_float) (lt_float_irrefl r, inl refl)
  ]
]

integer_delay-IsPause :
    (r : Float) (o : Option Float) (d : Float) → integer_delay r o ≡ restarting d → IsPause r d
unfolding integer_delay
integer_delay-IsPause r none d e = cc
integer_delay-IsPause r (some x) d e =
    let q : delay_of r (some x) ≡ d = cc in rw (← q) (delay_of-IsPause r (some x))

float_delay-IsPause :
    (r : Float) (o : Option Float) (d : Float)
    → restarting (delay_of r o) ≡ restarting d
    → IsPause r d
float_delay-IsPause r o d e = let q : delay_of r o ≡ d = cc in rw (← q) (delay_of-IsPause r o)

pub suggested_delay-IsPause :
    (python : Python) (r : Float) (v : Value) (d : Float)
    → suggested_delay python r v ≡ restarting d
    → IsPause r d
unfolding suggested_delay
suggested_delay-IsPause python r (bool b) d e =
    let q : r ≡ d = cc in rw (← q) (lt_float_irrefl r, inl refl)
suggested_delay-IsPause python r (int n) d e = integer_delay-IsPause r (python.float_of n) d e
suggested_delay-IsPause python r null d e =
    float_delay-IsPause r (to_float python.parse_float null) d e
suggested_delay-IsPause python r (float x) d e =
    float_delay-IsPause r (to_float python.parse_float (float x)) d e
suggested_delay-IsPause python r (str t) d e =
    float_delay-IsPause r (to_float python.parse_float (str t)) d e
suggested_delay-IsPause python r (list vs) d e =
    float_delay-IsPause r (to_float python.parse_float (list vs)) d e
suggested_delay-IsPause python r (dict fs) d e =
    float_delay-IsPause r (to_float python.parse_float (dict fs)) d e
