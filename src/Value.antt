-- ===== src/Value.antt =====
-- The values of a decoded JSON message, with what the handlers do to them: Python's truth test,
-- `dict.get`, `str()`, `int()` and the tests on types. A finite float is m / 2^k, which holds every
-- double exactly.
use Prim.Native.Nat.{ℕ, ◌+◌, ◌/◌, ◌^◌}
use mathlib.Core.Option
use py_frp.Base.{
  zero, String, Bool, true, false, Option, none, some, List, [], ◌∷◌, if◌then◌else◌, is_empty, not,
}
use py_frp.Base.Int.{ℤ, pos, negsuc, neg_ℕ}
use py_frp.Base.Texts.{Text, txt, text_eq, show_int, int_of_text}
use py_frp.Base.Dict.{Dict}
use py_frp.Base.Dict

pub data Float : Type 0 where
  finite : ℤ → ℕ → Float
  inf neg_inf nan : Float

mutual
  -- The members of an object, in their order.
  pub data Fields : Type 0 where
    field : Text → Value → Fields → Fields
    end : Fields

  pub data Items : Type 0 where
    cons : Value → Items → Items
    nil : Items

  pub data Value : Type 0 where
    str : Text → Value
    int : ℤ → Value
    float : Float → Value
    bool : Bool → Value
    null : Value
    dict : Fields → Value
    list : Items → Value

abbrev pub items : Items → List Value
items nil = []
items (cons v vs) = v ∷ items vs

abbrev pub fields : Fields → Dict Value
fields end = []
fields (field k v fs) = (k, v) ∷ fields fs

abbrev pub of_fields : Dict Value → Fields
of_fields [] = end
of_fields ((k, v) ∷ d) = field k v (of_fields d)

-- A JSON object from its members.
abbrev pub obj : Dict Value → Value
obj d = dict (of_fields d)

abbrev pub of_items : List Value → Items
of_items [] = nil
of_items (v ∷ vs) = cons v (of_items vs)

-- `d.get(key)` of a dict; `none` is a missing key.
unfoldable pub member : String → Fields → Option Value
unfolding Dict.get text_eq
member k fs = Dict.get (txt k) (fields fs)

-- `d.get(key)`: `None` for a missing key.
unfoldable pub get_value : String → Fields → Value
unfolding member
get_value k fs = Option.get_or (member k fs) null

abbrev pub is_null : Value → Bool
is_null null = true
is_null _ = false

-- `value is True`
abbrev pub is_true : Value → Bool
is_true (bool true) = true
is_true _ = false

-- `value == "…"` for a literal
unfoldable pub is_str : String → Value → Bool
unfolding text_eq
is_str s (str t) = text_eq t (txt s)
is_str s _ = false

abbrev is_zero : ℤ → Bool
is_zero (pos zero) = true
is_zero _ = false

-- Python's truth test.
unfoldable pub truthy : Value → Bool
truthy null = false
truthy (bool b) = b
truthy (int n) = not (is_zero n)
truthy (float (finite m k)) = not (is_zero m)
truthy (float _) = true
truthy (str t) = not (is_empty t)
truthy (list nil) = false
truthy (list _) = true
truthy (dict end) = false
truthy (dict _) = true

-- What `int(value)` does: a number, or one of the exceptions that the callers tell apart.
pub data IntResult : Type 0 where
  number : ℤ → IntResult
  type_error value_error overflow_error : IntResult

truncate : ℤ → ℕ → ℤ
truncate (pos m) k = pos (m / 2 ^ k)
truncate (negsuc m) k = neg_ℕ ((m + 1) / 2 ^ k)

-- `int(s)`
int_of_str : Text → IntResult
unfolding int_of_text
int_of_str t = elim (int_of_text t) [ none ↦ value_error | some n ↦ number n ]

unfoldable pub to_int : Value → IntResult
unfolding truncate int_of_str
to_int null = type_error
to_int (bool b) = number (pos (if b then 1 else 0))
to_int (int n) = number n
to_int (float (finite m k)) = number (truncate m k)
to_int (float nan) = value_error
to_int (float _) = overflow_error
to_int (str t) = int_of_str t
to_int (list _) = type_error
to_int (dict _) = type_error

-- `str(value)`. The texts of floats, lists and dicts are a parameter.
unfoldable pub to_text : (Value → Text) → Value → Text
unfolding show_int
to_text repr null = txt "None"
to_text repr (bool b) = if b then txt "True" else txt "False"
to_text repr (int n) = show_int n
to_text repr (str t) = t
to_text repr v = repr v

-- `str(value or "")`
unfoldable pub text_or_empty : (Value → Text) → Value → Text
unfolding truthy to_text
text_or_empty repr v = if truthy v then to_text repr v else []
