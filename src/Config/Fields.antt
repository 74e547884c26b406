-- ===== src/Config/Fields.antt =====
-- The readers of single fields. A parsed TOML or JSON table is a dict of `Value`.
use mathlib.Core.Option
use py_frp.Base.{
  ℕ, String, Bool, true, false, ◌&&◌, not, Option, none, some, List, [], ◌∷◌, leb, is_some,
  is_empty, if◌then◌else◌, ◌==◌,
}
use py_frp.Base.Int.{ℤ, pos, negsuc}
use py_frp.Base.Texts.{
  Text, txt, strip, lower, text_in, split_once, rsplit_once, int_of_text, is_digit,
}
use py_frp.Base.Result.{Result, ok, err, ◌>>=◌}
use py_frp.Value.{
  Float, finite, inf, neg_inf, nan, Value, null, bool, int, float, str, dict, Fields, member,
  get_value, to_text, text_or_empty, to_int, IntResult, number, overflow_error,
}

-- `ConfigError`, and the exceptions that the readers let through.
pub data ConfigError : Type 0 where
  config : String → ConfigError
  overflow uncaught : ConfigError

-- The texts of floats, lists and dicts, and `float(text)`, `none` where it raises `ValueError`.
pub record Py : Type 0 where
  pub repr : Value → Text
  pub parse_float : Text → Option Float

-- `key in mapping`
unfoldable pub has_key : String → Fields → Bool
unfolding member
has_key k fs = is_some (member k fs)

-- `_get_any(mapping, *keys, default=default)`
unfoldable pub get_any_or : Value → List String → Fields → Value
unfolding member
get_any_or d [] fs = d
get_any_or d (k ∷ ks) fs = Option.get_or (member k fs) (get_any_or d ks fs)

unfoldable pub get_any : List String → Fields → Value
unfolding get_any_or
get_any = get_any_or null

-- `_as_mapping(value, default={})` and `_as_mapping(value)`
unfoldable pub mapping_or_empty : Value → Result ConfigError Fields
mapping_or_empty null = ok Fields.end
mapping_or_empty (dict fs) = ok fs
mapping_or_empty v = err (config "expected a table/object")

unfoldable pub as_mapping : Value → Result ConfigError Fields
as_mapping (dict fs) = ok fs
as_mapping v = err (config "expected a table/object")

-- `_required_mapping(data, key)`
unfoldable pub required_mapping : String → Fields → Result ConfigError Fields
unfolding get_value as_mapping
required_mapping k fs = as_mapping (get_value k fs)

-- `_empty_to_none(value)`
unfoldable pub nonblank : Text → Option Text
unfolding strip
nonblank t = if is_empty (strip t) then none else some (strip t)

-- `_string_or_none(value)`
unfoldable pub string_or_none : Py → Value → Option Text
unfolding nonblank to_text
string_or_none py null = none
string_or_none py v = nonblank (to_text py.repr v)

-- `_string(value, default)` and `_string(value)`
unfoldable pub string_or : Py → Value → Text → Text
unfolding to_text
string_or py null d = d
string_or py v d = to_text py.repr v

unfoldable pub required_string : Py → Value → Result ConfigError Text
unfolding to_text
required_string py null = err (config "missing required string value")
required_string py v = ok (to_text py.repr v)

unfoldable pub integer : IntResult → Result ConfigError ℤ
integer (number n) = ok n
integer overflow_error = err overflow
integer _ = err (config "value is not an integer")

-- `_int(value, default)`
unfoldable pub int_or : Value → ℤ → Result ConfigError ℤ
unfolding to_int integer
int_or null d = ok d
int_or v d = integer (to_int v)

-- `_port(value, allow_zero=allow_zero)` of an integer
unfoldable pub port : Bool → ℤ → Result ConfigError ℕ
port allow_zero (negsuc n) = err (config "port is outside the valid range")
port allow_zero (pos n) =
    if leb (if allow_zero then 0 else 1) n && leb n 65535
    then ok n
    else err (config "port is outside the valid range")

-- `result <= 0`; a NaN is not.
unfoldable pub not_positive : Float → Bool
not_positive (finite (pos n) k) = n == 0
not_positive (finite (negsuc n) k) = true
not_positive inf = false
not_positive neg_inf = true
not_positive nan = false

check_positive : Option Float → Result ConfigError Float
unfolding not_positive
check_positive none = err (config "value is not a number")
check_positive (some x) =
    if not_positive x then err (config "value must be greater than zero") else ok x

-- `float(value)`
unfoldable pub to_float : (Text → Option Float) → Value → Option Float
to_float parse (bool b) = some (finite (pos (if b then 1 else 0)) 0)
to_float parse (int n) = some (finite n 0)
to_float parse (float x) = some x
to_float parse (str t) = parse t
to_float parse v = none

-- `_positive_float(value, default)`
unfoldable pub positive_float : Py → Value → Float → Result ConfigError Float
unfolding check_positive to_float
positive_float py null d = ok d
positive_float py v d = check_positive (to_float py.parse_float v)

-- `_bool(value, default)`
unfoldable pub bool_or : Py → Value → Bool → Bool
unfolding to_text strip lower text_in
bool_or py null d = d
bool_or py (bool b) d = b
bool_or py v d =
    text_in (lower (strip (to_text py.repr v))) (txt "1" ∷ txt "true" ∷ txt "yes" ∷ txt "on" ∷ [])

-- `_auth_token(mapping)`
auth_table : Py → Value → Option Text
unfolding string_or_none get_any
auth_table py (dict fs) = string_or_none py (get_any ("token" ∷ []) fs)
auth_table py v = none

unfoldable pub auth_token : Py → Fields → Option Text
unfolding auth_table get_any
auth_token py fs = auth_table py (get_any ("auth" ∷ []) fs)

-- An optional text as a default value of `_get_any`.
abbrev pub text_value : Option Text → Value
text_value none = null
text_value (some t) = str t

-- `_service_name(value)`
unfoldable pub service_name : Py → Value → Result ConfigError Text
unfolding text_or_empty strip
service_name py v =
    if is_empty (strip (text_or_empty py.repr v))
    then err (config "service/proxy name must not be empty")
    else ok (strip (text_or_empty py.repr v))

all_digits : Text → Bool
unfolding is_digit
all_digits [] = true
all_digits (c ∷ cs) = is_digit c && all_digits cs

parse_port_text : Text → Result ConfigError ℤ
unfolding int_of_text
parse_port_text t = elim (int_of_text t) [
  | none ↦ err (config "value is not an integer")
  | some n ↦ ok n
]

-- `\[([^\]]+)\]:(\d+)` after its first bracket
bracketed : Option (Text × Text) → Result ConfigError (Text × ℤ)
unfolding all_digits parse_port_text
bracketed none = err (config "invalid address")
bracketed (some (host, [])) = err (config "invalid address")
bracketed (some (host, c ∷ digits)) =
    if not (is_empty host) && c == b':' && not (is_empty digits) && all_digits digits
    then (do n ← parse_port_text digits; ok (host, n))
    else err (config "invalid address")

host_port : Text → Option (Text × Text) → Result ConfigError (Text × ℤ)
unfolding parse_port_text
host_port default_host none = err (config "address must include a port")
host_port default_host (some (host, port_text)) = do
  n ← parse_port_text port_text
  ok ((if is_empty host then default_host else host), n)

split_stripped : Text → Text → Result ConfigError (Text × ℤ)
unfolding bracketed host_port split_once rsplit_once
split_stripped default_host [] = err (config "address must not be empty")
split_stripped default_host (c ∷ cs) =
    if c == b'['
    then bracketed (split_once b']' cs)
    else host_port default_host (rsplit_once b':' (c ∷ cs))

-- `_split_addr(value, default_host=default_host)`
unfoldable pub split_addr : Text → Text → Result ConfigError (Text × ℤ)
unfolding split_stripped strip
split_addr default_host value = split_stripped default_host (strip value)

-- `_addr_from_fields(addr, default_host, default_port)`
unfoldable pub addr_from_fields : Py → Value → Text → ℤ → Result ConfigError (Text × ℤ)
unfolding split_addr to_text split_once
addr_from_fields py null default_host default_port = ok (default_host, default_port)
addr_from_fields py v default_host default_port =
    if is_some (split_once b':' (to_text py.repr v))
    then split_addr default_host (to_text py.repr v)
    else ok (to_text py.repr v, default_port)
