-- ===== src/Base/Texts.antt =====
-- Python's `str` as a list of code points, with the methods that the program calls.
-- `lower` and `upper` map ASCII letters; `int` reads ASCII digits.
use Prim.Native.Nat.{ℕ, zero, suc, ◌+◌, ◌-◌, ◌*◌, ◌/◌, ◌%◌}
use Prim.Native.Char.{code}
use Prim.Native.String.{String}
use mathlib.Core.Path.{◌≡◌, refl}
use mathlib.Core.Logic.{◌↔◌}
use mathlib.Core.Bool.{Bool, true, false, ◌&&◌, ◌||◌}
use mathlib.Core.Option.{Option, none, some}
use mathlib.Core.Option
use mathlib.Core.List.{List, [], ◌∷◌, ◌++◌, reverse, map}
use native.Mathlib.Omega.{arith}
use py_frp.Base.Tests.{◌==◌, leb, ltb, if◌then◌else◌}
use py_frp.Base.Int.{ℤ, pos, negsuc, neg_ℕ}

abbrev pub Text : Type 0
Text = List ℕ

-- The code points of a literal.
abbrev pub txt : String → Text
txt String.[] = []
txt (String.◌∷◌ c s) = code c ∷ txt s

unfoldable pub text_eq : Text → Text → Bool
text_eq [] [] = true
text_eq [] (d ∷ ds) = false
text_eq (c ∷ cs) [] = false
text_eq (c ∷ cs) (d ∷ ds) = c == d && text_eq cs ds

pub text_eq_iff : (s t : Text) → (text_eq s t ≡ true) ↔ (s ≡ t)
unfolding text_eq
text_eq_iff [] [] = ((λ _. refl), (λ _. refl))
text_eq_iff [] (d ∷ ds) = ((λ h. cc), (λ h. cc))
text_eq_iff (c ∷ cs) [] = ((λ h. cc), (λ h. cc))
text_eq_iff (c ∷ cs) (d ∷ ds) = ground (arith, text_eq_iff cs ds)

pub text_eq_refl : (s : Text) → text_eq s s ≡ true
text_eq_refl s = (text_eq_iff s s).1 refl

-- `x in {…}` for a set of texts.
unfoldable pub text_in : Text → List Text → Bool
text_in x [] = false
text_in x (y ∷ ys) = text_eq x y || text_in x ys

-- `str.isspace` of one code point.
unfoldable pub is_space : ℕ → Bool
is_space c =
    (leb 9 c && leb c 13)
    || (leb 28 c && leb c 32)
    || c == 133
    || c == 160
    || c == 5760
    || (leb 8192 c && leb c 8202)
    || c == 8232
    || c == 8233
    || c == 8239
    || c == 8287
    || c == 12288

unfoldable pub lstrip : Text → Text
lstrip [] = []
lstrip (c ∷ cs) = if is_space c then lstrip cs else c ∷ cs

-- `str.strip()`
unfoldable pub strip : Text → Text
unfolding lstrip is_space
strip s = reverse (lstrip (reverse (lstrip s)))

to_lower : ℕ → ℕ
to_lower c = if leb b'A' c && leb c b'Z' then c + 32 else c

to_upper : ℕ → ℕ
to_upper c = if leb b'a' c && leb c b'z' then c - 32 else c

-- `str.lower()` and `str.upper()`
unfoldable pub lower : Text → Text
unfolding to_lower
lower s = map to_lower s

unfoldable pub upper : Text → Text
unfolding to_upper
upper s = map to_upper s

-- `str.startswith`
unfoldable pub starts_with : Text → Text → Bool
starts_with s [] = true
starts_with [] (p ∷ ps) = false
starts_with (c ∷ cs) (p ∷ ps) = c == p && starts_with cs ps

-- `s.split(c, 1)`: the text before the first `c` and the text after it, `none` without a `c`.
unfoldable pub split_once : ℕ → Text → Option (Text × Text)
split_once sep [] = none
split_once sep (c ∷ cs) =
    if c == sep
    then some ([], cs)
    else Option.map (λ (r : Text × Text). (c ∷ r.0, r.1)) (split_once sep cs)

-- `s.rsplit(c, 1)`: the text before the last `c` and the text after it.
unfoldable pub rsplit_once : ℕ → Text → Option (Text × Text)
unfolding split_once
rsplit_once sep s =
    Option.map (λ (r : Text × Text). (reverse r.1, reverse r.0)) (split_once sep (reverse s))

-- `s.removeprefix(p)` of a prefix.
unfoldable pub after_prefix : Text → Text → Text
after_prefix s [] = s
after_prefix [] (p ∷ ps) = []
after_prefix (c ∷ cs) (p ∷ ps) = after_prefix cs ps

-- `s.rpartition(sep)`: the text before the last `sep` and the text after it, `none` without one.
unfoldable pub rpartition : Text → Text → Option (Text × Text)
unfolding starts_with after_prefix
rpartition sep [] = none
rpartition sep (c ∷ cs) = elim (rpartition sep cs) [
  | some r ↦ some (c ∷ r.0, r.1)
  | none ↦ if starts_with (c ∷ cs) sep then some ([], after_prefix (c ∷ cs) sep) else none
]

prepend : ℕ → List Text → List Text
prepend c [] = (c ∷ []) ∷ []
prepend c (w ∷ ws) = (c ∷ w) ∷ ws

-- `s.split(c)`
unfoldable pub split : ℕ → Text → List Text
unfolding prepend
split sep [] = [] ∷ []
split sep (c ∷ cs) = if c == sep then [] ∷ split sep cs else prepend c (split sep cs)

unfoldable pub is_digit : ℕ → Bool
is_digit c = leb b'0' c && leb c b'9'

-- The digits of `int(s)`: single underscores may stand between digits.
int_digits : Bool → ℕ → Text → Option ℕ
int_digits after n [] = if after then some n else none
int_digits after n (c ∷ cs) = elim (is_digit c) [
  | true ↦ int_digits true (n * 10 + (c - b'0')) cs
  | false ↦ elim (c == b'_' && after) [ true ↦ int_digits false n cs | false ↦ none ]
]

int_signed : Text → Option ℤ
int_signed [] = none
int_signed (c ∷ cs) =
    if c == b'-'
    then Option.map neg_ℕ (int_digits false 0 cs)
    else if c == b'+'
    then Option.map pos (int_digits false 0 cs)
    else Option.map pos (int_digits false 0 (c ∷ cs))

-- `int(s)`; `none` is `ValueError`.
unfoldable pub int_of_text : Text → Option ℤ
unfolding int_signed int_digits is_digit strip
int_of_text s = int_signed (strip s)

show_digits : ℕ → ℕ → Text
show_digits zero n = []
show_digits (suc fuel) n = elim (ltb n 10) [
  | true ↦ (b'0' + n) ∷ []
  | false ↦ show_digits fuel (n / 10) ++ (b'0' + n % 10) ∷ []
]

-- `str(n)` of an integer. A number has at most as many digits as its value and one more.
unfoldable pub show_int : ℤ → Text
unfolding show_digits
show_int (pos n) = show_digits (suc n) n
show_int (negsuc n) = b'-' ∷ show_digits (suc (suc n)) (suc n)

int_of_text_runs :
    (int_of_text (txt " 6_000\n") ≡ some (pos 6000))
    × (int_of_text (txt "-12") ≡ some (negsuc 11))
    × (int_of_text (txt "6__0") ≡ none)
    × (int_of_text (txt "") ≡ none)
unfolding int_of_text
int_of_text_runs = (refl, refl, refl, refl)

show_int_runs : show_int (negsuc 6006) ≡ txt "-6007"
unfolding show_int
show_int_runs = refl
