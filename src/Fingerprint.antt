-- ===== src/Fingerprint.antt =====
-- src/py_frp/security.py: the fingerprints of server certificates. Bytes are numbers below 256;
-- `upper` stands for `str.upper`, whose tables of letters are Python's, not the program's.
pub mod Matching
use mathlib.Core.Option
use py_frp.Base.{
  ℕ, suc, ◌+◌, ◌-◌, ◌*◌, ◌/◌, ◌%◌, Bool, true, false, ◌&&◌, ◌||◌, not, Option, none, some, List, [],
  ◌∷◌, ◌++◌, length, take, drop, keep_if, leb, ltb, ◌==◌, if◌then◌else◌, map,
}
use py_frp.Base.Texts.{Text, txt, text_eq, is_space, starts_with, strip}

-- The bytes before and after the wildcard; without one all bytes stand before.
pub record Parsed : Type 0 where
  pub head : List ℕ
  pub rest : List ℕ
  pub wildcard : Bool

unfoldable pub hex_value : ℕ → Option ℕ
hex_value c =
    if leb b'0' c && leb c b'9'
    then some (c - b'0')
    else if leb b'A' c && leb c b'F'
    then some (c - b'A' + 10)
    else none

unfoldable pub is_hex : ℕ → Bool
is_hex c = (leb b'0' c && leb c b'9') || (leb b'A' c && leb c b'F')

-- What `re.sub(r"[:\-\s]", "", value)` removes.
unfoldable pub is_separator : ℕ → Bool
unfolding is_space
is_separator c = c == b':' || c == b'-' || is_space c

-- `re.search(r"[^0-9A-F:\-\s]", value)` finds nothing.
unfoldable pub all_allowed : Text → Bool
unfolding is_hex is_separator
all_allowed [] = true
all_allowed (c ∷ cs) = (is_hex c || is_separator c) && all_allowed cs

cons_byte : Option ℕ → Option ℕ → Option (List ℕ) → Option (List ℕ)
cons_byte (some a) (some b) (some bytes) = some ((a * 16 + b) ∷ bytes)
cons_byte _ _ _ = none

-- `bytes.fromhex` of hexadecimal digits; none for an odd number of them.
unfoldable pub from_hex : Text → Option (List ℕ)
unfolding cons_byte hex_value
from_hex [] = some []
from_hex (c ∷ []) = none
from_hex (c ∷ d ∷ cs) = cons_byte (hex_value c) (hex_value d) (from_hex cs)

-- `_parse_fingerprint_bytes(value)`
unfoldable pub parse_fingerprint_bytes : Text → Option (List ℕ)
unfolding all_allowed from_hex is_separator
parse_fingerprint_bytes value =
    if all_allowed value then from_hex (keep_if (λ c. not (is_separator c)) value) else none

shifted : ℕ → Option (Text × Text) → Option (Text × Text)
shifted c none = none
shifted c (some (a, b)) = some (c ∷ a, b)

-- `text.split("...", 1)`, none without dots.
unfoldable pub split_dots : Text → Option (Text × Text)
unfolding shifted starts_with
split_dots [] = none
split_dots (c ∷ cs) =
    if starts_with (c ∷ cs) (txt "...") then some ([], drop 2 cs) else shifted c (split_dots cs)

-- A fingerprint without a wildcard has the 32 bytes of a digest.
unfoldable pub exact : Option (List ℕ) → Option Parsed
exact none = none
exact (some digest) =
    if length digest == 32
    then some (record { head = digest; rest = []; wildcard = false })
    else none

unfoldable pub split_bytes : Option (List ℕ) → Option (List ℕ) → Option Parsed
split_bytes (some a) (some b) =
    if leb (length a + length b) 32
    then some (record { head = a; rest = b; wildcard = true })
    else none
split_bytes _ _ = none

unfoldable pub parse_split : Text → Option (Text × Text) → Option Parsed
unfolding exact split_bytes parse_fingerprint_bytes split_dots
parse_split value none = exact (parse_fingerprint_bytes value)
parse_split value (some (a, b)) = elim (split_dots b) [
  | none ↦ split_bytes (parse_fingerprint_bytes a) (parse_fingerprint_bytes b)
  | some _ ↦ none
]

unfoldable pub without_scheme : Text → Text
unfolding starts_with
without_scheme value = if starts_with value (txt "SHA256:") then drop 7 value else value

-- `_parse_fingerprint(value)`; none is `SecurityError`.
unfoldable pub parse_fingerprint : (Text → Text) → Text → Option Parsed
unfolding parse_split split_dots without_scheme strip
parse_fingerprint upper value =
    let body = without_scheme (upper (strip value)) in parse_split body (split_dots body)

-- `_wildcard_fingerprint_matches(actual, prefix, suffix)`
unfoldable pub wildcard_fingerprint_matches : List ℕ → List ℕ → List ℕ → Bool
unfolding text_eq
wildcard_fingerprint_matches actual head rest =
    if not (length actual == 32) || ltb (length actual) (length head + length rest)
    then false
    else text_eq (take (length head) actual) head
      && text_eq (drop (length actual - length rest) actual) rest

hex_digit : ℕ → ℕ
hex_digit n = if ltb n 10 then b'0' + n else b'A' + (n - 10)

-- `f"{byte:02X}"`
unfoldable pub hex_byte : ℕ → Text
unfolding hex_digit
hex_byte n = hex_digit (n / 16) ∷ hex_digit (n % 16) ∷ []

-- `":".join(parts)`
unfoldable pub colon_join : List Text → Text
colon_join [] = []
colon_join (t ∷ []) = t
colon_join (t ∷ u ∷ ts) = t ++ b':' ∷ colon_join (u ∷ ts)

-- `normalize_fingerprint(value)` of what `_parse_fingerprint` returned.
unfoldable pub normalize_parsed : Parsed → Text
unfolding hex_byte colon_join
normalize_parsed p =
    txt "SHA256:"
    ++ colon_join
        (map hex_byte p.head ++ (if p.wildcard then txt "..." ∷ map hex_byte p.rest else []))

-- `normalize_fingerprint(value)`; none is `SecurityError`.
unfoldable pub normalize_fingerprint : (Text → Text) → Text → Option Text
unfolding parse_fingerprint normalize_parsed
normalize_fingerprint upper value = Option.map normalize_parsed (parse_fingerprint upper value)

-- `format_fingerprint(digest)`
unfoldable pub format_fingerprint : List ℕ → Text
unfolding hex_byte colon_join
format_fingerprint digest = txt "SHA256:" ++ colon_join (map hex_byte digest)

-- `fingerprints_equal` of two fingerprints that parse.
unfoldable pub parsed_equal : Parsed → Parsed → Bool
unfolding text_eq normalize_parsed wildcard_fingerprint_matches
parsed_equal l r =
    if l.wildcard && r.wildcard
    then text_eq (normalize_parsed l) (normalize_parsed r)
    else if l.wildcard
    then wildcard_fingerprint_matches r.head l.head l.rest
    else if r.wildcard
    then wildcard_fingerprint_matches l.head r.head r.rest
    else text_eq l.head r.head

unfoldable pub both_equal : Option Parsed → Option Parsed → Bool
unfolding parsed_equal
both_equal (some l) (some r) = parsed_equal l r
both_equal _ _ = false

-- `fingerprints_equal(left, right)`
unfoldable pub fingerprints_equal : (Text → Text) → Text → Text → Bool
unfolding both_equal parse_fingerprint
fingerprints_equal upper left right =
    both_equal (parse_fingerprint upper left) (parse_fingerprint upper right)
