-- ===== src/Fingerprint/Matching.antt =====
-- Which fingerprints are equal.
use py_frp.Base.{
  ℕ, ◌+◌, ◌-◌, ◌≡◌, ◌↔◌, refl, sym, ap, ◌∙◌, true, false, Option, none, some, List, [], ◌∷◌, ◌++◌,
  length, take, drop, arith, take-append-drop, length-append, take-append, drop-append, ◌≤◌, zero,
  suc, if◌then◌else◌, Bool-cases, inl, inr,
}
use py_frp.Base.Texts.{Text, text_eq, text_eq_iff, strip}
use py_frp.Fingerprint.{
  Parsed, parse_fingerprint, parsed_equal, both_equal, fingerprints_equal,
  wildcard_fingerprint_matches, without_scheme, split_dots, parse_split, exact, split_bytes,
  normalize_parsed, parse_fingerprint_bytes,
}

-- The bytes begin with `head` and end with `rest`, without an overlap.
abbrev pub Fits : List ℕ → List ℕ → List ℕ → Type 0
Fits head rest digest = (middle : List ℕ) × (digest ≡ head ++ (middle ++ rest))

drop-none : (n : ℕ) → drop {A = ℕ} n [] ≡ []
drop-none zero = refl
drop-none (suc n) = refl

drop-drop : (k h : ℕ) (xs : List ℕ) → drop k (drop h xs) ≡ drop (h + k) xs
drop-drop k zero xs = ap (λ (n : ℕ). drop n xs) (omega arith)
drop-drop k (suc h) [] = drop-none k ∙ sym (drop-none (suc h + k))
drop-drop k (suc h) (x ∷ xs) =
    let e : suc (h + k) ≡ suc h + k = omega arith in
    drop-drop k h xs ∙ ap (λ (n : ℕ). drop n (x ∷ xs)) e

++-assoc : (xs ys zs : List ℕ) → (xs ++ ys) ++ zs ≡ xs ++ (ys ++ zs)
++-assoc [] ys zs = refl
++-assoc (x ∷ xs) ys zs = ap (λ t. x ∷ t) (++-assoc xs ys zs)

drop-end : (n : ℕ) (xs ys zs : List ℕ) → n ≡ length xs + length ys → drop n (xs ++ (ys ++ zs)) ≡ zs
drop-end n xs ys zs e =
    ap (drop n) (sym (++-assoc xs ys zs))
    ∙ ap (λ (k : ℕ). drop k ((xs ++ ys) ++ zs)) (e ∙ sym (length-append xs ys))
    ∙ drop-append (xs ++ ys) zs

module _ (digest head rest : List ℕ) where
  matched :
      wildcard_fingerprint_matches digest head rest ≡ true
      → (length digest ≡ 32)
        × (length head + length rest ≤ length digest)
        × (take (length head) digest ≡ head)
        × (drop (length digest - length rest) digest ≡ rest)
  unfolding wildcard_fingerprint_matches
  matched e = ground (
    arith,
    text_eq_iff (take (length head) digest) head,
    text_eq_iff (drop (length digest - length rest) digest) rest,
  )

  matches :
      length digest ≡ 32
      → length head + length rest ≤ length digest
      → take (length head) digest ≡ head
      → drop (length digest - length rest) digest ≡ rest
      → wildcard_fingerprint_matches digest head rest ≡ true
  unfolding wildcard_fingerprint_matches
  matches n h e f = ground (
    arith,
    text_eq_iff (take (length head) digest) head,
    text_eq_iff (drop (length digest - length rest) digest) rest,
  )

  matches-Fits : wildcard_fingerprint_matches digest head rest ≡ true → Fits head rest digest
  matches-Fits e =
      let m = matched e in
      let k = length digest - length head - length rest in
      let after = drop (length head) digest in
      let end : drop k after ≡ rest =
        drop-drop k (length head) digest
        ∙ ap (λ (n : ℕ). drop n digest) (omega (arith, m.1))
        ∙ m.3 in
      let parts : after ≡ take k after ++ rest =
        sym (take-append-drop k after) ∙ ap (λ t. take k after ++ t) end in
      (
        take k after,
        sym (take-append-drop (length head) digest)
            ∙ ap (λ t. t ++ after) m.2
            ∙ ap (λ t. head ++ t) parts,
      )

Fits-matches :
    (head middle rest : List ℕ)
    → length (head ++ (middle ++ rest)) ≡ 32
    → wildcard_fingerprint_matches (head ++ (middle ++ rest)) head rest ≡ true
Fits-matches head middle rest n =
    let a = length-append head (middle ++ rest) in
    let b = length-append middle rest in
    matches (head ++ (middle ++ rest)) head rest n (omega (arith, n, a, b))
      (take-append head (middle ++ rest)) (drop-end _ head middle rest (omega (arith, n, a, b)))

pub wildcard-Fits :
    (digest head rest : List ℕ)
    → length digest ≡ 32
    → (wildcard_fingerprint_matches digest head rest ≡ true) ↔ Fits head rest digest
wildcard-Fits digest head rest n = (
  matches-Fits digest head rest,
  λ (middle, e).
      ap (λ d. wildcard_fingerprint_matches d head rest) e
      ∙ Fits-matches head middle rest (ap (length {A = ℕ}) (sym e) ∙ n),
)

exact-head : (o : Option (List ℕ)) (r : Parsed) → exact o ≡ some r → length r.head ≡ 32
unfolding exact
exact-head none r e = cc
exact-head (some digest) r e = ground arith

wild :
    (o : Option (Text × Text)) (a b : Option (List ℕ)) (r : Parsed)
    → (elim o [ none ↦ split_bytes a b | some _ ↦ none ]) ≡ some r
    → r.wildcard ≡ false
    → ⊥
unfolding split_bytes
wild (some c) a b r e w = cc
wild none none b r e w = cc
wild none (some a) none r e w = cc
wild none (some a) (some b) r e w = ground arith

split-length :
    (body : Text) (o : Option (Text × Text)) (r : Parsed)
    → parse_split body o ≡ some r
    → r.wildcard ≡ false
    → length r.head ≡ 32
unfolding parse_split exact split_bytes
split-length body none r e w = exact-head (parse_fingerprint_bytes body) r e
split-length body (some (a, b)) r e w =
    elim (wild (split_dots b) (parse_fingerprint_bytes a) (parse_fingerprint_bytes b) r e w) [ ]

exact-length :
    (upper : Text → Text) (value : Text) (r : Parsed)
    → parse_fingerprint upper value ≡ some r
    → r.wildcard ≡ false
    → length r.head ≡ 32
unfolding parse_fingerprint
exact-length upper value r e w =
    let body = without_scheme (upper (strip value)) in split-length body (split_dots body) r e w

parsed_equal-exact :
    (l r : Parsed)
    → r.wildcard ≡ false
    → length r.head ≡ 32
    → (parsed_equal l r ≡ true)
      ↔ (if l.wildcard then Fits l.head l.rest r.head else (l.head ≡ r.head))
unfolding parsed_equal
parsed_equal-exact l r w n = elim (Bool-cases l.wildcard) [
  | inl h ↦ rw (h, w) (wildcard-Fits r.head l.head l.rest n)
  | inr h ↦ rw (h, w) (text_eq_iff l.head r.head)
]

-- Two fingerprints are read, the second without a wildcard. Without a wildcard in the first they are
-- equal exactly when their digests are; with one, exactly when the bytes around it begin and end the
-- other's digest without an overlap.
pub fingerprints_equal_lem :
    (upper : Text → Text) (left right : Text) (l r : Parsed)
    → parse_fingerprint upper left ≡ some l
    → parse_fingerprint upper right ≡ some r
    → r.wildcard ≡ false
    → (fingerprints_equal upper left right ≡ true)
      ↔ (if l.wildcard then Fits l.head l.rest r.head else (l.head ≡ r.head))
unfolding fingerprints_equal both_equal
fingerprints_equal_lem upper left right l r e f w =
    rw (e, f) (parsed_equal-exact l r w (exact-length upper right r f w))

text_eq_comm : (s t : Text) → text_eq s t ≡ text_eq t s
text_eq_comm s t = ground (arith, text_eq_iff s t, text_eq_iff t s)

parsed_equal_comm : (l r : Parsed) → parsed_equal l r ≡ parsed_equal r l
unfolding parsed_equal
parsed_equal_comm l r =
    ground
      (arith, text_eq_comm l.head r.head, text_eq_comm (normalize_parsed l) (normalize_parsed r))

both_equal_comm : (l r : Option Parsed) → both_equal l r ≡ both_equal r l
unfolding both_equal
both_equal_comm none none = refl
both_equal_comm none (some r) = refl
both_equal_comm (some l) none = refl
both_equal_comm (some l) (some r) = parsed_equal_comm l r

-- The order of the two fingerprints does not matter.
pub fingerprints_equal_comm :
    (upper : Text → Text) (left right : Text)
    → fingerprints_equal upper left right ≡ fingerprints_equal upper right left
unfolding fingerprints_equal
fingerprints_equal_comm upper left right =
    both_equal_comm (parse_fingerprint upper left) (parse_fingerprint upper right)
