-- ===== src/PortPool/Ports.antt =====
-- What a parsed pool holds.
use py_frp.Base.{
  ℕ, zero, suc, ◌+◌, ◌-◌, ◌≤◌, ◌≡◌, ◌≢◌, refl, ap, ◌∙◌, sym, false, ◌||◌, List, [], ◌∷◌, ◌++◌,
  arith, contains, is_empty, if◌then◌else◌, All, Distinct, inl, inr, Bool-cases, Option, some, none,
}
use py_frp.Base.Texts.{Text, strip, split}
use py_frp.Base.Result.{Result, ok, err, ◌>>=◌, >>=-eq-ok, >>=_cong, >>=_assoc}
use py_frp.PortPool.{
  PoolError, port_range, item_candidates, nonempty, port, range, candidates, add_ports,
  part_candidates, parse_port_pools, parse_values, parse_parts,
}

abbrev pub InRange : ℕ → Type 0
InRange p = (1 ≤ p) × (p ≤ 65535)

abbrev pub IsPool : List ℕ → Type 0
IsPool ports = Distinct ports × All InRange ports

All-snoc : (P : ℕ → Type 0) (xs : List ℕ) (x : ℕ) → All P xs → P x → All P (xs ++ x ∷ [])
All-snoc P [] x h p = (p, tt)
All-snoc P (y ∷ xs) x h p = (h.0, All-snoc P xs x h.1 p)

All-append : (P : ℕ → Type 0) (xs ys : List ℕ) → All P xs → All P ys → All P (xs ++ ys)
All-append P [] ys h k = k
All-append P (x ∷ xs) ys h k = (h.0, All-append P xs ys h.1 k)

not_contains : (xs : List ℕ) (n : ℕ) → contains xs n ≡ false → All (λ y. y ≢ n) xs
not_contains [] n h = tt
not_contains (x ∷ xs) n h = ground (arith, not_contains xs n)

Distinct-snoc : (xs : List ℕ) (x : ℕ) → Distinct xs → All (λ y. y ≢ x) xs → Distinct (xs ++ x ∷ [])
Distinct-snoc [] x d h = (tt, tt)
Distinct-snoc (y ∷ xs) x d h = (All-snoc (λ z. y ≢ z) xs x d.0 h.0, Distinct-snoc xs x d.1 h.1)

add_ports-IsPool : (ports cs : List ℕ) → IsPool ports → All InRange cs → IsPool (add_ports ports cs)
unfolding add_ports
add_ports-IsPool ports [] v h = v
add_ports-IsPool ports (c ∷ cs) v h = elim (Bool-cases (contains ports c)) [
  | inl seen ↦ rw seen (add_ports-IsPool ports cs v h.1)
  | inr new ↦ rw new (
      add_ports-IsPool (ports ++ c ∷ []) cs
        (Distinct-snoc ports c v.0 (not_contains ports c new), All-snoc InRange ports c v.1 h.0)
        h.1)
]

port-InRange : (t : Text) (p : ℕ) → port t ≡ ok p → InRange p
unfolding port
port-InRange t p e = ground arith

range-InRange :
    (count start : ℕ) → 1 ≤ start → start + count ≤ 65536 → All InRange (range count start)
unfolding range
range-InRange zero start h k = tt
range-InRange (suc count) start h k =
    ((h, omega arith), range-InRange count (start + 1) (omega arith) (omega arith))

port_range-InRange :
    (start last : ℕ) (cs : List ℕ)
    → InRange start
    → InRange last
    → port_range start last ≡ ok cs
    → All InRange cs
unfolding port_range
port_range-InRange start last cs h k e = ground (arith, range-InRange (last + 1 - start) start)

item_candidates-InRange :
    (item : Text) (o : Option (Text × Text)) (cs : List ℕ)
    → item_candidates item o ≡ ok cs
    → All InRange cs
unfolding item_candidates
item_candidates-InRange item none cs e =
    let (p, q, r) = >>=-eq-ok (port item) (λ (p : ℕ). ok (p ∷ [])) e in
    let s : p ∷ [] ≡ cs = cc in rw (← s) (port-InRange item p q, tt)
item_candidates-InRange item (some (a, b)) cs e =
    let (start, p, e') =
      >>=-eq-ok (port a) (λ (start : ℕ). port b >>= λ last. port_range start last) e in
    let (last, q, r) = >>=-eq-ok (port b) (λ (last : ℕ). port_range start last) e' in
    port_range-InRange start last cs (port-InRange a start p) (port-InRange b last q) r

candidates-InRange : (item : Text) (cs : List ℕ) → candidates item ≡ ok cs → All InRange cs
unfolding candidates
candidates-InRange item cs e = item_candidates-InRange item _ cs e

part_candidates-InRange :
    (part : Text) (cs : List ℕ) → part_candidates part ≡ ok cs → All InRange cs
unfolding part_candidates
part_candidates-InRange part cs e = elim (Bool-cases (is_empty (strip part))) [
  | inl blank ↦ let f : [] ≡ cs = ground arith in rw (← f) tt
  | inr item ↦ candidates-InRange (strip part) cs (ground arith)
]

-- The ports that the parts name, in order and with repetitions; the first bad part is the error.
unfoldable pub named : List Text → Result PoolError (List ℕ)
named [] = ok []
named (part ∷ parts) = do cs ← part_candidates part; ds ← named parts; ok (cs ++ ds)

named-InRange : (parts : List Text) (cs : List ℕ) → named parts ≡ ok cs → All InRange cs
unfolding named
named-InRange [] cs e = let f : [] ≡ cs = cc in rw (← f) tt
named-InRange (part ∷ parts) cs e =
    let (here, p, e') =
      >>=-eq-ok (part_candidates part) (λ (c : List ℕ). named parts >>= λ ds. ok (c ++ ds)) e in
    let (there, q, r) = >>=-eq-ok (named parts) (λ (ds : List ℕ). ok (here ++ ds)) e' in
    let f : here ++ there ≡ cs = cc in
    rw (← f) (
      All-append InRange here there (part_candidates-InRange part here p)
        (named-InRange parts there q))

add_ports-append :
    (ports cs ds : List ℕ) → add_ports ports (cs ++ ds) ≡ add_ports (add_ports ports cs) ds
unfolding add_ports
add_ports-append ports [] ds = refl
add_ports-append ports (c ∷ cs) ds =
    add_ports-append (if contains ports c then ports else ports ++ c ∷ []) cs ds

contains-append :
    (xs ys : List ℕ) (n : ℕ) → contains (xs ++ ys) n ≡ (contains xs n || contains ys n)
contains-append [] ys n = refl
contains-append (x ∷ xs) ys n = ground (arith, contains-append xs ys n)

contains-add_ports :
    (ports cs : List ℕ) (n : ℕ)
    → contains (add_ports ports cs) n ≡ (contains ports n || contains cs n)
unfolding add_ports
contains-add_ports ports [] n = ground arith
contains-add_ports ports (c ∷ cs) n = elim (Bool-cases (contains ports c)) [
  | inl seen ↦ rw seen (ground (arith, contains-add_ports ports cs n))
  | inr new ↦
      rw new (
        ground (arith, contains-add_ports (ports ++ c ∷ []) cs n, contains-append ports (c ∷ []) n))
]

abbrev add_named : List ℕ → Result PoolError (List ℕ) → Result PoolError (List ℕ)
add_named ports r = r >>= λ cs. ok (add_ports ports cs)

module _ (parts : List Text)
    (ih : (ports : List ℕ) → parse_parts ports parts ≡ add_named ports (named parts)) where
  add_named_later :
      (ports cs : List ℕ) (r : Result PoolError (List ℕ))
      → add_named (add_ports ports cs) r ≡ add_named ports (r >>= λ ds. ok (cs ++ ds))
  add_named_later ports cs (ok ds) = ap ok (sym (add_ports-append ports cs ds))
  add_named_later ports cs (err e) = refl

  parse_parts-step :
      (ports : List ℕ) (r : Result PoolError (List ℕ))
      → (r >>= λ cs. parse_parts (add_ports ports cs) parts)
        ≡ add_named ports (r >>= λ cs. named parts >>= λ ds. ok (cs ++ ds))
  parse_parts-step ports (ok cs) = ih (add_ports ports cs) ∙ add_named_later ports cs (named parts)
  parse_parts-step ports (err e) = refl

parse_parts-named :
    (parts : List Text) (ports : List ℕ) → parse_parts ports parts ≡ add_named ports (named parts)
unfolding parse_parts named
parse_parts-named [] ports = unfold add_ports in refl
parse_parts-named (part ∷ parts) ports =
    parse_parts-step parts (parse_parts-named parts) ports (part_candidates part)

-- All the parts of all the values.
abbrev pub all_parts : List Text → List Text
all_parts [] = []
all_parts (value ∷ values) = split b',' value ++ all_parts values

parse_parts-append :
    (ports : List ℕ) (xs ys : List Text)
    → parse_parts ports (xs ++ ys) ≡ (parse_parts ports xs >>= λ more. parse_parts more ys)
unfolding parse_parts
parse_parts-append ports [] ys = refl
parse_parts-append ports (x ∷ xs) ys =
    >>=_cong (part_candidates x) (λ cs. parse_parts-append (add_ports ports cs) xs ys)
    ∙ sym (>>=_assoc (part_candidates x) _ _)

parse_values-parts :
    (ports : List ℕ) (values : List Text)
    → parse_values ports values ≡ parse_parts ports (all_parts values)
unfolding parse_values
parse_values-parts ports [] = unfold parse_parts in refl
parse_values-parts ports (v ∷ vs) =
    >>=_cong (parse_parts ports (split b',' v)) (λ more. parse_values-parts more vs)
    ∙ sym (parse_parts-append ports (split b',' v) (all_parts vs))

pub nonempty-ok : (ps qs : List ℕ) → nonempty ps ≡ ok qs → (ps ≡ qs) × (ps ≢ [])
unfolding nonempty
nonempty-ok [] qs e = cc
nonempty-ok (p ∷ ps) qs e = (cc, λ h. cc)

-- The parser is the sequence of the named ports with repetitions removed: the same first error, and
-- else the ports in the order of their first mention; no port at all is an error.
pub parse_port_pools-named :
    (values : List Text)
    → parse_port_pools values ≡ (named (all_parts values) >>= λ cs. nonempty (add_ports [] cs))
unfolding parse_port_pools
parse_port_pools-named values =
    rw (parse_values-parts [] values, parse_parts-named (all_parts values) [])
      (>>=_assoc (named (all_parts values)) (λ cs. ok (add_ports [] cs)) nonempty)

-- An accepted pool is not empty, has no port twice, only ports from 1 to 65535, and exactly those
-- that some part of some value names.
pub parse_port_pools-IsPool :
    (values : List Text) (ports : List ℕ)
    → parse_port_pools values ≡ ok ports
    → (ports ≢ [])
      × Distinct ports
      × All InRange ports
      × ((cs : List ℕ) × (named (all_parts values) ≡ ok cs)
          × ((n : ℕ) → contains ports n ≡ contains cs n))
parse_port_pools-IsPool values ports e =
    let (cs, p, q) =
      >>=-eq-ok (named (all_parts values)) (λ (cs : List ℕ). nonempty (add_ports [] cs))
        (rw parse_port_pools-named at e) in
    let here = add_ports-IsPool [] cs (tt, tt) (named-InRange (all_parts values) cs p) in
    let (same, some_port) = nonempty-ok (add_ports [] cs) ports q in
    rw (← same) (some_port, here.0, here.1, (cs, p, λ n. contains-add_ports [] cs n))
