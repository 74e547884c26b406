-- ===== src/PortPool/Mentions.antt =====
-- Which pools the parser accepts, in terms of the texts alone: the numbers that the parts stand for, in
-- the order of their first mention.
use py_frp.Base.{
  ℕ, zero, suc, ◌+◌, ◌-◌, ◌≤◌, ◌≡◌, ◌≢◌, ◌↔◌, refl, ap, ◌∙◌, sym, false, List, [], ◌∷◌, ◌++◌, arith,
  is_empty, ltb, inl, inr, Bool-cases, Option, some, none,
}
use py_frp.Base.Int.{ℤ, pos, negsuc}
use py_frp.Base.Texts.{Text, strip, split_once, int_of_text}
use py_frp.Base.Result.{ok, ◌>>=◌, >>=-eq-ok}
use py_frp.PortPool.{
  port_range, item_candidates, nonempty, port, check_port, range, candidates, add_ports,
  part_candidates, parse_port_pools,
}
use py_frp.PortPool.Repetitions.{first_mentions, first_mentions-add_ports}
use py_frp.PortPool.Ports.{InRange, named, all_parts, parse_port_pools-named, nonempty-ok}

-- The numbers x, x + 1, …, y.
abbrev pub Ascends : ℕ → ℕ → List ℕ → Type 0
Ascends x y [] = ⊥
Ascends x y (n ∷ []) = (n ≡ x) × (x ≡ y)
Ascends x y (n ∷ m ∷ ms) = (n ≡ x) × Ascends (x + 1) y (m ∷ ms)

-- The text is that of a port.
abbrev pub IsPort : Text → ℕ → Type 0
IsPort t p = (int_of_text t ≡ some (pos p)) × InRange p

-- The ports that a part between commas stands for: none if it is blank, one port, or a range from a
-- port to one that is not below it.
pub data Names (part : Text) (ports : List ℕ) : Type 0 where
  blank : strip part ≡ [] → ports ≡ [] → Names part ports
  single :
      (p : ℕ)
      → strip part ≢ []
      → split_once b'-' (strip part) ≡ none
      → IsPort (strip part) p
      → ports ≡ p ∷ []
      → Names part ports
  interval :
      (a b : Text) (x y : ℕ)
      → strip part ≢ []
      → split_once b'-' (strip part) ≡ some (a, b)
      → IsPort a x
      → IsPort b y
      → x ≤ y
      → Ascends x y ports
      → Names part ports

abbrev pub NamesAll : List Text → List ℕ → Type 0
NamesAll [] ports = ports ≡ []
NamesAll (part ∷ parts) ports =
    (here : List ℕ) × (there : List ℕ) × Names part here
    × NamesAll parts there
    × (ports ≡ here ++ there)

check_port-IsPort :
    (o : Option ℤ) (p : ℕ) → (check_port o ≡ ok p) ↔ ((o ≡ some (pos p)) × InRange p)
unfolding check_port
check_port-IsPort none p = ((λ e. cc), (λ h. cc))
check_port-IsPort (some (negsuc n)) p = ((λ e. cc), (λ h. cc))
check_port-IsPort (some (pos n)) p = ((λ e. ground arith), (λ h. ground arith))

port-IsPort : (t : Text) (p : ℕ) → (port t ≡ ok p) ↔ IsPort t p
unfolding port
port-IsPort t p = check_port-IsPort (int_of_text t) p

range-Ascends : (n x y : ℕ) → x + n ≡ y → Ascends x y (range (suc n) x)
unfolding range
range-Ascends zero x y e = (refl, omega arith)
range-Ascends (suc n) x y e = (refl, range-Ascends n (x + 1) y (omega arith))

Ascends-range :
    (ns : List ℕ) (x y : ℕ) → Ascends x y ns → (n : ℕ) × (x + n ≡ y) × (range (suc n) x ≡ ns)
unfolding range
Ascends-range [] x y h = elim h [ ]
Ascends-range (n ∷ []) x y h = (0, omega arith, ap (λ m. m ∷ []) (sym h.0))
Ascends-range (n ∷ m ∷ ms) x y h =
    let (k, e, f) = Ascends-range (m ∷ ms) (x + 1) y h.1 in
    (suc k, omega arith, ap (λ l. x ∷ l) f ∙ ap (λ i. i ∷ m ∷ ms) (sym h.0))

range_size : (x y : ℕ) → x ≤ y → y + 1 - x ≡ suc (y - x)
range_size x y h = omega arith

port_range-ok : (x y : ℕ) → x ≤ y → port_range x y ≡ ok (range (suc (y - x)) x)
unfolding port_range
port_range-ok x y h =
    let size = range_size x y h in
    let b : ltb y x ≡ false = ground arith in rw (b, port_range) (ap (λ n. ok (range n x)) size)

port_range-le : (x y : ℕ) (ns : List ℕ) → port_range x y ≡ ok ns → x ≤ y
unfolding port_range
port_range-le x y ns e = ground arith

port_range-Ascends : (x y : ℕ) (ns : List ℕ) → (port_range x y ≡ ok ns) ↔ ((x ≤ y) × Ascends x y ns)
port_range-Ascends x y ns = (
  (λ e.
      let le = port_range-le x y ns e in
      let same : range (suc (y - x)) x ≡ ns = let f = sym (port_range-ok x y le) ∙ e in cc in
      (le, rw (← same) (range-Ascends (y - x) x y (omega arith)))),
  (λ h.
      let (k, e, f) = Ascends-range ns x y h.1 in
      let size : y - x ≡ k = omega arith in
      port_range-ok x y h.0 ∙ ap (λ n. ok (range (suc n) x)) size ∙ ap (λ l. ok l) f),
)

item-Names :
    (part : Text) (o : Option (Text × Text)) (ns : List ℕ)
    → strip part ≢ []
    → split_once b'-' (strip part) ≡ o
    → item_candidates (strip part) o ≡ ok ns
    → Names part ns
unfolding item_candidates
item-Names part none ns full at e =
    let (p, q, r) = >>=-eq-ok (port (strip part)) (λ (p : ℕ). ok (p ∷ [])) e in
    single p full at ((port-IsPort (strip part) p).0 q) (cc)
item-Names part (some (a, b)) ns full at e =
    let (x, p, e') = >>=-eq-ok (port a) (λ (x : ℕ). port b >>= λ y. port_range x y) e in
    let (y, q, r) = >>=-eq-ok (port b) (λ (y : ℕ). port_range x y) e' in
    let (le, up) = (port_range-Ascends x y ns).0 r in
    interval a b x y full at ((port-IsPort a x).0 p) ((port-IsPort b y).0 q) le up

full-false : (t : Text) → t ≢ [] → is_empty t ≡ false
full-false [] n = absurd (n refl)
full-false (c ∷ cs) n = refl

part-Names : (part : Text) (ns : List ℕ) → part_candidates part ≡ ok ns → Names part ns
unfolding part_candidates candidates
part-Names part ns e = elim (Bool-cases (is_empty (strip part))) [
  | inl y ↦ blank (ground arith) (ground arith)
  | inr n ↦ item-Names part (split_once b'-' (strip part)) ns (ground arith) refl (ground arith)
]

Names-part : (part : Text) (ns : List ℕ) → Names part ns → part_candidates part ≡ ok ns
unfolding part_candidates candidates item_candidates
Names-part part ns (blank e f) = rw (e, f, part_candidates) refl
Names-part part ns (single p full at q f) =
    rw
      (
        full-false (strip part) full,
        part_candidates,
        candidates,
        at,
        item_candidates,
        (port-IsPort (strip part) p).1 q,
        f,
      )
      refl
Names-part part ns (interval a b x y full at p q le up) =
    rw
      (
        full-false (strip part) full,
        part_candidates,
        candidates,
        at,
        item_candidates,
        (port-IsPort a x).1 p,
        (port-IsPort b y).1 q,
      )
      ((port_range-Ascends x y ns).1 (le, up))

named-NamesAll : (parts : List Text) (ns : List ℕ) → named parts ≡ ok ns → NamesAll parts ns
unfolding named
named-NamesAll [] ns e = let f : [] ≡ ns = cc in sym f
named-NamesAll (part ∷ parts) ns e =
    let (here, p, e') =
      >>=-eq-ok (part_candidates part) (λ (c : List ℕ). named parts >>= λ ds. ok (c ++ ds)) e in
    let (there, q, r) = >>=-eq-ok (named parts) (λ (ds : List ℕ). ok (here ++ ds)) e' in
    let f : here ++ there ≡ ns = cc in
    (here, there, part-Names part here p, named-NamesAll parts there q, sym f)

NamesAll-named : (parts : List Text) (ns : List ℕ) → NamesAll parts ns → named parts ≡ ok ns
unfolding named
NamesAll-named [] ns h = ap (λ l. ok l) (sym h)
NamesAll-named (part ∷ parts) ns (here, there, p, q, f) =
    rw (Names-part part here p, named, NamesAll-named parts there q, f) refl

nonempty-full : (ns : List ℕ) → ns ≢ [] → nonempty ns ≡ ok ns
unfolding nonempty
nonempty-full [] h = absurd (h refl)
nonempty-full (n ∷ ns) h = refl

-- The parser accepts the values with these ports exactly when every part between commas is blank, a port
-- from 1 to 65535 or a range of such ports that does not descend, and the ports are the numbers that the
-- parts stand for, the last of a range among them, each at its first mention only, and at least one.
pub parse_port_pools-NamesAll :
    (values : List Text) (ports : List ℕ)
    → (parse_port_pools values ≡ ok ports) ↔ (
        (ports ≢ [])
        × ((ns : List ℕ) × NamesAll (all_parts values) ns × (ports ≡ first_mentions ns)))
parse_port_pools-NamesAll values ports = (
  (λ e.
      let (ns, p, q) =
        >>=-eq-ok (named (all_parts values)) (λ (cs : List ℕ). nonempty (add_ports [] cs))
          (rw parse_port_pools-named at e) in
      let (same, some_port) = nonempty-ok (add_ports [] ns) ports q in
      (
        rw (← same) some_port,
        (ns, named-NamesAll (all_parts values) ns p, sym same ∙ first_mentions-add_ports ns),
      )),
  (λ h.
      let (full, (ns, p, q)) = h in
      parse_port_pools-named values
      ∙ ap (λ r. r >>= λ cs. nonempty (add_ports [] cs)) (NamesAll-named (all_parts values) ns p)
      ∙ ap nonempty (first_mentions-add_ports ns ∙ sym q)
      ∙ nonempty-full ports full),
)
