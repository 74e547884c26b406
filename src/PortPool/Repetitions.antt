-- ===== src/PortPool/Repetitions.antt =====
-- The inner loop of `parse_port_pools`, which adds a port that it has not seen.
use py_frp.Base.{
  ℕ, ◌≡◌, refl, ap, ◌∙◌, sym, Bool, true, false, ◌&&◌, not, List, [], ◌∷◌, ◌++◌, arith, contains,
  keep_if, append-nil, if◌then◌else◌, inl, inr, Bool-cases, ◌==◌,
}
use py_frp.PortPool.{add_ports}

-- The numbers without the later mentions of each.
abbrev pub first_mentions : List ℕ → List ℕ
first_mentions [] = []
first_mentions (n ∷ ns) = n ∷ keep_if (λ m. not (m == n)) (first_mentions ns)

keep_twice :
    (p q r : ℕ → Bool)
    → ((n : ℕ) → (q n && p n) ≡ r n)
    → (ns : List ℕ) → keep_if p (keep_if q ns) ≡ keep_if r ns
keep_twice p q r same [] = refl
keep_twice p q r same (n ∷ ns) = ground (arith, keep_twice p q r same ns, same n)

keep_all : (p : ℕ → Bool) → ((n : ℕ) → p n ≡ true) → (ns : List ℕ) → keep_if p ns ≡ ns
keep_all p h [] = refl
keep_all p h (n ∷ ns) = ground (arith, keep_all p h ns, h n)

contains-snoc :
    (ns : List ℕ) (n m : ℕ) → contains (ns ++ n ∷ []) m ≡ (if n == m then true else contains ns m)
contains-snoc [] n m = ground arith
contains-snoc (k ∷ ns) n m = ground (arith, contains-snoc ns n m)

append_one : (xs : List ℕ) (x : ℕ) (ys : List ℕ) → (xs ++ x ∷ []) ++ ys ≡ xs ++ x ∷ ys
append_one [] x ys = refl
append_one (z ∷ xs) x ys = ap (λ l. z ∷ l) (append_one xs x ys)

-- What the loop adds to the ports that it has.
abbrev new_mentions : List ℕ → List ℕ → List ℕ
new_mentions ports ns = keep_if (λ m. not (contains ports m)) (first_mentions ns)

new_mentions-seen :
    (ports : List ℕ) (n : ℕ) (ns : List ℕ)
    → contains ports n ≡ true
    → new_mentions ports (n ∷ ns) ≡ new_mentions ports ns
new_mentions-seen ports n ns h = rw h (
    keep_twice (λ m. not (contains ports m)) (λ m. not (m == n)) (λ m. not (contains ports m))
      (λ m. ground arith) (first_mentions ns))

new_mentions-new :
    (ports : List ℕ) (n : ℕ) (ns : List ℕ)
    → contains ports n ≡ false
    → new_mentions ports (n ∷ ns) ≡ n ∷ new_mentions (ports ++ n ∷ []) ns
new_mentions-new ports n ns h = rw h (
    ap (λ l. n ∷ l)
      (keep_twice (λ m. not (contains ports m)) (λ m. not (m == n))
        (λ m. not (contains (ports ++ n ∷ []) m)) (λ m. ground (arith, contains-snoc ports n m))
        (first_mentions ns)))

add_ports-seen :
    (ports : List ℕ) (n : ℕ) (ns : List ℕ)
    → contains ports n ≡ true
    → add_ports ports (n ∷ ns) ≡ add_ports ports ns
unfolding add_ports
add_ports-seen ports n ns seen = rw seen refl

add_ports-new :
    (ports : List ℕ) (n : ℕ) (ns : List ℕ)
    → contains ports n ≡ false
    → add_ports ports (n ∷ ns) ≡ add_ports (ports ++ n ∷ []) ns
unfolding add_ports
add_ports-new ports n ns new = rw new refl

add_ports-mentions : (ports ns : List ℕ) → add_ports ports ns ≡ ports ++ new_mentions ports ns
add_ports-mentions ports [] = unfold add_ports in sym (append-nil ports)
add_ports-mentions ports (n ∷ ns) = elim (Bool-cases (contains ports n)) [
  | inl seen ↦
      add_ports-seen ports n ns seen
      ∙ add_ports-mentions ports ns
      ∙ ap (λ l. ports ++ l) (sym (new_mentions-seen ports n ns seen))
  | inr new ↦
      add_ports-new ports n ns new
      ∙ add_ports-mentions (ports ++ n ∷ []) ns
      ∙ append_one ports n (new_mentions (ports ++ n ∷ []) ns)
      ∙ ap (λ l. ports ++ l) (sym (new_mentions-new ports n ns new))
]

pub first_mentions-add_ports : (ns : List ℕ) → add_ports [] ns ≡ first_mentions ns
first_mentions-add_ports ns =
    add_ports-mentions [] ns ∙ keep_all (λ m. not (contains [] m)) (λ m. refl) (first_mentions ns)
