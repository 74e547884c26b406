-- ===== src/Base/Result.antt =====
-- A function that may raise returns a `Result`, with the exceptions of its component.
use mathlib.Core.Path.{◌≡◌, refl}

pub data Result {ε ℓ} (Raised : Type ε) (Value : Type ℓ) : Type (ε ⊔ ℓ) where
  err : Raised → Result Raised Value
  ok : Value → Result Raised Value

module _ {ε ℓ κ} {Raised : Type ε} {Value : Type ℓ} {Next : Type κ} where
  -- The second call runs where the first one raised nothing.
  infixl 5 ◌>>=◌
  abbrev pub ◌>>=◌ : Result Raised Value → (Value → Result Raised Next) → Result Raised Next
  err raised >>= then_do = err raised
  ok v >>= then_do = then_do v

  pub >>=-eq-ok :
      (first : Result Raised Value) (then_do : Value → Result Raised Next) {w : Next}
      → (first >>= then_do) ≡ ok w
      → (v : Value) × (first ≡ ok v) × (then_do v ≡ ok w)
  >>=-eq-ok (err raised) then_do e = cc
  >>=-eq-ok (ok v) then_do e = (v, refl, e)

  pub >>=_cong :
      (first : Result Raised Value) {f g : Value → Result Raised Next}
      → ((v : Value) → f v ≡ g v)
      → (first >>= f) ≡ (first >>= g)
  >>=_cong (err raised) same = refl
  >>=_cong (ok v) same = same v

module _ {ε ℓ κ μ} {Raised : Type ε} {Value : Type ℓ} {Next : Type κ} {Last : Type μ} where
  pub >>=_assoc :
      (first : Result Raised Value) (f : Value → Result Raised Next) (g : Next → Result Raised Last)
      → (first >>= f >>= g) ≡ (first >>= λ v. f v >>= g)
  >>=_assoc (err raised) f g = refl
  >>=_assoc (ok v) f g = refl
