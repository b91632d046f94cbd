-- ===== src/Prelude/Result.antt =====
-- What a Python function gives back: a value, or the exception that it raises.
use mathlib.Core.Path.{◌≡◌, refl, ap, subst}
use mathlib.Core.Bool.{Bool, true, false}
use layersmith.Prelude.Tests.{if◌then◌else◌}
use mathlib.Core.List.{List, [], ◌∷◌}
use Prim.Native.Nat.{suc}
use layersmith.Prelude.Lists.{length, All}

pub data Result {ℓ κ} (E : Type κ) (A : Type ℓ) : Type (ℓ ⊔ κ) where
  ok : A → Result E A
  err : E → Result E A

infixl 5 ◌>>=◌ ◌>>◌
abbrev pub ◌>>=◌ {ε α β} :
    {Raised : Type ε} {A : Type α} {B : Type β} (m : Result Raised A) (k : A → Result Raised B)
    → Result Raised B
err raised >>= k = err raised
ok value >>= k = k value

abbrev pub ◌>>◌ {ℓ μ} : {E : Type μ} {B : Type ℓ} → Result E (Unit {0}) → Result E B → Result E B
m >> k = m >>= λ _. k

-- `if not b: raise e`
abbrev pub require {μ} : {E : Type μ} → Bool → E → Result E (Unit {0})
require true e = ok tt
require false e = err e

-- Inversion of a successful bind.
pub >>=-eq-ok {ε α β} :
    {Raised : Type ε} {A : Type α} {B : Type β} (m : Result Raised A) (k : A → Result Raised B)
    {b : B}
    → (m >>= k) ≡ ok b
    → (a : A) × (m ≡ ok a) × (k a ≡ ok b)
>>=-eq-ok (err raised) k done = cc
>>=-eq-ok (ok value) k done = (value, refl, done)

-- What a computation that returned did not do
pub ok-apart {ε α} :
    {E : Type ε} {A : Type α} {x y : A} → ◌≡◌ {A = Result E A} (ok x) (ok y) → x ≡ y
ok-apart e = cc

-- A test that fails gives its error, and so it did not.
pub if_ok {ε α} :
    {A : Type α} {E : Type ε} {v : A} (b : Bool) (e : E) (k : Result E A)
    → (if b then err e else k) ≡ ok v
    → (b ≡ false) × (k ≡ ok v)
if_ok false e k h = (refl, h)
if_ok true e k h = absurd (cc)

-- `[f(x) for x in xs]`
unfoldable pub map_ok {ε α β} :
    {E : Type ε} {A : Type α} {B : Type β} → (A → Result E B) → List A → Result E (List B)
map_ok f [] = ok []
map_ok f (x ∷ xs) = f x >>= λ y. map_ok f xs >>= λ ys. ok (y ∷ ys)

module _ {ε α β} {E : Type ε} {A : Type α} {B : Type β} (f : A → Result E B) where
  map_ok_cons :
      (x : A) (xs : List A) (zs : List B)
      → map_ok f (x ∷ xs) ≡ ok zs
      → (y : B) × (ys : List B) × (f x ≡ ok y) × (map_ok f xs ≡ ok ys) × (y ∷ ys ≡ zs)
  unfolding map_ok
  map_ok_cons x xs zs h =
      let (y, one, rest) = >>=-eq-ok (f x) (λ y. map_ok f xs >>= λ ys. ok (y ∷ ys)) h in
      let (ys, others, e) = >>=-eq-ok (map_ok f xs) (λ ys. ok (y ∷ ys)) rest in
      (y, ys, one, others, ok-apart e)

  pub length-map_ok : (xs : List A) (ys : List B) → map_ok f xs ≡ ok ys → length ys ≡ length xs
  unfolding map_ok
  length-map_ok [] ys h = let e : [] ≡ ys = ok-apart h in subst (λ l. length l ≡ 0) e refl
  length-map_ok (x ∷ xs) zs h =
      let (y, ys, one, others, e) = map_ok_cons x xs zs h in
      subst (λ l. length l ≡ suc (length xs)) e (ap suc (length-map_ok xs ys others))

  -- What holds of each value that `f` returns holds of all of them.
  pub map_ok-All {κ} :
      (P : B → Type κ)
      → ((x : A) (y : B) → f x ≡ ok y → P y)
      → (xs : List A) (ys : List B) → map_ok f xs ≡ ok ys
      → All P ys
  unfolding map_ok
  map_ok-All P p [] ys h = subst (All P) (ok-apart h) tt
  map_ok-All P p (x ∷ xs) zs h =
      let (y, ys, one, others, e) = map_ok_cons x xs zs h in
      subst (All P) e (p x y one, map_ok-All P p xs ys others)

module _ {ε α} {E : Type ε} {A : Type α} (f : A → Result E A) where
  -- A list of values that `f` returns unchanged
  pub map_ok-fixed : (xs : List A) → All (λ x. f x ≡ ok x) xs → map_ok f xs ≡ ok xs
  unfolding map_ok
  map_ok-fixed [] a = refl
  map_ok-fixed (x ∷ xs) (one, a) = rw (one, map_ok-fixed xs a) refl

  pub map_ok-map_ok :
      ((x y : A) → f x ≡ ok y → f y ≡ ok y)
      → (xs ys : List A) → map_ok f xs ≡ ok ys
      → map_ok f ys ≡ ok ys
  map_ok-map_ok again xs ys h = map_ok-fixed ys (map_ok-All f (λ y. f y ≡ ok y) again xs ys h)
