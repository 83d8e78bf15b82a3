-- ===== src/Prelude/Results.antt =====
-- Rust's `Result<A, E>`.
use mathlib.Core.Path.{◌≡◌, refl, ap₂, subst}
use mathlib.Core.List.{List, [], ◌∷◌, map}
use mathlib.Core.Option.{Option, none, some}
use lunaroute.Prelude.Lists.{All}
use mathlib.Core.Logic.{◌⊎◌, inl, inr}

pub data Result {ℓ} (E A : Type ℓ) : Type ℓ where
  ok : A → Result E A
  err : E → Result E A

infixl 5 ◌>>=◌
abbrev pub ◌>>=◌ {ℓ} : {E A B : Type ℓ} → Result E A → (A → Result E B) → Result E B
ok a >>= f = f a
err e >>= f = err e

-- `result.map_err(f)`.
abbrev pub map_err {ℓ} : {E F A : Type ℓ} → (E → F) → Result E A → Result F A
map_err f (ok a) = ok a
map_err f (err e) = err (f e)

-- To split on a computed result and keep the equation.
pub Result-cases {ℓ} :
    {E A : Type ℓ} (r : Result E A) → ((a : A) × (r ≡ ok a)) ⊎ ((e : E) × (r ≡ err e))
Result-cases (ok a) = inl (a, refl)
Result-cases (err e) = inr (e, refl)

-- `iter.map(f).collect::<Result<Vec<_>, _>>()`, which stops at the first error.
abbrev pub traverse {ℓ} : {E A B : Type ℓ} → (A → Result E B) → List A → Result E (List B)
traverse f [] = ok []
traverse f (x ∷ xs) = f x >>= λ y. traverse f xs >>= λ ys. ok (y ∷ ys)

-- A chain that succeeds has succeeded at each step.
pub >>=-eq-ok {ℓ} :
    {E A B : Type ℓ} (r : Result E A) (f : A → Result E B) {b : B}
    → (r >>= f) ≡ ok b
    → (a : A) × (r ≡ ok a) × (f a ≡ ok b)
>>=-eq-ok (ok a) f h = (a, refl, h)
>>=-eq-ok (err e) f h = cc

pub ok_inj {ℓ} : {E A : Type ℓ} {a b : A} → ◌≡◌ {A = Result E A} (ok a) (ok b) → a ≡ b
ok_inj e = cc e

-- What holds of each element that is taken over holds of the lists.
pub traverse-map {ℓ} :
    {E A B C : Type ℓ} (f : A → Result E B) (g : B → C) (h : A → C)
    → ((x : A) (y : B) → f x ≡ ok y → g y ≡ h x)
    → (xs : List A) (ys : List B) → traverse f xs ≡ ok ys
    → map g ys ≡ map h xs
traverse-map f g h each [] [] e = refl
traverse-map f g h each [] (y ∷ ys) e = cc
traverse-map f g h each (x ∷ xs) ys e =
    let (y, here, e') = >>=-eq-ok (f x) _ e in
    let (ys', rest, e'') = >>=-eq-ok (traverse f xs) _ e' in
    subst (λ zs. map g zs ≡ map h (x ∷ xs)) (ok_inj e'')
      (ap₂ (λ z zs. z ∷ zs) (each x y here) (traverse-map f g h each xs ys' rest))

pub traverse-All {ℓ} :
    {E A B : Type ℓ} (f : A → Result E B) (P : B → Type ℓ)
    → ((x : A) (y : B) → f x ≡ ok y → P y)
    → (xs : List A) (ys : List B) → traverse f xs ≡ ok ys
    → All P ys
traverse-All f P each [] [] e = tt
traverse-All f P each [] (y ∷ ys) e = cc
traverse-All f P each (x ∷ xs) ys e =
    let (y, here, e') = >>=-eq-ok (f x) _ e in
    let (ys', rest, e'') = >>=-eq-ok (traverse f xs) _ e' in
    subst (All P) (ok_inj e'') (each x y here, traverse-All f P each xs ys' rest)

-- `option.map(f)`.
abbrev pub map_some {ℓ κ} : {A : Type ℓ} {B : Type κ} → (A → B) → Option A → Option B
map_some f none = none
map_some f (some a) = some (f a)

-- `option.and_then(f)`.
abbrev pub and_then {ℓ κ} : {A : Type ℓ} {B : Type κ} → Option A → (A → Option B) → Option B
and_then none f = none
and_then (some a) f = f a

-- `option.unwrap_or(a)`.
abbrev pub value_or {ℓ} : {A : Type ℓ} → Option A → A → A
value_or none a = a
value_or (some b) a = b
