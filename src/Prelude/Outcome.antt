-- ===== src/Prelude/Outcome.antt =====
-- Rust's `Result`, with the bind of its `?` operator.
use mathlib.Core.Path.{◌≡◌, refl}
use mathlib.Core.Logic.{◌⊎◌, inl, inr}
use mathlib.Core.List.{List, [], ◌∷◌}

pub data Result {ℓ} (E : Type ℓ) (A : Type ℓ) : Type ℓ where
  ok : A → Result E A
  err : E → Result E A

infixl 5 ◌>>=◌ ◌>>◌
abbrev pub ◌>>=◌ {ℓ} : {E A B : Type ℓ} → Result E A → (A → Result E B) → Result E B
ok a >>= f = f a
err e >>= f = err e

abbrev pub ◌>>◌ {ℓ} : {E A B : Type ℓ} → Result E A → Result E B → Result E B
m >> k = m >>= λ _. k

-- `.map(f).collect::<Result<Vec<_>, _>>()`: the first error ends the walk.
abbrev pub collect {ℓ} : {E A B : Type ℓ} → (A → Result E B) → List A → Result E (List B)
collect f [] = ok []
collect f (x ∷ xs) = f x >>= λ y. collect f xs >>= λ ys. ok (y ∷ ys)

pub Result-cases {ℓ} :
    {E A : Type ℓ} (r : Result E A) → ((a : A) × (r ≡ ok a)) ⊎ ((e : E) × (r ≡ err e))
Result-cases (ok a) = inl (a, refl)
Result-cases (err e) = inr (e, refl)

module _ {F A : Type 0} (Allowed : F → Type 0) where
  -- The result has the property, or an error that is allowed stands in its place.
  abbrev pub Yields : (A → Type 0) → Result F A → Type 0
  Yields P (ok a) = P a
  Yields P (err e) = Allowed e

  pub Yields-map :
      (P Q : A → Type 0) (r : Result F A) → ((a : A) → P a → Q a) → Yields P r → Yields Q r
  Yields-map P Q (ok a) k h = k a h
  Yields-map P Q (err e) k h = h

  pub Yields-ok : (P : A → Type 0) (r : Result F A) (a : A) → Yields P r → r ≡ ok a → P a
  Yields-ok P r a h e = rw e at h

  pub Yields-err : (P : A → Type 0) (r : Result F A) (e : F) → Yields P r → r ≡ err e → Allowed e
  Yields-err P r e h k = rw k at h

  pub Yields-all : ((e : F) → Allowed e) → (r : Result F A) → Yields (λ _. Unit) r
  Yields-all all (ok a) = tt
  Yields-all all (err e) = all e

module _ {F A B : Type 0} (Allowed : F → Type 0) (P : A → Type 0) (Q : B → Type 0) where
  pub Yields-bind :
      (r : Result F A) (f : A → Result F B)
      → Yields Allowed P r
      → ((a : A) → P a → Yields Allowed Q (f a))
      → Yields Allowed Q (r >>= f)
  Yields-bind (ok a) f h k = k a h
  Yields-bind (err e) f h k = h
