-- ===== src/Plan/Build/Returns.antt =====
-- git-branchless-lib/src/core/rewrite/plan.rs: what a part of the planner returns, if no error ends it.
use git_branchless.Prelude.{
  ◌≡◌, refl, ◌≢◌, List, [], ◌∷◌, Result, ok, err, ◌>>=◌, collect, Yields, Yields-map, Yields-ok,
  Yields-err, Yields-bind, All, Result-cases, inl, inr, arith,
}
use git_branchless.Plan.{Failure, report, refused, invalid_constraint, panic, out_of_fuel, reported}

-- every error but the end of the fuel
abbrev pub IsError : {E : Type 0} → Failure E → Type 0
IsError (report _) = Unit
IsError (refused _) = Unit
IsError invalid_constraint = Unit
IsError panic = Unit
IsError out_of_fuel = ⊥

-- The result has the property, or an error of the program stands in its place. The fuel is enough.
abbrev pub Returns : {E A : Type 0} → (A → Type 0) → Result (Failure E) A → Type 0
Returns P r = Yields IsError P r

module _ {E : Type 0} {A : Type 0} where
  pub Returns-fuel : (P : A → Type 0) (r : Result (Failure E) A) → Returns P r → r ≢ err out_of_fuel
  Returns-fuel P r h e = Yields-err IsError P r out_of_fuel h e

  pub Returns-ok :
      (P : A → Type 0) (r : Result (Failure E) A) (a : A) → Returns P r → r ≡ ok a → P a
  Returns-ok P r a h e = Yields-ok IsError P r a h e

  pub Returns-reported :
      (P : A → Type 0) (r : Result E A) → ((a : A) → r ≡ ok a → P a) → Returns P (reported r)
  Returns-reported P (ok a) h = h a refl
  Returns-reported P (err e) h = tt

  pub Returns-map :
      (P Q : A → Type 0) (r : Result (Failure E) A)
      → ((a : A) → P a → Q a)
      → Returns P r
      → Returns Q r
  Returns-map P Q r k h = Yields-map IsError P Q r k h

pub Returns-bind :
    {E A B : Type 0} (P : A → Type 0) (Q : B → Type 0) (r : Result (Failure E) A)
    (f : A → Result (Failure E) B)
    → Returns P r
    → ((a : A) → P a → Returns Q (f a))
    → Returns Q (r >>= f)
Returns-bind P Q r f h k = Yields-bind IsError P Q r f h k

pub ok_same : {E A : Type 0} (r : Result E A) (a b : A) → r ≡ ok a → r ≡ ok b → a ≡ b
ok_same (ok x) a b h k = ground arith
ok_same (err e) a b h k = absurd (cc h)

pub collect-All :
    {E A B : Type 0} (P : A → Type 0) (Q : B → Type 0) (f : A → Result E B) (xs : List A)
    → All P xs
    → ((x : A) (y : B) → P x → f x ≡ ok y → Q y)
    → (ys : List B) → collect f xs ≡ ok ys
    → All Q ys
collect-All P Q f [] h k ys e = let same : [] ≡ ys = ground arith in rw (← same) tt
collect-All P Q f (x ∷ xs) h k ys e = elim (Result-cases (f x)) [
  | inl (y, first) ↦ elim (Result-cases (collect f xs)) [
    | inl (zs, rest) ↦
        let same = ok_same (collect f (x ∷ xs)) (y ∷ zs) ys (rw (first, collect, rest) refl) e in
        rw (← same) (k x y h.0 first, collect-All P Q f xs h.1 k zs rest)
    | inr (bad, rest) ↦ absurd (cc (rw (first, collect, rest) at e))
  ]
  | inr (bad, first) ↦ absurd (cc (rw (first, collect) at e))
]
