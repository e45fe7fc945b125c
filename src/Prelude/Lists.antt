-- ===== src/Prelude/Lists.antt =====
-- Lists under native lengths and indices.
use Prim.Native.Nat.{ℕ, zero, suc, ◌+◌, ◌-◌, ◌<◌, ◌≤◌, min}
use mathlib.Core.Path.{◌≡◌, refl, ap}
use mathlib.Core.Logic.{inl, inr}
use mathlib.Core.List.{List, [], ◌∷◌, ◌++◌}
use mathlib.Core.Option.{Option, none, some}
use mathlib.Core.Bool.{Bool, true, false, ◌||◌, ◌&&◌}
use native.Mathlib.Nat.{sub-zero}
use native.Mathlib.Omega.{arith}
use git_branchless.Prelude.Tests.{if◌then◌else◌, EqTest, ◌==◌, ==_iff, ==_self, Bool-cases}

module _ {ℓ} {A : Type ℓ} where
  abbrev pub length : List A → ℕ
  length [] = 0
  length (x ∷ xs) = suc (length xs)

  abbrev pub get_elem? : List A → ℕ → Option A
  get_elem? [] i = none
  get_elem? (x ∷ xs) zero = some x
  get_elem? (x ∷ xs) (suc i) = get_elem? xs i

  abbrev pub take : ℕ → List A → List A
  take zero xs = []
  take (suc n) [] = []
  take (suc n) (x ∷ xs) = x ∷ take n xs

  abbrev pub drop : ℕ → List A → List A
  drop zero xs = xs
  drop (suc n) [] = []
  drop (suc n) (x ∷ xs) = drop n xs

  abbrev pub is_empty : List A → Bool
  is_empty [] = true
  is_empty (x ∷ xs) = false

  -- `slice::last`
  abbrev pub last? : List A → Option A
  last? [] = none
  last? (x ∷ xs) = elim (last? xs) [ none ↦ some x | some y ↦ some y ]

  -- `.iter().filter(p).collect()`
  abbrev pub keep : (A → Bool) → List A → List A
  keep p [] = []
  keep p (x ∷ xs) = if p x then x ∷ keep p xs else keep p xs

  -- `.iter().any(p)`
  abbrev pub any_of : (A → Bool) → List A → Bool
  any_of p [] = false
  any_of p (x ∷ xs) = p x || any_of p xs

  -- `.iter().all(p)`
  abbrev pub all_of : (A → Bool) → List A → Bool
  all_of p [] = true
  all_of p (x ∷ xs) = p x && all_of p xs

  pub length-append : (xs ys : List A) → length (xs ++ ys) ≡ length xs + length ys
  length-append [] ys = omega arith
  length-append (x ∷ xs) ys = omega (arith, length-append xs ys)

  pub length-take : (n : ℕ) (xs : List A) → length (take n xs) ≡ min n (length xs)
  length-take zero xs = omega arith
  length-take (suc n) [] = omega arith
  length-take (suc n) (x ∷ xs) = omega (arith, length-take n xs)

  pub length-of-is_empty : (xs : List A) → is_empty xs ≡ true → length xs ≡ 0
  length-of-is_empty [] h = refl
  length-of-is_empty (x ∷ xs) h = cc

  -- a slice that begins before its end, within the list, has a first element
  pub slice_cons :
      (xs : List A) (i j : ℕ)
      → i < j
      → j ≤ length xs
      → (x : A) × (rest : List A) × (take (j - i) (drop i xs) ≡ x ∷ rest)
  slice_cons [] i j h k = absurd (omega arith)
  slice_cons (x ∷ xs) zero zero h k = absurd (omega arith)
  slice_cons (x ∷ xs) zero (suc j) h k = (x, take j xs, rw sub-zero)
  slice_cons (x ∷ xs) (suc i) zero h k = absurd (omega arith)
  slice_cons (x ∷ xs) (suc i) (suc j) h k =
      let e : suc j - suc i ≡ j - i = omega arith in
      rw e (slice_cons xs i j (omega arith) (omega arith))

  pub last?-append : (xs : List A) (x : A) → last? (xs ++ x ∷ []) ≡ some x
  last?-append [] x = refl
  last?-append (y ∷ xs) x = rw (last?-append xs x)

  pub take-length : (xs : List A) → take (length xs) xs ≡ xs
  take-length [] = refl
  take-length (x ∷ xs) = ap (◌∷◌ x) (take-length xs)

-- `.filter_map(f).collect()`, and the first hit of `find_map`
module _ {ℓ κ} {A : Type ℓ} {B : Type κ} where
  abbrev pub find_map : (A → Option B) → List A → Option B
  find_map f [] = none
  find_map f (x ∷ xs) = elim (f x) [ none ↦ find_map f xs | some b ↦ some b ]

-- `HashSet::contains` and `Vec::contains`
module _ {ℓ} {A : Type ℓ} ⦃e : EqTest A⦄ where
  abbrev pub contains : List A → A → Bool
  contains [] a = false
  contains (x ∷ xs) a = x == a || contains xs a

  -- `HashSet::insert`
  abbrev pub set_insert : A → List A → List A
  set_insert a xs = if contains xs a then xs else a ∷ xs

module _ {ℓ} {A : Type ℓ} ⦃e : EqTest A⦄ where
  pub contains-set_insert :
      (a b : A) (xs : List A) → contains (set_insert a xs) b ≡ (a == b || contains xs b)
  contains-set_insert a b xs = elim (Bool-cases (contains xs a)) [
    | inl old ↦ elim (Bool-cases (a == b)) [
      | inl same ↦ rw (old, same) (rw ((==_iff a b).0 same) at old)
      | inr other ↦ rw (old, other)
    ]
    | inr new ↦ rw new
  ]

  pub contains-keep :
      (p : A → Bool) (xs : List A) (a : A)
      → contains xs a ≡ true
      → p a ≡ true
      → contains (keep p xs) a ≡ true
  contains-keep p [] a h q = h
  contains-keep p (x ∷ xs) a h q = elim (Bool-cases (x == a)) [
    | inl same ↦ rw ((==_iff x a).0 same, q, ==_self a)
    | inr other ↦ elim (Bool-cases (p x)) [
      | inl stays ↦ rw (stays, other) (contains-keep p xs a (rw other at h) q)
      | inr leaves ↦ rw leaves (contains-keep p xs a (rw other at h) q)
    ]
  ]

  pub contains-keep_sound :
      (p : A → Bool) (xs : List A) (a : A)
      → contains (keep p xs) a ≡ true
      → (contains xs a ≡ true) × (p a ≡ true)
  contains-keep_sound p [] a h = absurd (cc h)
  contains-keep_sound p (x ∷ xs) a h = ground (arith, ==_iff x a, contains-keep_sound p xs a)

-- A predicate of every element, as a tuple.
abbrev pub All {ℓ κ} : {A : Type ℓ} → (A → Type κ) → List A → Type κ
All P [] = Unit
All P (x ∷ xs) = P x × All P xs
