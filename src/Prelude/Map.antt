-- ===== src/Prelude/Map.antt =====
-- `HashMap` and `IndexMap` as association lists, in the order of insertion.
use mathlib.Core.Path.{◌≡◌, refl}
use mathlib.Core.Logic.{inl, inr}
use mathlib.Core.List.{List, [], ◌∷◌}
use mathlib.Core.Option.{Option, none, some}
use native.Mathlib.Omega.{arith}
use git_branchless.Prelude.Tests.{if◌then◌else◌, EqTest, ◌==◌, ==_iff, ==_sym, Bool-cases}

abbrev pub Map {ℓ} : Type ℓ → Type ℓ → Type ℓ
Map K V = List (K × V)

module _ {ℓ} {K V : Type ℓ} ⦃e : EqTest K⦄ where
  -- `get`
  unfoldable pub lookup : K → Map K V → Option V
  lookup key ((k, value) ∷ entries) = if k == key then some value else lookup key entries
  lookup _ [] = none

  -- `insert`
  unfoldable pub insert : K → V → Map K V → Map K V
  insert key value ((k, w) ∷ entries) =
      if k == key then (key, value) ∷ entries else (k, w) ∷ insert key value entries
  insert key value [] = (key, value) ∷ []

  -- `remove`
  unfoldable pub remove : K → Map K V → Map K V
  remove k [] = []
  remove k ((j, w) ∷ m) = if j == k then remove k m else (j, w) ∷ remove k m

  pub lookup-insert :
      (key other : K) (value : V) (m : Map K V)
      → lookup other (insert key value m) ≡ (if key == other then some value else lookup other m)
  unfolding lookup insert
  lookup-insert key other value ((i, w) ∷ m) =
      ground
        (arith, ==_iff key other, ==_iff i key, ==_iff i other, lookup-insert key other value m)
  lookup-insert key other value [] = refl

  pub lookup-remove :
      (k j : K) (m : Map K V) → lookup j (remove k m) ≡ (if k == j then none else lookup j m)
  unfolding lookup remove
  lookup-remove k j [] = ground arith
  lookup-remove k j ((i, w) ∷ m) =
      ground (arith, ==_iff k j, ==_iff i k, ==_iff i j, lookup-remove k j m)

module _ {ℓ} {K V : Type ℓ} ⦃e : EqTest K⦄ where
  -- no key stands twice
  abbrev pub IsUnique : Map K V → Type ℓ
  IsUnique [] = Unit
  IsUnique ((k, v) ∷ m) = (lookup k m ≡ none) × IsUnique m

  pub insert-IsUnique : (k : K) (v : V) (m : Map K V) → IsUnique m → IsUnique (insert k v m)
  unfolding insert lookup
  insert-IsUnique k v [] h = (refl, h)
  insert-IsUnique k v ((j, w) ∷ m) h = elim (Bool-cases (j == k)) [
    | inl same ↦ rw same (rw ((==_iff j k).0 same) at h)
    | inr other ↦
        rw other
          (rw (lookup-insert k j v m) (rw (==_sym k j, other) (h.0)), insert-IsUnique k v m h.1)
  ]

  pub remove-IsUnique : (k : K) (m : Map K V) → IsUnique m → IsUnique (remove k m)
  unfolding remove lookup
  remove-IsUnique k [] h = h
  remove-IsUnique k ((j, w) ∷ m) h = elim (Bool-cases (j == k)) [
    | inl same ↦ rw same (remove-IsUnique k m h.1)
    | inr other ↦
        rw other (rw (lookup-remove k j m) (rw (==_sym k j, other) (h.0)), remove-IsUnique k m h.1)
  ]

module _ {ℓ} {K A : Type ℓ} ⦃e : EqTest K⦄ where
  -- the vector under a key, empty where the key is missing
  abbrev pub lookup_list : K → Map K (List A) → List A
  lookup_list k m = elim (lookup k m) [ none ↦ [] | some xs ↦ xs ]

  -- `entry(k).or_default()`, changed by `f`
  unfoldable pub update_entry : K → (List A → List A) → Map K (List A) → Map K (List A)
  update_entry k f m = insert k (f (lookup_list k m)) m

  pub lookup-update_entry :
      (k j : K) (f : List A → List A) (m : Map K (List A))
      → lookup_list j (update_entry k f m)
        ≡ (if k == j then f (lookup_list j m) else lookup_list j m)
  unfolding update_entry
  lookup-update_entry k j f m =
      ground (arith, lookup-insert k j (f (lookup_list k m)) m, ==_iff k j)

  pub update_entry-IsUnique :
      (k : K) (f : List A → List A) (m : Map K (List A))
      → IsUnique m
      → IsUnique (update_entry k f m)
  unfolding update_entry
  update_entry-IsUnique k f m h = insert-IsUnique k (f (lookup_list k m)) m h
