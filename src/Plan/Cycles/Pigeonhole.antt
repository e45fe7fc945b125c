-- ===== src/Plan/Cycles/Pigeonhole.antt =====
-- Lists without repetition, and how long they can be.
use git_branchless.Prelude.{
  suc, ◌≤◌, ◌≡◌, refl, true, false, ◌||◌, Bool-cases, inl, inr, ◌==◌, ==_iff, ==_self, ==_sym,
  EqTest, if◌then◌else◌, List, [], ◌∷◌, ◌++◌, contains, length, arith,
}

module _ {ℓ} {A : Type ℓ} ⦃e : EqTest A⦄ where
  abbrev pub IsDistinct : List A → Type 0
  IsDistinct [] = Unit
  IsDistinct (x ∷ xs) = (contains xs x ≡ false) × IsDistinct xs

  -- every element of the one list is in the other
  abbrev pub Covers : List A → List A → Type ℓ
  Covers ys xs = (x : A) → contains xs x ≡ true → contains ys x ≡ true

  pub contains-append :
      (xs ys : List A) (a : A) → contains (xs ++ ys) a ≡ (contains xs a || contains ys a)
  contains-append [] ys a = refl
  contains-append (x ∷ xs) ys a = elim (Bool-cases (x == a)) [
    | inl same ↦ rw same
    | inr other ↦ rw (other, contains-append xs ys a)
  ]

  -- without the first occurrence
  remove_one : A → List A → List A
  remove_one a [] = []
  remove_one a (y ∷ ys) = if y == a then ys else y ∷ remove_one a ys

  length-remove_one :
      (a : A) (ys : List A) → contains ys a ≡ true → suc (length (remove_one a ys)) ≡ length ys
  unfolding remove_one
  length-remove_one a [] h = absurd (cc h)
  length-remove_one a (y ∷ ys) h = elim (Bool-cases (y == a)) [
    | inl same ↦ rw same
    | inr other ↦ rw other (omega (arith, length-remove_one a ys (rw other at h)))
  ]

  contains-remove_one :
      (a b : A) (ys : List A)
      → (a == b) ≡ false
      → contains ys b ≡ true
      → contains (remove_one a ys) b ≡ true
  unfolding remove_one
  contains-remove_one a b [] h k = k
  contains-remove_one a b (y ∷ ys) h k = elim (Bool-cases (y == a)) [
    | inl same ↦
        let is_a : y ≡ a = (==_iff y a).0 same in
        let not_b : (y == b) ≡ false = rw is_a h in rw same (rw not_b at k)
    | inr other ↦ elim (Bool-cases (y == b)) [
      | inl here ↦ rw (other, here)
      | inr there ↦ rw (other, there) (contains-remove_one a b ys h (rw there at k))
    ]
  ]

  pub pigeonhole : (xs ys : List A) → IsDistinct xs → Covers ys xs → length xs ≤ length ys
  pigeonhole [] ys d c = omega arith
  pigeonhole (x ∷ xs) ys d c =
      let here = c x (rw (==_self x) refl) in
      let shorter = length-remove_one x ys here in
      let rest = pigeonhole xs (remove_one x ys) d.1 λ b m. elim (Bool-cases (x == b)) [
        | inl same ↦ absurd (cc (d.0, rw (← (==_iff x b).0 same) at m))
        | inr other ↦ contains-remove_one x b ys other (c b (rw (other, m) refl))
      ] in
      omega (arith, shorter, rest)

  pub IsDistinct-snoc :
      (xs : List A) (a : A) → IsDistinct xs → contains xs a ≡ false → IsDistinct (xs ++ a ∷ [])
  IsDistinct-snoc [] a d h = (refl, tt)
  IsDistinct-snoc (x ∷ xs) a d h = elim (Bool-cases (x == a)) [
    | inl same ↦ absurd (cc (rw same at h))
    | inr other ↦ (
      rw (contains-append xs (a ∷ []) x, d.0, ==_sym a x, other) refl,
      IsDistinct-snoc xs a d.1 (rw other at h),
    )
  ]
