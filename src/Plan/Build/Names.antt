-- ===== src/Plan/Build/Names.antt =====
-- git-branchless-lib/src/core/rewrite/plan.rs: `make_label_name`, whose ticks make a name longer.
use Prim.Native.String.{◌++◌ as ◌<>◌, count}
use text.Mathlib.TextLemmas.{length-append as count-append}
use git_branchless.Prelude.{
  ℕ, zero, suc, ◌<◌, ◌≡◌, refl, ap, inl, inr, false, Bool-cases, ◌==◌, ==_iff, ==_ne, string_eq,
  none, some, Option-cases, List, [], ◌∷◌, String, ok, contains, length, arith,
}
use git_branchless.Plan.Cycles.Pigeonhole.{IsDistinct, Covers, pigeonhole}
use git_branchless.Plan.Build.{BuildState, make_label_name_inner, make_label_name}

-- the names that are tried
names : ℕ → String → List String
names zero preferred = []
names (suc n) preferred = preferred ∷ names n (preferred <> "'")

longer : (p : String) → count p < count (p <> "'")
longer p = omega (arith, count-append p "'")

shorter_not_tried : (n : ℕ) (p q : String) → count q < count p → contains (names n p) q ≡ false
unfolding names
shorter_not_tried zero p q h = refl
shorter_not_tried (suc n) p q h =
    let other : (p == q) ≡ false = ==_ne p q (λ same. absurd (omega (arith, h, ap count same))) in
    rw other (shorter_not_tried n (p <> "'") q (omega (arith, h, longer p)))

names-IsDistinct : (n : ℕ) (p : String) → IsDistinct (names n p)
unfolding names
names-IsDistinct zero p = tt
names-IsDistinct (suc n) p =
    (shorter_not_tried n (p <> "'") p (longer p), names-IsDistinct n (p <> "'"))

length-names : (n : ℕ) (p : String) → length (names n p) ≡ n
unfolding names
length-names zero p = refl
length-names (suc n) p = omega (arith, length-names n (p <> "'"))

all_used :
    (n : ℕ) (used : List String) (p : String)
    → make_label_name_inner n used p ≡ none
    → Covers used (names n p)
unfolding names make_label_name_inner
all_used zero used p h x m = absurd (cc m)
all_used (suc n) used p h x m = elim (Bool-cases (contains used p)) [
  | inl taken ↦ elim (Bool-cases (p == x)) [
    | inl same ↦ rw (← (==_iff p x).0 same) taken
    | inr other ↦
        all_used n used (p <> "'") (rw (taken, make_label_name_inner) at h) x (rw other at m)
  ]
  | inr free ↦ absurd (ground arith)
]

inner_free :
    (n : ℕ) (used : List String) (p name : String)
    → make_label_name_inner n used p ≡ some name
    → contains used name ≡ false
unfolding make_label_name_inner
inner_free zero used p name h = absurd (cc h)
inner_free (suc n) used p name h = elim (Bool-cases (contains used p)) [
  | inl taken ↦ inner_free n used (p <> "'") name (rw (taken, make_label_name_inner) at h)
  | inr free ↦ let same : p ≡ name = ground arith in rw (← same) free
]

-- A name is found, and it was not in use.
pub make_label_name_lem :
    {E : Type 0} (state : BuildState) (preferred : String)
    → (name : String) × (contains state.used_labels name ≡ false)
      × (make_label_name {E = E} state preferred
          ≡ ok (record state { used_labels = name ∷ state.used_labels }, name))
unfolding make_label_name
make_label_name_lem state preferred =
    let used = state.used_labels in
    let fuel = suc (length used) in
    elim (Option-cases (make_label_name_inner fuel used preferred)) [
      | inl dry ↦ absurd (
          omega (
            arith,
            length-names fuel preferred,
            pigeonhole (names fuel preferred) used (names-IsDistinct fuel preferred)
                (all_used fuel used preferred dry),
          ))
      | inr (name, found) ↦
          (name, inner_free fuel used preferred name found, rw (found, make_label_name) refl)
    ]
