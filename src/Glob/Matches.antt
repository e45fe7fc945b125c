-- ===== src/Glob/Matches.antt =====
-- git-branchless-lib/src/core/config.rs: what a pattern means, and its parts between the stars.
use git_branchless.Prelude.{
  ℕ, ◌≡◌, refl, sym, ap, ◌∙◌, inl, inr, false, Bool-cases, ◌==◌, ==_iff, nat_eq, List, [], ◌∷◌,
  ◌++◌,
}
use mathlib.Core.List.{append_assoc}
use git_branchless.Glob.{Text, star, before_first, split_star}

-- A star stands for any text, and every other character for itself.
pub data Matches : Text → Text → Type 0 where
  ends : Matches [] []
  same :
      (c : ℕ) (pattern text : Text)
      → (c == star) ≡ false
      → Matches pattern text
      → Matches (c ∷ pattern) (c ∷ text)
  star_ends : (pattern text : Text) → Matches pattern text → Matches (star ∷ pattern) text
  star_goes_on :
      (c : ℕ) (pattern text : Text)
      → Matches (star ∷ pattern) text
      → Matches (star ∷ pattern) (c ∷ text)

-- after a star: the parts stand one after the other with any text between them, the last at the end
abbrev pub Rest : List Text → Text → Type 0
Rest [] text = text ≡ []
Rest (part ∷ parts) text =
    (before after : Text) × (text ≡ before ++ (part ++ after)) × Rest parts after

-- the first part stands at the start
abbrev pub Whole : List Text → Text → Type 0
Whole [] text = ⊥
Whole (part ∷ parts) text = (after : Text) × (text ≡ part ++ after) × Rest parts after

Whole-before_first :
    (c : ℕ) (parts : List Text) (text : Text)
    → Whole parts text
    → Whole (before_first c parts) (c ∷ text)
Whole-before_first c [] text h = absurd h
Whole-before_first c (part ∷ parts) text (after, e, rest) = (after, ap (λ t. c ∷ t) e, rest)

Whole-Rest : (parts : List Text) (text : Text) → Whole parts text → Rest parts text
Whole-Rest [] text h = absurd h
Whole-Rest (part ∷ parts) text (after, e, rest) = ([], after, e, rest)

pub split_star-cons :
    (pattern : Text) → (part : Text) × (parts : List Text) × (split_star pattern ≡ part ∷ parts)
unfolding split_star
split_star-cons [] = ([], [], refl)
split_star-cons (c ∷ pattern) =
    let (part, parts, e) = split_star-cons pattern in
    elim (Bool-cases (c == star)) [
      | inl wild ↦ ([], split_star pattern, rw (wild, split_star) refl)
      | inr plain ↦ (c ∷ part, parts, rw (plain, split_star, e) refl)
    ]

pub Rest-append :
    (before : Text) (part : Text) (parts : List Text) (text : Text)
    → Rest (part ∷ parts) text
    → Rest (part ∷ parts) (before ++ text)
Rest-append before part parts text (u, after, e, rest) = (
  before ++ u,
  after,
  ap (λ t. before ++ t) e ∙ sym (append_assoc before u (part ++ after)),
  rest,
)

pub Matches-Whole : (pattern text : Text) → Matches pattern text → Whole (split_star pattern) text
unfolding split_star
Matches-Whole [] [] ends = ([], refl, refl)
Matches-Whole [] (c ∷ text) h = elim h [ ]
Matches-Whole (c ∷ pattern) (_ ∷ text) (same _ _ _ plain h) =
    rw (plain, split_star)
      (Whole-before_first c (split_star pattern) text (Matches-Whole pattern text h))
Matches-Whole (_ ∷ pattern) text (star_ends _ _ h) =
    (text, refl, Whole-Rest (split_star pattern) text (Matches-Whole pattern text h))
Matches-Whole (_ ∷ pattern) (c ∷ text) (star_goes_on _ _ _ h) =
    let (after, e, rest) = Matches-Whole (star ∷ pattern) text h in
    let (part, parts, split) = split_star-cons pattern in
    (c ∷ text, refl, rw split (Rest-append (c ∷ []) part parts text (rw e (rw split at rest))))

any_before :
    (before pattern text : Text) → Matches pattern text → Matches (star ∷ pattern) (before ++ text)
any_before [] pattern text h = star_ends pattern text h
any_before (c ∷ before) pattern text h =
    star_goes_on c pattern (before ++ text) (any_before before pattern text h)

pub Whole-Matches : (pattern text : Text) → Whole (split_star pattern) text → Matches pattern text
unfolding split_star
Whole-Matches [] text (after, e, rest) = rw (e ∙ rest) ends
Whole-Matches (c ∷ pattern) text h =
    let (part, parts, split) = split_star-cons pattern in
    elim (Bool-cases (c == star)) [
      | inl wild ↦
          let (after, e, rest) = rw (wild, split_star) at h in
          let (before, end, found, others) = rw split at rest in
          let inner = Whole-Matches pattern (part ++ end) (rw split (end, refl, others)) in
          rw ((==_iff c star).0 wild, e, found) (any_before before pattern (part ++ end) inner)
      | inr plain ↦
          let (after, e, rest) = rw (plain, split_star, split) at h in
          rw e (
            same c pattern (part ++ after) plain
              (Whole-Matches pattern (part ++ after) (rw split (after, refl, rest))))
    ]
