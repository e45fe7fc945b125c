-- ===== src/Glob/Greedy.antt =====
-- git-branchless-lib/src/core/config.rs: the leftmost occurrence of every part is as good as any other.
use mathlib.Core.List.{append_assoc, tail-eq_of_cons-eq}
use git_branchless.Prelude.{
  ℕ, zero, suc, ◌+◌, ◌≤◌, ◌≡◌, refl, sym, ap, ◌∙◌, inl, inr, Bool, true, false, not, ◌&&◌,
  Bool-cases, ◌==◌, ==_iff, ==_self, nat_eq, some, Option-cases, List, [], ◌∷◌, ◌++◌, length,
  length-append, drop, arith,
}
use git_branchless.Glob.{Text, starts_with, find, match_parts}

pub starts_with-append : (part after : Text) → starts_with (part ++ after) part ≡ true
starts_with-append [] [] = refl
starts_with-append [] (a ∷ after) = refl
starts_with-append (c ∷ part) after = rw (==_self c) (starts_with-append part after)

pub starts_with_sound :
    (text part : Text) → starts_with text part ≡ true → text ≡ part ++ drop (length part) text
starts_with_sound [] [] h = refl
starts_with_sound (a ∷ text) [] h = refl
starts_with_sound [] (b ∷ part) h = absurd (cc h)
starts_with_sound (a ∷ text) (b ∷ part) h = elim (Bool-cases (a == b)) [
  | inl same ↦
      let rest = starts_with_sound text part (rw same at h) in
      rw ((==_iff a b).0 same) (ap (λ t. b ∷ t) rest)
  | inr other ↦ absurd (cc (rw other at h))
]

drop-zero : (text : Text) → drop 0 text ≡ text
drop-zero text = refl

pub find_sound :
    (text part : Text) (idx : ℕ)
    → find text part ≡ some idx
    → (before : Text) × (text ≡ before ++ (part ++ drop (idx + length part) text))
unfolding find
find_sound [] [] idx h = let at_zero : 0 ≡ idx = ground arith in ([], rw (← at_zero) refl)
find_sound [] (b ∷ part) idx h = absurd (cc h)
find_sound (a ∷ text) part idx h = elim (Bool-cases (starts_with (a ∷ text) part)) [
  | inl here ↦
      let at_zero : 0 ≡ idx = ground arith in
      let sum : 0 + length part ≡ length part = omega arith in
      ([], rw (← at_zero, sum) (starts_with_sound (a ∷ text) part here))
  | inr later ↦ elim (Option-cases (find text part)) [
    | inl nowhere ↦ absurd (cc (rw (later, find, nowhere) at h))
    | inr (n, found) ↦
        let next : suc n ≡ idx = ground arith in
        let (before, e) = find_sound text part n found in
        let sum : suc n + length part ≡ suc (n + length part) = omega arith in
        (a ∷ before, rw (← next, sum) (ap (λ t. a ∷ t) e))
  ]
]

-- an occurrence is not before the one that is found, and there is none if none is found
pub find_least :
    (text part before after : Text)
    → text ≡ before ++ (part ++ after)
    → (idx : ℕ) × (find text part ≡ some idx) × (idx ≤ length before)
unfolding find
find_least [] [] before after e = (0, refl, omega arith)
find_least [] (b ∷ part) [] after e = absurd (cc e)
find_least [] (b ∷ part) (c ∷ before) after e = absurd (cc e)
find_least (a ∷ text) part [] after e =
    let here : starts_with (a ∷ text) part ≡ true = rw e (starts_with-append part after) in
    (0, rw (here, find) refl, omega arith)
find_least (a ∷ text) part (c ∷ before) after e = elim (Bool-cases (starts_with (a ∷ text) part)) [
  | inl here ↦ (0, rw (here, find) refl, omega arith)
  | inr later ↦
      let (n, found, least) = find_least text part before after (tail-eq_of_cons-eq e) in
      (suc n, rw (later, find, found) refl, omega (arith, least))
]

drop-append : (n : ℕ) (xs ys : Text) → n ≤ length xs → drop n (xs ++ ys) ≡ drop n xs ++ ys
drop-append zero xs ys h = refl
drop-append (suc n) [] ys h = absurd (omega (arith, h))
drop-append (suc n) (x ∷ xs) ys h = drop-append n xs ys (omega (arith, h))

-- the parts one after the other, with any text between them and after them
abbrev pub Seq : List Text → Text → Type 0
Seq [] text = Unit
Seq (part ∷ parts) text =
    (before after : Text) × (text ≡ before ++ (part ++ after)) × Seq parts after

pub Seq-append :
    (parts : List Text) (before text : Text) → Seq parts text → Seq parts (before ++ text)
Seq-append [] before text h = tt
Seq-append (part ∷ parts) before text (u, after, e, rest) = (
  before ++ u,
  after,
  ap (λ t. before ++ t) e ∙ sym (append_assoc before u (part ++ after)),
  rest,
)

pub Seq-of_match :
    (parts : List Text) (first : Bool) (text : Text)
    → match_parts first text parts ≡ true
    → Seq parts text
unfolding match_parts
Seq-of_match [] first text h = tt
Seq-of_match ([] ∷ parts) first text h = ([], text, refl, Seq-of_match parts false text h)
Seq-of_match ((b ∷ part) ∷ parts) first text h = elim (Option-cases (find text (b ∷ part))) [
  | inl nowhere ↦ absurd (cc (rw (nowhere, match_parts) at h))
  | inr (idx, found) ↦ elim (Bool-cases (first && not (idx == 0))) [
    | inl late ↦ absurd (cc (rw (found, match_parts, late) at h))
    | inr fine ↦
        let (before, e) = find_sound text (b ∷ part) idx found in
        (
          before,
          drop (idx + length (b ∷ part)) text,
          e,
          Seq-of_match parts false (drop (idx + length (b ∷ part)) text)
              (rw (found, match_parts, fine) at h),
        )
  ]
]

-- what is left after the leftmost occurrence contains what is left after any other
after_leftmost :
    (text part before after : Text) (idx : ℕ)
    → text ≡ before ++ (part ++ after)
    → idx ≤ length before
    → drop (idx + length part) text ≡ drop (idx + length part) (before ++ part) ++ after
after_leftmost text part before after idx e least =
    rw (e, ← append_assoc before part after)
      (drop-append (idx + length part) (before ++ part) after
        (omega (arith, least, length-append before part)))

pub match_of_Seq :
    (parts : List Text) (text : Text) → Seq parts text → match_parts false text parts ≡ true
unfolding match_parts
match_of_Seq [] text h = refl
match_of_Seq ([] ∷ parts) text (before, after, e, rest) =
    rw e (match_of_Seq parts (before ++ after) (Seq-append parts before after rest))
match_of_Seq ((b ∷ part) ∷ parts) text (before, after, e, rest) =
    let (idx, found, least) = find_least text (b ∷ part) before after e in
    let n = idx + length (b ∷ part) in
    rw (found, match_parts)
      (match_of_Seq parts (drop n text) (
        rw (after_leftmost text (b ∷ part) before after idx e least)
          (Seq-append parts (drop n (before ++ (b ∷ part))) after rest)))
