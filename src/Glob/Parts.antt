-- ===== src/Glob/Parts.antt =====
-- git-branchless-lib/src/core/config.rs: the first and the last part of a pattern.
use mathlib.Core.List.{append_assoc, append-nil, tail-eq_of_cons-eq}
use git_branchless.Prelude.{
  ◌+◌, ◌≤◌, ◌≡◌, refl, sym, ap, ◌∙◌, inl, inr, true, false, Bool-cases, ◌==◌, ==_iff, ==_self,
  nat_eq, some, Option-cases, List, [], ◌∷◌, ◌++◌, length, length-append, drop, last?, arith,
}
use git_branchless.Glob.{Text, text_eqb, starts_with, ends_with, find, match_parts}
use git_branchless.Glob.Matches.{Rest}
use git_branchless.Glob.Greedy.{Seq, starts_with_sound, find_least, Seq-of_match, match_of_Seq}

pub text_eqb_self : (text : Text) → text_eqb text text ≡ true
text_eqb_self [] = refl
text_eqb_self (a ∷ text) = rw (==_self a) (text_eqb_self text)

pub text_eqb_sound : (s t : Text) → text_eqb s t ≡ true → s ≡ t
text_eqb_sound [] [] h = refl
text_eqb_sound [] (b ∷ t) h = absurd (cc h)
text_eqb_sound (a ∷ s) [] h = absurd (cc h)
text_eqb_sound (a ∷ s) (b ∷ t) h = elim (Bool-cases (a == b)) [
  | inl same ↦ rw ((==_iff a b).0 same) (ap (λ r. b ∷ r) (text_eqb_sound s t (rw same at h)))
  | inr other ↦ absurd (cc (rw other at h))
]

pub ends_with_sound :
    (text part : Text) → ends_with text part ≡ true → (before : Text) × (text ≡ before ++ part)
unfolding ends_with
ends_with_sound [] part h = ([], text_eqb_sound [] part h)
ends_with_sound (a ∷ text) part h = elim (Bool-cases (text_eqb (a ∷ text) part)) [
  | inl all ↦ ([], text_eqb_sound (a ∷ text) part all)
  | inr longer ↦
      let (before, e) = ends_with_sound text part (rw (longer, ends_with) at h) in
      (a ∷ before, ap (λ t. a ∷ t) e)
]

pub ends_with-append : (before part : Text) → ends_with (before ++ part) part ≡ true
unfolding ends_with
ends_with-append [] [] = refl
ends_with-append [] (b ∷ part) = rw (==_self b, text_eqb_self part) refl
ends_with-append (a ∷ before) part = elim (Bool-cases (text_eqb (a ∷ before ++ part) part)) [
  | inl all ↦ rw all refl
  | inr longer ↦ rw longer (ends_with-append before part)
]

-- of two ends of a text, the longer has the shorter as its end
pub shorter_end :
    (xs ys us vs : Text)
    → xs ++ ys ≡ us ++ vs
    → length vs ≤ length ys
    → (before : Text) × (ys ≡ before ++ vs)
shorter_end [] ys us vs e h = (us, e)
shorter_end (x ∷ xs) ys [] vs e h = absurd (omega (arith, h, ap length e, length-append xs ys))
shorter_end (x ∷ xs) ys (u ∷ us) vs e h = shorter_end xs ys us vs (tail-eq_of_cons-eq e) h

-- the last part
abbrev pub last_of : Text → List Text → Text
last_of part [] = part
last_of part (next ∷ parts) = last_of next parts

pub last?-cons :
    (part : Text) (parts : List Text) → last? (part ∷ parts) ≡ some (last_of part parts)
last?-cons part [] = refl
last?-cons part (next ∷ parts) = rw (last?-cons next parts) refl

pub Seq-length :
    (part : Text) (parts : List Text) (text : Text)
    → Seq (part ∷ parts) text
    → length (last_of part parts) ≤ length text
Seq-length part [] text (u, v, e, rest) =
    omega (arith, ap length e, length-append u (part ++ v), length-append part v)
Seq-length part (next ∷ parts) text (u, v, e, rest) = omega (
  arith,
  ap length e,
  length-append u (part ++ v),
  length-append part v,
  Seq-length next parts v rest,
)

pub Rest-of_Seq :
    (part : Text) (parts : List Text) (before text : Text)
    → Seq (part ∷ parts) text
    → text ≡ before ++ last_of part parts
    → Rest (part ∷ parts) text
Rest-of_Seq part [] before text h e =
    (before, [], e ∙ ap (λ t. before ++ t) (sym (append-nil part)), refl)
Rest-of_Seq part (next ∷ parts) before text (u, v, found, rest) e =
    let last = last_of next parts in
    let both : (u ++ part) ++ v ≡ before ++ last = append_assoc u part v ∙ sym found ∙ e in
    let (before', end) =
      shorter_end (u ++ part) v before last both (Seq-length next parts v rest) in
    (u, v, found, Rest-of_Seq next parts before' v rest end)

pub Seq-of_Rest : (parts : List Text) (text : Text) → Rest parts text → Seq parts text
Seq-of_Rest [] text h = tt
Seq-of_Rest (part ∷ parts) text (u, v, e, rest) = (u, v, e, Seq-of_Rest parts v rest)

pub Rest-end :
    (part : Text) (parts : List Text) (text : Text)
    → Rest (part ∷ parts) text
    → (before : Text) × (text ≡ before ++ last_of part parts)
Rest-end part [] text (u, v, e, rest) =
    (u, e ∙ ap (λ t. u ++ (part ++ t)) rest ∙ ap (λ t. u ++ t) (append-nil part))
Rest-end part (next ∷ parts) text (u, v, e, rest) =
    let (before, end) = Rest-end next parts v rest in
    let last = last_of next parts in
    (
      (u ++ part) ++ before,
      e
          ∙ ap (λ t. u ++ (part ++ t)) end
          ∙ sym (append_assoc u part (before ++ last))
          ∙ sym (append_assoc (u ++ part) before last),
    )

drop_all : (part after : Text) → drop (length part) (part ++ after) ≡ after
drop_all [] after = refl
drop_all (a ∷ part) after = drop_all part after

find_zero : (text part : Text) → find text part ≡ some 0 → starts_with text part ≡ true
unfolding find
find_zero [] [] h = refl
find_zero [] (b ∷ part) h = absurd (cc h)
find_zero (a ∷ text) part h = elim (Bool-cases (starts_with (a ∷ text) part)) [
  | inl here ↦ here
  | inr later ↦ elim (Option-cases (find text part)) [
    | inl nowhere ↦ absurd (cc (rw (later, find, nowhere) at h))
    | inr (n, found) ↦ absurd (ground arith)
  ]
]

-- the first part
pub first_sound :
    (part : Text) (parts : List Text) (text : Text)
    → match_parts true text (part ∷ parts) ≡ true
    → (after : Text) × (text ≡ part ++ after) × Seq parts after
unfolding match_parts
first_sound [] parts text h = (text, refl, Seq-of_match parts false text h)
first_sound (b ∷ part) parts text h = elim (Option-cases (find text (b ∷ part))) [
  | inl nowhere ↦ absurd (cc (rw (nowhere, match_parts) at h))
  | inr (idx, found) ↦ elim (Bool-cases (idx == 0)) [
    | inr late ↦ absurd (cc (rw (found, match_parts, late) at h))
    | inl at_start ↦
        let zero_idx : idx ≡ 0 = (==_iff idx 0).0 at_start in
        let len = length (b ∷ part) in
        let sum : idx + len ≡ len = omega (arith, zero_idx) in
        let rest : match_parts false (drop (idx + len) text) parts ≡ true =
          rw (found, match_parts, at_start) at h in
        (
          drop len text,
          starts_with_sound text (b ∷ part) (find_zero text (b ∷ part) (found ∙ ap some zero_idx)),
          Seq-of_match parts false (drop len text) (rw sum at rest),
        )
  ]
]

pub first_complete :
    (part : Text) (parts : List Text) (text after : Text)
    → text ≡ part ++ after
    → Seq parts after
    → match_parts true text (part ∷ parts) ≡ true
unfolding match_parts
first_complete [] parts text after e h = match_of_Seq parts text (rw e h)
first_complete (b ∷ part) parts text after e h =
    let len = length (b ∷ part) in
    let (idx, found, least) = find_least text (b ∷ part) [] after e in
    let zero_idx : idx ≡ 0 = omega (arith, least) in
    let at_start : (idx == 0) ≡ true = (==_iff idx 0).1 zero_idx in
    let sum : idx + len ≡ len = omega (arith, zero_idx) in
    rw (found, match_parts, at_start, sum, e)
      (match_of_Seq parts (drop len ((b ∷ part) ++ after)) (rw (drop_all (b ∷ part) after) h))
