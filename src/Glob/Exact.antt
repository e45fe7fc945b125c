-- ===== src/Glob/Exact.antt =====
-- git-branchless-lib/src/core/config.rs: `glob_match` and the meaning of patterns.
use mathlib.Core.List.{append_assoc, append-nil, head-eq_of_cons-eq, tail-eq_of_cons-eq}
use git_branchless.Prelude.{
  ◌≡◌, ◌↔◌, refl, sym, ap, ◌∙◌, inl, inr, Bool, true, false, Bool-cases, ◌==◌, nat_eq,
  if◌then◌else◌, List, [], ◌∷◌, ◌++◌, length, is_empty, arith,
}
use git_branchless.Glob.{Text, star, ends_with, split_star, match_parts, glob_match}
use git_branchless.Glob.Matches.{Matches, Whole, split_star-cons, Matches-Whole, Whole-Matches}
use git_branchless.Glob.Parts.{
  text_eqb_self, text_eqb_sound, ends_with_sound, ends_with-append, shorter_end, last?-cons,
  Seq-length, Rest-of_Seq, Seq-of_Rest, Rest-end, first_sound, first_complete, last_of,
}

-- a pattern without a star is its only part
only_part : (pattern part : Text) → split_star pattern ≡ part ∷ [] → pattern ≡ part
unfolding split_star
only_part [] part h = head-eq_of_cons-eq h
only_part (c ∷ pattern) part h =
    let (q, qs, split) = split_star-cons pattern in
    elim (Bool-cases (c == star)) [
      | inl wild ↦ absurd (cc (tail-eq_of_cons-eq (rw (wild, split_star, split) at h)))
      | inr plain ↦
          let e : (c ∷ q) ∷ qs ≡ part ∷ [] = rw (plain, split_star, split) at h in
          let alone : qs ≡ [] = tail-eq_of_cons-eq e in
          ap (λ t. c ∷ t) (only_part pattern q (split ∙ ap (λ t. q ∷ t) alone))
          ∙ head-eq_of_cons-eq e
    ]

several : (part next : Text) (parts : List Text) → (length (part ∷ next ∷ parts) == 1) ≡ false
several part next parts = ground arith

-- with a star: what is left to check, once the parts are found
end_checked : Text → Text → Bool
end_checked text last = if is_empty last then true else ends_with text last

end_sound :
    (text last : Text) → end_checked text last ≡ true → (before : Text) × (text ≡ before ++ last)
unfolding end_checked
end_sound text [] h = (text, sym (append-nil text))
end_sound text (b ∷ last) h = ends_with_sound text (b ∷ last) h

end_complete : (before last : Text) → end_checked (before ++ last) last ≡ true
unfolding end_checked
end_complete before [] = refl
end_complete before (b ∷ last) = ends_with-append before (b ∷ last)

module _ (pattern text part next : Text) (parts : List Text)
    (split : split_star pattern ≡ part ∷ next ∷ parts) where
  unfolded : glob_match pattern text ≡ (
      if match_parts true text (part ∷ next ∷ parts)
      then end_checked text (last_of next parts)
      else false)
  unfolding glob_match end_checked
  unfolded = rw (split, glob_match, several part next parts, last?-cons next parts) refl

  starred_sound : glob_match pattern text ≡ true → Whole (part ∷ next ∷ parts) text
  starred_sound h = elim (Bool-cases (match_parts true text (part ∷ next ∷ parts))) [
    | inr missing ↦ absurd (cc (rw (unfolded, missing) at h))
    | inl matched ↦
        let (after, e, rest) = first_sound part (next ∷ parts) text matched in
        let (before, end) = end_sound text (last_of next parts) (rw (unfolded, matched) at h) in
        let (before', end') =
          shorter_end part after before (last_of next parts) (sym e ∙ end)
            (Seq-length next parts after rest) in
        (after, e, Rest-of_Seq next parts before' after rest end')
  ]

  starred_complete : Whole (part ∷ next ∷ parts) text → glob_match pattern text ≡ true
  starred_complete (after, e, rest) =
      let (before, end) = Rest-end next parts after rest in
      let whole : text ≡ (part ++ before) ++ last_of next parts =
        e ∙ ap (λ t. part ++ t) end ∙ sym (append_assoc part before (last_of next parts)) in
      rw
        (
          unfolded,
          first_complete part (next ∷ parts) text after e (Seq-of_Rest (next ∷ parts) after rest),
        )
        (rw whole (end_complete (part ++ before) (last_of next parts)))

plain_sound :
    (pattern text part : Text)
    → split_star pattern ≡ part ∷ []
    → glob_match pattern text ≡ true
    → Whole (part ∷ []) text
unfolding glob_match
plain_sound pattern text part split h =
    let e = text_eqb_sound pattern text (rw (split, glob_match) at h) in
    ([], sym e ∙ only_part pattern part split ∙ sym (append-nil part), refl)

plain_complete :
    (pattern text part : Text)
    → split_star pattern ≡ part ∷ []
    → Whole (part ∷ []) text
    → glob_match pattern text ≡ true
unfolding glob_match
plain_complete pattern text part split (after, e, rest) =
    let same : text ≡ pattern =
      e ∙ ap (λ t. part ++ t) rest ∙ append-nil part ∙ sym (only_part pattern part split) in
    rw (split, glob_match, same) (text_eqb_self pattern)

-- A text matches a glob pattern, as the code decides with the leftmost occurrences of the parts between the
-- stars, exactly if the text is the pattern with every star replaced by some text.
pub glob_match_iff : (pattern text : Text) → (glob_match pattern text ≡ true) ↔ Matches pattern text
glob_match_iff pattern text =
    let (part, parts, split) = split_star-cons pattern in
    (
      λ h. Whole-Matches pattern text (rw split (sound part parts split h)),
      λ m.
          let whole = Matches-Whole pattern text m in complete part parts split (rw split at whole),
    )
  where
    sound :
        (part : Text) (parts : List Text)
        → split_star pattern ≡ part ∷ parts
        → glob_match pattern text ≡ true
        → Whole (part ∷ parts) text
    sound part [] split h = plain_sound pattern text part split h
    sound part (next ∷ parts) split h = starred_sound pattern text part next parts split h

    complete :
        (part : Text) (parts : List Text)
        → split_star pattern ≡ part ∷ parts
        → Whole (part ∷ parts) text
        → glob_match pattern text ≡ true
    complete part [] split h = plain_complete pattern text part split h
    complete part (next ∷ parts) split h = starred_complete pattern text part next parts split h
