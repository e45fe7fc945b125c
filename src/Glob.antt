-- ===== src/Glob.antt =====
-- git-branchless-lib/src/core/config.rs: the patterns of branches to ignore.
-- A text is the list of its code points, since it is searched by position.
pub mod Matches
pub mod Greedy
pub mod Parts
pub mod Exact
use Prim.Native.Char.{code}
use git_branchless.Prelude.{
  ℕ, suc, ◌+◌, Bool, true, false, ◌&&◌, not, Option, none, some, List, [], ◌∷◌, length, drop,
  any_of, is_empty, last?, nat_eq, ◌==◌, if◌then◌else◌, String,
}

abbrev pub Text : Type 0
Text = List ℕ

abbrev pub text_of : String → Text
text_of (String.◌∷◌ first rest) = code first ∷ text_of rest
text_of String.[] = []

abbrev pub text_eqb : Text → Text → Bool
text_eqb [] [] = true
text_eqb (a ∷ s) (b ∷ t) = a == b && text_eqb s t
text_eqb _ _ = false

-- `pattern.split('*')`
abbrev star : ℕ
star = b'*'

-- puts a character before the first part
abbrev pub before_first : ℕ → List Text → List Text
before_first c [] = (c ∷ []) ∷ []
before_first c (part ∷ parts) = (c ∷ part) ∷ parts

unfoldable pub split_star : Text → List Text
split_star [] = [] ∷ []
split_star (c ∷ pattern) =
    if c == star then [] ∷ split_star pattern else before_first c (split_star pattern)

abbrev pub starts_with : Text → Text → Bool
starts_with text [] = true
starts_with [] (b ∷ part) = false
starts_with (a ∷ text) (b ∷ part) = a == b && starts_with text part

-- `text.ends_with(last)`
unfoldable pub ends_with : Text → Text → Bool
ends_with [] part = text_eqb [] part
ends_with (a ∷ text) part = if text_eqb (a ∷ text) part then true else ends_with text part

-- `text.find(part)`: how much is skipped before the leftmost occurrence
unfoldable pub find : Text → Text → Option ℕ
find [] part = if is_empty part then some 0 else none
find (a ∷ text) part =
    let rest = find text part in
    if starts_with (a ∷ text) part
    then some 0
    else elim rest [ none ↦ none | some idx ↦ some (suc idx) ]

-- The loop over the parts: `rest` is `text[pos..]`, and `first` is `i == 0`.
unfoldable pub match_parts : Bool → Text → List Text → Bool
match_parts first rest [] = true
match_parts first rest (part ∷ parts) = elim (is_empty part) [
  | true ↦ match_parts false rest parts
  | false ↦ elim (find rest part) [
    | none ↦ false
    | some idx ↦ elim (first && not (idx == 0)) [
      | true ↦ false
      | false ↦ match_parts false (drop (idx + length part) rest) parts
    ]
  ]
]

unfoldable pub glob_match : Text → Text → Bool
unfolding split_star ends_with find match_parts
glob_match pattern text =
    let parts = split_star pattern in
    if length parts == 1
    then text_eqb pattern text
    else if match_parts true text parts
    then elim (last? parts) [
      | none ↦ true
      | some last ↦ if is_empty last then true else ends_with text last
    ]
    else false

unfoldable pub is_branch_ignored : String → List String → Bool
unfolding glob_match
is_branch_ignored branch_name ignore_patterns =
    any_of (λ pattern. glob_match (text_of pattern) (text_of branch_name)) ignore_patterns
