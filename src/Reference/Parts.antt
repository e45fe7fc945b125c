-- ===== src/Reference/Parts.antt =====
-- git-branchless-lib/src/git/reference.rs: the prefix and the suffix of a name.
use Prim.Native.String.{◌++◌, slice, len}
use text.Mathlib.Text.{starts_with}
use text.Mathlib.TextEquality.{starts_with_iff}
use text.Mathlib.TextPositions.{slice-append_right, len-append}
use git_branchless.Prelude.{◌≡◌, refl, sym, ap, ◌∙◌, inl, inr, true, Bool-cases, String}
use git_branchless.EventLog.{ReferenceName}
use git_branchless.Reference.{categorize, render_suffix, is_local_branch}

after_prefix :
    (prefix rest : String) → slice (prefix ++ rest) (len prefix) (len (prefix ++ rest)) ≡ rest
after_prefix prefix rest =
    ap (λ n. slice (prefix ++ rest) (len prefix) n) (len-append prefix rest)
    ∙ slice-append_right prefix rest

-- the name of a local branch is the prefix and what is rendered
pub local_branch_lem :
    (name : ReferenceName)
    → is_local_branch (categorize name) ≡ true
    → name ≡ "refs/heads/" ++ render_suffix (categorize name)
unfolding categorize render_suffix is_local_branch
local_branch_lem name h = elim (Bool-cases (starts_with name "refs/heads/")) [
  | inl begins ↦
      let (rest, e) = (starts_with_iff name "refs/heads/").0 begins in
      let rendered : render_suffix (categorize name) ≡ slice name (len "refs/heads/") (len name) =
        rw (begins, categorize, begins) refl in
      let is_rest : slice name (len "refs/heads/") (len name) ≡ rest =
        rw (← e) (after_prefix "refs/heads/" rest) in
      rw (rendered, is_rest) (sym e)
  | inr elsewhere ↦ elim (Bool-cases (starts_with name "refs/remotes/")) [
    | inl remote ↦ absurd (cc (rw (elsewhere, remote) at h))
    | inr other ↦ absurd (cc (rw (elsewhere, other) at h))
  ]
]
