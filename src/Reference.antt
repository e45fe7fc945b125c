-- ===== src/Reference.antt =====
-- git-branchless-lib/src/git/reference.rs: kinds of references, told by their names.
pub mod Parts
use Prim.Native.String.{slice, len, ◌++◌}
use text.Mathlib.Text.{starts_with}
use git_branchless.Prelude.{Bool, true, false, String, if◌then◌else◌}
use git_branchless.EventLog.{ReferenceName}

-- The name and the prefix that marks its kind.
pub data CategorizedReferenceName : Type 0 where
  local_branch remote_branch : String → String → CategorizedReferenceName
  other_ref : String → CategorizedReferenceName

-- `CategorizedReferenceName::new`
unfoldable pub categorize : ReferenceName → CategorizedReferenceName
categorize name =
    if starts_with name "refs/heads/"
    then local_branch name "refs/heads/"
    else if starts_with name "refs/remotes/"
    then remote_branch name "refs/remotes/"
    else other_ref name

unfoldable pub render_full : CategorizedReferenceName → String
render_full (local_branch name _) = name
render_full (remote_branch name _) = name
render_full (other_ref name) = name

-- `name.strip_prefix(prefix).unwrap_or(name)`
abbrev strip_prefix : String → String → String
strip_prefix name prefix =
    if starts_with name prefix then slice name (len prefix) (len name) else name

unfoldable pub render_suffix : CategorizedReferenceName → String
render_suffix (local_branch name prefix) = strip_prefix name prefix
render_suffix (remote_branch name prefix) = strip_prefix name prefix
render_suffix (other_ref name) = strip_prefix name ""

unfoldable pub friendly_describe : CategorizedReferenceName → String
unfolding render_suffix
friendly_describe (local_branch name prefix) = "branch " ++ render_suffix (local_branch name prefix)
friendly_describe (remote_branch name prefix) =
    "remote branch " ++ render_suffix (remote_branch name prefix)
friendly_describe (other_ref name) = "ref " ++ render_suffix (other_ref name)

unfoldable pub is_local_branch : CategorizedReferenceName → Bool
is_local_branch (local_branch _ _) = true
is_local_branch _ = false
