-- ===== src/Plan/Build/Labels.antt =====
-- git-branchless-lib/src/core/rewrite/plan.rs: the labels that the commands of a plan create and use.
use git_branchless.Prelude.{
  ◌≡◌, refl, true, false, string_eq, List, [], ◌∷◌, ◌++◌, String, contains, All,
}
use git_branchless.Plan.{
  OidOrLabel, oid, label, RebaseCommand, create_label, reset, pick, merge, replace, break,
  register_extra_post_rewrite_hook, detect_empty_commit, skip_upstream_applied_commit,
}

-- a label stands for a commit once it was created
abbrev pub IsKnown : List String → OidOrLabel → Type 0
IsKnown seen (oid _) = Unit
IsKnown seen (label name) = contains seen name ≡ true

-- what a command asks of the labels that were created before it
abbrev pub Needs : List String → RebaseCommand → Type 0
Needs seen (create_label name) = contains seen name ≡ false
Needs seen (reset target) = IsKnown seen target
Needs seen (merge _ targets) = All (IsKnown seen) targets
Needs seen (replace _ _ targets) = All (IsKnown seen) targets
Needs seen (pick _ _) = Unit
Needs seen break = ⊥
Needs seen register_extra_post_rewrite_hook = Unit
Needs seen (detect_empty_commit _) = Unit
Needs seen (skip_upstream_applied_commit _) = Unit

abbrev pub created : RebaseCommand → List String → List String
created (create_label name) seen = name ∷ seen
created _ seen = seen

abbrev pub IsScoped : List String → List RebaseCommand → Type 0
IsScoped seen [] = Unit
IsScoped seen (c ∷ cs) = Needs seen c × IsScoped (created c seen) cs

-- the labels after some commands
abbrev pub labels_after : List String → List RebaseCommand → List String
labels_after seen [] = seen
labels_after seen (c ∷ cs) = labels_after (created c seen) cs

pub labels_after-append :
    (seen : List String) (xs ys : List RebaseCommand)
    → labels_after seen (xs ++ ys) ≡ labels_after (labels_after seen xs) ys
labels_after-append seen [] ys = refl
labels_after-append seen (x ∷ xs) ys = labels_after-append (created x seen) xs ys

pub IsScoped-append :
    (seen : List String) (xs ys : List RebaseCommand)
    → IsScoped seen xs
    → IsScoped (labels_after seen xs) ys
    → IsScoped seen (xs ++ ys)
IsScoped-append seen [] ys h k = k
IsScoped-append seen (x ∷ xs) ys h k = (h.0, IsScoped-append (created x seen) xs ys h.1 k)
