-- ===== src/Plan.antt =====
-- git-branchless-lib/src/core/rewrite/plan.rs: the commands of a rebase plan, its constraints and the
-- builder. A commit set is a list of commits.
pub mod Graph
pub mod Cycles
pub mod Build
use Prim.Native.String.{◌++◌ as ◌<>◌}
use git_branchless.Prelude.{
  ℕ, Option, none, some, Bool, true, false, not, ◌&&◌, ◌==◌, ◌>>=◌, if◌then◌else◌, List, [], ◌∷◌,
  ◌++◌, map, String, Result, ok, err, keep, contains, is_empty,
}
use git_branchless.Prelude.Map.{Map, lookup, insert}
use git_branchless.Oid.{NonZeroOid, oid_eq, OidText, oid_to_string}

pub data OidOrLabel : Type 0 where
  oid : NonZeroOid → OidOrLabel
  label : String → OidOrLabel

-- `RebaseCommand`: the arguments stand in the order of the source's fields.
pub data RebaseCommand : Type 0 where
  create_label : String → RebaseCommand
  reset : OidOrLabel → RebaseCommand
  -- original_commit_oid, commits_to_apply_oids
  pick : NonZeroOid → List NonZeroOid → RebaseCommand
  -- commit_oid, commits_to_merge
  merge : NonZeroOid → List OidOrLabel → RebaseCommand
  -- commit_oid, replacement_commit_oid, parents
  replace : NonZeroOid → NonZeroOid → List OidOrLabel → RebaseCommand
  break register_extra_post_rewrite_hook : RebaseCommand
  detect_empty_commit skip_upstream_applied_commit : NonZeroOid → RebaseCommand

-- `.join(" ")`
abbrev pub join_words : List String → String
join_words [] = ""
join_words (word ∷ []) = word
join_words (word ∷ next ∷ words) = word <> " " <> join_words (next ∷ words)

module _ (git : OidText) where
  -- `Display for OidOrLabel`
  unfoldable pub target_to_string : OidOrLabel → String
  target_to_string (oid o) = oid_to_string git o
  target_to_string (label l) = l

  abbrev pub parent_argument : OidOrLabel → String
  parent_argument (oid o) = "-p " <> oid_to_string git o
  parent_argument (label l) = "-p refs/rewritten/" <> l

  -- `none` is the `unimplemented!` of a fixup
  unfoldable pub to_rebase_command : RebaseCommand → Option String
  unfolding target_to_string
  to_rebase_command (create_label l) = some ("label " <> l)
  to_rebase_command (reset target) = some ("reset " <> target_to_string target)
  to_rebase_command (pick _ []) = some ""
  to_rebase_command (pick _ (o ∷ [])) = some ("pick " <> oid_to_string git o)
  to_rebase_command (pick _ (_ ∷ _ ∷ _)) = none
  to_rebase_command (merge o targets) =
      some ("merge -C " <> oid_to_string git o <> " " <> join_words (map target_to_string targets))
  to_rebase_command (replace _ replacement parents) = some (
      "exec git show -s --format=%B "
      <> oid_to_string git replacement
      <> " | git commit-tree "
      <> join_words (map parent_argument parents)
      <> " "
      <> oid_to_string git replacement
      <> "^{tree}")
  to_rebase_command break = some "break"
  to_rebase_command register_extra_post_rewrite_hook =
      some "exec git branchless hook-register-extra-post-rewrite-hook"
  to_rebase_command (detect_empty_commit o) =
      some ("exec git branchless hook-detect-empty-commit " <> oid_to_string git o)
  to_rebase_command (skip_upstream_applied_commit o) =
      some ("exec git branchless hook-skip-upstream-applied-commit " <> oid_to_string git o)

pub record RebasePlan : Type 0 where
  pub first_dest_oid : NonZeroOid
  pub commands : List RebaseCommand

pub data Constraint : Type 0 where
  -- parent_of_oid, children_of_oid
  move_children : NonZeroOid → NonZeroOid → Constraint
  -- parent_oids, child_oid
  move_subtree : List NonZeroOid → NonZeroOid → Constraint
  -- commit_to_fixup_oid, fixup_commit_oid
  fix_up_commit : NonZeroOid → NonZeroOid → Constraint

pub data BuildRebasePlanError : Type 0 where
  constraint_cycle move_public_commits move_illegal_commits : List NonZeroOid → BuildRebasePlanError

-- Why a plan is not built: an error of `eyre` (that of `build` itself by name), a refusal, or a panic. The end of the fuel belongs to
-- the model.
pub data Failure (E : Type 0) : Type 0 where
  report : E → Failure E
  refused : BuildRebasePlanError → Failure E
  invalid_constraint panic out_of_fuel : Failure E

-- What a plan asks of the commit graph (`core/dag.rs`, on the library `eden_dag`).
pub record Dag (E : Type 0) : Type 0 where
  pub get_only_parent_oid : NonZeroOid → Result E NonZeroOid
  -- `query_parent_names`, as identifiers
  pub query_parent_oids : NonZeroOid → Result E (List NonZeroOid)
  pub query_children : List NonZeroOid → Result E (List NonZeroOid)
  pub query_descendants : List NonZeroOid → Result E (List NonZeroOid)
  pub filter_visible_commits : List NonZeroOid → Result E (List NonZeroOid)
  pub query_public_commits : Result E (List NonZeroOid)

-- `CommitSet::difference` and `CommitSet::intersection`
abbrev pub difference : List NonZeroOid → List NonZeroOid → List NonZeroOid
difference commits others = keep (λ o. not (contains others o)) commits

abbrev pub intersection : List NonZeroOid → List NonZeroOid → List NonZeroOid
intersection commits others = keep (λ o. contains others o) commits

-- `RebasePlanPermissions`: of the options, those that the plan depends on
pub record RebasePlanPermissions : Type 0 where
  pub detect_duplicate_commits_via_patch_id : Bool
  pub allowed_commits : List NonZeroOid

abbrev pub reported : {E A : Type 0} → Result E A → Result (Failure E) A
reported (ok a) = ok a
reported (err e) = err (report e)

unfoldable pub verify_rewrite_set :
    {E : Type 0} → Dag E → Bool → Bool → List NonZeroOid → Result (Failure E) RebasePlanPermissions
verify_rewrite_set dag force_rewrite_public_commits detect_duplicates commits = do
  descendants ← reported (dag.query_descendants commits)
  public_commits ← reported dag.query_public_commits
  if not force_rewrite_public_commits && not (is_empty (intersection public_commits descendants))
      then err (refused (move_public_commits (intersection public_commits descendants)))
      else ok (record {
        detect_duplicate_commits_via_patch_id = detect_duplicates;
        allowed_commits = descendants;
      })

pub record RebasePlanBuilder : Type 0 where
  pub permissions : RebasePlanPermissions
  pub initial_constraints : List Constraint
  pub replacement_commits : Map NonZeroOid NonZeroOid

unfoldable pub new_builder : RebasePlanPermissions → RebasePlanBuilder
new_builder permissions = record {
  permissions = permissions;
  initial_constraints = [];
  replacement_commits = [];
}

-- `push` on the constraints
abbrev pub add_constraint : Constraint → RebasePlanBuilder → RebasePlanBuilder
add_constraint c b = record b { initial_constraints = b.initial_constraints ++ c ∷ [] }

-- `none` is the failed assertion
unfoldable pub move_subtree_to :
    NonZeroOid → List NonZeroOid → RebasePlanBuilder → Option RebasePlanBuilder
move_subtree_to source_oid dest_oids b =
    if is_empty dest_oids then none else some (add_constraint (move_subtree dest_oids source_oid) b)

unfoldable pub move_range :
    NonZeroOid → NonZeroOid → NonZeroOid → RebasePlanBuilder → RebasePlanBuilder
move_range source_oid end_oid dest_oid b =
    add_constraint (move_children source_oid end_oid)
      (add_constraint (move_subtree (dest_oid ∷ []) source_oid) b)

unfoldable pub move_commit : NonZeroOid → NonZeroOid → RebasePlanBuilder → RebasePlanBuilder
unfolding move_range
move_commit source_oid dest_oid b = move_range source_oid source_oid dest_oid b

unfoldable pub fixup_commit : NonZeroOid → NonZeroOid → RebasePlanBuilder → RebasePlanBuilder
fixup_commit source_oid dest_oid b = add_constraint (fix_up_commit dest_oid source_oid) b

-- `none` is the refusal to replace a commit twice
unfoldable pub replace_commit :
    NonZeroOid → NonZeroOid → RebasePlanBuilder → Option RebasePlanBuilder
replace_commit original_oid replacement_oid b = elim (lookup original_oid b.replacement_commits) [
  | some _ ↦ none
  | none ↦
      some (record b {
        replacement_commits = insert original_oid replacement_oid b.replacement_commits;
      })
]
