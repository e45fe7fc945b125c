-- ===== src/Plan/Build.antt =====
-- git-branchless-lib/src/core/rewrite/plan.rs: the making of a plan.
-- The recursion over the commits takes fuel. The repository answers what a commit's parents are and
-- what its patch ID is; `get_upstream_patch_ids` reads diffs and is a question to it too.
pub mod Names
pub mod Returns
pub mod Labels
pub mod Own
pub mod Steps
pub mod Ends
pub mod Plans
use Prim.Native.String.{◌++◌ as ◌<>◌}
use Prim.Native.Nat.{◌%◌}
use git_branchless.Prelude.{
  ℕ, zero, suc, ◌+◌, ◌/◌, Option, none, some, Bool, true, false, not, ◌||◌, ◌==◌, nat_eq, string_eq,
  if◌then◌else◌, List, [], ◌∷◌, ◌++◌, String, Result, ok, err, ◌>>=◌, collect, contains, set_insert,
  is_empty, any_of, length, get_elem?, ltb,
}
use git_branchless.Prelude.Map.{Map, lookup, insert}
use git_branchless.Oid.{NonZeroOid, oid_eq}
use git_branchless.Plan.{
  OidOrLabel, oid, label, RebaseCommand, create_label, reset, pick, merge, replace,
  register_extra_post_rewrite_hook, detect_empty_commit, skip_upstream_applied_commit, RebasePlan,
  Constraint, move_children, move_subtree, fix_up_commit, Failure, report, refused,
  invalid_constraint, panic, out_of_fuel, constraint_cycle, move_illegal_commits, Dag, reported,
  RebasePlanBuilder,
}
use git_branchless.Plan.Graph.{
  ConstraintGraph, empty_graph, commits_to_move, commits_to_move_to, fixup_commits, add_constraints,
  add_descendant_constraints, check_permissions, sort_oids, find_roots,
}
use git_branchless.Plan.Cycles.{
  CycleCheck, acyclic, exhausted, cycle, cycle_fuel, sorted_children, check_for_cycles,
}

pub record Commit : Type 0 where
  pub commit_oid : NonZeroOid
  pub parent_oids : List NonZeroOid

-- What the planner asks of the repository; a patch ID is a number.
pub record PlanRepo (E : Type 0) : Type 0 where
  pub find_commit_or_fail : NonZeroOid → Result E Commit
  pub get_patch_id : NonZeroOid → Result E (Option ℕ)
  -- `sorted_commit_set`
  pub sorted_commits : List NonZeroOid → Result E (List NonZeroOid)
  pub get_upstream_patch_ids : NonZeroOid → List NonZeroOid → Result E (List ℕ)
  -- asked of the commit graph
  pub set_is_empty : List NonZeroOid → Result E Bool

pub record BuildState : Type 0 where
  pub constraints : ConstraintGraph
  pub used_labels : List String
  pub parent_labels : Map NonZeroOid String

-- `format!("{}", n)`
abbrev digit : ℕ → String
digit n =
    elim (get_elem? {A = String} ("0" ∷ "1" ∷ "2" ∷ "3" ∷ "4" ∷ "5" ∷ "6" ∷ "7" ∷ "8" ∷ "9" ∷ [])
      n) [ none ↦ "" | some d ↦ d ]

abbrev digits : ℕ → ℕ → String → String
digits zero n acc = acc
digits (suc fuel) n acc =
    if ltb n 10 then digit n <> acc else digits fuel (n / 10) (digit (n % 10) <> acc)

unfoldable pub decimal : ℕ → String
decimal n = digits (suc n) n ""

-- `make_label_name`: a tick is appended until the name is not used; it is with one more name than
-- there are used ones.
unfoldable pub make_label_name_inner : ℕ → List String → String → Option String
make_label_name_inner zero used preferred_name = none
make_label_name_inner (suc fuel) used preferred_name =
    let ticked = make_label_name_inner fuel used (preferred_name <> "'") in
    if contains used preferred_name then ticked else some preferred_name

unfoldable pub make_label_name :
    {E : Type 0} → BuildState → String → Result (Failure E) (BuildState × String)
unfolding make_label_name_inner
make_label_name state preferred_name =
    elim (make_label_name_inner (suc (length state.used_labels)) state.used_labels preferred_name) [
      | none ↦ err out_of_fuel
      | some name ↦ ok (record state { used_labels = name ∷ state.used_labels }, name)
    ]

-- where a parent of a merge is, `none` if it has not been applied yet
unfoldable pub merge_target : BuildState → NonZeroOid → Option OidOrLabel
merge_target state parent_oid =
    if contains (commits_to_move state.constraints) parent_oid
    then elim (lookup parent_oid state.parent_labels) [ none ↦ none | some l ↦ some (label l) ]
    else some (oid parent_oid)

-- `collect::<Option<Vec<_>>>()`
abbrev pub collect_targets :
    (NonZeroOid → Option OidOrLabel) → List NonZeroOid → Option (List OidOrLabel)
collect_targets target [] = some []
collect_targets target (p ∷ ps) = elim (target p) [
  | none ↦ none
  | some t ↦ elim (collect_targets target ps) [ none ↦ none | some ts ↦ some (t ∷ ts) ]
]

abbrev pub applies : NonZeroOid → RebaseCommand → Bool
applies o (merge commit _) = commit == o
applies o (replace commit _ _) = commit == o
applies o _ = false

abbrev pub replacement_target : BuildState → NonZeroOid → OidOrLabel
replacement_target state parent_oid = elim (lookup parent_oid state.parent_labels) [
  | none ↦ oid parent_oid
  | some l ↦ label l
]

abbrev pub map_targets : (NonZeroOid → OidOrLabel) → List NonZeroOid → List OidOrLabel
map_targets target [] = []
map_targets target (p ∷ ps) = target p ∷ map_targets target ps

module _ {E : Type 0} (builder : RebasePlanBuilder) (repo : PlanRepo E) where
  unfoldable pub is_applied_upstream : List ℕ → Commit → Result (Failure E) Bool
  is_applied_upstream upstream commit =
      if is_empty upstream
      then ok false
      else reported (repo.get_patch_id commit.commit_oid) >>= λ id.
          ok (elim id [ none ↦ false | some patch_id ↦ contains upstream patch_id ])

  -- a merge commit, whose parents are now at the targets; the first is the one to merge into
  unfoldable pub merge_commands : Commit → List OidOrLabel → Result (Failure E) (List RebaseCommand)
  merge_commands commit [] = err panic
  merge_commands commit (first ∷ rest) = ok (
      reset first
      ∷ elim (lookup commit.commit_oid builder.replacement_commits) [
        | none ↦ merge commit.commit_oid rest
        | some replacement ↦ replace commit.commit_oid replacement (first ∷ rest)
      ]
      ∷ [])

  -- a commit with one parent or none
  unfoldable pub pick_commands : BuildState → Commit → Result (Failure E) (List RebaseCommand)
  pick_commands state commit = elim (lookup commit.commit_oid builder.replacement_commits) [
    | some replacement ↦ reported (repo.find_commit_or_fail replacement) >>= λ found. ok (
        replace commit.commit_oid replacement
          (map_targets (replacement_target state) found.parent_oids)
        ∷ [])
    | none ↦
        elim (lookup commit.commit_oid state.constraints.fixups) [
          | none ↦ ok (commit.commit_oid ∷ [])
          | some fixups ↦ reported (repo.sorted_commits (commit.commit_oid ∷ fixups))
        ]
        >>= λ to_apply.
            ok (pick commit.commit_oid to_apply ∷ detect_empty_commit commit.commit_oid ∷ [])
  ]

  -- the commands for the commit itself; `none` is that it waits for a parent, or was applied before
  unfoldable pub own_commands :
      List ℕ
      → BuildState
      → Commit
      → List RebaseCommand
      → Result (Failure E) (Option (List RebaseCommand))
  unfolding is_applied_upstream merge_target merge_commands pick_commands
  own_commands upstream state commit acc = is_applied_upstream upstream commit >>= λ applied.
      elim applied [
        | true ↦ ok (some (skip_upstream_applied_commit commit.commit_oid ∷ []))
        | false ↦ elim (ltb 1 (length commit.parent_oids)) [
          | true ↦ elim (collect_targets (merge_target state) commit.parent_oids) [
            | none ↦ ok none
            | some targets ↦ elim (any_of (applies commit.commit_oid) acc) [
              | true ↦ ok none
              | false ↦ merge_commands commit targets >>= λ commands. ok (some commands)
            ]
          ]
          | false ↦ elim (contains (fixup_commits state.constraints) commit.commit_oid) [
            | true ↦ ok (some [])
            | false ↦ pick_commands state commit >>= λ commands. ok (some commands)
          ]
        ]
      ]

  -- a label for the children that are merges or are replaced
  abbrev pub needs_label : Commit → Bool
  needs_label child =
      ltb 1 (length child.parent_oids)
      || (elim (lookup child.commit_oid builder.replacement_commits) [
        | none ↦ false
        | some _ ↦ true
      ])

  unfoldable pub label_parent :
      BuildState
      → Commit
      → List Commit
      → List RebaseCommand
      → Result (Failure E) (BuildState × List RebaseCommand)
  unfolding make_label_name
  label_parent state commit children acc = elim (any_of needs_label children) [
    | false ↦ ok (state, acc)
    | true ↦ make_label_name state ("parent-" <> decimal (length acc)) >>= λ (state', name). ok (
      record state' { parent_labels = insert commit.commit_oid name state'.parent_labels },
      acc ++ create_label name ∷ [],
    )
  ]

-- the loop over several children, each of which is followed by a return to the label
unfoldable pub plan_each :
    {E : Type 0}
    → (BuildState
        → Commit
        → List RebaseCommand
        → Result (Failure E) (BuildState × List RebaseCommand))
    → String
    → List Commit
    → BuildState
    → List RebaseCommand
    → Result (Failure E) (BuildState × List RebaseCommand)
plan_each plan name [] state acc = ok (state, acc)
plan_each plan name (child ∷ children) state acc = plan state child acc >>= λ (state', acc').
    plan_each plan name children state' (acc' ++ reset (label name) ∷ [])

-- what is done with the children
unfoldable pub plan_children :
    {E : Type 0}
    → (BuildState
        → Commit
        → List RebaseCommand
        → Result (Failure E) (BuildState × List RebaseCommand))
    → List Commit
    → BuildState
    → List RebaseCommand
    → Result (Failure E) (BuildState × List RebaseCommand)
unfolding make_label_name plan_each
plan_children plan [] state acc = ok (state, acc)
plan_children plan (child ∷ []) state acc = plan state child acc
plan_children plan (child ∷ next ∷ children) state acc =
    make_label_name state ("label-" <> decimal (length acc)) >>= λ (state', name).
    plan_each plan name (child ∷ next ∷ children) state' (acc ++ create_label name ∷ [])

module _ {E : Type 0} (builder : RebasePlanBuilder) (repo : PlanRepo E) (upstream : List ℕ) where
  unfoldable pub make_rebase_plan_for_current_commit :
      ℕ
      → BuildState
      → Commit
      → List RebaseCommand
      → Result (Failure E) (BuildState × List RebaseCommand)
  unfolding own_commands label_parent plan_children
  make_rebase_plan_for_current_commit zero state commit acc = err out_of_fuel
  make_rebase_plan_for_current_commit (suc fuel) state commit acc =
      own_commands builder repo upstream state commit acc >>= λ own. elim own [
        | none ↦ ok (state, acc)
        | some commands ↦
            reported (
              collect repo.find_commit_or_fail
                (sorted_children state.constraints commit.commit_oid))
            >>= λ children.
                label_parent builder repo state commit children (acc ++ commands)
                >>= λ (state', acc').
                    plan_children (λ s c a. make_rebase_plan_for_current_commit fuel s c a) children
                      state' acc'
      ]

module _ {E : Type 0} (builder : RebasePlanBuilder) (repo : PlanRepo E) where
  -- where a root goes, and the commit
  unfoldable pub root_of : Constraint → Result (Failure E) (List NonZeroOid × NonZeroOid)
  root_of (move_subtree parent_oids child_oid) = ok (parent_oids, child_oid)
  root_of (fix_up_commit commit_to_fixup_oid _) =
      reported (repo.find_commit_or_fail commit_to_fixup_oid) >>= λ commit.
      ok (commit.parent_oids, commit_to_fixup_oid)
  root_of (move_children _ _) = err invalid_constraint

  -- the turn of a root, with where it went
  unfoldable pub plan_root :
      ℕ
      → BuildState
      → List RebaseCommand
      → List NonZeroOid
      → NonZeroOid
      → Result (Failure E) (NonZeroOid × BuildState × List RebaseCommand)
  unfolding make_rebase_plan_for_current_commit
  plan_root fuel state acc [] child_oid = err panic
  plan_root fuel state acc (first_parent ∷ others) child_oid =
      elim builder.permissions.detect_duplicate_commits_via_patch_id [
        | true ↦ reported (repo.get_upstream_patch_ids child_oid (first_parent ∷ others))
        | false ↦ ok []
      ]
      >>= λ upstream. reported (repo.find_commit_or_fail child_oid) >>= λ child.
          make_rebase_plan_for_current_commit builder repo upstream fuel state child
            (acc ++ reset (oid first_parent) ∷ [])
          >>= λ (state', acc'). ok (first_parent, state', acc')

  -- the loop of `build` over the roots
  unfoldable pub plan_roots :
      ℕ
      → List Constraint
      → BuildState
      → Option NonZeroOid
      → List RebaseCommand
      → Result (Failure E) (Option NonZeroOid × List RebaseCommand)
  unfolding root_of plan_root
  plan_roots fuel [] state first_dest acc = ok (first_dest, acc)
  plan_roots fuel (root ∷ roots) state first_dest acc = root_of root >>= λ (parent_oids, child_oid).
      plan_root fuel state acc parent_oids child_oid >>= λ (first_parent, state', acc').
      plan_roots fuel roots state' (elim first_dest [ none ↦ some first_parent | some d ↦ some d ])
        acc'

  -- `build`, once the constraints are complete
  unfoldable pub build_from : ConstraintGraph → Result (Failure E) (Option RebasePlan)
  unfolding check_for_cycles check_permissions find_roots plan_roots
  build_from constraints = elim (check_for_cycles constraints) [
    | exhausted ↦ err out_of_fuel
    | cycle oids ↦ err (refused (constraint_cycle oids))
    | acyclic ↦
        reported
          (check_permissions repo.set_is_empty builder.permissions.allowed_commits constraints)
        >>= λ permitted. elim permitted [
          | some illegal ↦ err (refused (move_illegal_commits illegal))
          | none ↦
              plan_roots (cycle_fuel constraints) (find_roots constraints)
                (record { constraints = constraints; used_labels = []; parent_labels = [] }) none []
              >>= λ (first_dest, acc). ok (elim first_dest [
                | none ↦ none
                | some d ↦ some (record {
                  first_dest_oid = d;
                  commands = acc ++ register_extra_post_rewrite_hook ∷ [];
                })
              ])
        ]
  ]

  -- `fuel` is for the walks to an unconstrained ancestor
  unfoldable pub build : Dag E → ℕ → Result (Failure E) (Option RebasePlan)
  unfolding add_constraints add_descendant_constraints build_from
  build dag fuel =
      add_constraints dag fuel empty_graph builder.initial_constraints >>= λ constraints.
      add_descendant_constraints dag fuel constraints >>= λ complete. build_from complete
