-- ===== src/Examples/Planning.antt =====
-- The theorems on rebase plans, at a commit with two children and at a graph with a cycle.
use git_branchless.Prelude.{
  is_empty, ℕ, suc, ◌==◌, ◌≡◌, ◌≢◌, refl, sym, ap, ◌⊎◌, none, some, true, false, List, [], ◌∷◌,
  ◌++◌, String, ok, err, contains,
}
use git_branchless.Prelude.Map.{Map, lookup, insert}
use git_branchless.Oid.{NonZeroOid, MaybeZeroOid, non_zero, oid_eq}
use git_branchless.Plan.{
  oid, label, create_label, reset, pick, register_extra_post_rewrite_hook, detect_empty_commit,
  RebasePlan, out_of_fuel, RebasePlanBuilder,
}
use git_branchless.Plan.Graph.{
  ConstraintGraph, sort_oids, check_permissions, constraint_leb, sort_constraints, root_edges,
  find_roots,
}
use git_branchless.Plan.Cycles.{acyclic, cycle, check_for_cycles_helper, check_for_cycles}
use git_branchless.Plan.Cycles.Walks.{Walk, IsChain}
use git_branchless.Plan.Cycles.Verdict.{check_for_cycles_lem}
use git_branchless.Plan.Build.{
  PlanRepo, decimal, make_label_name_inner, make_label_name, merge_target, is_applied_upstream,
  merge_commands, pick_commands, own_commands, label_parent, plan_each, plan_children,
  make_rebase_plan_for_current_commit, root_of, plan_root, plan_roots, build_from,
}
use git_branchless.Plan.Build.Returns.{ok_same}
use git_branchless.Plan.Build.Labels.{IsScoped}
use git_branchless.Plan.Build.Ends.{IsRepo}
use git_branchless.Plan.Build.Plans.{build_from-ends, build_from-IsScoped}
use git_branchless.Execute.InMemory.{
  succeeded, missing_label, break_not_supported, Repo, RebaseState, insert_all, committer_signature,
  apply_commits, find_parents, maybe_set_skipped_head_new_oid, skip_commit, finish_pick, run_pick,
  run_replace, run_command, run_commands, new_head, start_state, rebase_in_memory,
}
use git_branchless.Execute.Labels.{rebase_in_memory-build_from}
use git_branchless.Execute.Kept.{IsRewritten, originals, touched}
use git_branchless.Execute.Fallback.{new_head-fallback}
use git_branchless.Execute.Skips.{rebase_in_memory-IsRewritten}

abbrev pub commit : ℕ → NonZeroOid
commit n = record { inner = n }

abbrev planner : PlanRepo Unit
planner = record {
  find_commit_or_fail = λ o. ok (record { commit_oid = o; parent_oids = commit 9 ∷ [] });
  get_patch_id = λ o. ok none;
  sorted_commits = λ os. ok os;
  get_upstream_patch_ids = λ o os. ok [];
  set_is_empty = λ os. ok (is_empty os);
}

planner-IsRepo : IsRepo planner
planner-IsRepo o c found =
    ap (λ x. x.commit_oid) (sym (ok_same (planner.find_commit_or_fail o) _ c refl found))

abbrev builder : RebasePlanBuilder
builder = record {
  permissions = record {
    detect_duplicate_commits_via_patch_id = true;
    allowed_commits = commit 1 ∷ commit 2 ∷ commit 3 ∷ [];
  };
  initial_constraints = [];
  replacement_commits = [];
}

-- commit 1 moves onto commit 9, with the commits 2 and 3 on top of it
abbrev fork : ConstraintGraph
fork = record {
  inner = (commit 9, commit 1 ∷ []) ∷ (commit 1, commit 3 ∷ commit 2 ∷ []) ∷ [];
  fixups = [];
}

abbrev pub fork_plan : RebasePlan
fork_plan = record {
  first_dest_oid = commit 9;
  commands =
      reset (oid (commit 9))
      ∷ pick (commit 1) (commit 1 ∷ [])
      ∷ detect_empty_commit (commit 1)
      ∷ create_label "label-3"
      ∷ pick (commit 2) (commit 2 ∷ [])
      ∷ detect_empty_commit (commit 2)
      ∷ reset (label "label-3")
      ∷ pick (commit 3) (commit 3 ∷ [])
      ∷ detect_empty_commit (commit 3)
      ∷ reset (label "label-3")
      ∷ register_extra_post_rewrite_hook
      ∷ [];
}

fork_planned : build_from builder planner fork ≡ ok (some fork_plan)
unfolding build_from check_for_cycles check_for_cycles_helper check_permissions find_roots
    root_edges sort_constraints constraint_leb plan_roots root_of plan_root
    make_rebase_plan_for_current_commit own_commands is_applied_upstream merge_target merge_commands
    pick_commands label_parent plan_children plan_each make_label_name make_label_name_inner decimal
    sort_oids lookup insert
fork_planned = refl

build_from-ends_example : build_from builder planner fork ≢ err out_of_fuel
build_from-ends_example = build_from-ends builder planner planner-IsRepo fork

build_from-IsScoped_example : IsScoped [] fork_plan.commands
build_from-IsScoped_example =
    build_from-IsScoped builder planner planner-IsRepo fork fork_plan fork_planned

-- commit 1 leads into a cycle of 2 and 3, and is no part of it
abbrev lasso : ConstraintGraph
lasso = record {
  inner = (commit 1, commit 2 ∷ []) ∷ (commit 2, commit 3 ∷ []) ∷ (commit 3, commit 2 ∷ []) ∷ [];
  fixups = [];
}

lasso_cycle : check_for_cycles lasso ≡ cycle (commit 1 ∷ commit 2 ∷ commit 3 ∷ commit 2 ∷ [])
unfolding check_for_cycles check_for_cycles_helper sort_oids lookup
lasso_cycle = refl

check_for_cycles_lem_example :
    ((check_for_cycles lasso ≡ acyclic) × ((a : NonZeroOid) → ¬ Walk lasso a a))
    ⊎ ((path : List NonZeroOid) × (o : NonZeroOid) × (check_for_cycles lasso
          ≡ cycle (path ++ o ∷ []))
        × (contains path o ≡ true)
        × IsChain lasso (path ++ o ∷ [])
        × Walk lasso o o)
check_for_cycles_lem_example = check_for_cycles_lem lasso

-- The store is the number of the next commit; the third commit that is made is empty.
abbrev pub repo : Repo Unit ℕ Unit Unit
repo = record {
  find_commit_or_fail = λ store o. ok (record { commit_oid = o; parent_oids = commit 9 ∷ [] });
  find_commit = λ store o. ok (some (record { commit_oid = o; parent_oids = commit 9 ∷ [] }));
  get_message = λ c. ok "message";
  get_author = λ c. tt;
  get_committer = λ c. tt;
  update_timestamp = λ signature. ok signature;
  get_tree = λ c. ok tt;
  is_empty_commit = λ store c. c.commit_oid == commit 102;
  friendly_describe = λ store o. ok "description";
  cherry_pick_fast = λ store c onto. ok tt;
  amend_fast = λ store c onto. ok tt;
  create_commit = λ store author committer message tree parents. ok (commit store, suc store);
}

abbrev pub new_versions : Map NonZeroOid MaybeZeroOid
new_versions =
    (commit 1, non_zero (commit 100))
    ∷ (commit 2, non_zero (commit 101))
    ∷ (commit 3, MaybeZeroOid.zero)
    ∷ []

abbrev end_state : RebaseState ℕ
end_state = record {
  store = 103;
  current_oid = commit 100;
  labels = ("label-3", commit 100) ∷ [];
  rewritten_oids = new_versions;
  skipped_head_new_oid = some (commit 100);
}

fork_run :
    run_commands repo false (some (commit 3)) fork_plan.commands (start_state 100 fork_plan)
    ≡ ok end_state
unfolding run_commands run_command run_pick run_replace finish_pick skip_commit
    maybe_set_skipped_head_new_oid apply_commits committer_signature insert_all find_parents lookup
    insert
fork_run = refl

pub fork_rebased :
    rebase_in_memory repo false (ok (some (commit 3))) 100 fork_plan
    ≡ ok (succeeded new_versions (some (commit 100)))
unfolding rebase_in_memory run_commands new_head run_command run_pick run_replace finish_pick
    skip_commit maybe_set_skipped_head_new_oid apply_commits committer_signature insert_all
    find_parents lookup insert
fork_rebased = refl

rebase_in_memory-build_from_example :
    ((name : String)
      → rebase_in_memory repo false (ok (some (commit 3))) 100 fork_plan ≢ err (missing_label name))
    × (rebase_in_memory repo false (ok (some (commit 3))) 100 fork_plan ≢ err break_not_supported)
rebase_in_memory-build_from_example =
    rebase_in_memory-build_from repo false builder planner planner-IsRepo fork fork_plan
      fork_planned (ok (some (commit 3))) 100

new_head-fallback_example :
    (o : NonZeroOid) × (end_state.skipped_head_new_oid ≡ some o)
    × (new_head (some (commit 3)) end_state ≡ some o)
unfolding lookup
new_head-fallback_example =
    new_head-fallback repo false (some (commit 3)) fork_plan.commands 100 fork_plan end_state
      (commit 3) refl fork_run refl

rebase_in_memory-IsRewritten_example :
    (contains (originals fork_plan.commands) (commit 3) ≡ true
      → IsRewritten (commit 3) new_versions)
    × (IsRewritten (commit 3) new_versions
        → contains (touched fork_plan.commands) (commit 3) ≡ true)
rebase_in_memory-IsRewritten_example =
    rebase_in_memory-IsRewritten repo false (some (commit 3)) 100 fork_plan new_versions
      (some (commit 100)) fork_rebased (commit 3)
