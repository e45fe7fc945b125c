-- ===== src/Examples/Branches.antt =====
-- The theorems on what follows a rebase, at three branches: one that moves, one whose commit was
-- skipped, and one at a commit that stays.
use Prim.Native.String.{◌++◌ as ◌<>◌}
use git_branchless.Prelude.{
  ℕ, ◌+◌, ◌≡◌, refl, sym, ap, ◌∙◌, Option-cases, string_eq, Option, none, some, true, false, List,
  [], ◌∷◌, ok, String, inl, inr, arith,
}
use git_branchless.Prelude.Map.{Map, lookup, insert, remove}
use git_branchless.Oid.{NonZeroOid, MaybeZeroOid, non_zero, oid_eq}
use git_branchless.EventLog.{ReferenceName}
use git_branchless.Reference.{categorize, render_suffix, is_local_branch}
use git_branchless.Reference.Parts.{local_branch_lem}
use git_branchless.Plan.Build.Returns.{ok_same}
use git_branchless.Execute.Branches.{
  Refs, BranchRepo, BranchMove, move_branches, point_to, delete_main, move_main, delete_branch,
  drop_name, for_names, move_names, move_all, run_moves_hook, finish_moves,
}
use git_branchless.Execute.Moves.{IsBranchRepo, moved_to, move_branches-IsReported}
use git_branchless.Execute.Follows.{IsAmong}
use git_branchless.Execute.Arrives.{move_branches_lem}
use git_branchless.Execute.InMemory.{RebaseInMemoryResult, succeeded}
use git_branchless.Execute.Head.{
  HeadRepo, checkout_info, ExitCode, ExecuteRebasePlanOptions, DiskResult, Action, exited,
  execute_rebase_plan,
}
use git_branchless.Execute.Forced.{execute_rebase_plan-forced}
use git_branchless.Execute.Updated.{checkout_info-new_head}
use git_branchless.Examples.Planning.{commit, repo, fork_plan, new_versions, fork_rebased}

abbrev before : Refs
before =
    ("refs/heads/x", commit 2) ∷ ("refs/heads/y", commit 3) ∷ ("refs/heads/main", commit 9) ∷ []

abbrev find_local : Refs → String → Option ReferenceName
find_local refs suffix = elim (lookup ("refs/heads/" <> suffix) refs) [
  | none ↦ none
  | some _ ↦ some ("refs/heads/" <> suffix)
]

abbrev branch_repo : BranchRepo Unit
branch_repo = record {
  main_branch_name = ok "refs/heads/main";
  get_upstream_branch_target = λ refs. ok none;
  find_main_branch = λ refs. ok tt;
  find_commit_or_fail = λ o. ok tt;
  find_branch = λ refs suffix. ok (find_local refs suffix);
  create_reference = λ refs name o. ok tt;
  delete = λ refs name. ok tt;
  run_hook = λ moves. ok tt;
}

branch_repo-IsBranchRepo : IsBranchRepo branch_repo
branch_repo-IsBranchRepo = record {
  found = λ refs name other local e.
      let whole = local_branch_lem name local in
      elim (Option-cases (lookup ("refs/heads/" <> render_suffix (categorize name)) refs)) [
        | inl absent ↦ absurd (cc (rw (absent, find_local) at e))
        | inr (o, there) ↦
            let same =
              ok_same (branch_repo.find_branch refs (render_suffix (categorize name)))
                (some ("refs/heads/" <> render_suffix (categorize name))) (some other)
                (rw (there, find_local) refl) e in
            let is_other : "refs/heads/" <> render_suffix (categorize name) ≡ other =
              ground arith in
            sym is_other ∙ sym whole
      ];
  missing = λ refs name local e.
      elim (Option-cases (lookup ("refs/heads/" <> render_suffix (categorize name)) refs)) [
        | inl absent ↦ ap (λ n. lookup n refs) (local_branch_lem name local) ∙ absent
        | inr (o, there) ↦ absurd (cc (rw (there, find_local) at e))
      ];
}

abbrev entries : Map NonZeroOid (List ReferenceName)
entries =
    (commit 2, "refs/heads/x" ∷ [])
    ∷ (commit 3, "refs/heads/y" ∷ [])
    ∷ (commit 9, "refs/heads/main" ∷ [])
    ∷ []

abbrev moves : List BranchMove
moves =
    (commit 2, (non_zero (commit 101), "refs/heads/x"))
    ∷ (commit 3, (MaybeZeroOid.zero, "refs/heads/y"))
    ∷ []

moved : move_branches branch_repo new_versions (ok entries) before ≡ record {
  refs = ("refs/heads/x", commit 101) ∷ ("refs/heads/main", commit 9) ∷ [];
  reported = some moves;
  result = ok tt;
}
unfolding move_branches move_all move_names for_names drop_name delete_branch move_main delete_main
    point_to run_moves_hook finish_moves lookup insert remove categorize render_suffix
    is_local_branch
moved = refl

move_branches-IsReported_example :
    lookup "refs/heads/y" (move_branches branch_repo new_versions (ok entries) before).refs
    ≡ moved_to moves "refs/heads/y" (lookup "refs/heads/y" before)
move_branches-IsReported_example =
    move_branches-IsReported branch_repo branch_repo-IsBranchRepo before new_versions (ok entries)
      moves (ap (λ r. r.reported) moved) "refs/heads/y"

move_branches_lem_example :
    (lookup "refs/heads/x" (move_branches branch_repo new_versions (ok entries) before).refs
      ≡ some (commit 101))
    × (found : List BranchMove) × ((move_branches branch_repo new_versions
          (ok entries)
          before).reported
        ≡ some found)
    × IsAmong (commit 2, (non_zero (commit 101), "refs/heads/x")) found
unfolding lookup
move_branches_lem_example =
    move_branches_lem branch_repo branch_repo-IsBranchRepo new_versions before entries
      (ap (λ r. r.result) moved) (commit 2) (commit 101) ("refs/heads/x" ∷ []) "refs/heads/x" refl
      refl
      ((λ listed. refl), ((λ listed. absurd (cc listed)), ((λ listed. absurd (cc listed)), tt)))
      refl

abbrev head_repo : HeadRepo Unit
head_repo = record {
  find_reference = λ name. ok tt;
  get_head_info = ok (record { oid = some (commit 3); reference_name = none });
  check_out_commit = λ target. ok 0;
}

checkout_info-new_head_example :
    checkout_info head_repo before new_versions
      (record { oid = some (commit 3); reference_name = none })
      (some (commit 100))
    ≡ ok (record { oid = some (commit 100); reference_name = none })
checkout_info-new_head_example =
    checkout_info-new_head repo false (some (commit 3)) 100 fork_plan new_versions
      (some (commit 100)) fork_rebased head_repo before

abbrev options : ExecuteRebasePlanOptions
options = record {
  force_in_memory = true;
  force_on_disk = false;
  dry_run = true;
  resolve_merge_conflicts = true;
}

-- the state is the number of calls that changed something
abbrev rebased : Action ℕ Unit RebaseInMemoryResult
rebased calls = (ok (succeeded new_versions (some (commit 100))), calls + 1)

abbrev post : ℕ → Map NonZeroOid MaybeZeroOid → Option NonZeroOid → Action ℕ Unit ExitCode
post code rewritten new calls = (ok code, calls + 1)

abbrev disk : ℕ → Action ℕ Unit DiskResult
disk code calls = (ok (exited code), calls + 1)

execute_rebase_plan-forced_example :
    (options.force_in_memory ≡ true
      → execute_rebase_plan options rebased (post 0) (disk 0) 7
        ≡ execute_rebase_plan options rebased (post 0) (disk 1) 7)
    × (options.dry_run ≡ true
        → execute_rebase_plan options rebased (post 0) (disk 0) 7
          ≡ execute_rebase_plan options rebased (post 1) (disk 0) 7)
    × (options.force_in_memory ≡ true
        → options.dry_run ≡ true
        → (execute_rebase_plan options rebased (post 0) (disk 0) 7).1 ≡ 8)
execute_rebase_plan-forced_example =
    execute_rebase_plan-forced options rebased (post 0) (post 1) (disk 0) (disk 1) 7
