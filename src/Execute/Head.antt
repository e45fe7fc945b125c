-- ===== src/Execute/Head.antt =====
-- git-branchless-lib/src/core/rewrite/execute.rs: `check_out_updated_head`, `post_rebase_in_memory` and
-- `execute_rebase_plan`. What git is asked to do is an interface; messages are left out.
use Prim.Native.String.{slice, len}
use text.Mathlib.Text.{starts_with}
use git_branchless.Prelude.{
  ℕ, Option, none, some, Bool, true, false, ◌&&◌, ◌==◌, nat_eq, string_eq, option_eq, if◌then◌else◌,
  List, [], ◌∷◌, String, Result, ok, err, ◌>>=◌,
}
use git_branchless.Prelude.Map.{Map, lookup}
use git_branchless.Oid.{NonZeroOid, MaybeZeroOid, non_zero, oid_eq}
use git_branchless.EventLog.{ReferenceName}
use git_branchless.Execute.InMemory.{FailedMergeInfo, RebaseInMemoryResult, succeeded, merge_failed}
use git_branchless.Execute.Branches.{Refs, BranchRepo, move_branches}

pub record ResolvedReferenceInfo : Type 0 where
  pub oid : Option NonZeroOid
  pub reference_name : Option ReferenceName

pub data CheckoutTarget : Type 0 where
  to_oid : NonZeroOid → CheckoutTarget
  to_reference : ReferenceName → CheckoutTarget

abbrev pub ExitCode : Type 0
ExitCode = ℕ

-- `get_branch_name` of a reference name
unfoldable pub branch_name_of : ReferenceName → String
branch_name_of name =
    if starts_with name "refs/heads/" then slice name (len "refs/heads/") (len name) else name

abbrev pub info_eqb : ResolvedReferenceInfo → ResolvedReferenceInfo → Bool
info_eqb a b = a.oid == b.oid && a.reference_name == b.reference_name

-- What git is asked after a rebase.
pub record HeadRepo (E : Type 0) : Type 0 where
  -- whether the reference can be read
  pub find_reference : ReferenceName → Result E Unit
  pub get_head_info : Result E ResolvedReferenceInfo
  pub check_out_commit : CheckoutTarget → Result E ExitCode

module _ {E : Type 0} (repo : HeadRepo E) (refs : Refs) where
  -- the first `match` of `check_out_updated_head`
  unfoldable pub checkout_info :
      Map NonZeroOid MaybeZeroOid
      → ResolvedReferenceInfo
      → Option NonZeroOid
      → Result E ResolvedReferenceInfo
  checkout_info rewritten_oids previous_head_info skipped_head_updated_oid =
      elim previous_head_info.reference_name [
        | none ↦ ok (record {
          oid = elim previous_head_info.oid [
            | none ↦ skipped_head_updated_oid
            | some previous_head_oid ↦ elim (lookup previous_head_oid rewritten_oids) [
              | none ↦ some previous_head_oid
              | some new_oid ↦ elim new_oid [
                | non_zero o ↦ some o
                | MaybeZeroOid.zero ↦ skipped_head_updated_oid
              ]
            ]
          ];
          reference_name = none;
        })
        | some name ↦ elim previous_head_info.oid [
          | none ↦ ok (record { oid = none; reference_name = some name })
          | some _ ↦ repo.find_reference name >>= λ _. ok (elim (lookup name refs) [
            | some target ↦ record { oid = some target; reference_name = some name }
            | none ↦ record { oid = skipped_head_updated_oid; reference_name = none }
          ])
        ]
      ]

  -- what to check out, if anything
  abbrev pub checkout_of : ResolvedReferenceInfo → Option CheckoutTarget
  checkout_of info = elim info.reference_name [
    | some name ↦ some (to_reference (branch_name_of name))
    | none ↦ elim info.oid [ none ↦ none | some o ↦ some (to_oid o) ]
  ]

  unfoldable pub check_out_updated_head :
      Map NonZeroOid MaybeZeroOid → ResolvedReferenceInfo → Option NonZeroOid → Result E ExitCode
  unfolding checkout_info branch_name_of
  check_out_updated_head rewritten_oids previous_head_info skipped_head_updated_oid = do
    info ← checkout_info rewritten_oids previous_head_info skipped_head_updated_oid
    head_info ← repo.get_head_info
    elim (info_eqb head_info info) [
      | true ↦ ok 0
      | false ↦ elim (checkout_of info) [ none ↦ ok 0 | some target ↦ repo.check_out_commit target ]
    ]

-- What git is asked between the rebase and the check-out.
pub record PostRepo (E : Type 0) : Type 0 where
  pub mark_commit_reachable : NonZeroOid → Result E Unit
  pub get_head_info : Result E ResolvedReferenceInfo
  pub detach_head : ResolvedReferenceInfo → Result E Unit
  pub get_branch_oid_to_names : Result E (Map NonZeroOid (List ReferenceName))
  pub run_post_rewrite_hook : Map NonZeroOid MaybeZeroOid → Result E Unit
  -- git once `HEAD` is detached and the branches are moved
  pub head_repo : HeadRepo E

module _ {E : Type 0} (repo : PostRepo E) (branch_repo : BranchRepo E) where
  -- the loop over the new versions
  unfoldable pub mark_all : Map NonZeroOid MaybeZeroOid → Result E Unit
  mark_all [] = ok tt
  mark_all ((_, MaybeZeroOid.zero) ∷ entries) = mark_all entries
  mark_all ((_, non_zero o) ∷ entries) = repo.mark_commit_reachable o >>= λ _. mark_all entries

  unfoldable pub detach : ResolvedReferenceInfo → Result E Unit
  detach head_info = elim head_info.oid [ none ↦ ok tt | some _ ↦ repo.detach_head head_info ]

  -- the references afterwards too
  unfoldable pub post_rebase_in_memory :
      Refs → Map NonZeroOid MaybeZeroOid → Option NonZeroOid → Result E (Refs × ExitCode)
  unfolding mark_all detach check_out_updated_head
  post_rebase_in_memory refs rewritten_oids skipped_head_updated_oid = do
    _ ← mark_all rewritten_oids
    head_info ← repo.get_head_info
    _ ← detach head_info
    let moved = move_branches branch_repo rewritten_oids repo.get_branch_oid_to_names refs
    _ ← moved.result
    _ ← repo.run_post_rewrite_hook rewritten_oids
    exit_code ←
        check_out_updated_head repo.head_repo moved.refs rewritten_oids head_info
          skipped_head_updated_oid
    ok (moved.refs, exit_code)

pub record ExecuteRebasePlanOptions : Type 0 where
  pub force_in_memory : Bool
  pub force_on_disk : Bool
  pub dry_run : Bool
  pub resolve_merge_conflicts : Bool

pub data ExecuteRebasePlanResult : Type 0 where
  succeeded_with : Option (Map NonZeroOid MaybeZeroOid) → ExecuteRebasePlanResult
  would_succeed : ExecuteRebasePlanResult
  declined_to_merge : FailedMergeInfo → ExecuteRebasePlanResult
  failed : ExitCode → ExecuteRebasePlanResult

-- `rebase_on_disk`: an exit code, or one of its two refusals
pub data DiskResult : Type 0 where
  exited : ExitCode → DiskResult
  changed_files_in_repository operation_already_in_progress : DiskResult

-- Both ways were forced, or an error of one of them.
pub data ExecuteError (E : Type 0) : Type 0 where
  conflicting_options : ExecuteError E
  caused : E → ExecuteError E

-- A call that may change the state of the repository (W), also where it fails.
abbrev pub Action : Type 0 → Type 0 → Type 0 → Type 0
Action W E A = W → Result E A × W

-- `?` on what a call came to, and the rest
abbrev pub after :
    {W E A B : Type 0}
    → Result E A × W
    → (A → Action W (ExecuteError E) B)
    → Result (ExecuteError E) B × W
after (ok a, w) rest = rest a w
after (err e, w) rest = (err (caused e), w)

module _ {W E : Type 0} (options : ExecuteRebasePlanOptions)
    (rebase_in_memory : Action W E RebaseInMemoryResult)
    (post_rebase : Map NonZeroOid MaybeZeroOid → Option NonZeroOid → Action W E ExitCode)
    (rebase_on_disk : Action W E DiskResult) where
  abbrev pub disk_result : DiskResult → ExecuteRebasePlanResult
  disk_result (exited code) = if code == 0 then succeeded_with none else failed code
  disk_result changed_files_in_repository = failed 1
  disk_result operation_already_in_progress = failed 1

  -- `if !force_in_memory`, and the end of the function
  unfoldable pub execute_on_disk : Action W (ExecuteError E) ExecuteRebasePlanResult
  execute_on_disk w = elim options.force_in_memory [
    | true ↦ (err conflicting_options, w)
    | false ↦ after (rebase_on_disk w) λ result w'. (ok (disk_result result), w')
  ]

  unfoldable pub execute_in_memory :
      RebaseInMemoryResult → Action W (ExecuteError E) ExecuteRebasePlanResult
  unfolding execute_on_disk
  execute_in_memory (succeeded rewritten_oids new_head_oid) w = elim options.dry_run [
    | true ↦ (ok would_succeed, w)
    | false ↦
        after (post_rebase rewritten_oids new_head_oid w)
          λ _ w'. (ok (succeeded_with (some rewritten_oids)), w')
  ]
  execute_in_memory (merge_failed info) w = elim options.resolve_merge_conflicts [
    | false ↦ (ok (declined_to_merge info), w)
    | true ↦ elim options.force_in_memory [
      | true ↦ (ok (declined_to_merge info), w)
      | false ↦ execute_on_disk w
    ]
  ]

  unfoldable pub execute_rebase_plan : Action W (ExecuteError E) ExecuteRebasePlanResult
  unfolding execute_on_disk execute_in_memory
  execute_rebase_plan w = elim options.force_on_disk [
    | true ↦ execute_on_disk w
    | false ↦ after (rebase_in_memory w) execute_in_memory
  ]
