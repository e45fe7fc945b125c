-- ===== src/Execute/InMemory.antt =====
-- git-branchless-lib/src/core/rewrite/execute.rs: `rebase_in_memory`.
-- The repository answers as its store is; what it writes is a new store. Progress and messages are
-- left out, but for the questions they put, which can fail.
use git_branchless.Prelude.{
  Option, none, some, Bool, ◌==◌, string_eq, if◌then◌else◌, List, [], ◌∷◌, String, Result, ok, err,
  ◌>>=◌, find_map, length, ltb, option_eq,
}
use git_branchless.Prelude.Map.{Map, lookup, insert}
use git_branchless.Oid.{NonZeroOid, MaybeZeroOid, non_zero, oid_eq}
use git_branchless.Plan.{
  OidOrLabel, oid, label, RebaseCommand, create_label, reset, pick, merge, replace, break,
  register_extra_post_rewrite_hook, detect_empty_commit, skip_upstream_applied_commit, RebasePlan,
}
use git_branchless.Plan.Build.{Commit}

pub data FailedMergeInfo : Type 0 where
  conflict : NonZeroOid → List String → FailedMergeInfo
  cannot_rebase_merge_in_memory : NonZeroOid → FailedMergeInfo

pub data RebaseInMemoryResult : Type 0 where
  -- rewritten_oids, new_head_oid
  succeeded : Map NonZeroOid MaybeZeroOid → Option NonZeroOid → RebaseInMemoryResult
  merge_failed : FailedMergeInfo → RebaseInMemoryResult

-- How the loop over the commands is left early: the errors of the function itself by name, those of
-- the repository as reports, a failed `expect`, and `return Ok(MergeFailed(..))`.
pub data Stop (E : Type 0) : Type 0 where
  report : E → Stop E
  missing_label : String → Stop E
  break_not_supported panic : Stop E
  merging : FailedMergeInfo → Stop E

pub data CreateCommitFastError (E : Type 0) : Type 0 where
  merge_conflict : List String → CreateCommitFastError E
  other : E → CreateCommitFastError E

-- What the rebase asks of the repository.
pub record Repo (E Store Signature Tree : Type 0) : Type 0 where
  pub find_commit_or_fail : Store → NonZeroOid → Result E Commit
  pub find_commit : Store → NonZeroOid → Result E (Option Commit)
  -- `get_message_raw` as text
  pub get_message : Commit → Result E String
  pub get_author : Commit → Signature
  pub get_committer : Commit → Signature
  pub update_timestamp : Signature → Result E Signature
  pub get_tree : Commit → Result E Tree
  pub is_empty_commit : Store → Commit → Bool
  pub friendly_describe : Store → NonZeroOid → Result E String
  pub cherry_pick_fast : Store → Commit → Commit → Result (CreateCommitFastError E) Tree
  pub amend_fast : Store → Commit → Commit → Result (CreateCommitFastError E) Tree
  -- author, committer, message, tree, parents
  pub create_commit :
      Store → Signature → Signature → String → Tree → List Commit → Result E (NonZeroOid × Store)

pub record RebaseState (Store : Type 0) : Type 0 where
  pub store : Store
  pub current_oid : NonZeroOid
  pub labels : Map String NonZeroOid
  pub rewritten_oids : Map NonZeroOid MaybeZeroOid
  pub skipped_head_new_oid : Option NonZeroOid

abbrev pub checked : {E A : Type 0} → Result E A → Result (Stop E) A
checked (ok a) = ok a
checked (err e) = err (report e)

-- the tree of a commit to apply, or the way the loop is left
abbrev pub tree_or_stop :
    {E Tree : Type 0} → NonZeroOid → Result (CreateCommitFastError E) Tree → Result (Stop E) Tree
tree_or_stop commit_oid (ok tree) = ok tree
tree_or_stop commit_oid (err (merge_conflict paths)) = err (merging (conflict commit_oid paths))
tree_or_stop commit_oid (err (other e)) = err (report e)

abbrev pub refuse_merge : {E : Type 0} → NonZeroOid → Commit → Result (Stop E) Unit
refuse_merge o commit =
    if ltb 1 (length commit.parent_oids)
    then err (merging (cannot_rebase_merge_in_memory o))
    else ok tt

-- where a label stands
abbrev pub find_label : {E : Type 0} → Map String NonZeroOid → String → Result (Stop E) NonZeroOid
find_label labels name = elim (lookup name labels) [
  | none ↦ err (missing_label name)
  | some o ↦ ok o
]

-- `rewritten_oids.insert` for several commits with one new version
unfoldable pub insert_all :
    List NonZeroOid → NonZeroOid → Map NonZeroOid MaybeZeroOid → Map NonZeroOid MaybeZeroOid
insert_all [] new_oid m = m
insert_all (o ∷ os) new_oid m = insert_all os new_oid (insert o (non_zero new_oid) m)

-- a merge among the commands
abbrev pub merge_of : RebaseCommand → Option NonZeroOid
merge_of (merge commit_oid _) = some commit_oid
merge_of _ = none

abbrev pub start_state : {Store : Type 0} → Store → RebasePlan → RebaseState Store
start_state store plan = record {
  store = store;
  current_oid = plan.first_dest_oid;
  labels = [];
  rewritten_oids = [];
  skipped_head_new_oid = none;
}

-- `return Ok(..)` of the loop
abbrev pub caught :
    {E : Type 0} → Result (Stop E) RebaseInMemoryResult → Result (Stop E) RebaseInMemoryResult
caught (ok result) = ok result
caught (err (merging info)) = ok (merge_failed info)
caught (err (report e)) = err (report e)
caught (err (missing_label name)) = err (missing_label name)
caught (err break_not_supported) = err break_not_supported
caught (err panic) = err panic

module _ {Store : Type 0} (head_oid : Option NonZeroOid) where
  unfoldable pub maybe_set_skipped_head_new_oid : NonZeroOid → RebaseState Store → RebaseState Store
  maybe_set_skipped_head_new_oid skipped_head_oid state =
      if some skipped_head_oid == head_oid
      then record state {
        skipped_head_new_oid = elim state.skipped_head_new_oid [
          | none ↦ some state.current_oid
          | some o ↦ some o
        ];
      }
      else state

  -- a commit that is left out
  unfoldable pub skip_commit : NonZeroOid → RebaseState Store → RebaseState Store
  unfolding maybe_set_skipped_head_new_oid
  skip_commit o state =
      maybe_set_skipped_head_new_oid o
        (record state { rewritten_oids = insert o MaybeZeroOid.zero state.rewritten_oids })

  -- `new_head_oid`
  unfoldable pub new_head : RebaseState Store → Option NonZeroOid
  new_head state = elim head_oid [
    | none ↦ none
    | some head ↦ elim (lookup head state.rewritten_oids) [
      | none ↦ some head
      | some new_oid ↦ elim new_oid [
        | non_zero new_head_oid ↦ some new_head_oid
        | MaybeZeroOid.zero ↦ elim state.skipped_head_new_oid [ none ↦ some head | some o ↦ some o ]
      ]
    ]
  ]

module _ {E Store Signature Tree : Type 0} (repo : Repo E Store Signature Tree)
    (preserve_timestamps : Bool) where
  unfoldable pub committer_signature : Commit → Result (Stop E) Signature
  committer_signature commit =
      if preserve_timestamps
      then ok (repo.get_committer commit)
      else checked (repo.update_timestamp (repo.get_committer commit))

  -- The loop over `commits_to_apply_oids`; `rebased` is the identifier and the commit that the turns
  -- before have made.
  unfoldable pub apply_commits :
      Commit
      → Commit
      → Signature
      → String
      → List NonZeroOid
      → Option (NonZeroOid × Option Commit)
      → Store
      → Result (Stop E) (Option (NonZeroOid × Option Commit) × Store)
  apply_commits current original committer message [] rebased store = ok (rebased, store)
  apply_commits current original committer message (o ∷ os) rebased store = do
    commit_to_apply ← checked (repo.find_commit_or_fail store o)
    _ ← checked (repo.friendly_describe store o)
    _ ← refuse_merge o commit_to_apply
    tree ← tree_or_stop o (elim rebased [
      | some (_, some previous) ↦ repo.amend_fast store previous commit_to_apply
      | some (_, none) ↦ repo.cherry_pick_fast store commit_to_apply current
      | none ↦ repo.cherry_pick_fast store commit_to_apply current
    ])
    (rebased_oid, store') ←
        checked (
          repo.create_commit store (repo.get_author original) committer message tree (current ∷ []))
    rebased_commit ← checked (repo.find_commit store' rebased_oid)
    apply_commits current original committer message os (some (rebased_oid, rebased_commit)) store'

  -- a replaced commit's parents
  unfoldable pub find_parents :
      Store → Map String NonZeroOid → List OidOrLabel → Result (Stop E) (List Commit)
  find_parents store labels [] = ok []
  find_parents store labels (parent ∷ parents) =
      elim parent [ oid o ↦ ok o | label name ↦ find_label labels name ] >>= λ o.
      checked (repo.find_commit_or_fail store o) >>= λ commit.
      find_parents store labels parents >>= λ commits. ok (commit ∷ commits)

  module _ (head_oid : Option NonZeroOid) where
    -- what becomes of the commit that the pick has made
    unfoldable pub finish_pick :
        NonZeroOid
        → List NonZeroOid
        → Store
        → RebaseState Store
        → Option (NonZeroOid × Option Commit)
        → Result (Stop E) (RebaseState Store)
    unfolding skip_commit insert_all
    finish_pick original_oid to_apply store' state none = err panic
    finish_pick original_oid to_apply store' state (some (rebased_oid, none)) =
        checked (repo.friendly_describe store' rebased_oid) >>= λ _. err panic
    finish_pick original_oid to_apply store' state (some (rebased_oid, some commit)) =
        checked (repo.friendly_describe store' rebased_oid) >>= λ _.
        if repo.is_empty_commit store' commit
        then ok (skip_commit head_oid original_oid (record state { store = store' }))
        else ok (record state {
          store = store';
          rewritten_oids =
              insert_all to_apply rebased_oid
                (insert original_oid (non_zero rebased_oid) state.rewritten_oids);
          current_oid = rebased_oid;
        })

    unfoldable pub run_pick :
        NonZeroOid → List NonZeroOid → RebaseState Store → Result (Stop E) (RebaseState Store)
    unfolding committer_signature apply_commits finish_pick
    run_pick original_oid to_apply state = do
      current ← checked (repo.find_commit_or_fail state.store state.current_oid)
      original ← checked (repo.find_commit_or_fail state.store original_oid)
      message ← checked (repo.get_message original)
      committer ← committer_signature original
      (rebased, store') ← apply_commits current original committer message to_apply none state.store
      finish_pick original_oid to_apply store' state rebased

    unfoldable pub run_replace :
        NonZeroOid
        → NonZeroOid
        → List OidOrLabel
        → RebaseState Store
        → Result (Stop E) (RebaseState Store)
    unfolding committer_signature find_parents
    run_replace commit_oid replacement_oid parents state = do
      _ ← checked (repo.find_commit_or_fail state.store commit_oid)
      _ ← checked (repo.friendly_describe state.store commit_oid)
      replacement ← checked (repo.find_commit_or_fail state.store replacement_oid)
      tree ← checked (repo.get_tree replacement)
      message ← checked (repo.get_message replacement)
      _ ← checked (repo.friendly_describe state.store replacement_oid)
      committer ← committer_signature replacement
      parent_commits ← find_parents state.store state.labels parents
      (rebased_oid, store') ← checked (
          repo.create_commit state.store (repo.get_author replacement) committer message tree
            parent_commits)
      _ ← checked (repo.friendly_describe store' rebased_oid)
      ok (record state {
        store = store';
        rewritten_oids = insert commit_oid (non_zero rebased_oid) state.rewritten_oids;
        current_oid = rebased_oid;
      })

    -- the body of the loop over the commands
    unfoldable pub run_command :
        RebaseCommand → RebaseState Store → Result (Stop E) (RebaseState Store)
    unfolding run_pick run_replace skip_commit
    run_command (create_label name) state =
        ok (record state { labels = insert name state.current_oid state.labels })
    run_command (reset (label name)) state =
        find_label state.labels name >>= λ o. ok (record state { current_oid = o })
    run_command (reset (oid o)) state = ok (record state {
      current_oid = elim (lookup o state.rewritten_oids) [
        | none ↦ o
        | some new_oid ↦ elim new_oid [
          | MaybeZeroOid.zero ↦ o
          | non_zero rewritten_oid ↦ rewritten_oid
        ]
      ];
    })
    run_command (pick original_oid to_apply) state = run_pick original_oid to_apply state
    run_command (merge commit_oid _) state =
        err (merging (cannot_rebase_merge_in_memory commit_oid))
    run_command (replace commit_oid replacement_oid parents) state =
        run_replace commit_oid replacement_oid parents state
    run_command break state = err break_not_supported
    run_command (skip_upstream_applied_commit o) state =
        checked (repo.find_commit_or_fail state.store o) >>= λ _.
        checked (repo.friendly_describe state.store o) >>= λ _. ok (skip_commit head_oid o state)
    run_command register_extra_post_rewrite_hook state = ok state
    run_command (detect_empty_commit _) state = ok state

    unfoldable pub run_commands :
        List RebaseCommand → RebaseState Store → Result (Stop E) (RebaseState Store)
    unfolding run_command
    run_commands [] state = ok state
    run_commands (c ∷ cs) state = run_command c state >>= λ state'. run_commands cs state'

  unfoldable pub rebase_in_memory :
      Result E (Option NonZeroOid) → Store → RebasePlan → Result (Stop E) RebaseInMemoryResult
  unfolding run_commands new_head
  rebase_in_memory get_head_oid store plan = elim (find_map merge_of plan.commands) [
    | some commit_oid ↦ ok (merge_failed (cannot_rebase_merge_in_memory commit_oid))
    | none ↦ caught (
        checked get_head_oid >>= λ head_oid.
        run_commands head_oid plan.commands (start_state store plan) >>= λ state.
        ok (succeeded state.rewritten_oids (new_head head_oid state)))
  ]
