-- ===== src/Execute/Branches.antt =====
-- git-branchless-lib/src/core/rewrite/execute.rs: `move_branches`.
-- The references are a map from their names. What libgit2 refuses is a question to the repository; what
-- it does is written out here. The names of a commit are taken in their sorted order.
use git_branchless.Prelude.{
  Option, none, some, true, false, ◌==◌, string_eq, List, [], ◌∷◌, ◌++◌, String, Result, ok, err,
}
use git_branchless.Prelude.Map.{Map, lookup, insert, remove}
use git_branchless.Oid.{NonZeroOid, MaybeZeroOid, non_zero, oid_eq}
use git_branchless.EventLog.{ReferenceName}
use git_branchless.Reference.{categorize, render_suffix, is_local_branch}

abbrev pub Refs : Type 0
Refs = Map ReferenceName NonZeroOid

-- old_oid, new_oid, reference_name
abbrev pub BranchMove : Type 0
BranchMove = NonZeroOid × (MaybeZeroOid × ReferenceName)

pub record BranchRepo (E : Type 0) : Type 0 where
  -- `get_main_branch` and its name
  pub main_branch_name : Result E ReferenceName
  pub get_upstream_branch_target : Refs → Result E (Option NonZeroOid)
  -- `get_main_branch` once more, before the main branch is deleted
  pub find_main_branch : Refs → Result E Unit
  pub find_commit_or_fail : NonZeroOid → Result E Unit
  -- the local branch of a name without its prefix
  pub find_branch : Refs → String → Result E (Option ReferenceName)
  -- whether the write and the deletion are accepted
  pub create_reference : Refs → ReferenceName → NonZeroOid → Result E Unit
  pub delete : Refs → ReferenceName → Result E Unit
  pub run_hook : List BranchMove → Result E Unit

pub record MoveState : Type 0 where
  pub refs : Refs
  pub branch_moves : List BranchMove

-- After a name or a commit: on with the loop, out of it by `break 'outer`, or out of the function by `?`.
pub data Progress (E : Type 0) : Type 0 where
  next : MoveState → Progress E
  stopped aborted : MoveState → E → Progress E

abbrev pub on_with : {E : Type 0} → Progress E → (MoveState → Progress E) → Progress E
on_with (next state) k = k state
on_with (stopped state e) k = stopped state e
on_with (aborted state e) k = aborted state e

abbrev pub push_move : NonZeroOid → MaybeZeroOid → ReferenceName → MoveState → MoveState
push_move old_oid new_oid name state = record state {
  branch_moves = state.branch_moves ++ (old_oid, (new_oid, name)) ∷ [];
}

-- The references afterwards, the moves that the hook was told, if it was run, and the result.
pub record MovedBranches (E : Type 0) : Type 0 where
  pub refs : Refs
  pub reported : Option (List BranchMove)
  pub result : Result E Unit

module _ {E : Type 0} (repo : BranchRepo E) where
  unfoldable pub point_to : NonZeroOid → NonZeroOid → ReferenceName → MoveState → Progress E
  point_to old_oid new_oid name state = elim (repo.create_reference state.refs name new_oid) [
    | err e ↦ stopped state e
    | ok _ ↦ next (
        push_move old_oid (non_zero new_oid) name
          (record state { refs = insert name new_oid state.refs }))
  ]

  unfoldable pub delete_main : NonZeroOid → ReferenceName → MoveState → Progress E
  delete_main old_oid name state = elim (repo.find_main_branch state.refs) [
    | err e ↦ aborted state e
    | ok _ ↦ elim (repo.delete state.refs name) [
      | err e ↦ stopped state e
      | ok _ ↦ next (
          push_move old_oid MaybeZeroOid.zero name (record state { refs = remove name state.refs }))
    ]
  ]

  -- the main branch goes to its upstream
  unfoldable pub move_main : NonZeroOid → ReferenceName → MoveState → Progress E
  unfolding point_to delete_main
  move_main old_oid name state = elim (repo.get_upstream_branch_target state.refs) [
    | err e ↦ aborted state e
    | ok target ↦ elim target [
      | some target_oid ↦ point_to old_oid target_oid name state
      | none ↦ delete_main old_oid name state
    ]
  ]

  unfoldable pub delete_branch : NonZeroOid → ReferenceName → MoveState → Progress E
  delete_branch old_oid name state =
      elim (repo.find_branch state.refs (render_suffix (categorize name))) [
        | err e ↦ stopped state e
        | ok branch ↦ elim branch [
          | none ↦ next (push_move old_oid MaybeZeroOid.zero name state)
          | some found ↦ elim (repo.delete state.refs found) [
            | err e ↦ stopped state e
            | ok _ ↦ next (
                push_move old_oid MaybeZeroOid.zero name
                  (record state { refs = remove found state.refs }))
          ]
        ]
      ]

  -- a name of a commit that was skipped
  unfoldable pub drop_name : ReferenceName → NonZeroOid → ReferenceName → MoveState → Progress E
  unfolding move_main delete_branch
  drop_name main_branch_name old_oid name state = elim (name == main_branch_name) [
    | true ↦ move_main old_oid name state
    | false ↦ elim (is_local_branch (categorize name)) [
      | true ↦ delete_branch old_oid name state
      | false ↦ next state
    ]
  ]

  unfoldable pub for_names :
      (ReferenceName → MoveState → Progress E) → List ReferenceName → MoveState → Progress E
  for_names move [] state = next state
  for_names move (name ∷ names) state = on_with (move name state) (for_names move names)

  -- the turn of a commit that was rewritten
  unfoldable pub move_names :
      ReferenceName → NonZeroOid → MaybeZeroOid → List ReferenceName → MoveState → Progress E
  unfolding point_to drop_name for_names
  move_names main_branch_name old_oid (non_zero new_oid) names state =
      elim (repo.find_commit_or_fail new_oid) [
        | err e ↦ stopped state e
        | ok _ ↦ for_names (point_to old_oid new_oid) names state
      ]
  move_names main_branch_name old_oid MaybeZeroOid.zero names state =
      for_names (drop_name main_branch_name old_oid) names state

  -- the loop over `branch_oid_to_names`
  unfoldable pub move_all :
      ReferenceName
      → Map NonZeroOid MaybeZeroOid
      → Map NonZeroOid (List ReferenceName)
      → MoveState
      → Progress E
  unfolding move_names
  move_all main_branch_name rewritten_oids [] state = next state
  move_all main_branch_name rewritten_oids ((old_oid, names) ∷ entries) state =
      elim (lookup old_oid rewritten_oids) [
        | none ↦ move_all main_branch_name rewritten_oids entries state
        | some new_oid ↦
            on_with (move_names main_branch_name old_oid new_oid names state)
              (move_all main_branch_name rewritten_oids entries)
      ]

  -- the hook, and then the error that ended the loop
  unfoldable pub run_moves_hook : MoveState → Result E Unit → MovedBranches E
  run_moves_hook state outcome = record {
    refs = state.refs;
    reported = some state.branch_moves;
    result = elim (repo.run_hook state.branch_moves) [ err e ↦ err e | ok _ ↦ outcome ];
  }

  unfoldable pub finish_moves : Progress E → MovedBranches E
  unfolding run_moves_hook
  finish_moves (next state) = run_moves_hook state (ok tt)
  finish_moves (stopped state e) = run_moves_hook state (err e)
  finish_moves (aborted state e) = record { refs = state.refs; reported = none; result = err e }

  unfoldable pub move_branches :
      Map NonZeroOid MaybeZeroOid
      → Result E (Map NonZeroOid (List ReferenceName))
      → Refs
      → MovedBranches E
  unfolding move_all finish_moves
  move_branches rewritten_oids get_branch_oid_to_names refs = elim repo.main_branch_name [
    | err e ↦ record { refs = refs; reported = none; result = err e }
    | ok main_branch_name ↦ elim get_branch_oid_to_names [
      | err e ↦ record { refs = refs; reported = none; result = err e }
      | ok branch_oid_to_names ↦ finish_moves (
          move_all main_branch_name rewritten_oids branch_oid_to_names
            (record { refs = refs; branch_moves = [] }))
    ]
  ]
