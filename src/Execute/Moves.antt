-- ===== src/Execute/Moves.antt =====
-- git-branchless-lib/src/core/rewrite/execute.rs: what `move_branches` does to the references, and what it
-- reports of it.
use git_branchless.Prelude.{
  ◌≡◌, refl, ap, ◌∙◌, inl, inr, Option, none, some, Option-cases, true, Bool-cases, ◌==◌, ==_iff,
  string_eq, if◌then◌else◌, List, [], ◌∷◌, ◌++◌, Result, ok, err, Result-cases, arith,
}
use git_branchless.Prelude.Map.{Map, lookup, insert, remove, lookup-insert, lookup-remove}
use git_branchless.Oid.{NonZeroOid, MaybeZeroOid, non_zero, to_option, oid_eq}
use git_branchless.EventLog.{ReferenceName}
use git_branchless.Reference.{categorize, render_suffix, is_local_branch}
use git_branchless.Execute.Branches.{
  Refs, BranchMove, BranchRepo, MoveState, Progress, next, stopped, aborted, on_with, push_move,
  point_to, delete_main, move_main, delete_branch, drop_name, for_names, move_names, move_all,
  MovedBranches, run_moves_hook, finish_moves, move_branches,
}

-- A local branch is found by its name without the prefix exactly if it is there.
pub record IsBranchRepo {E : Type 0} (repo : BranchRepo E) : Type 0 where
  pub found :
      (refs : Refs) (name other : ReferenceName)
      → is_local_branch (categorize name) ≡ true
      → repo.find_branch refs (render_suffix (categorize name)) ≡ ok (some other)
      → other ≡ name
  pub missing :
      (refs : Refs) (name : ReferenceName)
      → is_local_branch (categorize name) ≡ true
      → repo.find_branch refs (render_suffix (categorize name)) ≡ ok none
      → lookup name refs ≡ none

-- where a reference is after some moves, from where it was
abbrev pub moved_to : List BranchMove → ReferenceName → Option NonZeroOid → Option NonZeroOid
moved_to [] name target = target
moved_to ((_, (new_oid, moved)) ∷ moves) name target =
    moved_to moves name (if moved == name then to_option new_oid else target)

moved_to-append :
    (xs ys : List BranchMove) (name : ReferenceName) (target : Option NonZeroOid)
    → moved_to (xs ++ ys) name target ≡ moved_to ys name (moved_to xs name target)
moved_to-append [] ys name target = refl
moved_to-append ((_, (new_oid, moved)) ∷ xs) ys name target =
    moved_to-append xs ys name (if moved == name then to_option new_oid else target)

-- every reference is where the moves say
abbrev pub IsTracked : Refs → MoveState → Type 0
IsTracked refs state =
    (name : ReferenceName)
    → lookup name state.refs ≡ moved_to state.branch_moves name (lookup name refs)

push_move-IsTracked :
    (refs refs' : Refs) (state : MoveState) (old_oid : NonZeroOid) (new_oid : MaybeZeroOid)
    (moved : ReferenceName)
    → IsTracked refs state
    → ((name : ReferenceName)
        → lookup name refs' ≡ (if moved == name then to_option new_oid else lookup name state.refs))
    → IsTracked refs (push_move old_oid new_oid moved (record state { refs = refs' }))
push_move-IsTracked refs refs' state old_oid new_oid moved h changed name =
    rw
      (
        moved_to-append state.branch_moves ((old_oid, (new_oid, moved)) ∷ []) name
            (lookup name refs),
        changed name,
        h name,
      )
      refl

-- whatever ends it
abbrev pub Throughout : {E : Type 0} → (MoveState → Type 0) → Progress E → Type 0
Throughout P (next state) = P state
Throughout P (stopped state _) = P state
Throughout P (aborted state _) = P state

on_with-Throughout :
    {E : Type 0} (P : MoveState → Type 0) (p : Progress E) (k : MoveState → Progress E)
    → Throughout P p
    → ((state : MoveState) → P state → Throughout P (k state))
    → Throughout P (on_with p k)
on_with-Throughout P (next state) k h rest = rest state h
on_with-Throughout P (stopped state e) k h rest = h
on_with-Throughout P (aborted state e) k h rest = h

module _ {E : Type 0} (repo : BranchRepo E) (lawful : IsBranchRepo repo) (refs : Refs) where
  abbrev P : MoveState → Type 0
  P state = IsTracked refs state

  point_to-IsTracked :
      (old_oid new_oid : NonZeroOid) (name : ReferenceName) (state : MoveState)
      → P state
      → Throughout P (point_to repo old_oid new_oid name state)
  unfolding point_to
  point_to-IsTracked old_oid new_oid name state h =
      elim (Result-cases (repo.create_reference state.refs name new_oid)) [
        | inr (e, refused) ↦ rw (refused, point_to) h
        | inl (_, done) ↦
            rw (done, point_to)
              (push_move-IsTracked refs (insert name new_oid state.refs) state old_oid
                (non_zero new_oid) name h λ other. lookup-insert name other new_oid state.refs)
      ]

  delete_main-IsTracked :
      (old_oid : NonZeroOid) (name : ReferenceName) (state : MoveState)
      → P state
      → Throughout P (delete_main repo old_oid name state)
  unfolding delete_main
  delete_main-IsTracked old_oid name state h =
      elim (Result-cases (repo.find_main_branch state.refs)) [
        | inr (e, lost) ↦ rw (lost, delete_main) h
        | inl (_, found) ↦ elim (Result-cases (repo.delete state.refs name)) [
          | inr (e, refused) ↦ rw (found, delete_main, refused) h
          | inl (_, done) ↦
              rw (found, delete_main, done)
                (push_move-IsTracked refs (remove name state.refs) state old_oid MaybeZeroOid.zero
                  name h λ other. lookup-remove name other state.refs)
        ]
      ]

  delete_branch-IsTracked :
      (old_oid : NonZeroOid) (name : ReferenceName) (state : MoveState)
      → is_local_branch (categorize name) ≡ true
      → P state
      → Throughout P (delete_branch repo old_oid name state)
  unfolding delete_branch
  delete_branch-IsTracked old_oid name state local h =
      elim (Result-cases (repo.find_branch state.refs (render_suffix (categorize name)))) [
        | inr (e, unknown) ↦ rw (unknown, delete_branch) h
        | inl (branch, known) ↦ elim (Option-cases branch) [
          | inl absent ↦
              let gone = lawful.missing state.refs name local (known ∙ ap ok absent) in
              rw (known, delete_branch, absent)
                (push_move-IsTracked refs state.refs state old_oid MaybeZeroOid.zero name h
                  λ other. ground (arith, gone, ==_iff name other))
          | inr (found, present) ↦
              let is_name = lawful.found state.refs name found local (known ∙ ap ok present) in
              elim (Result-cases (repo.delete state.refs found)) [
                | inr (e, refused) ↦ rw (known, delete_branch, present, refused) h
                | inl (_, done) ↦
                    rw (known, delete_branch, present, done)
                      (push_move-IsTracked refs (remove found state.refs) state old_oid
                        MaybeZeroOid.zero name h
                        λ other. rw is_name (lookup-remove name other state.refs))
              ]
        ]
      ]

  drop_name-IsTracked :
      (main : ReferenceName) (old_oid : NonZeroOid) (name : ReferenceName) (state : MoveState)
      → P state
      → Throughout P (drop_name repo main old_oid name state)
  unfolding drop_name move_main
  drop_name-IsTracked main old_oid name state h = elim (Bool-cases (name == main)) [
    | inl is_main ↦ elim (Result-cases (repo.get_upstream_branch_target state.refs)) [
      | inr (e, unknown) ↦ rw (is_main, drop_name, unknown, move_main) h
      | inl (target, known) ↦ elim (Option-cases target) [
        | inl no_upstream ↦
            rw (is_main, drop_name, known, move_main, no_upstream)
              (delete_main-IsTracked old_oid name state h)
        | inr (target_oid, upstream) ↦
            rw (is_main, drop_name, known, move_main, upstream)
              (point_to-IsTracked old_oid target_oid name state h)
      ]
    ]
    | inr other ↦ elim (Bool-cases (is_local_branch (categorize name))) [
      | inl local ↦
          rw (other, drop_name, local) (delete_branch-IsTracked old_oid name state local h)
      | inr remote ↦ rw (other, drop_name, remote) h
    ]
  ]

  for_names-IsTracked :
      (move : ReferenceName → MoveState → Progress E)
      → ((name : ReferenceName) (state : MoveState) → P state → Throughout P (move name state))
      → (names : List ReferenceName) (state : MoveState) → P state
      → Throughout P (for_names repo move names state)
  unfolding for_names
  for_names-IsTracked move moves [] state h = h
  for_names-IsTracked move moves (name ∷ names) state h =
      on_with-Throughout P (move name state) (for_names repo move names) (moves name state h)
        (for_names-IsTracked move moves names)

  move_names-IsTracked :
      (main : ReferenceName) (old_oid : NonZeroOid) (new_oid : MaybeZeroOid)
      (names : List ReferenceName) (state : MoveState)
      → P state
      → Throughout P (move_names repo main old_oid new_oid names state)
  unfolding move_names
  move_names-IsTracked main old_oid MaybeZeroOid.zero names state h =
      for_names-IsTracked (drop_name repo main old_oid) (drop_name-IsTracked main old_oid) names
        state h
  move_names-IsTracked main old_oid (non_zero new_oid) names state h =
      elim (Result-cases (repo.find_commit_or_fail new_oid)) [
        | inr (e, lost) ↦ rw (lost, move_names) h
        | inl (_, found) ↦
            rw (found, move_names)
              (for_names-IsTracked (point_to repo old_oid new_oid)
                (point_to-IsTracked old_oid new_oid) names state h)
      ]

  move_all-IsTracked :
      (main : ReferenceName) (rewritten : Map NonZeroOid MaybeZeroOid)
      (entries : Map NonZeroOid (List ReferenceName)) (state : MoveState)
      → P state
      → Throughout P (move_all repo main rewritten entries state)
  unfolding move_all
  move_all-IsTracked main rewritten [] state h = h
  move_all-IsTracked main rewritten ((old_oid, names) ∷ entries) state h =
      elim (Option-cases (lookup old_oid rewritten)) [
        | inl kept ↦ rw (kept, move_all) (move_all-IsTracked main rewritten entries state h)
        | inr (new_oid, found) ↦
            rw (found, move_all)
              (on_with-Throughout P (move_names repo main old_oid new_oid names state)
                (move_all repo main rewritten entries)
                (move_names-IsTracked main old_oid new_oid names state h)
                (move_all-IsTracked main rewritten entries))
      ]

  -- what the hook is told, if it is run, is what has become of the references
  abbrev pub IsReported : MovedBranches E → Type 0
  IsReported moved =
      (moves : List BranchMove)
      → moved.reported ≡ some moves
      → (name : ReferenceName) → lookup name moved.refs ≡ moved_to moves name (lookup name refs)

  hook-IsReported :
      (state : MoveState) (outcome : Result E Unit)
      → P state
      → IsReported (run_moves_hook repo state outcome)
  unfolding run_moves_hook
  hook-IsReported state outcome h moves told name =
      let same : state.branch_moves ≡ moves = ground arith in rw (← same) (h name)

  finish_moves-IsReported : (p : Progress E) → Throughout P p → IsReported (finish_moves repo p)
  unfolding finish_moves
  finish_moves-IsReported (next state) h = hook-IsReported state (ok tt) h
  finish_moves-IsReported (stopped state e) h = hook-IsReported state (err e) h
  finish_moves-IsReported (aborted state e) h = λ moves told. absurd (cc told)

  -- The moves that the hook is told, one after the other, are exactly what becomes of the references, and
  -- that also if an error ends the moving early, as long as the hook is run at all; a local branch is found
  -- by its name exactly if it is there.
  pub move_branches-IsReported :
      (rewritten : Map NonZeroOid MaybeZeroOid)
      (get_branch_oid_to_names : Result E (Map NonZeroOid (List ReferenceName)))
      → IsReported (move_branches repo rewritten get_branch_oid_to_names refs)
  unfolding move_branches
  move_branches-IsReported rewritten get_branch_oid_to_names =
      elim (Result-cases repo.main_branch_name) [
        | inr (e, lost) ↦ rw lost λ moves told. absurd (cc told)
        | inl (main, found) ↦ elim (Result-cases get_branch_oid_to_names) [
          | inr (e, unread) ↦ rw (found, move_branches, unread) λ moves told. absurd (cc told)
          | inl (entries, read) ↦
              rw (found, move_branches, read)
                (finish_moves-IsReported
                  (move_all repo main rewritten entries (record { refs = refs; branch_moves = [] }))
                  (move_all-IsTracked main rewritten entries
                    (record { refs = refs; branch_moves = [] }) λ name. refl))
        ]
      ]
