-- ===== src/Execute/Arrives.antt =====
-- git-branchless-lib/src/core/rewrite/execute.rs: where `move_branches` leaves a branch.
mod Names
use git_branchless.Prelude.{
  ◌≡◌, refl, sym, ap, ◌∙◌, inl, inr, some, Option-cases, Bool, true, false, Bool-cases, ◌==◌,
  ==_iff, string_eq, List, [], ◌∷◌, ok, err, Result-cases, contains, arith,
}
use git_branchless.Prelude.Map.{Map, lookup, insert, remove, lookup-insert, lookup-remove}
use git_branchless.Oid.{NonZeroOid, MaybeZeroOid, non_zero, oid_eq}
use git_branchless.EventLog.{ReferenceName}
use git_branchless.Reference.{categorize, render_suffix, is_local_branch}
use git_branchless.Execute.Branches.{
  Refs, BranchMove, BranchRepo, MoveState, Progress, next, stopped, aborted, on_with, point_to,
  delete_main, move_main, delete_branch, drop_name, for_names, move_names, move_all, run_moves_hook,
  finish_moves, move_branches,
}
use git_branchless.Execute.Moves.{IsBranchRepo}
use git_branchless.Execute.Follows.{
  IsAmong, Onward, on_with-Onward, always-Onward, move_branches-IsAmong,
}
use git_branchless.Execute.Arrives.Names.{
  At, point_to-stays, for_names-At, for_names-arrives, move_names-elsewhere,
}

-- A name is listed at no other commit.
abbrev pub IsOnlyAt : ReferenceName → NonZeroOid → Map NonZeroOid (List ReferenceName) → Type 0
IsOnlyAt name oid [] = Unit
IsOnlyAt name oid ((o, names) ∷ entries) =
    (contains names name ≡ true → o ≡ oid) × IsOnlyAt name oid entries

some_same : {A : Type 0} {a b : A} → some a ≡ some b → a ≡ b
some_same e = ground arith

module _ {E : Type 0} (repo : BranchRepo E) (lawful : IsBranchRepo repo) (name : ReferenceName)
    (target : NonZeroOid) where
  abbrev Here : MoveState → Type 0
  Here state = At repo lawful name target state

  module _ (main : ReferenceName) (rewritten : Map NonZeroOid MaybeZeroOid) (old_oid : NonZeroOid)
      (new : lookup old_oid rewritten ≡ some (non_zero target)) where
    -- the turn of the commit of the branch, for the names that are listed there
    turn-stays :
        (names : List ReferenceName) (state : MoveState)
        → Here state
        → Onward Here (move_names repo main old_oid (non_zero target) names state)
    unfolding move_names
    turn-stays names state h = elim (Result-cases (repo.find_commit_or_fail target)) [
      | inr (e, lost) ↦ rw (lost, move_names) tt
      | inl (_, found) ↦
          rw (found, move_names)
            (for_names-At repo lawful name target (point_to repo old_oid target) names
              (λ n _. point_to-stays repo lawful name target old_oid n) state h)
    ]

    turn-arrives :
        (names : List ReferenceName) (state : MoveState)
        → contains names name ≡ true
        → Onward Here (move_names repo main old_oid (non_zero target) names state)
    unfolding move_names
    turn-arrives names state listed = elim (Result-cases (repo.find_commit_or_fail target)) [
      | inr (e, lost) ↦ rw (lost, move_names) tt
      | inl (_, found) ↦
          rw (found, move_names)
            (for_names-arrives repo lawful name target old_oid names state listed)
    ]

    turn_of :
        (o : NonZeroOid) (new_oid : MaybeZeroOid) (names : List ReferenceName) (state : MoveState)
        → (contains names name ≡ true → o ≡ old_oid)
        → lookup o rewritten ≡ some new_oid
        → Here state
        → Onward Here (move_names repo main o new_oid names state)
    turn_of o new_oid names state only found h = elim (Bool-cases (contains names name)) [
      | inr unlisted ↦
          move_names-elsewhere repo lawful name target main o new_oid names state unlisted h
      | inl listed ↦
          let is_old = only listed in
          let is_new : new_oid ≡ non_zero target =
            some_same (sym found ∙ ap (λ x. lookup x rewritten) is_old ∙ new) in
          rw (is_old, is_new) (turn-stays names state h)
    ]

    move_all-stays :
        (entries : Map NonZeroOid (List ReferenceName)) (state : MoveState)
        → IsOnlyAt name old_oid entries
        → Here state
        → Onward Here (move_all repo main rewritten entries state)
    unfolding move_all
    move_all-stays [] state only h = h
    move_all-stays ((o, names) ∷ entries) state only h = elim (Option-cases (lookup o rewritten)) [
      | inl kept ↦ rw (kept, move_all) (move_all-stays entries state only.1 h)
      | inr (new_oid, found) ↦
          rw (found, move_all)
            (on_with-Onward Here Here (move_names repo main o new_oid names state)
              (move_all repo main rewritten entries) (turn_of o new_oid names state only.0 found h)
              λ state'. move_all-stays entries state' only.1)
    ]

    first-arrives :
        (names : List ReferenceName) (entries : Map NonZeroOid (List ReferenceName))
        (state : MoveState)
        → IsOnlyAt name old_oid entries
        → contains names name ≡ true
        → Onward Here (move_all repo main rewritten ((old_oid, names) ∷ entries) state)
    unfolding move_all
    first-arrives names entries state only listed =
        rw (new, move_all)
          (on_with-Onward Here Here (move_names repo main old_oid (non_zero target) names state)
            (move_all repo main rewritten entries) (turn-arrives names state listed)
            λ state'. move_all-stays entries state' only)

    move_all-arrives :
        (entries : Map NonZeroOid (List ReferenceName)) (names : List ReferenceName)
        (state : MoveState)
        → IsOnlyAt name old_oid entries
        → lookup old_oid entries ≡ some names
        → contains names name ≡ true
        → Onward Here (move_all repo main rewritten entries state)
    unfolding lookup move_all
    move_all-arrives [] names state only at_commit listed = absurd (cc at_commit)
    move_all-arrives ((o, others) ∷ entries) names state only at_commit listed =
        elim (Bool-cases (o == old_oid)) [
          | inl same ↦
              let are_names : others ≡ names = ground arith in
              rw ((==_iff o old_oid).0 same)
                (first-arrives others entries state only.1 (rw are_names listed))
          | inr other ↦
              let rest = λ (state' : MoveState).
                move_all-arrives entries names state' only.1 (rw (other, lookup) at at_commit)
                  listed in
              elim (Option-cases (lookup o rewritten)) [
                | inl kept ↦ rw (kept, move_all) (rest state)
                | inr (new_oid, found) ↦
                    rw (found, move_all)
                      (on_with-Onward (λ _. Unit) Here (move_names repo main o new_oid others state)
                        (move_all repo main rewritten entries)
                        (always-Onward (move_names repo main o new_oid others state))
                        λ state' _. rest state')
              ]
        ]

  finish_moves-At :
      (p : Progress E)
      → Onward Here p
      → (finish_moves repo p).result ≡ ok tt
      → lookup name (finish_moves repo p).refs ≡ some target
  unfolding finish_moves run_moves_hook
  finish_moves-At (next state) h e = h
  finish_moves-At (stopped state x) h e = elim (Result-cases (repo.run_hook state.branch_moves)) [
    | inl (_, ran) ↦ absurd (cc (rw (ran, run_moves_hook) at e))
    | inr (y, failed) ↦ absurd (cc (rw (failed, run_moves_hook) at e))
  ]
  finish_moves-At (aborted state x) h e = absurd (cc e)

-- If the moving of the branches succeeds, every branch that was listed at a commit that has a new version,
-- and at no other commit, is at the new version, and the hook was told of its move, if the repository
-- finds a local branch by its name exactly if it is there.
pub move_branches_lem :
    {E : Type 0} (repo : BranchRepo E)
    → IsBranchRepo repo
    → (rewritten : Map NonZeroOid MaybeZeroOid) (refs : Refs)
      (entries : Map NonZeroOid (List ReferenceName))
    → (move_branches repo rewritten (ok entries) refs).result ≡ ok tt
    → (old_oid new_oid : NonZeroOid) (names : List ReferenceName) (name : ReferenceName)
    → lookup old_oid entries ≡ some names
    → contains names name ≡ true
    → IsOnlyAt name old_oid entries
    → lookup old_oid rewritten ≡ some (non_zero new_oid)
    → (lookup name (move_branches repo rewritten (ok entries) refs).refs ≡ some new_oid)
      × (moves : List BranchMove) × ((move_branches repo rewritten (ok entries) refs).reported
          ≡ some moves)
      × IsAmong (old_oid, (non_zero new_oid, name)) moves
unfolding move_branches
move_branches_lem repo lawful rewritten refs entries succeeded old_oid new_oid names name at_commit
      listed only new =
    let (moves, told, among) =
      move_branches-IsAmong repo rewritten refs entries succeeded old_oid new_oid names name
        at_commit listed new in
    elim (Result-cases repo.main_branch_name) [
      | inr (e, lost) ↦ absurd (cc (rw (lost, move_branches) at succeeded))
      | inl (main, found) ↦
          let p =
            move_all repo main rewritten entries (record { refs = refs; branch_moves = [] }) in
          let arrived =
            finish_moves-At repo lawful name new_oid p
              (move_all-arrives repo lawful name new_oid main rewritten old_oid new entries names _
                only at_commit listed)
              (rw (found, move_branches) at succeeded) in
          (rw (found, move_branches) arrived, moves, told, among)
    ]
