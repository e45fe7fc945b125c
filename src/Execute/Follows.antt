-- ===== src/Execute/Follows.antt =====
-- git-branchless-lib/src/core/rewrite/execute.rs: which branches `move_branches` moves.
use git_branchless.Prelude.{
  ◌≡◌, refl, ◌⊎◌, inl, inr, some, Option-cases, true, Bool-cases, ◌==◌, ==_iff, string_eq, List, [],
  ◌∷◌, ◌++◌, ok, Result-cases, contains, arith,
}
use git_branchless.Prelude.Map.{Map, lookup}
use git_branchless.Oid.{NonZeroOid, MaybeZeroOid, non_zero, oid_eq}
use git_branchless.EventLog.{ReferenceName}
use git_branchless.Reference.{categorize, render_suffix, is_local_branch}
use git_branchless.Execute.Branches.{
  Refs, BranchMove, BranchRepo, MoveState, Progress, next, stopped, aborted, on_with, point_to,
  delete_main, move_main, delete_branch, drop_name, for_names, move_names, move_all, run_moves_hook,
  finish_moves, move_branches,
}

abbrev pub IsAmong : BranchMove → List BranchMove → Type 0
IsAmong move [] = ⊥
IsAmong move (m ∷ moves) = (m ≡ move) ⊎ IsAmong move moves

IsAmong-last : (move : BranchMove) (moves : List BranchMove) → IsAmong move (moves ++ move ∷ [])
IsAmong-last move [] = inl refl
IsAmong-last move (m ∷ moves) = inr (IsAmong-last move moves)

IsAmong-append :
    (move m : BranchMove) (moves : List BranchMove)
    → IsAmong move moves
    → IsAmong move (moves ++ m ∷ [])
IsAmong-append move m [] h = absurd h
IsAmong-append move m (n ∷ moves) (inl here) = inl here
IsAmong-append move m (n ∷ moves) (inr there) = inr (IsAmong-append move m moves there)

-- if the loop goes on
abbrev pub Onward : {E : Type 0} → (MoveState → Type 0) → Progress E → Type 0
Onward P (next state) = P state
Onward P (stopped state _) = Unit
Onward P (aborted state _) = Unit

pub on_with-Onward :
    {E : Type 0} (P Q : MoveState → Type 0) (p : Progress E) (k : MoveState → Progress E)
    → Onward P p
    → ((state : MoveState) → P state → Onward Q (k state))
    → Onward Q (on_with p k)
on_with-Onward P Q (next state) k h rest = rest state h
on_with-Onward P Q (stopped state e) k h rest = tt
on_with-Onward P Q (aborted state e) k h rest = tt

pub always-Onward : {E : Type 0} (p : Progress E) → Onward (λ _. Unit) p
always-Onward (next state) = tt
always-Onward (stopped state e) = tt
always-Onward (aborted state e) = tt

-- a move that was made stays among the moves
abbrev Has : BranchMove → MoveState → Type 0
Has move state = IsAmong move state.branch_moves

module _ {E : Type 0} (repo : BranchRepo E) where
  point_to-Has :
      (old_oid new_oid : NonZeroOid) (name : ReferenceName) (state : MoveState)
      → Onward (Has (old_oid, (non_zero new_oid, name))) (point_to repo old_oid new_oid name state)
  unfolding point_to
  point_to-Has old_oid new_oid name state =
      elim (Result-cases (repo.create_reference state.refs name new_oid)) [
        | inr (e, refused) ↦ rw (refused, point_to) tt
        | inl (_, done) ↦
            rw (done, point_to)
              (IsAmong-last (old_oid, (non_zero new_oid, name)) state.branch_moves)
      ]

  module _ (move : BranchMove) where
    point_to-keeps :
        (old_oid new_oid : NonZeroOid) (name : ReferenceName) (state : MoveState)
        → Has move state
        → Onward (Has move) (point_to repo old_oid new_oid name state)
    unfolding point_to
    point_to-keeps old_oid new_oid name state h =
        elim (Result-cases (repo.create_reference state.refs name new_oid)) [
          | inr (e, refused) ↦ rw (refused, point_to) tt
          | inl (_, done) ↦ rw (done, point_to) (IsAmong-append move _ state.branch_moves h)
        ]

    drop_name-keeps :
        (main : ReferenceName) (old_oid : NonZeroOid) (name : ReferenceName) (state : MoveState)
        → Has move state
        → Onward (Has move) (drop_name repo main old_oid name state)
    unfolding drop_name move_main delete_main delete_branch
    drop_name-keeps main old_oid name state h = elim (Bool-cases (name == main)) [
      | inl is_main ↦ elim (Result-cases (repo.get_upstream_branch_target state.refs)) [
        | inr (e, unknown) ↦ rw (is_main, drop_name, unknown, move_main) tt
        | inl (target, known) ↦ elim (Option-cases target) [
          | inl no_upstream ↦ elim (Result-cases (repo.find_main_branch state.refs)) [
            | inr (e, lost) ↦
                rw (is_main, drop_name, known, move_main, no_upstream, lost, delete_main) tt
            | inl (_, there) ↦ elim (Result-cases (repo.delete state.refs name)) [
              | inr (e, refused) ↦
                  rw
                    (is_main, drop_name, known, move_main, no_upstream, there, delete_main, refused)
                    tt
              | inl (_, done) ↦
                  rw (is_main, drop_name, known, move_main, no_upstream, there, delete_main, done)
                    (IsAmong-append move _ state.branch_moves h)
            ]
          ]
          | inr (target_oid, upstream) ↦
              rw (is_main, drop_name, known, move_main, upstream)
                (point_to-keeps old_oid target_oid name state h)
        ]
      ]
      | inr other ↦ elim (Bool-cases (is_local_branch (categorize name))) [
        | inr remote ↦ rw (other, drop_name, remote) h
        | inl local ↦
            elim (Result-cases (repo.find_branch state.refs (render_suffix (categorize name)))) [
              | inr (e, unknown) ↦ rw (other, drop_name, local, unknown, delete_branch) tt
              | inl (branch, known) ↦ elim (Option-cases branch) [
                | inl absent ↦
                    rw (other, drop_name, local, known, delete_branch, absent)
                      (IsAmong-append move _ state.branch_moves h)
                | inr (found, present) ↦ elim (Result-cases (repo.delete state.refs found)) [
                  | inr (e, refused) ↦
                      rw (other, drop_name, local, known, delete_branch, present, refused) tt
                  | inl (_, done) ↦
                      rw (other, drop_name, local, known, delete_branch, present, done)
                        (IsAmong-append move _ state.branch_moves h)
                ]
              ]
            ]
      ]
    ]

    for_names-keeps :
        (act : ReferenceName → MoveState → Progress E)
        → ((name : ReferenceName) (state : MoveState)
            → Has move state
            → Onward (Has move) (act name state))
        → (names : List ReferenceName) (state : MoveState) → Has move state
        → Onward (Has move) (for_names repo act names state)
    unfolding for_names
    for_names-keeps act acts [] state h = h
    for_names-keeps act acts (name ∷ names) state h =
        on_with-Onward (Has move) (Has move) (act name state) (for_names repo act names)
          (acts name state h) (for_names-keeps act acts names)

    move_names-keeps :
        (main : ReferenceName) (old_oid : NonZeroOid) (new_oid : MaybeZeroOid)
        (names : List ReferenceName) (state : MoveState)
        → Has move state
        → Onward (Has move) (move_names repo main old_oid new_oid names state)
    unfolding move_names
    move_names-keeps main old_oid MaybeZeroOid.zero names state h =
        for_names-keeps (drop_name repo main old_oid) (drop_name-keeps main old_oid) names state h
    move_names-keeps main old_oid (non_zero new_oid) names state h =
        elim (Result-cases (repo.find_commit_or_fail new_oid)) [
          | inr (e, lost) ↦ rw (lost, move_names) tt
          | inl (_, found) ↦
              rw (found, move_names)
                (for_names-keeps (point_to repo old_oid new_oid) (point_to-keeps old_oid new_oid)
                  names state h)
        ]

    module _ (main : ReferenceName) (rewritten : Map NonZeroOid MaybeZeroOid) where
      move_all-keeps :
          (entries : Map NonZeroOid (List ReferenceName)) (state : MoveState)
          → Has move state
          → Onward (Has move) (move_all repo main rewritten entries state)
      unfolding move_all
      move_all-keeps [] state h = h
      move_all-keeps ((old_oid, names) ∷ entries) state h =
          elim (Option-cases (lookup old_oid rewritten)) [
            | inl kept ↦ rw (kept, move_all) (move_all-keeps entries state h)
            | inr (new_oid, found) ↦
                rw (found, move_all)
                  (on_with-Onward (Has move) (Has move)
                    (move_names repo main old_oid new_oid names state)
                    (move_all repo main rewritten entries)
                    (move_names-keeps main old_oid new_oid names state h) (move_all-keeps entries))
          ]

module _ {E : Type 0} (repo : BranchRepo E) (main : ReferenceName)
    (rewritten : Map NonZeroOid MaybeZeroOid) (old_oid new_oid : NonZeroOid)
    (name : ReferenceName) where
  abbrev move : BranchMove
  move = (old_oid, (non_zero new_oid, name))

  for_names-Has :
      (names : List ReferenceName) (state : MoveState)
      → contains names name ≡ true
      → Onward (Has move) (for_names repo (point_to repo old_oid new_oid) names state)
  unfolding for_names
  for_names-Has [] state h = absurd (cc h)
  for_names-Has (n ∷ names) state h = elim (Bool-cases (n == name)) [
    | inl same ↦
        let is_name : n ≡ name = (==_iff n name).0 same in
        on_with-Onward (Has move) (Has move) (point_to repo old_oid new_oid n state)
          (for_names repo (point_to repo old_oid new_oid) names)
          (rw is_name (point_to-Has repo old_oid new_oid name state))
          (for_names-keeps repo move (point_to repo old_oid new_oid)
            (point_to-keeps repo move old_oid new_oid) names)
    | inr other ↦
        on_with-Onward (λ _. Unit) (Has move) (point_to repo old_oid new_oid n state)
          (for_names repo (point_to repo old_oid new_oid) names)
          (always-Onward (point_to repo old_oid new_oid n state))
          λ state' _. for_names-Has names state' (rw other at h)
  ]

  first-Has :
      (names : List ReferenceName) (entries : Map NonZeroOid (List ReferenceName))
      (state : MoveState)
      → contains names name ≡ true
      → lookup old_oid rewritten ≡ some (non_zero new_oid)
      → Onward (Has move) (move_all repo main rewritten ((old_oid, names) ∷ entries) state)
  unfolding move_all move_names
  first-Has names entries state listed new =
      rw (new, move_all)
        (on_with-Onward (Has move) (Has move)
          (move_names repo main old_oid (non_zero new_oid) names state)
          (move_all repo main rewritten entries)
          (elim (Result-cases (repo.find_commit_or_fail new_oid)) [
            | inr (e, lost) ↦ rw (lost, move_names) tt
            | inl (_, found) ↦ rw (found, move_names) (for_names-Has names state listed)
          ])
          (move_all-keeps repo move main rewritten entries))

  later-Has :
      (o : NonZeroOid) (names : List ReferenceName) (entries : Map NonZeroOid (List ReferenceName))
      (state : MoveState)
      → ((state' : MoveState) → Onward (Has move) (move_all repo main rewritten entries state'))
      → Onward (Has move) (move_all repo main rewritten ((o, names) ∷ entries) state)
  unfolding move_all
  later-Has o names entries state h = elim (Option-cases (lookup o rewritten)) [
    | inl kept ↦ rw (kept, move_all) (h state)
    | inr (target, found) ↦
        rw (found, move_all)
          (on_with-Onward (λ _. Unit) (Has move) (move_names repo main o target names state)
            (move_all repo main rewritten entries)
            (always-Onward (move_names repo main o target names state)) λ state' _. h state')
  ]

  move_all-Has :
      (entries : Map NonZeroOid (List ReferenceName)) (names : List ReferenceName)
      (state : MoveState)
      → lookup old_oid entries ≡ some names
      → contains names name ≡ true
      → lookup old_oid rewritten ≡ some (non_zero new_oid)
      → Onward (Has move) (move_all repo main rewritten entries state)
  unfolding lookup
  move_all-Has [] names state at_commit listed new = absurd (cc at_commit)
  move_all-Has ((o, others) ∷ entries) names state at_commit listed new =
      elim (Bool-cases (o == old_oid)) [
        | inl same ↦
            let are_names : others ≡ names = ground arith in
            rw ((==_iff o old_oid).0 same)
              (first-Has others entries state (rw are_names listed) new)
        | inr other ↦
            later-Has o others entries state λ state'.
              move_all-Has entries names state' (rw (other, lookup) at at_commit) listed new
      ]

finish_moves-IsAmong :
    {E : Type 0} (repo : BranchRepo E) (old_oid new_oid : NonZeroOid) (name : ReferenceName)
    (p : Progress E)
    → Onward (Has (old_oid, (non_zero new_oid, name))) p
    → (finish_moves repo p).result ≡ ok tt
    → (moves : List BranchMove) × ((finish_moves repo p).reported ≡ some moves)
      × IsAmong (old_oid, (non_zero new_oid, name)) moves
unfolding finish_moves run_moves_hook
finish_moves-IsAmong repo old_oid new_oid name (next state) h e = (state.branch_moves, refl, h)
finish_moves-IsAmong repo old_oid new_oid name (stopped state x) h e =
    elim (Result-cases (repo.run_hook state.branch_moves)) [
      | inl (_, ran) ↦ absurd (cc (rw (ran, run_moves_hook) at e))
      | inr (y, failed) ↦ absurd (cc (rw (failed, run_moves_hook) at e))
    ]
finish_moves-IsAmong repo old_oid new_oid name (aborted state x) h e = absurd (cc e)

-- If the moving of the branches succeeds, the hook was told that every branch at a commit that has a new
-- version was moved to the new version.
pub move_branches-IsAmong :
    {E : Type 0} (repo : BranchRepo E) (rewritten : Map NonZeroOid MaybeZeroOid) (refs : Refs)
    (entries : Map NonZeroOid (List ReferenceName))
    → (move_branches repo rewritten (ok entries) refs).result ≡ ok tt
    → (old_oid new_oid : NonZeroOid) (names : List ReferenceName) (name : ReferenceName)
    → lookup old_oid entries ≡ some names
    → contains names name ≡ true
    → lookup old_oid rewritten ≡ some (non_zero new_oid)
    → (moves : List BranchMove) × ((move_branches repo rewritten (ok entries) refs).reported
        ≡ some moves)
      × IsAmong (old_oid, (non_zero new_oid, name)) moves
unfolding move_branches
move_branches-IsAmong repo rewritten refs entries succeeded old_oid new_oid names name at_commit
      listed new =
    elim (Result-cases repo.main_branch_name) [
      | inr (e, lost) ↦ absurd (cc (rw (lost, move_branches) at succeeded))
      | inl (main, found) ↦
          let p =
            move_all repo main rewritten entries (record { refs = refs; branch_moves = [] }) in
          rw (found, move_branches)
            (finish_moves-IsAmong repo old_oid new_oid name p
              (move_all-Has repo main rewritten old_oid new_oid name entries names _ at_commit
                listed new)
              (rw (found, move_branches) at succeeded))
    ]
