-- ===== src/Execute/Arrives/Names.antt =====
-- git-branchless-lib/src/core/rewrite/execute.rs: what a turn of `move_branches` does to the place of a
-- branch.
use git_branchless.Prelude.{
  ◌≡◌, refl, ap, ◌∙◌, inl, inr, some, Option-cases, true, false, Bool-cases, ◌==◌, ==_iff,
  string_eq, List, [], ◌∷◌, ok, Result-cases, contains, arith,
}
use git_branchless.Prelude.Map.{lookup, lookup-insert, lookup-remove}
use git_branchless.Oid.{NonZeroOid, MaybeZeroOid, non_zero, oid_eq}
use git_branchless.EventLog.{ReferenceName}
use git_branchless.Reference.{categorize, render_suffix, is_local_branch}
use git_branchless.Execute.Branches.{
  BranchRepo, MoveState, Progress, point_to, delete_main, move_main, delete_branch, drop_name,
  for_names, move_names,
}
use git_branchless.Execute.Moves.{IsBranchRepo}
use git_branchless.Execute.Follows.{Onward, on_with-Onward, always-Onward}

not_name :
    (name : ReferenceName) (names : List ReferenceName)
    → contains names name ≡ false
    → (n : ReferenceName) → contains names n ≡ true
    → (n == name) ≡ false
not_name name names unlisted n listed = elim (Bool-cases (n == name)) [
  | inl same ↦ absurd (cc (rw ((==_iff n name).0 same) at listed, unlisted))
  | inr other ↦ other
]

module _ {E : Type 0} (repo : BranchRepo E) (lawful : IsBranchRepo repo) (name : ReferenceName)
    (target : NonZeroOid) where
  abbrev pub At : MoveState → Type 0
  At state = lookup name state.refs ≡ some target

  point_to-At :
      (old_oid : NonZeroOid) (state : MoveState)
      → Onward At (point_to repo old_oid target name state)
  unfolding point_to
  point_to-At old_oid state = elim (Result-cases (repo.create_reference state.refs name target)) [
    | inr (e, refused) ↦ rw (refused, point_to) tt
    | inl (_, done) ↦
        let same = (==_iff name name).1 refl in
        rw (done, point_to) (lookup-insert name name target state.refs ∙ rw same refl)
  ]

  point_to-elsewhere :
      (old_oid o : NonZeroOid) (n : ReferenceName) (state : MoveState)
      → (n == name) ≡ false
      → At state
      → Onward At (point_to repo old_oid o n state)
  unfolding point_to
  point_to-elsewhere old_oid o n state other h =
      elim (Result-cases (repo.create_reference state.refs n o)) [
        | inr (e, refused) ↦ rw (refused, point_to) tt
        | inl (_, done) ↦ rw (done, point_to) (lookup-insert n name o state.refs ∙ rw other h)
      ]

  pub point_to-stays :
      (old_oid : NonZeroOid) (n : ReferenceName) (state : MoveState)
      → At state
      → Onward At (point_to repo old_oid target n state)
  point_to-stays old_oid n state h = elim (Bool-cases (n == name)) [
    | inl same ↦ rw ((==_iff n name).0 same) (point_to-At old_oid state)
    | inr other ↦ point_to-elsewhere old_oid target n state other h
  ]

  move_main-elsewhere :
      (old_oid : NonZeroOid) (n : ReferenceName) (state : MoveState)
      → (n == name) ≡ false
      → At state
      → Onward At (move_main repo old_oid n state)
  unfolding move_main delete_main
  move_main-elsewhere old_oid n state other h =
      elim (Result-cases (repo.get_upstream_branch_target state.refs)) [
        | inr (e, unknown) ↦ rw (unknown, move_main) tt
        | inl (upstream, known) ↦ elim (Option-cases upstream) [
          | inr (o, there) ↦
              rw (known, move_main, there) (point_to-elsewhere old_oid o n state other h)
          | inl absent ↦ elim (Result-cases (repo.find_main_branch state.refs)) [
            | inr (e, lost) ↦ rw (known, move_main, absent, lost, delete_main) tt
            | inl (_, found) ↦ elim (Result-cases (repo.delete state.refs n)) [
              | inr (e, refused) ↦ rw (known, move_main, absent, found, delete_main, refused) tt
              | inl (_, done) ↦
                  rw (known, move_main, absent, found, delete_main, done)
                    (lookup-remove n name state.refs ∙ rw other h)
            ]
          ]
        ]
      ]

  delete_branch-elsewhere :
      (old_oid : NonZeroOid) (n : ReferenceName) (state : MoveState)
      → is_local_branch (categorize n) ≡ true
      → (n == name) ≡ false
      → At state
      → Onward At (delete_branch repo old_oid n state)
  unfolding delete_branch
  delete_branch-elsewhere old_oid n state local other h =
      elim (Result-cases (repo.find_branch state.refs (render_suffix (categorize n)))) [
        | inr (e, unknown) ↦ rw (unknown, delete_branch) tt
        | inl (branch, known) ↦ elim (Option-cases branch) [
          | inl absent ↦ rw (known, delete_branch, absent) h
          | inr (found, present) ↦ elim (Result-cases (repo.delete state.refs found)) [
            | inr (e, refused) ↦ rw (known, delete_branch, present, refused) tt
            | inl (_, done) ↦
                let is_n = lawful.found state.refs n found local (known ∙ ap ok present) in
                let elsewhere : (found == name) ≡ false = rw is_n other in
                rw (known, delete_branch, present, done)
                  (lookup-remove found name state.refs ∙ rw elsewhere h)
          ]
        ]
      ]

  drop_name-elsewhere :
      (main : ReferenceName) (old_oid : NonZeroOid) (n : ReferenceName) (state : MoveState)
      → (n == name) ≡ false
      → At state
      → Onward At (drop_name repo main old_oid n state)
  unfolding drop_name
  drop_name-elsewhere main old_oid n state other h = elim (Bool-cases (n == main)) [
    | inl is_main ↦ rw (is_main, drop_name) (move_main-elsewhere old_oid n state other h)
    | inr not_main ↦ elim (Bool-cases (is_local_branch (categorize n))) [
      | inl local ↦
          rw (not_main, drop_name, local) (delete_branch-elsewhere old_oid n state local other h)
      | inr remote ↦ rw (not_main, drop_name, remote) h
    ]
  ]

  pub for_names-At :
      (act : ReferenceName → MoveState → Progress E) (names : List ReferenceName)
      → ((n : ReferenceName)
          → contains names n ≡ true
          → (state : MoveState) → At state
          → Onward At (act n state))
      → (state : MoveState) → At state
      → Onward At (for_names repo act names state)
  unfolding for_names
  for_names-At act [] acts state h = h
  for_names-At act (n ∷ names) acts state h =
      on_with-Onward At At (act n state) (for_names repo act names)
        (acts n (ground (arith, ==_iff n n)) state h)
        (for_names-At act names λ m listed. acts m (ground (arith, listed)))

  pub for_names-arrives :
      (old_oid : NonZeroOid) (names : List ReferenceName) (state : MoveState)
      → contains names name ≡ true
      → Onward At (for_names repo (point_to repo old_oid target) names state)
  unfolding for_names
  for_names-arrives old_oid [] state listed = absurd (cc listed)
  for_names-arrives old_oid (n ∷ names) state listed = elim (Bool-cases (n == name)) [
    | inl same ↦
        on_with-Onward At At (point_to repo old_oid target n state)
          (for_names repo (point_to repo old_oid target) names)
          (rw ((==_iff n name).0 same) (point_to-At old_oid state))
          (for_names-At (point_to repo old_oid target) names λ m _. point_to-stays old_oid m)
    | inr other ↦
        on_with-Onward (λ _. Unit) At (point_to repo old_oid target n state)
          (for_names repo (point_to repo old_oid target) names)
          (always-Onward (point_to repo old_oid target n state))
          λ state' _. for_names-arrives old_oid names state' (rw other at listed)
  ]

  -- the turn of a commit where the branch is not listed
  pub move_names-elsewhere :
      (main : ReferenceName) (o : NonZeroOid) (new_oid : MaybeZeroOid) (names : List ReferenceName)
      (state : MoveState)
      → contains names name ≡ false
      → At state
      → Onward At (move_names repo main o new_oid names state)
  unfolding move_names
  move_names-elsewhere main o MaybeZeroOid.zero names state unlisted h =
      for_names-At (drop_name repo main o) names
        (λ n listed s. drop_name-elsewhere main o n s (not_name name names unlisted n listed)) state
        h
  move_names-elsewhere main o (non_zero new_oid) names state unlisted h =
      elim (Result-cases (repo.find_commit_or_fail new_oid)) [
        | inr (e, lost) ↦ rw (lost, move_names) tt
        | inl (_, found) ↦
            rw (found, move_names)
              (for_names-At (point_to repo o new_oid) names
                (λ n listed s.
                  point_to-elsewhere o new_oid n s (not_name name names unlisted n listed))
                state h)
      ]
