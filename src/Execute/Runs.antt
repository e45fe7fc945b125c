-- ===== src/Execute/Runs.antt =====
-- git-branchless-lib/src/core/rewrite/execute.rs: the effect of every command, whatever errors are allowed.
use git_branchless.Prelude.{
  refl, inl, inr, Option, none, some, Bool, Bool-cases, string_eq, option_eq, List, [], ◌∷◌, String,
  Result, ok, err, ◌>>=◌, Yields, Yields-bind, length, ltb,
}
use git_branchless.Oid.{NonZeroOid, oid_eq}
use git_branchless.Plan.{
  OidOrLabel, oid, label, RebaseCommand, create_label, reset, pick, merge, replace, break,
  register_extra_post_rewrite_hook, detect_empty_commit, skip_upstream_applied_commit,
}
use git_branchless.Plan.Build.{Commit}
use git_branchless.Execute.InMemory.{
  FailedMergeInfo, Stop, report, panic, merging, break_not_supported, CreateCommitFastError,
  merge_conflict, other, Repo, RebaseState, checked, tree_or_stop, refuse_merge, find_label,
  insert_all, committer_signature, apply_commits, find_parents, finish_pick, run_pick, run_replace,
  run_command,
}
use git_branchless.Execute.Effects.{Effect, skip_commit-IsSkip}

module _ {E Store Signature Tree : Type 0} (repo : Repo E Store Signature Tree)
    (preserve_timestamps : Bool) (head_oid : Option NonZeroOid) (Allowed : Stop E → Type 0)
    (reports : (e : E) → Allowed (report e))
    (merges : (info : FailedMergeInfo) → Allowed (merging info)) (panics : Allowed panic) where
  checked-fine : {A : Type 0} (r : Result E A) → Yields Allowed (λ _. Unit) (checked r)
  checked-fine (ok a) = tt
  checked-fine (err e) = reports e

  checked-bind :
      {A B : Type 0} (Q : B → Type 0) (r : Result E A) (f : A → Result (Stop E) B)
      → ((a : A) → Yields Allowed Q (f a))
      → Yields Allowed Q (checked r >>= f)
  checked-bind Q (ok a) f k = k a
  checked-bind Q (err e) f k = reports e

  tree_or_stop-fine :
      (o : NonZeroOid) (r : Result (CreateCommitFastError E) Tree)
      → Yields Allowed (λ _. Unit) (tree_or_stop o r)
  tree_or_stop-fine o (ok tree) = tt
  tree_or_stop-fine o (err (merge_conflict paths)) = merges _
  tree_or_stop-fine o (err (other e)) = reports e

  committer_signature-fine :
      (commit : Commit)
      → Yields Allowed (λ _. Unit) (committer_signature repo preserve_timestamps commit)
  unfolding committer_signature
  committer_signature-fine commit = elim (Bool-cases preserve_timestamps) [
    | inl kept ↦ rw kept tt
    | inr renewed ↦ rw renewed (checked-fine (repo.update_timestamp (repo.get_committer commit)))
  ]

  one_parent-fine :
      (o : NonZeroOid) (commit : Commit) → Yields Allowed (λ _. Unit) (refuse_merge o commit)
  one_parent-fine o commit = elim (Bool-cases (ltb 1 (length commit.parent_oids))) [
    | inl several ↦ rw several (merges _)
    | inr one ↦ rw one tt
  ]

  apply_commits-fine :
      (current original : Commit) (committer : Signature) (message : String) (os : List NonZeroOid)
      (rebased : Option (NonZeroOid × Option Commit)) (store : Store)
      → Yields Allowed
          (λ _. Unit)
          (apply_commits repo preserve_timestamps current original committer message os rebased
            store)
  unfolding apply_commits
  apply_commits-fine current original committer message [] rebased store = tt
  apply_commits-fine current original committer message (o ∷ os) rebased store =
      let Any : Option (NonZeroOid × Option Commit) × Store → Type 0 = λ _. Unit in
      checked-bind Any (repo.find_commit_or_fail store o) _ λ commit.
        checked-bind Any (repo.friendly_describe store o) _ λ _.
          Yields-bind Allowed (λ _. Unit) Any _ _ (one_parent-fine o commit)
            λ _ _.
              Yields-bind Allowed (λ _. Unit) Any _ _ (tree_or_stop-fine o _)
                λ tree _.
                  checked-bind Any
                    (repo.create_commit store (repo.get_author original) committer message tree
                      (current ∷ []))
                    _
                    λ (rebased_oid, store').
                      checked-bind Any (repo.find_commit store' rebased_oid) _ λ rebased_commit.
                        apply_commits-fine current original committer message os
                          (some (rebased_oid, rebased_commit)) store'

  finish_pick-Effect :
      (o : NonZeroOid) (os : List NonZeroOid) (store' : Store) (state : RebaseState Store)
      (rebased : Option (NonZeroOid × Option Commit))
      → Yields Allowed
          (Effect head_oid (pick o os) state)
          (finish_pick repo preserve_timestamps head_oid o os store' state rebased)
  unfolding finish_pick insert_all
  finish_pick-Effect o os store' state none = panics
  finish_pick-Effect o os store' state (some (rebased_oid, none)) =
      checked-bind (Effect head_oid (pick o os) state) (repo.friendly_describe store' rebased_oid) _
        λ _. panics
  finish_pick-Effect o os store' state (some (rebased_oid, some commit)) =
      checked-bind (Effect head_oid (pick o os) state) (repo.friendly_describe store' rebased_oid) _
        λ _. elim (Bool-cases (repo.is_empty_commit store' commit)) [
          | inl empty ↦
              let skip = skip_commit-IsSkip head_oid o (record state { store = store' }) in
              rw empty (
                inl (record {
                  same_labels = skip.same_labels;
                  now_rewritten = skip.now_rewritten;
                  now_skipped = skip.now_skipped;
                  same_current = skip.same_current;
                }))
          | inr changed ↦ rw changed (
              inr (record {
                new_oid = rebased_oid;
                same_labels = refl;
                now_rewritten = refl;
                same_skipped = refl;
                now_current = refl;
              }))
        ]

  run_pick-Effect :
      (o : NonZeroOid) (os : List NonZeroOid) (state : RebaseState Store)
      → Yields Allowed
          (Effect head_oid (pick o os) state)
          (run_pick repo preserve_timestamps head_oid o os state)
  unfolding run_pick
  run_pick-Effect o os state =
      let Q = Effect head_oid (pick o os) state in
      checked-bind Q (repo.find_commit_or_fail state.store state.current_oid) _ λ current.
        checked-bind Q (repo.find_commit_or_fail state.store o) _ λ original.
          checked-bind Q (repo.get_message original) _ λ message.
            Yields-bind Allowed (λ _. Unit) Q
              (committer_signature repo preserve_timestamps original) _
              (committer_signature-fine original)
              λ committer _.
                Yields-bind Allowed (λ _. Unit) Q
                  (apply_commits repo preserve_timestamps current original committer message os none
                    state.store)
                  _ (apply_commits-fine current original committer message os none state.store)
                  λ (rebased, store') _. finish_pick-Effect o os store' state rebased

  run_replace-Effect :
      (o replacement_oid : NonZeroOid) (parents : List OidOrLabel) (state : RebaseState Store)
      → Yields Allowed
          (λ _. Unit)
          (find_parents repo preserve_timestamps state.store state.labels parents)
      → Yields Allowed
          (Effect head_oid (replace o replacement_oid parents) state)
          (run_replace repo preserve_timestamps head_oid o replacement_oid parents state)
  unfolding run_replace insert_all
  run_replace-Effect o replacement_oid parents state resolved =
      let Q = Effect head_oid (replace o replacement_oid parents) state in
      checked-bind Q (repo.find_commit_or_fail state.store o) _ λ _.
        checked-bind Q (repo.friendly_describe state.store o) _ λ _.
          checked-bind Q (repo.find_commit_or_fail state.store replacement_oid) _ λ replacement.
            checked-bind Q (repo.get_tree replacement) _ λ tree.
              checked-bind Q (repo.get_message replacement) _ λ message.
                checked-bind Q (repo.friendly_describe state.store replacement_oid) _ λ _.
                  Yields-bind Allowed (λ _. Unit) Q
                    (committer_signature repo preserve_timestamps replacement) _
                    (committer_signature-fine replacement)
                    λ committer _.
                      Yields-bind Allowed (λ _. Unit) Q
                        (find_parents repo preserve_timestamps state.store state.labels parents) _
                        resolved
                        λ commits _.
                          checked-bind Q
                            (repo.create_commit state.store (repo.get_author replacement) committer
                              message tree commits)
                            _
                            λ (rebased_oid, store').
                              checked-bind Q (repo.friendly_describe store' rebased_oid) _ λ _.
                                record {
                                  new_oid = rebased_oid;
                                  same_labels = refl;
                                  now_rewritten = refl;
                                  same_skipped = refl;
                                  now_current = refl;
                                }

  -- the labels that a command refers to are found, and it is no `break`
  abbrev pub Resolves : RebaseState Store → RebaseCommand → Type 0
  Resolves state (reset (label name)) = Yields Allowed (λ _. Unit) (find_label state.labels name)
  Resolves state (replace _ _ parents) =
      Yields Allowed (λ _. Unit)
        (find_parents repo preserve_timestamps state.store state.labels parents)
  Resolves state break = Allowed break_not_supported
  Resolves state _ = Unit

  pub run_command-Effect :
      (c : RebaseCommand) (state : RebaseState Store)
      → Resolves state c
      → Yields Allowed
          (Effect head_oid c state)
          (run_command repo preserve_timestamps head_oid c state)
  unfolding run_command
  run_command-Effect (create_label name) state h = record {
    now_labels = refl;
    same_rewritten = refl;
    same_skipped = refl;
  }
  run_command-Effect (reset (label name)) state h =
      Yields-bind Allowed (λ _. Unit) (Effect head_oid (reset (label name)) state)
        (find_label state.labels name) _ h
        λ o _. record { now_labels = refl; same_rewritten = refl; same_skipped = refl }
  run_command-Effect (reset (oid o)) state h = record {
    now_labels = refl;
    same_rewritten = refl;
    same_skipped = refl;
  }
  run_command-Effect (pick o os) state h = run_pick-Effect o os state
  run_command-Effect (merge o _) state h = merges _
  run_command-Effect (replace o new parents) state h = run_replace-Effect o new parents state h
  run_command-Effect break state h = h
  run_command-Effect (skip_upstream_applied_commit o) state h =
      let Q = Effect head_oid (skip_upstream_applied_commit o) state in
      checked-bind Q (repo.find_commit_or_fail state.store o) _ λ _.
        checked-bind Q (repo.friendly_describe state.store o) _
          λ _. skip_commit-IsSkip head_oid o state
  run_command-Effect register_extra_post_rewrite_hook state h = record {
    now_labels = refl;
    same_rewritten = refl;
    same_skipped = refl;
  }
  run_command-Effect (detect_empty_commit _) state h = record {
    now_labels = refl;
    same_rewritten = refl;
    same_skipped = refl;
  }
