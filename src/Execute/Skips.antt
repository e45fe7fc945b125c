-- ===== src/Execute/Skips.antt =====
-- git-branchless-lib/src/core/rewrite/execute.rs: which commits a rebase rewrites.
use git_branchless.Prelude.{
  ◌≡◌, refl, inl, inr, Option, Option-cases, Bool, true, option_eq, List, Result, ok, err, ◌>>=◌,
  contains, find_map, Yields-ok, arith,
}
use git_branchless.Prelude.Map.{Map, lookup}
use git_branchless.Oid.{NonZeroOid, MaybeZeroOid, oid_eq}
use git_branchless.Plan.{RebaseCommand, RebasePlan}
use git_branchless.Execute.InMemory.{
  succeeded, Stop, merging, break_not_supported, Repo, RebaseState, merge_of, start_state, caught,
  run_commands, new_head, rebase_in_memory,
}
use git_branchless.Execute.Kept.{IsRewritten, originals, touched}
use git_branchless.Execute.Fallback.{Any, IsRun, run_commands-IsRun}

module _ {E Store Signature Tree : Type 0} (repo : Repo E Store Signature Tree)
    (preserve_timestamps : Bool) (head_oid : Option NonZeroOid) where
  pub run_commands-IsRewritten :
      (cs : List RebaseCommand) (store : Store) (plan : RebasePlan) (state : RebaseState Store)
      → run_commands repo preserve_timestamps head_oid cs (start_state store plan) ≡ ok state
      → (o : NonZeroOid)
      → (contains (originals cs) o ≡ true → IsRewritten o state.rewritten_oids)
        × (IsRewritten o state.rewritten_oids → contains (touched cs) o ≡ true)
  unfolding lookup
  run_commands-IsRewritten cs store plan state ran o =
      let run =
        Yields-ok Any (IsRun head_oid cs (start_state store plan)) _ state
          (run_commands-IsRun repo preserve_timestamps head_oid cs (start_state store plan)) ran in
      (
        (run.0 o).1,
        λ r. elim ((run.0 o).2 r) [ inl within ↦ within | inr start ↦ absurd (cc (start.1)) ],
      )

caught_state :
    {E Store : Type 0} (head_oid : Option NonZeroOid) (ran : Result (Stop E) (RebaseState Store))
    (rewritten : Map NonZeroOid MaybeZeroOid) (new : Option NonZeroOid)
    → caught (ran >>= λ state. ok (succeeded state.rewritten_oids (new_head head_oid state)))
      ≡ ok (succeeded rewritten new)
    → (state : RebaseState Store) × (ran ≡ ok state)
      × (state.rewritten_oids ≡ rewritten)
      × (new_head head_oid state ≡ new)
caught_state head_oid (ok state) rewritten new e = (state, refl, ground arith, ground arith)
caught_state head_oid (err (merging info)) rewritten new e = absurd (ground arith)
caught_state head_oid (err (Stop.report x)) rewritten new e = absurd (cc e)
caught_state head_oid (err (Stop.missing_label x)) rewritten new e = absurd (cc e)
caught_state head_oid (err break_not_supported) rewritten new e = absurd (cc e)
caught_state head_oid (err Stop.panic) rewritten new e = absurd (cc e)

module _ {E Store Signature Tree : Type 0} (repo : Repo E Store Signature Tree)
    (preserve_timestamps : Bool) where
  -- the state at the end of a rebase that succeeded
  pub rebase_in_memory-state :
      (head_oid : Option NonZeroOid) (store : Store) (plan : RebasePlan)
      (rewritten : Map NonZeroOid MaybeZeroOid) (new : Option NonZeroOid)
      → rebase_in_memory repo preserve_timestamps (ok head_oid) store plan
        ≡ ok (succeeded rewritten new)
      → (state : RebaseState Store) × (run_commands repo preserve_timestamps head_oid plan.commands
            (start_state store plan)
          ≡ ok state)
        × (state.rewritten_oids ≡ rewritten)
        × (new_head head_oid state ≡ new)
  unfolding rebase_in_memory
  rebase_in_memory-state head_oid store plan rewritten new e =
      elim (Option-cases (find_map merge_of plan.commands)) [
        | inr (m, found) ↦ absurd (cc (rw (found, rebase_in_memory) at e))
        | inl no_merge ↦
            caught_state head_oid
              (run_commands repo preserve_timestamps head_oid plan.commands
                (start_state store plan))
              rewritten new (rw (no_merge, rebase_in_memory) at e)
      ]

  -- After a rebase that succeeded, every commit of the plan has an entry among the rewritten commits, be
  -- it a new version or zero, and every entry is a commit of the plan or one that is absorbed by it.
  pub rebase_in_memory-IsRewritten :
      (head_oid : Option NonZeroOid) (store : Store) (plan : RebasePlan)
      (rewritten : Map NonZeroOid MaybeZeroOid) (new : Option NonZeroOid)
      → rebase_in_memory repo preserve_timestamps (ok head_oid) store plan
        ≡ ok (succeeded rewritten new)
      → (o : NonZeroOid)
      → (contains (originals plan.commands) o ≡ true → IsRewritten o rewritten)
        × (IsRewritten o rewritten → contains (touched plan.commands) o ≡ true)
  rebase_in_memory-IsRewritten head_oid store plan rewritten new e o =
      let (state, ran, same, _) = rebase_in_memory-state head_oid store plan rewritten new e in
      rw (← same) (
        run_commands-IsRewritten repo preserve_timestamps head_oid plan.commands store plan state
          ran o)
