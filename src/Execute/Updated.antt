-- ===== src/Execute/Updated.antt =====
-- git-branchless-lib/src/core/rewrite/execute.rs: `HEAD` after a rebase in memory.
use git_branchless.Prelude.{◌≡◌, refl, ◌⊎◌, inl, inr, Option, none, some, Option-cases, Bool, ok}
use git_branchless.Prelude.Map.{Map, lookup}
use git_branchless.Oid.{NonZeroOid, MaybeZeroOid, non_zero, oid_eq}
use git_branchless.Plan.{RebasePlan}
use git_branchless.Execute.InMemory.{succeeded, Repo, RebaseState, new_head, rebase_in_memory}
use git_branchless.Execute.Branches.{Refs}
use git_branchless.Execute.Skips.{rebase_in_memory-state}
use git_branchless.Execute.Head.{HeadRepo, checkout_info}

MaybeZeroOid-cases :
    (v : MaybeZeroOid) → (v ≡ MaybeZeroOid.zero) ⊎ ((o : NonZeroOid) × (v ≡ non_zero o))
MaybeZeroOid-cases MaybeZeroOid.zero = inl refl
MaybeZeroOid-cases (non_zero o) = inr (o, refl)

state-new_head :
    {E Store : Type 0} (repo : HeadRepo E) (refs : Refs) (head_oid : Option NonZeroOid)
    (state : RebaseState Store)
    → checkout_info repo refs state.rewritten_oids
        (record { oid = head_oid; reference_name = none })
        (new_head head_oid state)
      ≡ ok (record { oid = new_head head_oid state; reference_name = none })
unfolding checkout_info new_head
state-new_head repo refs none state = refl
state-new_head repo refs (some head) state =
    elim (Option-cases (lookup head state.rewritten_oids)) [
      | inl kept ↦ rw (kept, checkout_info, new_head) refl
      | inr (new_oid, found) ↦ elim (MaybeZeroOid-cases new_oid) [
        | inl skipped ↦ rw (found, checkout_info, skipped) refl
        | inr (o, version) ↦ rw (found, checkout_info, new_head, version) refl
      ]
    ]

-- If `HEAD` was detached, the check-out after a rebase in memory goes to the new `HEAD` that the rebase
-- itself has computed, whether the commit was rewritten, skipped or left alone.
pub checkout_info-new_head :
    {E F Store Signature Tree : Type 0} (repo : Repo E Store Signature Tree)
    (preserve_timestamps : Bool) (head_oid : Option NonZeroOid) (store : Store) (plan : RebasePlan)
    (rewritten : Map NonZeroOid MaybeZeroOid) (new : Option NonZeroOid)
    → rebase_in_memory repo preserve_timestamps (ok head_oid) store plan
      ≡ ok (succeeded rewritten new)
    → (head_repo : HeadRepo F) (refs : Refs)
    → checkout_info head_repo refs rewritten (record { oid = head_oid; reference_name = none }) new
      ≡ ok (record { oid = new; reference_name = none })
checkout_info-new_head repo preserve_timestamps head_oid store plan rewritten new e head_repo refs =
    let (state, ran, same, new_same) =
      rebase_in_memory-state repo preserve_timestamps head_oid store plan rewritten new e in
    rw (← same, ← new_same) (state-new_head head_repo refs head_oid state)
