-- ===== src/Execute/Forced.antt =====
-- git-branchless-lib/src/core/rewrite/execute.rs: what `execute_rebase_plan` does not do.
use git_branchless.Prelude.{
  ◌≡◌, refl, inl, inr, Option, true, Bool-cases, Result, ok, err, if◌then◌else◌,
}
use git_branchless.Prelude.Map.{Map}
use git_branchless.Oid.{NonZeroOid, MaybeZeroOid}
use git_branchless.Execute.InMemory.{RebaseInMemoryResult, succeeded, merge_failed}
use git_branchless.Execute.Head.{
  ExitCode, ExecuteRebasePlanOptions, DiskResult, ExecuteError, Action, after, execute_on_disk,
  execute_in_memory, execute_rebase_plan,
}

after-same :
    {W E A B : Type 0} (p : Result E A × W) (f g : A → Action W (ExecuteError E) B)
    → ((a : A) (w : W) → f a w ≡ g a w)
    → after p f ≡ after p g
after-same (ok a, w) f g same = same a w
after-same (err e, w) f g same = refl

after-kept :
    {W E A B : Type 0} (p : Result E A × W) (f : A → Action W (ExecuteError E) B)
    → ((a : A) (w : W) → (f a w).1 ≡ w)
    → (after p f).1 ≡ p.1
after-kept (ok a, w) f kept = kept a w
after-kept (err e, w) f kept = refl

module _ {W E : Type 0} (options : ExecuteRebasePlanOptions)
    (in_memory : Action W E RebaseInMemoryResult)
    (post post' : Map NonZeroOid MaybeZeroOid → Option NonZeroOid → Action W E ExitCode)
    (disk disk' : Action W E DiskResult) where
  on_disk_same :
      (w : W)
      → options.force_in_memory ≡ true
      → execute_on_disk options in_memory post disk w
        ≡ execute_on_disk options in_memory post disk' w
  unfolding execute_on_disk
  on_disk_same w forced = rw forced refl

  on_disk-post :
      (w : W)
      → execute_on_disk options in_memory post disk w
        ≡ execute_on_disk options in_memory post' disk w
  unfolding execute_on_disk
  on_disk-post w = refl

  on_disk_kept :
      (w : W)
      → options.force_in_memory ≡ true
      → (execute_on_disk options in_memory post disk w).1 ≡ w
  unfolding execute_on_disk
  on_disk_kept w forced = rw forced refl

  in_memory_same :
      (result : RebaseInMemoryResult) (w : W)
      → options.force_in_memory ≡ true
      → execute_in_memory options in_memory post disk result w
        ≡ execute_in_memory options in_memory post disk' result w
  unfolding execute_in_memory
  in_memory_same (succeeded rewritten new) w forced = refl
  in_memory_same (merge_failed info) w forced = rw forced refl

  dry_same :
      (result : RebaseInMemoryResult) (w : W)
      → options.dry_run ≡ true
      → execute_in_memory options in_memory post disk result w
        ≡ execute_in_memory options in_memory post' disk result w
  unfolding execute_in_memory execute_on_disk
  dry_same (succeeded rewritten new) w dry = rw dry refl
  dry_same (merge_failed info) w dry = refl

  in_memory_kept :
      (result : RebaseInMemoryResult) (w : W)
      → options.force_in_memory ≡ true
      → options.dry_run ≡ true
      → (execute_in_memory options in_memory post disk result w).1 ≡ w
  unfolding execute_in_memory
  in_memory_kept (succeeded rewritten new) w forced dry = rw dry refl
  in_memory_kept (merge_failed info) w forced dry =
      elim (Bool-cases options.resolve_merge_conflicts) [
        | inl resolve ↦ rw (resolve, forced) refl
        | inr decline ↦ rw decline refl
      ]

  -- A rebase that is forced to be in memory has the same result and leaves the same state of the
  -- repository whatever a rebase on disk would do to it, and a dry run whatever would follow a rebase
  -- in memory. A dry run that is forced to be in memory leaves the state that the rebase in memory
  -- has left, or the one before it where the rebase is forced to be on disk too.
  pub execute_rebase_plan-forced :
      (w : W)
      → (options.force_in_memory ≡ true
          → execute_rebase_plan options in_memory post disk w
            ≡ execute_rebase_plan options in_memory post disk' w)
        × (options.dry_run ≡ true
            → execute_rebase_plan options in_memory post disk w
              ≡ execute_rebase_plan options in_memory post' disk w)
        × (options.force_in_memory ≡ true
            → options.dry_run ≡ true
            → (execute_rebase_plan options in_memory post disk w).1
              ≡ (if options.force_on_disk then w else (in_memory w).1))
  unfolding execute_rebase_plan
  execute_rebase_plan-forced w = (
    (λ forced. elim (Bool-cases options.force_on_disk) [
      | inl on_disk ↦ rw (on_disk, execute_rebase_plan) (on_disk_same w forced)
      | inr both ↦
          rw (both, execute_rebase_plan)
            (after-same (in_memory w) _ _ λ result w'. in_memory_same result w' forced)
    ]),
    (λ dry. elim (Bool-cases options.force_on_disk) [
      | inl on_disk ↦ rw (on_disk, execute_rebase_plan) (on_disk-post w)
      | inr both ↦
          rw (both, execute_rebase_plan)
            (after-same (in_memory w) _ _ λ result w'. dry_same result w' dry)
    ]),
    λ forced dry. elim (Bool-cases options.force_on_disk) [
      | inl on_disk ↦ rw (on_disk, execute_rebase_plan) (on_disk_kept w forced)
      | inr both ↦
          rw (both, execute_rebase_plan)
            (after-kept (in_memory w) _ λ result w'. in_memory_kept result w' forced dry)
    ],
  )
