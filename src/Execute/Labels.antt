-- ===== src/Execute/Labels.antt =====
-- git-branchless-lib/src/core/rewrite/execute.rs: the labels while a plan is executed.
use git_branchless.Prelude.{
  ◌≡◌, ◌≢◌, refl, inl, inr, Option, some, Option-cases, Bool, true, Bool-cases, ◌==◌, string_eq,
  List, [], ◌∷◌, String, Result, ok, err, ◌>>=◌, contains, find_map, All, Yields, Yields-bind,
  Yields-err,
}
use git_branchless.Prelude.Map.{Map, lookup, insert, lookup-insert}
use git_branchless.Oid.{NonZeroOid}
use git_branchless.Plan.{
  OidOrLabel, oid, label, RebaseCommand, create_label, reset, pick, merge, replace, break,
  register_extra_post_rewrite_hook, detect_empty_commit, skip_upstream_applied_commit, RebasePlan,
  RebasePlanBuilder,
}
use git_branchless.Plan.Graph.{ConstraintGraph}
use git_branchless.Plan.Build.{PlanRepo, build_from}
use git_branchless.Plan.Build.Labels.{IsKnown, Needs, created, IsScoped}
use git_branchless.Plan.Build.Ends.{IsRepo}
use git_branchless.Plan.Build.Plans.{build_from-IsScoped}
use git_branchless.Execute.InMemory.{
  RebaseInMemoryResult, Stop, report, missing_label, break_not_supported, panic, merging, Repo,
  RebaseState, checked, find_label, find_parents, merge_of, start_state, caught, run_command,
  run_commands, rebase_in_memory,
}
use git_branchless.Execute.Effects.{Effect}
use git_branchless.Execute.Runs.{Resolves, run_command-Effect}

-- the errors of a plan that is made badly are not among them
abbrev pub IsOutside : {E : Type 0} → Stop E → Type 0
IsOutside (report _) = Unit
IsOutside (missing_label _) = ⊥
IsOutside break_not_supported = ⊥
IsOutside panic = Unit
IsOutside (merging _) = Unit

-- the labels that were created stand for commits
abbrev pub Knows : List String → Map String NonZeroOid → Type 0
Knows seen labels =
    (name : String) → contains seen name ≡ true → (o : NonZeroOid) × (lookup name labels ≡ some o)

Knows-insert :
    (seen : List String) (labels : Map String NonZeroOid) (name : String) (o : NonZeroOid)
    → Knows seen labels
    → Knows (name ∷ seen) (insert name o labels)
Knows-insert seen labels name o h other m = elim (Bool-cases (name == other)) [
  | inl same ↦ (o, rw (lookup-insert name other o labels, same) refl)
  | inr differs ↦
      let (p, found) = h other (rw differs at m) in
      (p, rw (lookup-insert name other o labels, differs) found)
]

module _ {E Store Signature Tree : Type 0} (repo : Repo E Store Signature Tree)
    (preserve_timestamps : Bool) where
  checked-IsOutside :
      {A B : Type 0} (r : Result E A) (f : A → Result (Stop E) B)
      → ((a : A) → Yields IsOutside (λ _. Unit) (f a))
      → Yields IsOutside (λ _. Unit) (checked r >>= f)
  checked-IsOutside (ok a) f k = k a
  checked-IsOutside (err e) f k = tt

  find_label-found :
      (seen : List String) (labels : Map String NonZeroOid) (name : String)
      → Knows seen labels
      → contains seen name ≡ true
      → Yields {F = Stop E} IsOutside (λ _. Unit) (find_label labels name)
  find_label-found seen labels name h m = let (o, found) = h name m in rw (found, find_label) tt

  find_parents-found :
      (seen : List String) (labels : Map String NonZeroOid) (store : Store)
      (parents : List OidOrLabel)
      → Knows seen labels
      → All (IsKnown seen) parents
      → Yields IsOutside (λ _. Unit) (find_parents repo preserve_timestamps store labels parents)
  unfolding find_parents
  find_parents-found seen labels store [] h known = tt
  find_parents-found seen labels store (oid o ∷ parents) h known =
      checked-IsOutside (repo.find_commit_or_fail store o) _ λ _.
        Yields-bind IsOutside (λ _. Unit) (λ _. Unit)
          (find_parents repo preserve_timestamps store labels parents) _
          (find_parents-found seen labels store parents h known.1) λ _ _. tt
  find_parents-found seen labels store (label name ∷ parents) h known =
      Yields-bind IsOutside (λ _. Unit) (λ _. Unit) (find_label labels name) _
        (find_label-found seen labels name h known.0)
        λ o _. checked-IsOutside (repo.find_commit_or_fail store o) _ λ _.
          Yields-bind IsOutside (λ _. Unit) (λ _. Unit)
            (find_parents repo preserve_timestamps store labels parents) _
            (find_parents-found seen labels store parents h known.1) λ _ _. tt

  module _ (head_oid : Option NonZeroOid) where
    Needs-Resolves :
        (seen : List String) (state : RebaseState Store) (c : RebaseCommand)
        → Knows seen state.labels
        → Needs seen c
        → Resolves repo preserve_timestamps head_oid IsOutside (λ e. tt) (λ info. tt) tt state c
    Needs-Resolves seen state (create_label _) h needs = tt
    Needs-Resolves seen state (reset (oid _)) h needs = tt
    Needs-Resolves seen state (reset (label name)) h needs =
        find_label-found seen state.labels name h needs
    Needs-Resolves seen state (pick _ _) h needs = tt
    Needs-Resolves seen state (merge _ _) h needs = tt
    Needs-Resolves seen state (replace _ _ parents) h needs =
        find_parents-found seen state.labels state.store parents h needs
    Needs-Resolves seen state break h needs = absurd needs
    Needs-Resolves seen state register_extra_post_rewrite_hook h needs = tt
    Needs-Resolves seen state (detect_empty_commit _) h needs = tt
    Needs-Resolves seen state (skip_upstream_applied_commit _) h needs = tt

    Effect-Knows :
        (seen : List String) (c : RebaseCommand) (before after : RebaseState Store)
        → Knows seen before.labels
        → Effect head_oid c before after
        → Knows (created c seen) after.labels
    Effect-Knows seen (create_label name) before after h e =
        rw e.now_labels (Knows-insert seen before.labels name before.current_oid h)
    Effect-Knows seen (reset _) before after h e = rw e.now_labels h
    Effect-Knows seen (pick o os) before after h (inl skip) = rw skip.same_labels h
    Effect-Knows seen (pick o os) before after h (inr rewrite) = rw rewrite.same_labels h
    Effect-Knows seen (merge _ _) before after h e = absurd e
    Effect-Knows seen (replace _ _ _) before after h e = rw e.same_labels h
    Effect-Knows seen break before after h e = absurd e
    Effect-Knows seen register_extra_post_rewrite_hook before after h e = rw e.now_labels h
    Effect-Knows seen (detect_empty_commit _) before after h e = rw e.now_labels h
    Effect-Knows seen (skip_upstream_applied_commit _) before after h e = rw e.same_labels h

    run_commands-IsOutside :
        (seen : List String) (cs : List RebaseCommand) (state : RebaseState Store)
        → IsScoped seen cs
        → Knows seen state.labels
        → Yields IsOutside (λ _. Unit) (run_commands repo preserve_timestamps head_oid cs state)
    unfolding run_commands
    run_commands-IsOutside seen [] state scoped h = tt
    run_commands-IsOutside seen (c ∷ cs) state scoped h =
        Yields-bind IsOutside (Effect head_oid c state) (λ _. Unit)
          (run_command repo preserve_timestamps head_oid c state) _
          (run_command-Effect repo preserve_timestamps head_oid IsOutside (λ e. tt) (λ info. tt) tt
            c state (Needs-Resolves seen state c h scoped.0))
          λ state' effect.
            run_commands-IsOutside (created c seen) cs state' scoped.1
              (Effect-Knows seen c state state' h effect)

  caught-IsOutside :
      (r : Result (Stop E) RebaseInMemoryResult)
      → Yields IsOutside (λ _. Unit) r
      → Yields IsOutside (λ _. Unit) (caught r)
  caught-IsOutside (ok result) h = tt
  caught-IsOutside (err (merging info)) h = tt
  caught-IsOutside (err (report e)) h = tt
  caught-IsOutside (err (missing_label name)) h = h
  caught-IsOutside (err break_not_supported) h = h
  caught-IsOutside (err panic) h = tt

  scoped_fine :
      (get_head_oid : Result E (Option NonZeroOid)) (store : Store) (plan : RebasePlan)
      → IsScoped [] plan.commands
      → Yields IsOutside
          (λ _. Unit)
          (rebase_in_memory repo preserve_timestamps get_head_oid store plan)
  unfolding rebase_in_memory lookup
  scoped_fine get_head_oid store plan scoped =
      elim (Option-cases (find_map merge_of plan.commands)) [
        | inr (o, found) ↦ rw (found, rebase_in_memory) tt
        | inl no_merge ↦
            rw (no_merge, rebase_in_memory)
              (caught-IsOutside _ (
                checked-IsOutside get_head_oid _ λ head_oid.
                  Yields-bind IsOutside (λ _. Unit) (λ _. Unit)
                    (run_commands repo preserve_timestamps head_oid plan.commands
                      (start_state store plan))
                    _
                    (run_commands-IsOutside head_oid [] plan.commands (start_state store plan)
                      scoped λ name m. absurd (cc m))
                    λ state _. tt))
      ]

-- The execution of a plan that was built finds every label that it looks for, and meets no `break`:
-- whatever the repository answers, these two errors do not occur.
pub rebase_in_memory-build_from :
    {E Store Signature Tree F : Type 0} (repo : Repo E Store Signature Tree)
    (preserve_timestamps : Bool) (builder : RebasePlanBuilder) (planner : PlanRepo F)
    → IsRepo planner
    → (g : ConstraintGraph) (plan : RebasePlan) → build_from builder planner g ≡ ok (some plan)
    → (get_head_oid : Result E (Option NonZeroOid)) (store : Store)
    → ((name : String)
        → rebase_in_memory repo preserve_timestamps get_head_oid store plan
          ≢ err (missing_label name))
      × (rebase_in_memory repo preserve_timestamps get_head_oid store plan
          ≢ err break_not_supported)
rebase_in_memory-build_from repo preserve_timestamps builder planner finds g plan made get_head_oid
      store =
    let fine =
      scoped_fine repo preserve_timestamps get_head_oid store plan
        (build_from-IsScoped builder planner finds g plan made) in
    let result = rebase_in_memory repo preserve_timestamps get_head_oid store plan in
    (
      λ name e. Yields-err IsOutside (λ _. Unit) result (missing_label name) fine e,
      λ e. Yields-err IsOutside (λ _. Unit) result break_not_supported fine e,
    )
