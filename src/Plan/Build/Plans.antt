-- ===== src/Plan/Build/Plans.antt =====
-- git-branchless-lib/src/core/rewrite/plan.rs: `build`, once the constraints are complete.
use git_branchless.Prelude.{
  ℕ, ◌≤◌, ◌≡◌, ◌≢◌, refl, inl, inr, true, false, Bool-cases, ◌==◌, Option, none, some, Option-cases,
  List, [], ◌∷◌, ◌++◌, ok, err, contains, arith,
}
use git_branchless.Prelude.Map.{Map, lookup, lookup_list}
use git_branchless.Oid.{NonZeroOid, oid_eq}
use git_branchless.Plan.{
  Constraint, move_children, move_subtree, fix_up_commit, oid, RebaseCommand, reset,
  register_extra_post_rewrite_hook, RebasePlan, out_of_fuel, reported, RebasePlanBuilder,
}
use git_branchless.Plan.Graph.{
  ConstraintGraph, keys, parents, sort_oids, check_permissions, find_roots,
}
use git_branchless.Plan.Cycles.{acyclic, cycle_fuel, check_for_cycles_helper, check_for_cycles}
use git_branchless.Plan.Cycles.Walks.{contains-sort_oids, check_each-acyclic, CycleCheck-cases}
use git_branchless.Plan.Cycles.Verdict.{check_for_cycles_lem}
use git_branchless.Plan.Build.{
  PlanRepo, BuildState, make_rebase_plan_for_current_commit, root_of, plan_root, plan_roots,
  build_from,
}
use git_branchless.Plan.Build.Returns.{
  Returns, Returns-fuel, Returns-ok, Returns-bind, Returns-reported,
}
use git_branchless.Plan.Build.Labels.{IsScoped, IsScoped-append}
use git_branchless.Plan.Build.Steps.{IsReady, IsAfter, append-IsReady}
use git_branchless.Plan.Build.Ends.{IsRepo, plan-IsAfter}

-- the check for cycles passes from a commit
abbrev pub IsSound : ConstraintGraph → NonZeroOid → Type 0
IsSound g o =
    (n : ℕ) × (path : List NonZeroOid) × (n ≤ cycle_fuel g)
    × (check_for_cycles_helper g n path o ≡ acyclic)

no_children :
    (o : NonZeroOid) (m : Map NonZeroOid (List NonZeroOid))
    → contains (keys m) o ≡ false
    → lookup_list o m ≡ []
unfolding lookup
no_children o [] h = refl
no_children o ((k, vs) ∷ m) h = elim (Bool-cases (k == o)) [
  | inl same ↦ absurd (cc (rw same at h))
  | inr other ↦ rw (other, lookup_list, lookup) (no_children o m (rw other at h))
]

module _ (g : ConstraintGraph) (passed : check_for_cycles g ≡ acyclic) where
  key_fine :
      (o : NonZeroOid)
      → contains (parents g) o ≡ true
      → check_for_cycles_helper g (cycle_fuel g) [] o ≡ acyclic
  unfolding check_for_cycles
  key_fine o h =
      check_each-acyclic (λ k. check_for_cycles_helper g (cycle_fuel g) [] k)
        (sort_oids (parents g)) passed o (rw (contains-sort_oids (parents g) o) h)

  leaf_fine :
      (o : NonZeroOid)
      → contains (parents g) o ≡ false
      → check_for_cycles_helper g (cycle_fuel g) [] o ≡ acyclic
  unfolding check_for_cycles_helper sort_oids
  leaf_fine o h = rw (no_children o g.inner h) refl

  -- The check passes from every commit, since it passes from the keys and the others have no children.
  any_fine : (o : NonZeroOid) → IsSound g o
  any_fine o = (
    cycle_fuel g,
    [],
    omega arith,
    elim (Bool-cases (contains (parents g) o)) [
      | inl key ↦ key_fine o key
      | inr leaf ↦ leaf_fine o leaf
    ],
  )

module _ {E : Type 0} (builder : RebasePlanBuilder) (repo : PlanRepo E) (finds : IsRepo repo)
    (g : ConstraintGraph) (passed : check_for_cycles g ≡ acyclic) where
  -- the commands of the roots
  abbrev AreScoped : Option NonZeroOid × List RebaseCommand → Type 0
  AreScoped result = IsScoped [] result.1

  Planned : NonZeroOid × BuildState × List RebaseCommand → Type 0
  Planned result = (result.1.constraints ≡ g) × IsReady result.1 result.2

  root_of_fine : (root : Constraint) → Returns (λ _. Unit) (root_of builder repo root)
  unfolding root_of
  root_of_fine (move_children _ _) = tt
  root_of_fine (move_subtree _ _) = tt
  root_of_fine (fix_up_commit o _) =
      Returns-bind (λ _. Unit) (λ _. Unit) (reported (repo.find_commit_or_fail o)) _
        (Returns-reported (λ _. Unit) (repo.find_commit_or_fail o) λ _ _. tt) λ _ _. tt

  plan_root-Planned :
      (parent_oids : List NonZeroOid) (child_oid : NonZeroOid) (state : BuildState)
      (acc : List RebaseCommand)
      → state.constraints ≡ g
      → IsReady state acc
      → Returns Planned (plan_root builder repo (cycle_fuel g) state acc parent_oids child_oid)
  unfolding plan_root Planned
  plan_root-Planned [] child_oid state acc same ready = tt
  plan_root-Planned (first ∷ others) child_oid state acc same ready =
      Returns-bind (λ _. Unit) Planned _ _ upstream_fine
        λ upstream _.
          Returns-bind (λ _. Unit) Planned (reported (repo.find_commit_or_fail child_oid)) _
            (Returns-reported (λ _. Unit) (repo.find_commit_or_fail child_oid) λ _ _. tt)
            λ child _.
              let (n, path, le, fine) = any_fine g passed child.commit_oid in
              let acc' = acc ++ reset (oid first) ∷ [] in
              Returns-bind (IsAfter g state.used_labels) Planned
                (make_rebase_plan_for_current_commit builder repo upstream (cycle_fuel g) state
                  child acc')
                _
                (plan-IsAfter builder repo finds upstream g (cycle_fuel g) n le path state child
                  acc' fine same
                  (append-IsReady state acc (reset (oid first) ∷ []) ready ((tt, tt), refl)))
                λ result after. (after.same_graph, after.ready)
    where
      upstream_fine :
          Returns {E = E}
            (λ _. Unit)
            (elim builder.permissions.detect_duplicate_commits_via_patch_id [
              | true ↦ reported (repo.get_upstream_patch_ids child_oid (first ∷ others))
              | false ↦ ok []
            ])
      upstream_fine = elim (Bool-cases builder.permissions.detect_duplicate_commits_via_patch_id) [
        | inl on ↦ rw on (
            Returns-reported (λ _. Unit) (repo.get_upstream_patch_ids child_oid (first ∷ others))
              λ _ _. tt)
        | inr off ↦ rw off tt
      ]

  plan_roots-AreScoped :
      (roots : List Constraint) (state : BuildState) (first_dest : Option NonZeroOid)
      (acc : List RebaseCommand)
      → state.constraints ≡ g
      → IsReady state acc
      → Returns AreScoped (plan_roots builder repo (cycle_fuel g) roots state first_dest acc)
  unfolding plan_roots Planned
  plan_roots-AreScoped [] state first_dest acc same ready = ready.scoped
  plan_roots-AreScoped (root ∷ roots) state first_dest acc same ready =
      Returns-bind (λ _. Unit) AreScoped (root_of builder repo root) _ (root_of_fine root)
        λ (parent_oids, child_oid) _.
          Returns-bind Planned AreScoped
            (plan_root builder repo (cycle_fuel g) state acc parent_oids child_oid) _
            (plan_root-Planned parent_oids child_oid state acc same ready)
            λ (first, state', acc') planned.
              plan_roots-AreScoped roots state' _ acc' planned.0 planned.1

-- the plan, if there is one, refers to created labels only
abbrev pub PlanIsScoped : Option RebasePlan → Type 0
PlanIsScoped none = Unit
PlanIsScoped (some plan) = IsScoped [] plan.commands

module _ {E : Type 0} (builder : RebasePlanBuilder) (repo : PlanRepo E) (finds : IsRepo repo)
    (g : ConstraintGraph) where
  pub build_from-PlanIsScoped : Returns PlanIsScoped (build_from builder repo g)
  unfolding build_from lookup
  build_from-PlanIsScoped = elim (CycleCheck-cases (check_for_cycles g)) [
    | inr (inl dry) ↦ absurd (elim (check_for_cycles_lem g) [
      | inl (passes, _) ↦ cc (dry, passes)
      | inr (path, o, found, _, _, _) ↦ cc (dry, found)
    ])
    | inr (inr (oids, found)) ↦ rw (found, build_from) tt
    | inl passes ↦
        let allowed = builder.permissions.allowed_commits in
        rw (passes, build_from)
          (Returns-bind (λ _. Unit) PlanIsScoped
            (reported (check_permissions repo.set_is_empty allowed g)) _
            (Returns-reported (λ _. Unit) (check_permissions repo.set_is_empty allowed g) λ _ _. tt)
            λ permitted _. elim (Option-cases permitted) [
              | inr (illegal, found) ↦ rw found tt
              | inl fine ↦ rw fine (
                  Returns-bind (AreScoped builder repo finds g passes) PlanIsScoped
                    (plan_roots builder repo (cycle_fuel g) (find_roots g)
                      (record { constraints = g; used_labels = []; parent_labels = [] }) none [])
                    _
                    (plan_roots-AreScoped builder repo finds g passes (find_roots g)
                      (record { constraints = g; used_labels = []; parent_labels = [] }) none []
                      refl
                      (record {
                        scoped = tt;
                        in_use = refl;
                        known = λ o name found. absurd (cc found);
                      }))
                    λ (first_dest, acc) scoped. elim (Option-cases first_dest) [
                      | inl no_dest ↦ rw no_dest tt
                      | inr (d, dest) ↦ rw dest (
                          IsScoped-append [] acc (register_extra_post_rewrite_hook ∷ []) scoped
                            (tt, tt))
                    ])
            ])
  ]

  -- Planning comes to an end by itself: no walk through the commits runs out, since the check for
  -- cycles came first, and no name for a label is looked for in vain.
  pub build_from-ends : build_from builder repo g ≢ err out_of_fuel
  build_from-ends = Returns-fuel PlanIsScoped (build_from builder repo g) build_from-PlanIsScoped

  -- In a plan every label is created once, and before it is used.
  pub build_from-IsScoped :
      (plan : RebasePlan) → build_from builder repo g ≡ ok (some plan) → IsScoped [] plan.commands
  build_from-IsScoped plan made =
      Returns-ok PlanIsScoped (build_from builder repo g) (some plan) build_from-PlanIsScoped made
