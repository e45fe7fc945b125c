-- ===== src/Plan/Build/Ends.antt =====
-- git-branchless-lib/src/core/rewrite/plan.rs: `make_rebase_plan_for_current_commit` after the check for
-- cycles.
use git_branchless.Prelude.{
  ℕ, zero, suc, ◌≤◌, ◌≡◌, refl, inl, inr, Bool, true, false, ◌||◌, ◌==◌, ==_self, Option-cases,
  List, [], ◌∷◌, ◌++◌, Result, ok, collect, contains, All, arith,
}
use git_branchless.Oid.{NonZeroOid, oid_eq}
use git_branchless.Prelude.Map.{lookup_list}
use git_branchless.Plan.{RebaseCommand, Failure, reported, RebasePlanBuilder}
use git_branchless.Plan.Graph.{ConstraintGraph}
use git_branchless.Plan.Cycles.{acyclic, sorted_children, check_for_cycles_helper}
use git_branchless.Plan.Cycles.Walks.{Edge, contains-sort_oids, helper_acyclic}
use git_branchless.Plan.Build.{
  Commit, PlanRepo, BuildState, own_commands, label_parent, plan_children,
  make_rebase_plan_for_current_commit,
}
use git_branchless.Plan.Build.Returns.{
  Returns, Returns-map, Returns-bind, Returns-reported, collect-All,
}
use git_branchless.Plan.Build.Own.{AreSafe, own_commands-AreSafe}
use git_branchless.Plan.Build.Steps.{
  IsReady, IsAfter, IsAfter-trans, append-IsReady, label_parent-IsAfter, plan_children-IsAfter,
}

-- a commit that is found is the one that was asked for
abbrev pub IsRepo : {E : Type 0} → PlanRepo E → Type 0
IsRepo repo =
    (o : NonZeroOid) (commit : Commit)
    → repo.find_commit_or_fail o ≡ ok commit
    → commit.commit_oid ≡ o

pub All-of_members :
    (P : NonZeroOid → Type 0) (os : List NonZeroOid)
    → ((o : NonZeroOid) → contains os o ≡ true → P o)
    → All P os
All-of_members P [] h = tt
All-of_members P (o ∷ os) h =
    (h o (rw (==_self o) refl), All-of_members P os λ p m. h p (rw m (or_true (o == p))))
  where
    or_true : (x : Bool) → (x || true) ≡ true
    or_true true = refl
    or_true false = refl

pub fuel_needed :
    (g : ConstraintGraph) (n : ℕ) (path : List NonZeroOid) (o : NonZeroOid)
    → check_for_cycles_helper g n path o ≡ acyclic
    → 1 ≤ n
unfolding check_for_cycles_helper
fuel_needed g zero path o h = absurd (cc h)
fuel_needed g (suc n) path o h = omega arith

module _ {E : Type 0} (builder : RebasePlanBuilder) (repo : PlanRepo E) (finds : IsRepo repo)
    (upstream : List ℕ) (g : ConstraintGraph) where
  children-acyclic :
      (n : ℕ) (path : List NonZeroOid) (o : NonZeroOid) (state : BuildState)
      → state.constraints ≡ g
      → check_for_cycles_helper g (suc n) path o ≡ acyclic
      → Returns
          (All (λ child. check_for_cycles_helper g n (path ++ o ∷ []) child.commit_oid ≡ acyclic))
          (reported (collect repo.find_commit_or_fail (sorted_children state.constraints o)))
  children-acyclic n path o state same h =
      let os = sorted_children state.constraints o in
      let Fine : NonZeroOid → Type 0 =
        λ c. check_for_cycles_helper g n (path ++ o ∷ []) c ≡ acyclic in
      Returns-reported (All (λ child. Fine child.commit_oid)) (collect repo.find_commit_or_fail os)
        λ children found.
          collect-All Fine (λ child. Fine child.commit_oid) repo.find_commit_or_fail os
            (All-of_members Fine os λ c m.
              let edge : Edge g o c =
                rw (← contains-sort_oids (lookup_list o g.inner) c) (rw same at m) in
              let (rest, suc_rest, fine) = (helper_acyclic g (suc n) path o h).1 c edge in
              let same_n : rest ≡ n = omega (arith, suc_rest) in rw (← same_n) fine)
            (λ c child fine is_found. rw (finds c child is_found) fine) children found

  pub plan-IsAfter :
      (fuel n : ℕ)
      → n ≤ fuel
      → (path : List NonZeroOid) (state : BuildState) (commit : Commit) (acc : List RebaseCommand)
      → check_for_cycles_helper g n path commit.commit_oid ≡ acyclic
      → state.constraints ≡ g
      → IsReady state acc
      → Returns
          (IsAfter g state.used_labels)
          (make_rebase_plan_for_current_commit builder repo upstream fuel state commit acc)
  unfolding make_rebase_plan_for_current_commit
  plan-IsAfter fuel zero le path state commit acc h same ready =
      absurd (omega (arith, fuel_needed g zero path commit.commit_oid h))
  plan-IsAfter zero (suc n) le path state commit acc h same ready = absurd (omega (arith, le))
  plan-IsAfter (suc fuel) (suc n) le path state commit acc h same ready =
      let path' = path ++ commit.commit_oid ∷ [] in
      let Q : BuildState × List RebaseCommand → Type 0 = IsAfter g state.used_labels in
      let plan : BuildState
          → Commit
          → List RebaseCommand
          → Result (Failure E) (BuildState × List RebaseCommand) =
        λ s c a. make_rebase_plan_for_current_commit builder repo upstream fuel s c a in
      let P : Commit → Type 0 =
        λ child. check_for_cycles_helper g n path' child.commit_oid ≡ acyclic in
      let on_children = plan_children-IsAfter g P plan λ s c a fine same_s ready_s.
        plan-IsAfter fuel n (omega (arith, le)) path' s c a fine same_s ready_s in
      Returns-bind (AreSafe state.used_labels) Q
        (own_commands builder repo upstream state commit acc) _
        (own_commands-AreSafe state ready.known builder repo upstream commit acc)
        λ own safe. elim (Option-cases own) [
          | inl waits ↦ rw waits (record { same_graph = same; ready = ready; keeps = λ name k. k })
          | inr (commands, emitted) ↦ rw emitted (
              Returns-bind (All P) Q
                (reported (
                  collect repo.find_commit_or_fail
                    (sorted_children state.constraints commit.commit_oid)))
                _ (children-acyclic n path commit.commit_oid state same h)
                (λ children fine.
                  Returns-bind Q Q
                    (label_parent builder repo state commit children (acc ++ commands)) _
                    (label_parent-IsAfter builder repo g state commit children (acc ++ commands)
                      same (append-IsReady state acc commands ready (rw emitted at safe)))
                    (λ (state', acc') after.
                      Returns-map (IsAfter g state'.used_labels) Q
                        (plan_children plan children state' acc')
                        (λ result later.
                          IsAfter-trans g state.used_labels state'.used_labels result after.keeps
                            later)
                        (on_children children state' acc' fine after.same_graph after.ready))))
        ]
