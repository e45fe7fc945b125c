-- ===== src/Plan/Cycles.antt =====
-- git-branchless-lib/src/core/rewrite/plan.rs: `check_for_cycles`.
pub mod Pigeonhole
pub mod Walks
pub mod Verdict
use git_branchless.Prelude.{
  ℕ, zero, suc, Option, none, some, Bool, true, false, ◌==◌, if◌then◌else◌, List, [], ◌∷◌, ◌++◌,
  contains, length,
}
use git_branchless.Prelude.Map.{lookup_list}
use git_branchless.Oid.{NonZeroOid, oid_eq}
use git_branchless.Plan.Graph.{ConstraintGraph, parents, commits_to_move, sort_oids}

-- `Ok(())`, the path of `ConstraintCycle`, or the end of the fuel
pub data CycleCheck : Type 0 where
  acyclic exhausted : CycleCheck
  cycle : List NonZeroOid → CycleCheck

-- `for oid in oids { check(oid)?; }`
abbrev pub check_each : (NonZeroOid → CycleCheck) → List NonZeroOid → CycleCheck
check_each check [] = acyclic
check_each check (o ∷ os) = elim (check o) [
  | acyclic ↦ check_each check os
  | exhausted ↦ exhausted
  | cycle path ↦ cycle path
]

-- the commits to move on top of a commit, sorted; none if the commit is no key
abbrev pub sorted_children : ConstraintGraph → NonZeroOid → List NonZeroOid
sorted_children g o = sort_oids (lookup_list o g.inner)

unfoldable pub check_for_cycles_helper :
    ConstraintGraph → ℕ → List NonZeroOid → NonZeroOid → CycleCheck
check_for_cycles_helper g zero path current_oid = exhausted
check_for_cycles_helper g (suc fuel) path current_oid = elim (contains path current_oid) [
  | true ↦ cycle (path ++ current_oid ∷ [])
  | false ↦
      check_each (λ child. check_for_cycles_helper g fuel (path ++ current_oid ∷ []) child)
        (sorted_children g current_oid)
]

-- the commits of the graph
abbrev pub nodes : ConstraintGraph → List NonZeroOid
nodes g = parents g ++ commits_to_move g

-- A path without repetition is no longer than the graph, and one commit more ends it.
abbrev pub cycle_fuel : ConstraintGraph → ℕ
cycle_fuel g = suc (length (nodes g))

unfoldable pub check_for_cycles : ConstraintGraph → CycleCheck
unfolding check_for_cycles_helper
check_for_cycles g =
    check_each (λ o. check_for_cycles_helper g (cycle_fuel g) [] o) (sort_oids (parents g))
