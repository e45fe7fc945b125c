-- ===== src/Bisect.antt =====
-- scm-bisect/src/search.rs: the search for the nodes where a predicate flips.
-- A `HashSet` is the list of its elements in the order in which it is iterated, so the bounds are in
-- the order of the search nodes; an `IndexMap` is an association list.
pub mod Notify
pub mod Basic
pub mod Iter
use git_branchless.Prelude.{
  ℕ, ◌≡◌, ◌↔◌, Option, none, some, Bool, true, false, not, ◌==◌, EqTest, if◌then◌else◌, List, [],
  ◌∷◌, map, arith, Result, ok, err, contains, find_map,
}
use git_branchless.Prelude.Map.{Map, lookup, insert}

-- The operations of the trait `Graph`; `simplify_success_bounds` and `simplify_failure_bounds` have
-- the identity as their default.
pub record Graph (Node Error : Type 0) : Type 0 where
  pub is_ancestor : Node → Node → Result Error Bool
  pub simplify_success_bounds : List Node → Result Error (List Node)
  pub simplify_failure_bounds : List Node → Result Error (List Node)

pub data Status : Type 0 where
  untested success failure indeterminate : Status

abbrev pub status_eqb : Status → Status → Bool
status_eqb untested untested = true
status_eqb success success = true
status_eqb failure failure = true
status_eqb indeterminate indeterminate = true
status_eqb _ _ = false

pub status_eqb_iff : (a b : Status) → (status_eqb a b ≡ true) ↔ (a ≡ b)
status_eqb_iff untested untested = ground arith
status_eqb_iff untested success = ground arith
status_eqb_iff untested failure = ground arith
status_eqb_iff untested indeterminate = ground arith
status_eqb_iff success untested = ground arith
status_eqb_iff success success = ground arith
status_eqb_iff success failure = ground arith
status_eqb_iff success indeterminate = ground arith
status_eqb_iff failure untested = ground arith
status_eqb_iff failure success = ground arith
status_eqb_iff failure failure = ground arith
status_eqb_iff failure indeterminate = ground arith
status_eqb_iff indeterminate untested = ground arith
status_eqb_iff indeterminate success = ground arith
status_eqb_iff indeterminate failure = ground arith
status_eqb_iff indeterminate indeterminate = ground arith

instance abbrev pub status_eq : EqTest Status
status_eq = record { eqb = status_eqb; eqb_iff = status_eqb_iff }

pub record Bounds (Node : Type 0) : Type 0 where
  pub success_bound : List Node
  pub failure_bound : List Node

pub data NotifyError (Node Error : Type 0) : Type 0 where
  inconsistent_state_transition : Node → Status → Node → Status → NotifyError Node Error
  illegal_state_transition : Node → Status → Status → NotifyError Node Error
  notify_graph : Error → NotifyError Node Error

pub record Search (Node Error : Type 0) : Type 0 where
  pub graph : Graph Node Error
  pub nodes : Map Node Status

-- `map_err`
abbrev pub map_err : {E F A : Type 0} → (E → F) → Result E A → Result F A
map_err f (ok a) = ok a
map_err f (err e) = err (f e)

module _ {Node : Type 0} ⦃eq : EqTest Node⦄ where
  -- `.map(|node| (node, Status::Untested)).collect()`
  unfoldable pub collect_untested : Map Node Status → List Node → Map Node Status
  collect_untested m [] = m
  collect_untested m (n ∷ ns) = collect_untested (insert n untested m) ns

  unfoldable pub new : {Error : Type 0} → Graph Node Error → List Node → Search Node Error
  unfolding collect_untested
  new graph search_nodes = record { graph = graph; nodes = collect_untested [] search_nodes }

-- the nodes with a status, in the order of the map
abbrev pub nodes_with : {Node : Type 0} → Status → Map Node Status → List Node
nodes_with status [] = []
nodes_with status ((node, s) ∷ nodes) =
    if s == status then node ∷ nodes_with status nodes else nodes_with status nodes

module _ {Node Error : Type 0} where
  unfoldable pub success_bounds : Search Node Error → Result Error (List Node)
  success_bounds s = s.graph.simplify_success_bounds (nodes_with success s.nodes)

  unfoldable pub failure_bounds : Search Node Error → Result Error (List Node)
  failure_bounds s = s.graph.simplify_failure_bounds (nodes_with failure s.nodes)

  -- the loops of `notify`: the value that one of them returns early, if any
  unfoldable pub against_failures :
      Graph Node Error → Node → List Node → Option (NotifyError Node Error)
  against_failures graph node [] = none
  against_failures graph node (failure_node ∷ rest) = elim (graph.is_ancestor failure_node node) [
    | err e ↦ some (notify_graph e)
    | ok true ↦ some (inconsistent_state_transition failure_node failure node success)
    | ok false ↦ against_failures graph node rest
  ]

  unfoldable pub against_successes :
      Graph Node Error → Node → List Node → Option (NotifyError Node Error)
  against_successes graph node [] = none
  against_successes graph node (success_node ∷ rest) = elim (graph.is_ancestor node success_node) [
    | err e ↦ some (notify_graph e)
    | ok true ↦ some (inconsistent_state_transition node failure success_node success)
    | ok false ↦ against_successes graph node rest
  ]

  -- the second `match` of `notify`
  unfoldable pub contradiction : Search Node Error → Node → Status → Option (NotifyError Node Error)
  unfolding success_bounds failure_bounds against_failures against_successes
  contradiction s node untested = none
  contradiction s node indeterminate = none
  contradiction s node success = elim (failure_bounds s) [
    | err e ↦ some (notify_graph e)
    | ok bounds ↦ against_failures s.graph node bounds
  ]
  contradiction s node failure = elim (success_bounds s) [
    | err e ↦ some (notify_graph e)
    | ok bounds ↦ against_successes s.graph node bounds
  ]

module _ {Node Error : Type 0} ⦃eq : EqTest Node⦄ where
  -- the first `match` of `notify`: a verdict is not changed
  unfoldable pub illegal : Search Node Error → Node → Status → Option (NotifyError Node Error)
  illegal s node status = elim (lookup node s.nodes) [
    | none ↦ none
    | some untested ↦ none
    | some indeterminate ↦ none
    | some success ↦
        if success == status then none else some (illegal_state_transition node success status)
    | some failure ↦
        if failure == status then none else some (illegal_state_transition node failure status)
  ]

  -- the new search, or the error: then the search is as it was
  unfoldable pub notify :
      Search Node Error → Node → Status → Result (NotifyError Node Error) (Search Node Error)
  unfolding illegal contradiction
  notify s node status = elim (illegal s node status) [
    | some e ↦ err e
    | none ↦ elim (contradiction s node status) [
      | some e ↦ err e
      | none ↦ ok (record s { nodes = insert node status s.nodes })
    ]
  ]
