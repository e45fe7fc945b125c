-- ===== src/Bisect/Iter.antt =====
-- scm-bisect/src/search.rs: the nodes that a search suggests, by speculation on both results.
-- The strategy and the graph are parameters; the queue of states is the list of them, and the
-- `while` loop of `next` takes fuel.
pub mod Fuel
pub mod Fresh
pub mod Suggests
use git_branchless.Prelude.{
  ℕ, zero, suc, ◌+◌, Option, none, some, Bool, true, false, ◌==◌, EqTest, List, [], ◌∷◌, ◌++◌,
  Result, ok, err, ◌>>=◌, contains, set_insert,
}
use git_branchless.Prelude.Map.{Map, insert}
use git_branchless.Bisect.{
  Graph, Status, untested, success, failure, Bounds, Search, success_bounds, failure_bounds,
}

pub data SearchError (Node Error StrategyError : Type 0) : Type 0 where
  already_searched_midpoint : Node → Status → SearchError Node Error StrategyError
  search_graph : Error → SearchError Node Error StrategyError
  search_strategy : StrategyError → SearchError Node Error StrategyError

-- the operation of the trait `Strategy`
abbrev pub Strategy : Type 0 → Type 0 → Type 0
Strategy Node StrategyError = Bounds Node → Map Node Status → Result StrategyError (Option Node)

pub record State (Node : Type 0) : Type 0 where
  pub bounds : Bounds Node
  pub statuses : Map Node Status

pub record Iter (Node : Type 0) : Type 0 where
  pub seen : List Node
  pub states : List (State Node)

-- what a state that is popped gives: nothing, an error after some pushes, or a node and two pushes
pub data Speculation (Node Error StrategyError : Type 0) : Type 0 where
  dead_end : Speculation Node Error StrategyError
  stopped :
      SearchError Node Error StrategyError
      → List (State Node)
      → Speculation Node Error StrategyError
  speculated : Node → List (State Node) → Speculation Node Error StrategyError

pub data Next (Node Error StrategyError : Type 0) : Type 0 where
  finished out_of_fuel : Next Node Error StrategyError
  failed : SearchError Node Error StrategyError → Iter Node → Next Node Error StrategyError
  item : Node → Iter Node → Next Node Error StrategyError

module _ {Node Error StrategyError : Type 0} (graph : Graph Node Error) where
  -- the loops over the success bounds and the failure bounds
  unfoldable pub check_success : Node → List Node → Option (SearchError Node Error StrategyError)
  check_success node [] = none
  check_success node (success_node ∷ rest) = elim (graph.is_ancestor node success_node) [
    | ok true ↦ some (already_searched_midpoint node success)
    | ok false ↦ check_success node rest
    | err e ↦ some (search_graph e)
  ]

  unfoldable pub check_failure : Node → List Node → Option (SearchError Node Error StrategyError)
  check_failure node [] = none
  check_failure node (failure_node ∷ rest) = elim (graph.is_ancestor failure_node node) [
    | ok true ↦ some (already_searched_midpoint node failure)
    | ok false ↦ check_failure node rest
    | err e ↦ some (search_graph e)
  ]

module _ {Node Error StrategyError : Type 0} ⦃eq : EqTest Node⦄ (graph : Graph Node Error)
    (strategy : Strategy Node StrategyError) where
  -- the part of the loop that follows the checks
  unfoldable pub push_both : State Node → Node → Speculation Node Error StrategyError
  push_both state node =
      elim (graph.simplify_failure_bounds (set_insert node state.bounds.failure_bound)) [
        | err e ↦ stopped (search_graph e) []
        | ok failures ↦
            let on_failure : State Node = record {
              bounds = record {
                success_bound = state.bounds.success_bound;
                failure_bound = failures;
              };
              statuses = insert node failure state.statuses;
            } in
            elim (graph.simplify_success_bounds (set_insert node state.bounds.success_bound)) [
              | err e ↦ stopped (search_graph e) (on_failure ∷ [])
              | ok successes ↦ speculated node (
                  on_failure
                  ∷ record {
                    bounds = record {
                      success_bound = successes;
                      failure_bound = state.bounds.failure_bound;
                    };
                    statuses = insert node success state.statuses;
                  }
                  ∷ [])
            ]
      ]

  unfoldable pub speculate : State Node → Speculation Node Error StrategyError
  unfolding check_success check_failure push_both
  speculate state = elim (strategy state.bounds state.statuses) [
    | err e ↦ stopped (search_strategy e) []
    | ok none ↦ dead_end
    | ok (some node) ↦ elim (check_success graph node state.bounds.success_bound) [
      | some e ↦ stopped e []
      | none ↦ elim (check_failure graph node state.bounds.failure_bound) [
        | some e ↦ stopped e []
        | none ↦ push_both state node
      ]
    ]
  ]

  -- `Iter::next`, from the nodes seen and the states queued
  unfoldable pub next_from : ℕ → List Node → List (State Node) → Next Node Error StrategyError
  unfolding speculate
  next_from fuel seen [] = finished
  next_from zero seen (state ∷ states) = out_of_fuel
  next_from (suc fuel) seen (state ∷ states) = elim (speculate state) [
    | dead_end ↦ next_from fuel seen states
    | stopped e pushed ↦ failed e (record { seen = seen; states = states ++ pushed })
    | speculated node pushed ↦ elim (contains seen node) [
      | true ↦ next_from fuel seen (states ++ pushed)
      | false ↦ item node (record { seen = node ∷ seen; states = states ++ pushed })
    ]
  ]

  unfoldable pub next : ℕ → Iter Node → Next Node Error StrategyError
  unfolding next_from
  next fuel iter = next_from fuel iter.seen iter.states

  -- the items that `LazySolution::into_eager` collects; `none` where the fuel ends
  unfoldable pub collect_items :
      ℕ → ℕ → Iter Node → Option (Result (SearchError Node Error StrategyError) (List Node))
  unfolding next
  collect_items zero fuel iter = none
  collect_items (suc rounds) fuel iter = elim (next fuel iter) [
    | finished ↦ some (ok [])
    | out_of_fuel ↦ none
    | failed e _ ↦ some (err e)
    | item node iter' ↦ elim (collect_items rounds fuel iter') [
      | none ↦ none
      | some (err e) ↦ some (err e)
      | some (ok nodes) ↦ some (ok (node ∷ nodes))
    ]
  ]

module _ {Node Error : Type 0} where
  -- the iterator of `Search::search`, with the bounds of the solution
  unfoldable pub search : Search Node Error → Result Error (Bounds Node × Iter Node)
  unfolding success_bounds failure_bounds
  search s = success_bounds s >>= λ successes. failure_bounds s >>= λ failures.
      let bounds : Bounds Node = record { success_bound = successes; failure_bound = failures } in
      ok
        (bounds, record { seen = []; states = record { bounds = bounds; statuses = s.nodes } ∷ [] })
