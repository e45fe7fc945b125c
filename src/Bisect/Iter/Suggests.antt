-- ===== src/Bisect/Iter/Suggests.antt =====
-- scm-bisect/src/search.rs: what a search suggests.
use git_branchless.Prelude.{
  ℕ, zero, suc, ◌≤◌, ◌<◌, ◌≡◌, refl, inl, inr, ◌⊎◌, Option, none, some, false, Bool-cases, EqTest,
  List, [], ◌∷◌, ◌++◌, Result, Result-cases, ok, err, contains, arith,
}
use git_branchless.Prelude.Map.{Map, lookup, IsUnique}
use git_branchless.Bisect.{
  Graph, Status, untested, status_eq, Bounds, Search, success_bounds, failure_bounds,
}
use git_branchless.Bisect.Iter.{
  SearchError, Strategy, State, Iter, Speculation, dead_end, stopped, speculated, Next, finished,
  out_of_fuel, failed, item, speculate, next_from, next, collect_items, search,
}
use git_branchless.Bisect.Iter.Fuel.{
  IsStrategy, full_tree, full_tree_pos, untested_count, weight, AllFrom, speculate-lighter,
  speculate-parts,
}
use git_branchless.Bisect.Iter.Fresh.{IsFresh, speculate-IsFresh}

Speculation-cases :
    {Node Error StrategyError : Type 0} (x : Speculation Node Error StrategyError)
    → (x ≡ dead_end)
      ⊎ ((e : SearchError Node Error StrategyError) × (pushed : List (State Node)) × (x
            ≡ stopped e pushed))
      ⊎ ((node : Node) × (pushed : List (State Node)) × (x ≡ speculated node pushed))
Speculation-cases dead_end = inl refl
Speculation-cases (stopped e pushed) = inr (inl (e, pushed, refl))
Speculation-cases (speculated node pushed) = inr (inr (node, pushed, refl))

weight-cons :
    {Node : Type 0} (state : State Node) (states : List (State Node))
    → weight states < weight (state ∷ states)
unfolding weight
weight-cons state states = omega (arith, full_tree_pos (untested_count state.statuses))

-- What the iterator gives from nodes seen and states queued: never the end of the fuel; a node that
-- is new and untested, with a lighter queue of states that still come from the search; or an error
-- other than that the node was searched before.
abbrev pub IsNext :
    {Node Error StrategyError : Type 0}
    → ⦃eq : EqTest Node⦄ → Map Node Status
    → List Node
    → List (State Node)
    → Next Node Error StrategyError
    → Type 0
IsNext nodes seen states finished = Unit
IsNext nodes seen states out_of_fuel = ⊥
IsNext nodes seen states (failed e _) = IsFresh e
IsNext nodes seen states (item node iter) =
    (contains seen node ≡ false)
    × (lookup node nodes ≡ some untested)
    × (iter.seen ≡ node ∷ seen)
    × (weight iter.states < weight states)
    × AllFrom nodes iter.states

IsNext-lighter :
    {Node Error StrategyError : Type 0} ⦃eq : EqTest Node⦄ (nodes : Map Node Status)
    (seen : List Node) (states lighter : List (State Node)) (result : Next Node Error StrategyError)
    → weight lighter < weight states
    → IsNext nodes seen lighter result
    → IsNext nodes seen states result
IsNext-lighter nodes seen states lighter finished less h = tt
IsNext-lighter nodes seen states lighter out_of_fuel less h = h
IsNext-lighter nodes seen states lighter (failed e _) less h = h
IsNext-lighter nodes seen states lighter (item node iter) less h =
    (h.0, h.1, h.2, omega (arith, less, h.3), h.4)

module _ {Node Error StrategyError : Type 0} ⦃eq : EqTest Node⦄ (graph : Graph Node Error)
    (strategy : Strategy Node StrategyError) (law : IsStrategy graph strategy)
    (nodes : Map Node Status) where
  next_from-IsNext :
      (fuel : ℕ) (seen : List Node) (states : List (State Node))
      → weight states ≤ fuel
      → AllFrom nodes states
      → IsNext nodes seen states (next_from graph strategy fuel seen states)
  unfolding next_from
  next_from-IsNext fuel seen [] enough from = tt
  next_from-IsNext zero seen (state ∷ states) enough from =
      absurd (omega (arith, enough, weight-cons state states))
  next_from-IsNext (suc fuel) seen (state ∷ states) enough from =
      let heavy = weight-cons state states in
      elim (Speculation-cases (speculate graph strategy state)) [
        | inl none_left ↦
            rw (none_left, next_from)
              (IsNext-lighter nodes seen (state ∷ states) states
                (next_from graph strategy fuel seen states) heavy
                (next_from-IsNext fuel seen states (omega (arith, enough, heavy)) from.2))
        | inr (inl (e, pushed, ends)) ↦
            rw (ends, next_from) (speculate-IsFresh graph strategy law state from.0 e pushed ends)
        | inr (inr (node, pushed, goes)) ↦
            let (less, still) =
              speculate-lighter graph strategy law nodes state node states pushed from goes in
            elim (Bool-cases (contains seen node)) [
              | inl old ↦
                  rw (goes, next_from, old)
                    (IsNext-lighter nodes seen (state ∷ states) (states ++ pushed)
                      (next_from graph strategy fuel seen (states ++ pushed)) (omega (arith, less))
                      (next_from-IsNext fuel seen (states ++ pushed) (omega (arith, enough, less))
                        still))
              | inr new ↦
                  let (chosen, decides) = speculate-parts graph strategy state node pushed goes in
                  let (there, ups, downs) =
                    law.chooses_open state.bounds state.statuses node from.0 chosen in
                  rw (goes, next_from, new)
                    (new, from.1 node there, refl, omega (arith, less), still)
            ]
      ]

-- nodes that are untested in the search, each of them new
abbrev pub AllNew :
    {Node : Type 0} → ⦃eq : EqTest Node⦄ → Map Node Status → List Node → List Node → Type 0
AllNew nodes seen [] = Unit
AllNew nodes seen (node ∷ rest) =
    (contains seen node ≡ false)
    × (lookup node nodes ≡ some untested)
    × AllNew nodes (node ∷ seen) rest

-- all the items of the iterator, or an error other than that a node was searched before
abbrev pub IsRun :
    {Node Error StrategyError : Type 0}
    → ⦃eq : EqTest Node⦄ → Map Node Status
    → List Node
    → Option (Result (SearchError Node Error StrategyError) (List Node))
    → Type 0
IsRun nodes seen none = ⊥
IsRun nodes seen (some (err e)) = IsFresh e
IsRun nodes seen (some (ok items)) = AllNew nodes seen items

abbrev with_item :
    {Node Error StrategyError : Type 0}
    → Node
    → Option (Result (SearchError Node Error StrategyError) (List Node))
    → Option (Result (SearchError Node Error StrategyError) (List Node))
with_item node none = none
with_item node (some (err e)) = some (err e)
with_item node (some (ok nodes)) = some (ok (node ∷ nodes))

IsRun-with_item :
    {Node Error StrategyError : Type 0} ⦃eq : EqTest Node⦄ (nodes : Map Node Status)
    (seen : List Node) (node : Node)
    (rest : Option (Result (SearchError Node Error StrategyError) (List Node)))
    → contains seen node ≡ false
    → lookup node nodes ≡ some untested
    → IsRun nodes (node ∷ seen) rest
    → IsRun nodes seen (with_item node rest)
IsRun-with_item nodes seen node none new there h = h
IsRun-with_item nodes seen node (some (err e)) new there h = h
IsRun-with_item nodes seen node (some (ok items)) new there h = (new, there, h)

Next-cases :
    {Node Error StrategyError : Type 0} (x : Next Node Error StrategyError)
    → (x ≡ finished)
      ⊎ (x ≡ out_of_fuel)
      ⊎ ((e : SearchError Node Error StrategyError) × (iter : Iter Node) × (x ≡ failed e iter))
      ⊎ ((node : Node) × (iter : Iter Node) × (x ≡ item node iter))
Next-cases finished = inl refl
Next-cases out_of_fuel = inr (inl refl)
Next-cases (failed e iter) = inr (inr (inl (e, iter, refl)))
Next-cases (item node iter) = inr (inr (inr (node, iter, refl)))

module _ {Node Error StrategyError : Type 0} ⦃eq : EqTest Node⦄ (graph : Graph Node Error)
    (strategy : Strategy Node StrategyError) (law : IsStrategy graph strategy)
    (nodes : Map Node Status) where
  collect_items-IsRun :
      (rounds fuel : ℕ) (iter : Iter Node)
      → weight iter.states < rounds
      → weight iter.states ≤ fuel
      → AllFrom nodes iter.states
      → IsRun nodes iter.seen (collect_items graph strategy rounds fuel iter)
  unfolding collect_items next
  collect_items-IsRun zero fuel iter more enough from = absurd (omega (arith, more))
  collect_items-IsRun (suc rounds) fuel iter more enough from =
      let step = next_from-IsNext graph strategy law nodes fuel iter.seen iter.states enough from in
      elim (Next-cases (next_from graph strategy fuel iter.seen iter.states)) [
        | inl ends ↦ rw (ends, collect_items) tt
        | inr (inl dry) ↦ absurd (rw dry at step)
        | inr (inr (inl (e, after, fails))) ↦ rw (fails, collect_items) (rw fails at step)
        | inr (inr (inr (node, after, gives))) ↦
            let (new, there, is_seen, less, still) = rw gives at step in
            rw (gives, collect_items)
              (IsRun-with_item nodes iter.seen node (collect_items graph strategy rounds fuel after)
                new there
                (rw (← is_seen) (
                  collect_items-IsRun rounds fuel after (omega (arith, more, less))
                    (omega (arith, enough, less)) still)))
      ]

abbrev initial : {Node : Type 0} → List Node → List Node → Map Node Status → Iter Node
initial successes failures nodes = record {
  seen = [];
  states =
      record {
        bounds = record { success_bound = successes; failure_bound = failures };
        statuses = nodes;
      }
      ∷ [];
}

module _ {Node Error StrategyError : Type 0} ⦃eq : EqTest Node⦄ where
  -- The items of a search come to an end, within fuel that the untested nodes bound: they are
  -- different nodes that are untested in the search, or end in an error of the graph or of the
  -- strategy, never in a node that was searched before.
  pub search_suggests :
      (s : Search Node Error) (strategy : Strategy Node StrategyError) (bounds : Bounds Node)
      (iter : Iter Node)
      → IsStrategy s.graph strategy
      → IsUnique s.nodes
      → search s ≡ ok (bounds, iter)
      → IsRun s.nodes [] (
          collect_items s.graph strategy
            (suc (full_tree (untested_count s.nodes)))
            (full_tree (untested_count s.nodes))
            iter)
  unfolding search weight
  search_suggests s strategy bounds iter law unique h = elim (Result-cases (success_bounds s)) [
    | inr (e, bad) ↦ absurd (ground arith)
    | inl (successes, ups) ↦ elim (Result-cases (failure_bounds s)) [
      | inr (e, bad) ↦ absurd (ground arith)
      | inl (failures, downs) ↦
          let first = initial successes failures s.nodes in
          let is_iter : first ≡ iter = ground arith in
          let light : weight first.states ≡ full_tree (untested_count s.nodes) = omega arith in
          rw (← is_iter) (
            collect_items-IsRun s.graph strategy law s.nodes
              (suc (full_tree (untested_count s.nodes))) (full_tree (untested_count s.nodes)) first
              (omega (arith, light)) (omega (arith, light)) (unique, λ n there. there, tt))
    ]
  ]
