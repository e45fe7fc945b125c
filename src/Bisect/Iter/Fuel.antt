-- ===== src/Bisect/Iter/Fuel.antt =====
-- scm-bisect/src/search.rs: the fuel of the iterator.
use git_branchless.Prelude.{
  ℕ, zero, suc, ◌+◌, ◌≤◌, ◌≡◌, ◌≢◌, refl, inl, inr, none, some, Option-cases, true, false,
  Bool-cases, ◌==◌, ==_iff, EqTest, List, [], ◌∷◌, ◌++◌, length, Result-cases, ok, contains,
  set_insert, arith,
}
use git_branchless.Prelude.Map.{Map, lookup, insert, lookup-insert, IsUnique, insert-IsUnique}
use git_branchless.Bisect.{Graph, Status, untested, success, failure, status_eq, Bounds, nodes_with}
use git_branchless.Bisect.Iter.{
  Strategy, State, speculated, check_success, check_failure, push_both, speculate,
}

-- What the search relies on: a midpoint is an untested node that is no ancestor of a success bound,
-- and that no failure bound is an ancestor of.
pub record IsStrategy {Node Error StrategyError : Type 0} ⦃eq : EqTest Node⦄
    (graph : Graph Node Error) (strategy : Strategy Node StrategyError) : Type 0 where
  pub chooses_open :
      (bounds : Bounds Node) (statuses : Map Node Status) (node : Node)
      → IsUnique statuses
      → strategy bounds statuses ≡ ok (some node)
      → (lookup node statuses ≡ some untested)
        × ((b : Node) → contains bounds.success_bound b ≡ true → graph.is_ancestor node b ≢ ok true)
        × ((f : Node) → contains bounds.failure_bound f ≡ true → graph.is_ancestor f node ≢ ok true)

-- the nodes of the tree of speculation on `n` untested nodes
pub full_tree : ℕ → ℕ
full_tree zero = 1
full_tree (suc n) = 1 + (full_tree n + full_tree n)

pub full_tree_pos : (n : ℕ) → 1 ≤ full_tree n
unfolding full_tree
full_tree_pos zero = omega arith
full_tree_pos (suc n) = omega (arith, full_tree_pos n)

abbrev pub untested_count : {Node : Type 0} → Map Node Status → ℕ
untested_count statuses = length (nodes_with untested statuses)

-- fuel for what a list of states leads to
unfoldable pub weight : {Node : Type 0} → List (State Node) → ℕ
unfolding full_tree
weight [] = 0
weight (state ∷ states) = full_tree (untested_count state.statuses) + weight states

pub weight-append :
    {Node : Type 0} (xs ys : List (State Node)) → weight (xs ++ ys) ≡ weight xs + weight ys
unfolding weight
weight-append [] ys = omega arith
weight-append (x ∷ xs) ys = omega (arith, weight-append xs ys)

module _ {Node : Type 0} ⦃eq : EqTest Node⦄ where
  untested_count-insert :
      (node : Node) (status : Status) (m : Map Node Status)
      → (status == untested) ≡ false
      → lookup node m ≡ some untested
      → suc (untested_count (insert node status m)) ≡ untested_count m
  unfolding lookup insert
  untested_count-insert node status [] tested h = cc
  untested_count-insert node status ((k, s) ∷ m) tested h = elim (Bool-cases (k == node)) [
    | inl same ↦ let is_untested : s ≡ untested = ground arith in rw (same, tested, is_untested)
    | inr other ↦
        let rest = untested_count-insert node status m tested (rw other at h) in
        elim (Bool-cases (s == untested)) [
          | inl open_node ↦ rw (other, open_node) (omega (arith, rest))
          | inr closed ↦ rw (other, closed) rest
        ]
  ]

  -- The states speculate on the nodes of a search: no node stands twice, and one that is untested in
  -- a state is untested in the search.
  abbrev pub AllFrom : Map Node Status → List (State Node) → Type 0
  AllFrom nodes [] = Unit
  AllFrom nodes (state ∷ states) =
      IsUnique state.statuses
      × ((n : Node) → lookup n state.statuses ≡ some untested → lookup n nodes ≡ some untested)
      × AllFrom nodes states

  pub AllFrom-append :
      (nodes : Map Node Status) (xs ys : List (State Node))
      → AllFrom nodes xs
      → AllFrom nodes ys
      → AllFrom nodes (xs ++ ys)
  AllFrom-append nodes [] ys h k = k
  AllFrom-append nodes (x ∷ xs) ys h k = (h.0, h.1, AllFrom-append nodes xs ys h.2 k)

  insert-from :
      (nodes statuses : Map Node Status) (node : Node) (status : Status)
      → (status == untested) ≡ false
      → ((n : Node) → lookup n statuses ≡ some untested → lookup n nodes ≡ some untested)
      → (n : Node) → lookup n (insert node status statuses) ≡ some untested
      → lookup n nodes ≡ some untested
  insert-from nodes statuses node status tested from n h = elim (Bool-cases (node == n)) [
    | inl same ↦
        let new = rw (lookup-insert node n status statuses, same) at h in
        let is_untested : status ≡ untested = ground arith in
        absurd (cc (tested, (==_iff status untested).1 is_untested))
    | inr other ↦ from n (rw (lookup-insert node n status statuses, other) at h)
  ]

module _ {Node Error StrategyError : Type 0} ⦃eq : EqTest Node⦄ (graph : Graph Node Error)
    (strategy : Strategy Node StrategyError) where
  -- what is pushed decides the node
  abbrev Decides : State Node → Node → List (State Node) → Type 0
  Decides state node pushed =
      (b c : Bounds Node) × (record { bounds = b; statuses = insert node failure state.statuses }
          ∷ record { bounds = c; statuses = insert node success state.statuses }
          ∷ []
        ≡ pushed)

  push_both-parts :
      (state : State Node) (n node : Node) (pushed : List (State Node))
      → push_both graph strategy state n ≡ speculated node pushed
      → (n ≡ node) × Decides state node pushed
  unfolding push_both
  push_both-parts state n node pushed h =
      elim (Result-cases
        (graph.simplify_failure_bounds (set_insert n state.bounds.failure_bound))) [
          | inr (e, bad) ↦ absurd (ground arith)
          | inl (failures, down) ↦
              elim (Result-cases
                (graph.simplify_success_bounds (set_insert n state.bounds.success_bound))) [
                  | inr (e, bad) ↦ absurd (ground arith)
                  | inl (successes, up) ↦
                      let same : n ≡ node = ground arith in
                      (
                        same,
                        (
                          record {
                            success_bound = state.bounds.success_bound;
                            failure_bound = failures;
                          },
                          record {
                            success_bound = successes;
                            failure_bound = state.bounds.failure_bound;
                          },
                          ground (arith),
                        ),
                      )
                ]
        ]

  -- a node that is speculated on is a midpoint
  pub speculate-parts :
      (state : State Node) (node : Node) (pushed : List (State Node))
      → speculate graph strategy state ≡ speculated node pushed
      → (strategy state.bounds state.statuses ≡ ok (some node)) × Decides state node pushed
  unfolding speculate
  speculate-parts state node pushed h = elim (Result-cases (strategy state.bounds state.statuses)) [
    | inr (e, bad) ↦ absurd (ground arith)
    | inl (none, end) ↦ absurd (ground arith)
    | inl (some n, chosen) ↦
        elim (Option-cases
          (check_success {StrategyError = StrategyError} graph n state.bounds.success_bound)) [
            | inr (e, bad) ↦ absurd (ground arith)
            | inl fine ↦
                elim (Option-cases (
                  check_failure {StrategyError = StrategyError} graph n
                    state.bounds.failure_bound)) [
                      | inr (e, bad) ↦ absurd (ground arith)
                      | inl good ↦
                          let (same, decides) =
                            push_both-parts state n node pushed
                              (rw (chosen, speculate, fine, good) at h) in
                          (rw (← same) chosen, decides)
                    ]
          ]
  ]

module _ {Node : Type 0} ⦃eq : EqTest Node⦄ where
  abbrev pub both : State Node → Node → Bounds Node → Bounds Node → List (State Node)
  both state node b c =
      record { bounds = b; statuses = insert node failure state.statuses }
      ∷ record { bounds = c; statuses = insert node success state.statuses }
      ∷ []

  weight-both :
      (state : State Node) (node : Node) (b c : Bounds Node)
      → lookup node state.statuses ≡ some untested
      → suc (weight (both state node b c)) ≡ full_tree (untested_count state.statuses)
  unfolding weight full_tree
  weight-both state node b c there =
      let on_failure = untested_count-insert node failure state.statuses refl there in
      let on_success = untested_count-insert node success state.statuses refl there in
      let same : untested_count (insert node success state.statuses)
          ≡ untested_count (insert node failure state.statuses) =
        omega (arith, on_failure, on_success) in
      rw (← on_failure, same) (omega arith)

module _ {Node Error StrategyError : Type 0} ⦃eq : EqTest Node⦄ (graph : Graph Node Error)
    (strategy : Strategy Node StrategyError) (law : IsStrategy graph strategy)
    (nodes : Map Node Status) where
  -- speculation makes the queue lighter, and the states still come from the search
  pub speculate-lighter :
      (state : State Node) (node : Node) (states pushed : List (State Node))
      → AllFrom nodes (state ∷ states)
      → speculate graph strategy state ≡ speculated node pushed
      → (suc (weight (states ++ pushed)) ≡ weight (state ∷ states))
        × AllFrom nodes (states ++ pushed)
  unfolding weight full_tree
  speculate-lighter state node states pushed from h =
      let (chosen, (b, c, is_pushed)) = speculate-parts graph strategy state node pushed h in
      let (there, ups, downs) = law.chooses_open state.bounds state.statuses node from.0 chosen in
      rw (← is_pushed) (
        omega (arith, weight-append states (both state node b c), weight-both state node b c there),
        AllFrom-append nodes states (both state node b c) from.2 (
          insert-IsUnique node failure state.statuses from.0,
          insert-from nodes state.statuses node failure refl from.1,
          (
            insert-IsUnique node success state.statuses from.0,
            insert-from nodes state.statuses node success refl from.1,
            tt,
          ),
        ),
      )
