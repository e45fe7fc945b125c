-- ===== src/Bisect/Iter/Fresh.antt =====
-- scm-bisect/src/search.rs: the errors of the iterator.
use git_branchless.Prelude.{
  ◌≡◌, ◌≢◌, refl, inl, inr, none, some, Option-cases, true, false, ==_self, EqTest, List, [], ◌∷◌,
  Result-cases, ok, contains, set_insert, arith,
}
use git_branchless.Prelude.Map.{IsUnique}
use git_branchless.Bisect.{Graph, status_eq}
use git_branchless.Bisect.Iter.{
  SearchError, already_searched_midpoint, search_graph, search_strategy, Strategy, State, stopped,
  check_success, check_failure, push_both, speculate,
}
use git_branchless.Bisect.Iter.Fuel.{IsStrategy}

-- an error other than that a node was searched before
abbrev pub IsFresh :
    {Node Error StrategyError : Type 0} → SearchError Node Error StrategyError → Type 0
IsFresh (already_searched_midpoint _ _) = ⊥
IsFresh (search_graph _) = Unit
IsFresh (search_strategy _) = Unit

module _ {Node Error StrategyError : Type 0} ⦃eq : EqTest Node⦄ (graph : Graph Node Error) where
  check_success-IsFresh :
      (node : Node) (bounds : List Node)
      → ((b : Node) → contains bounds b ≡ true → graph.is_ancestor node b ≢ ok true)
      → (e : SearchError Node Error StrategyError) → check_success graph node bounds ≡ some e
      → IsFresh e
  unfolding check_success
  check_success-IsFresh node [] left_open e h = absurd (cc h)
  check_success-IsFresh node (b ∷ bounds) left_open e h =
      elim (Result-cases (graph.is_ancestor node b)) [
        | inr (x, bad) ↦ let is_x : search_graph x ≡ e = ground arith in rw (← is_x) tt
        | inl (true, above) ↦ absurd (left_open b (rw (==_self b) refl) above)
        | inl (false, fine) ↦
            check_success-IsFresh node bounds (λ c m. left_open c (ground arith)) e
              (rw (fine, check_success) at h)
      ]

  check_failure-IsFresh :
      (node : Node) (bounds : List Node)
      → ((f : Node) → contains bounds f ≡ true → graph.is_ancestor f node ≢ ok true)
      → (e : SearchError Node Error StrategyError) → check_failure graph node bounds ≡ some e
      → IsFresh e
  unfolding check_failure
  check_failure-IsFresh node [] left_open e h = absurd (cc h)
  check_failure-IsFresh node (b ∷ bounds) left_open e h =
      elim (Result-cases (graph.is_ancestor b node)) [
        | inr (x, bad) ↦ let is_x : search_graph x ≡ e = ground arith in rw (← is_x) tt
        | inl (true, above) ↦ absurd (left_open b (rw (==_self b) refl) above)
        | inl (false, fine) ↦
            check_failure-IsFresh node bounds (λ c m. left_open c (ground arith)) e
              (rw (fine, check_failure) at h)
      ]

module _ {Node Error StrategyError : Type 0} ⦃eq : EqTest Node⦄ (graph : Graph Node Error)
    (strategy : Strategy Node StrategyError) where
  push_both-IsFresh :
      (state : State Node) (node : Node) (e : SearchError Node Error StrategyError)
      (pushed : List (State Node))
      → push_both graph strategy state node ≡ stopped e pushed
      → IsFresh e
  unfolding push_both
  push_both-IsFresh state node e pushed h =
      elim (Result-cases
        (graph.simplify_failure_bounds (set_insert node state.bounds.failure_bound))) [
          | inr (x, bad) ↦ let is_x : search_graph x ≡ e = ground arith in rw (← is_x) tt
          | inl (failures, down) ↦
              elim (Result-cases
                (graph.simplify_success_bounds (set_insert node state.bounds.success_bound))) [
                  | inl (successes, up) ↦ absurd (ground arith)
                  | inr (x, bad) ↦ let is_x : search_graph x ≡ e = ground arith in rw (← is_x) tt
                ]
        ]

  pub speculate-IsFresh :
      IsStrategy graph strategy
      → (state : State Node) → IsUnique state.statuses
      → (e : SearchError Node Error StrategyError) (pushed : List (State Node))
      → speculate graph strategy state ≡ stopped e pushed
      → IsFresh e
  unfolding speculate
  speculate-IsFresh law state unique e pushed h =
      elim (Result-cases (strategy state.bounds state.statuses)) [
        | inr (x, bad) ↦ let is_x : search_strategy x ≡ e = ground arith in rw (← is_x) tt
        | inl (none, end) ↦ absurd (ground arith)
        | inl (some n, chosen) ↦
            let (there, ups, downs) =
              law.chooses_open state.bounds state.statuses n unique chosen in
            elim (Option-cases
              (check_success {StrategyError = StrategyError} graph n state.bounds.success_bound)) [
                | inr (x, bad) ↦
                    let is_x : x ≡ e = ground arith in
                    rw (← is_x) (check_success-IsFresh graph n state.bounds.success_bound ups x bad)
                | inl fine ↦
                    elim (Option-cases (
                      check_failure {StrategyError = StrategyError} graph n
                        state.bounds.failure_bound)) [
                          | inr (x, bad) ↦
                              let is_x : x ≡ e = ground arith in
                              rw (← is_x) (
                                check_failure-IsFresh graph n state.bounds.failure_bound downs x
                                  bad)
                          | inl good ↦
                              push_both-IsFresh state n e pushed
                                (rw (chosen, speculate, fine, good) at h)
                        ]
              ]
      ]
