-- ===== src/Bisect/Notify.antt =====
-- scm-bisect/src/search.rs: `notify` and the consistency of a search.
pub mod Refusals
use git_branchless.Prelude.{
  Result-cases, ℕ, ◌≡◌, ◌≢◌, refl, sym, ap, ◌∙◌, ◌⊎◌, inl, inr, Option, none, some, Option-cases,
  Bool, true, false, Bool-cases, ◌||◌, not, ◌==◌, ==_iff, ==_self, EqTest, if◌then◌else◌, List, [],
  ◌∷◌, map, arith, Result, ok, err, contains,
}
use git_branchless.Prelude.Map.{Map, lookup, insert, lookup-insert, IsUnique, insert-IsUnique}
use git_branchless.Bisect.{
  Graph, Status, untested, success, failure, indeterminate, status_eq, NotifyError,
  inconsistent_state_transition, illegal_state_transition, notify_graph, Search, nodes_with,
  success_bounds, failure_bounds, against_failures, against_successes, contradiction, illegal,
  notify,
}

-- What the search relies on: the ancestors of an ancestor are ancestors, and a simplified bound
-- covers the nodes that it was made of.
pub record IsLawful {Node Error : Type 0} ⦃eq : EqTest Node⦄ (g : Graph Node Error) : Type 0 where
  pub is_ancestor-trans :
      (a b c : Node)
      → g.is_ancestor a b ≡ ok true
      → g.is_ancestor b c ≡ ok true
      → g.is_ancestor a c ≡ ok true
  pub success-covered :
      (ns bounds : List Node)
      → g.simplify_success_bounds ns ≡ ok bounds
      → (n : Node) → contains ns n ≡ true
      → (b : Node) × (contains bounds b ≡ true) × (g.is_ancestor n b ≡ ok true)
  pub failure-covered :
      (ns bounds : List Node)
      → g.simplify_failure_bounds ns ≡ ok bounds
      → (n : Node) → contains ns n ≡ true
      → (b : Node) × (contains bounds b ≡ true) × (g.is_ancestor b n ≡ ok true)

module _ {Node : Type 0} ⦃eq : EqTest Node⦄ where
  pub contains-nodes_with :
      (status : Status) (n : Node) (nodes : Map Node Status)
      → lookup n nodes ≡ some status
      → contains (nodes_with status nodes) n ≡ true
  unfolding lookup
  contains-nodes_with status n [] h = cc
  contains-nodes_with status n ((m, s) ∷ nodes) h =
      ground (arith, ==_iff m n, ==_iff s status, contains-nodes_with status n nodes)

  pub nodes_with-lookup :
      (status : Status) (n : Node) (nodes : Map Node Status)
      → IsUnique nodes
      → contains (nodes_with status nodes) n ≡ true
      → lookup n nodes ≡ some status
  unfolding lookup
  nodes_with-lookup status n [] u h = absurd (cc h)
  nodes_with-lookup status n ((m, s) ∷ nodes) u h = elim (Bool-cases (m == n)) [
    | inl same ↦ elim (Bool-cases (s == status)) [
      | inl this ↦ rw (same, (==_iff s status).0 this)
      | inr other ↦
          let rest = nodes_with-lookup status n nodes u.1 (rw other at h) in
          let missing = rw ((==_iff m n).0 same) at u.0 in absurd (ground arith)
    ]
    | inr other ↦
        let rest : contains (nodes_with status nodes) n ≡ true = ground arith in
        rw other (nodes_with-lookup status n nodes u.1 rest)
  ]

module _ {Node Error : Type 0} ⦃eq : EqTest Node⦄ where
  against_failures_lem :
      (g : Graph Node Error) (node : Node) (bounds : List Node)
      → against_failures g node bounds ≡ none
      → (b : Node) → contains bounds b ≡ true
      → g.is_ancestor b node ≡ ok false
  unfolding against_failures
  against_failures_lem g node [] h b m = cc
  against_failures_lem g node (f ∷ rest) h b m = elim (Result-cases (g.is_ancestor f node)) [
    | inr (e, bad) ↦ absurd (ground arith)
    | inl (true, bad) ↦ absurd (ground arith)
    | inl (false, fine) ↦
        ground
          (arith, ==_iff f b, against_failures_lem g node rest (rw (fine, against_failures) at h) b)
  ]

  against_successes_lem :
      (g : Graph Node Error) (node : Node) (bounds : List Node)
      → against_successes g node bounds ≡ none
      → (b : Node) → contains bounds b ≡ true
      → g.is_ancestor node b ≡ ok false
  unfolding against_successes
  against_successes_lem g node [] h b m = cc
  against_successes_lem g node (f ∷ rest) h b m = elim (Result-cases (g.is_ancestor node f)) [
    | inr (e, bad) ↦ absurd (ground arith)
    | inl (true, bad) ↦ absurd (ground arith)
    | inl (false, fine) ↦
        ground (
          arith,
          ==_iff f b,
          against_successes_lem g node rest (rw (fine, against_successes) at h) b,
        )
  ]

  -- No node that failed is an ancestor of one that succeeded.
  abbrev pub IsConsistent : Search Node Error → Type 0
  IsConsistent s =
      (f n : Node)
      → lookup f s.nodes ≡ some failure
      → lookup n s.nodes ≡ some success
      → s.graph.is_ancestor f n ≢ ok true

  pub notify_ok :
      (s s' : Search Node Error) (node : Node) (status : Status)
      → notify s node status ≡ ok s'
      → (illegal s node status ≡ none)
        × (contradiction s node status ≡ none)
        × (record s { nodes = insert node status s.nodes } ≡ s')
  unfolding notify
  notify_ok s s' node status h = elim (Option-cases (illegal s node status)) [
    | inr (e, bad) ↦ absurd (ground arith)
    | inl legal ↦ elim (Option-cases (contradiction s node status)) [
      | inr (e, bad) ↦ absurd (ground arith)
      | inl fine ↦ (legal, fine, ground arith)
    ]
  ]

module _ {Node Error : Type 0} ⦃eq : EqTest Node⦄ (s : Search Node Error)
    (law : IsLawful s.graph) where
  no_success_after :
      (node n : Node)
      → contradiction s node failure ≡ none
      → lookup n s.nodes ≡ some success
      → s.graph.is_ancestor node n ≢ ok true
  unfolding contradiction success_bounds
  no_success_after node n fine there above = elim (Result-cases (success_bounds s)) [
    | inr (e, bad) ↦ absurd (ground arith)
    | inl (bounds, found) ↦
        let (b, within, below) =
          law.success-covered (nodes_with success s.nodes) bounds found n
            (contains-nodes_with success n s.nodes there) in
        let clear =
          against_successes_lem s.graph node bounds (rw (found, contradiction) at fine) b within in
        let hit = law.is_ancestor-trans node n b above below in absurd (cc (clear, hit))
  ]

  no_failure_before :
      (node f : Node)
      → contradiction s node success ≡ none
      → lookup f s.nodes ≡ some failure
      → s.graph.is_ancestor f node ≢ ok true
  unfolding contradiction failure_bounds
  no_failure_before node f fine there above = elim (Result-cases (failure_bounds s)) [
    | inr (e, bad) ↦ absurd (ground arith)
    | inl (bounds, found) ↦
        let (b, within, below) =
          law.failure-covered (nodes_with failure s.nodes) bounds found f
            (contains-nodes_with failure f s.nodes there) in
        let clear =
          against_failures_lem s.graph node bounds (rw (found, contradiction) at fine) b within in
        let hit = law.is_ancestor-trans b f node below above in absurd (cc (clear, hit))
  ]

  -- A notification that is accepted keeps the search consistent: no node that failed is an ancestor
  -- of one that succeeded, if `is_ancestor` is transitive and a simplified bound covers its nodes.
  pub notify-IsConsistent :
      (s' : Search Node Error) (node : Node) (status : Status)
      → IsConsistent s
      → notify s node status ≡ ok s'
      → IsConsistent s'
  notify-IsConsistent s' node status before done =
      let (legal, fine, result) = notify_ok s s' node status done in
      rw (← result) λ f n failed succeeded above.
        let failed' = rw (lookup-insert node f status s.nodes) at failed in
        let succeeded' = rw (lookup-insert node n status s.nodes) at succeeded in
        elim (Bool-cases (node == f)) [
          | inl is_f ↦
              let to_failure : status ≡ failure = ground arith in
              elim (Bool-cases (node == n)) [
                | inl is_n ↦ absurd (ground arith)
                | inr not_n ↦
                    no_success_after node n (rw to_failure at fine) (rw not_n at succeeded')
                      (rw (← (==_iff node f).0 is_f) at above)
              ]
          | inr not_f ↦ elim (Bool-cases (node == n)) [
            | inl is_n ↦
                let to_success : status ≡ success = ground arith in
                no_failure_before node f (rw to_success at fine) (rw not_f at failed')
                  (rw (← (==_iff node n).0 is_n) at above)
            | inr not_n ↦ before f n (rw not_f at failed') (rw not_n at succeeded') above
          ]
        ]
