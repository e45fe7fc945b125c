-- ===== src/Bisect/Notify/Refusals.antt =====
-- scm-bisect/src/search.rs: what `notify` accepts and refuses.
use git_branchless.Prelude.{
  Result-cases, ◌≡◌, ◌≢◌, refl, ◌⊎◌, inl, inr, none, some, Option-cases, true, false, Bool-cases,
  ◌==◌, ==_iff, ==_self, EqTest, List, [], ◌∷◌, arith, ok, err, contains,
}
use git_branchless.Prelude.Map.{lookup, lookup-insert, IsUnique}
use git_branchless.Bisect.{
  Graph, Status, untested, success, failure, indeterminate, status_eq, NotifyError, nodes_with,
  inconsistent_state_transition, illegal_state_transition, notify_graph, Search, success_bounds,
  failure_bounds, against_failures, against_successes, contradiction, illegal, notify,
}
use git_branchless.Bisect.Notify.{notify_ok, nodes_with-lookup}

-- The verdicts: a node that was tested with a definite result.
abbrev pub IsVerdict : Status → Type 0
IsVerdict success = Unit
IsVerdict failure = Unit
IsVerdict _ = ⊥

module _ {Node Error : Type 0} ⦃eq : EqTest Node⦄ where
  illegal_verdict :
      (s : Search Node Error) (node : Node) (v status : Status)
      → IsVerdict v
      → lookup node s.nodes ≡ some v
      → illegal s node status ≡ none
      → v ≡ status
  unfolding illegal
  illegal_verdict s node success status i there legal = elim (Bool-cases (success == status)) [
    | inl same ↦ (==_iff success status).0 same
    | inr other ↦ absurd (ground arith)
  ]
  illegal_verdict s node failure status i there legal = elim (Bool-cases (failure == status)) [
    | inl same ↦ (==_iff failure status).0 same
    | inr other ↦ absurd (ground arith)
  ]
  illegal_verdict s node untested status i there legal = absurd i
  illegal_verdict s node indeterminate status i there legal = absurd i

  -- A notification that is accepted leaves every verdict of an earlier one as it is, and records the
  -- status of the node.
  pub notify_verdicts :
      (s s' : Search Node Error) (node : Node) (status : Status)
      → notify s node status ≡ ok s'
      → (lookup node s'.nodes ≡ some status)
        × ((n : Node) (v : Status)
            → IsVerdict v
            → lookup n s.nodes ≡ some v
            → lookup n s'.nodes ≡ some v)
  notify_verdicts s s' node status done =
      let (legal, fine, result) = notify_ok s s' node status done in
      rw (← result) (
        rw (lookup-insert node node status s.nodes, ==_self node),
        λ n v i there. elim (Bool-cases (node == n)) [
          | inl is_n ↦
              let same =
                illegal_verdict s node v status i (rw (← (==_iff node n).0 is_n) at there) legal in
              rw (lookup-insert node n status s.nodes, is_n, same)
          | inr not_n ↦ rw (lookup-insert node n status s.nodes, not_n, there)
        ],
      )

  -- What the documentation of `simplify_success_bounds` and `simplify_failure_bounds` says: they filter.
  pub record IsFilter (g : Graph Node Error) : Type 0 where
    pub success-within :
        (ns bounds : List Node)
        → g.simplify_success_bounds ns ≡ ok bounds
        → (b : Node) → contains bounds b ≡ true
        → contains ns b ≡ true
    pub failure-within :
        (ns bounds : List Node)
        → g.simplify_failure_bounds ns ≡ ok bounds
        → (b : Node) → contains bounds b ≡ true
        → contains ns b ≡ true

  -- a question to the graph ends in the error
  abbrev pub Fails : Graph Node Error → Error → Type 0
  Fails g e =
      ((a : Node) × (b : Node) × (g.is_ancestor a b ≡ err e))
      ⊎ (((ns : List Node) × (g.simplify_success_bounds ns ≡ err e))
          ⊎ ((ns : List Node) × (g.simplify_failure_bounds ns ≡ err e)))

  -- what an error of a notification reports of the search that it was made to
  abbrev pub Reported : Search Node Error → Node → Status → NotifyError Node Error → Type 0
  Reported s node status (inconsistent_state_transition a sa d sd) =
      (sa ≡ failure)
      × (sd ≡ success)
      × (s.graph.is_ancestor a d ≡ ok true)
      × (((a ≡ node) × (status ≡ failure) × (lookup d s.nodes ≡ some success))
          ⊎ ((d ≡ node) × (status ≡ success) × (lookup a s.nodes ≡ some failure)))
  Reported s node status (illegal_state_transition n from to) =
      (n ≡ node) × (to ≡ status) × (lookup node s.nodes ≡ some from) × IsVerdict from × (from ≢ to)
  Reported s node status (notify_graph e) = Fails s.graph e

  Reported-against_failures :
      (s : Search Node Error) (node : Node) (bounds : List Node) (e : NotifyError Node Error)
      → ((b : Node) → contains bounds b ≡ true → lookup b s.nodes ≡ some failure)
      → against_failures s.graph node bounds ≡ some e
      → Reported s node success e
  unfolding against_failures
  Reported-against_failures s node [] e failed h = cc
  Reported-against_failures s node (f ∷ rest) e failed h =
      elim (Result-cases (s.graph.is_ancestor f node)) [
        | inr (x, bad) ↦
            let is_x : notify_graph x ≡ e = ground arith in rw (← is_x) (inl (f, node, bad))
        | inl (true, bad) ↦
            let is_x : inconsistent_state_transition f failure node success ≡ e = ground arith in
            rw (← is_x) (refl, refl, bad, inr (refl, refl, failed f (rw (==_self f) refl)))
        | inl (false, fine) ↦
            Reported-against_failures s node rest e (λ b within. failed b (ground (arith, within)))
              (rw (fine, against_failures) at h)
      ]

  Reported-against_successes :
      (s : Search Node Error) (node : Node) (bounds : List Node) (e : NotifyError Node Error)
      → ((b : Node) → contains bounds b ≡ true → lookup b s.nodes ≡ some success)
      → against_successes s.graph node bounds ≡ some e
      → Reported s node failure e
  unfolding against_successes
  Reported-against_successes s node [] e succeeded h = cc
  Reported-against_successes s node (f ∷ rest) e succeeded h =
      elim (Result-cases (s.graph.is_ancestor node f)) [
        | inr (x, bad) ↦
            let is_x : notify_graph x ≡ e = ground arith in rw (← is_x) (inl (node, f, bad))
        | inl (true, bad) ↦
            let is_x : inconsistent_state_transition node failure f success ≡ e = ground arith in
            rw (← is_x) (refl, refl, bad, inl (refl, refl, succeeded f (rw (==_self f) refl)))
        | inl (false, fine) ↦
            Reported-against_successes s node rest e
              (λ b within. succeeded b (ground (arith, within))) (rw (fine, against_successes) at h)
      ]

  Reported-illegal :
      (s : Search Node Error) (node : Node) (status : Status) (e : NotifyError Node Error)
      → illegal s node status ≡ some e
      → Reported s node status e
  unfolding illegal
  Reported-illegal s node status e h = elim (Option-cases (lookup node s.nodes)) [
    | inl absent ↦ absurd (ground arith)
    | inr (untested, there) ↦ absurd (ground arith)
    | inr (indeterminate, there) ↦ absurd (ground arith)
    | inr (success, there) ↦ elim (Bool-cases (success == status)) [
      | inl same ↦ absurd (ground arith)
      | inr other ↦
          let is_x : illegal_state_transition node success status ≡ e = ground arith in
          rw (← is_x)
            (refl, refl, there, tt, λ same. absurd (cc (other, (==_iff success status).1 same)))
    ]
    | inr (failure, there) ↦ elim (Bool-cases (failure == status)) [
      | inl same ↦ absurd (ground arith)
      | inr other ↦
          let is_x : illegal_state_transition node failure status ≡ e = ground arith in
          rw (← is_x)
            (refl, refl, there, tt, λ same. absurd (cc (other, (==_iff failure status).1 same)))
    ]
  ]

module _ {Node Error : Type 0} ⦃eq : EqTest Node⦄ (s : Search Node Error)
    (filter : IsFilter s.graph) (unique : IsUnique s.nodes) where
  Reported-contradiction :
      (node : Node) (status : Status) (e : NotifyError Node Error)
      → contradiction s node status ≡ some e
      → Reported s node status e
  unfolding contradiction success_bounds failure_bounds
  Reported-contradiction node untested e h = cc
  Reported-contradiction node indeterminate e h = cc
  Reported-contradiction node success e h = elim (Result-cases (failure_bounds s)) [
    | inr (x, bad) ↦
        let is_x : notify_graph x ≡ e = ground arith in
        rw (← is_x) (inr (inr (nodes_with failure s.nodes, bad)))
    | inl (bounds, found) ↦
        Reported-against_failures s node bounds e
          (λ b within.
            nodes_with-lookup failure b s.nodes unique
              (filter.failure-within (nodes_with failure s.nodes) bounds found b within))
          (rw (found, contradiction) at h)
  ]
  Reported-contradiction node failure e h = elim (Result-cases (success_bounds s)) [
    | inr (x, bad) ↦
        let is_x : notify_graph x ≡ e = ground arith in
        rw (← is_x) (inr (inl (nodes_with success s.nodes, bad)))
    | inl (bounds, found) ↦
        Reported-against_successes s node bounds e
          (λ b within.
            nodes_with-lookup success b s.nodes unique
              (filter.success-within (nodes_with success s.nodes) bounds found b within))
          (rw (found, contradiction) at h)
  ]

  -- A notification that is refused says why: as an inconsistent transition, a failure that is an
  -- ancestor of a success, one being the node with its new status and the other a node that the
  -- search had with that status; as an illegal one, the other verdict that the search had of the node;
  -- or an error of the graph. The search has a status for a node once, and its graph simplifies bounds
  -- by filtering them.
  pub notify_refusals :
      (node : Node) (status : Status) (e : NotifyError Node Error)
      → notify s node status ≡ err e
      → Reported s node status e
  unfolding notify
  notify_refusals node status e h = elim (Option-cases (illegal s node status)) [
    | inr (x, bad) ↦
        let is_x : x ≡ e = ground arith in rw (← is_x) (Reported-illegal s node status x bad)
    | inl legal ↦ elim (Option-cases (contradiction s node status)) [
      | inr (x, bad) ↦
          let is_x : x ≡ e = ground arith in rw (← is_x) (Reported-contradiction node status x bad)
      | inl fine ↦ absurd (ground arith)
    ]
  ]
