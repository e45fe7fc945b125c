-- ===== src/Bisect/Basic/Suggests.antt =====
-- scm-bisect: the basic strategies, on a graph of ancestors and descendants, in a search.
use git_branchless.Prelude.{EqTest}
use git_branchless.Bisect.Iter.Fuel.{IsStrategy}
use git_branchless.Bisect.Basic.{BasicSourceControlGraph, as_graph, BasicStrategyKind, midpoint}
use git_branchless.Bisect.Basic.Covers.{IsDag}
use git_branchless.Bisect.Basic.Midpoint.{midpoint_lem}

module _ {Node Error : Type 0} ⦃eq : EqTest Node⦄ where
  -- A basic strategy, on a graph of ancestors and descendants, chooses untested nodes that the bounds
  -- leave open.
  pub midpoint-IsStrategy :
      (kind : BasicStrategyKind) (graph : BasicSourceControlGraph Node Error)
      → IsDag graph
      → IsStrategy (as_graph graph) (midpoint kind graph)
  midpoint-IsStrategy kind graph dag = record {
    chooses_open = λ bounds statuses node unique h.
        let (there, ups, downs) = midpoint_lem kind graph dag bounds statuses node unique h in
        (there, λ b m above. absurd (cc (ups b m, above)), downs);
  }
