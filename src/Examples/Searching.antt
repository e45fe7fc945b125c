-- ===== src/Examples/Searching.antt =====
-- The theorems on the search, at a graph of three commits in a row.
use git_branchless.Prelude.{
  ℕ, suc, ◌≡◌, ◌≢◌, ◌⊎◌, refl, none, some, true, false, EqTest, nat_eqb, ◌↔◌, ◌≤◌, List, [], ◌∷◌,
  ok, err, contains, leb, arith,
}
use git_branchless.Prelude.Map.{Map, lookup, insert, IsUnique}
use git_branchless.Bisect.{
  Status, untested, success, failure, Bounds, Search, notify, illegal, contradiction,
  success_bounds, failure_bounds, against_successes, illegal_state_transition,
}
use git_branchless.Bisect.Notify.{IsLawful, IsConsistent, notify-IsConsistent}
use git_branchless.Bisect.Notify.Refusals.{IsVerdict, notify_verdicts, Reported, notify_refusals}
use git_branchless.Bisect.Basic.{
  BasicSourceControlGraph, is_ancestor, ancestor_heads, descendant_roots, as_graph, binary, linear,
  midpoint, ancestors_all, descendants_all, union_all, extend, choose,
}
use git_branchless.Bisect.Basic.Covers.{related, IsDag, as_graph-IsLawful, as_graph-IsFilter}
use git_branchless.Bisect.Basic.Midpoint.{midpoint_lem, midpoint-none}
use git_branchless.Bisect.Basic.Suggests.{midpoint-IsStrategy}
use git_branchless.Bisect.Iter.{Iter, collect_items, search}
use git_branchless.Bisect.Iter.Fuel.{full_tree, untested_count}
use git_branchless.Bisect.Iter.Suggests.{IsRun, search_suggests}

data Commit : Type 0 where
  root middle tip : Commit

abbrev rank : Commit → ℕ
rank root = 0
rank middle = 1
rank tip = 2

commit_eqb_iff : (a b : Commit) → (nat_eqb (rank a) (rank b) ≡ true) ↔ (a ≡ b)
commit_eqb_iff root root = ground arith
commit_eqb_iff root middle = ground arith
commit_eqb_iff root tip = ground arith
commit_eqb_iff middle root = ground arith
commit_eqb_iff middle middle = ground arith
commit_eqb_iff middle tip = ground arith
commit_eqb_iff tip root = ground arith
commit_eqb_iff tip middle = ground arith
commit_eqb_iff tip tip = ground arith

instance commit_eq : EqTest Commit
commit_eq = record { eqb = λ a b. nat_eqb (rank a) (rank b); eqb_iff = commit_eqb_iff }

abbrev up : Commit → List Commit
up root = root ∷ []
up middle = middle ∷ root ∷ []
up tip = tip ∷ middle ∷ root ∷ []

abbrev down : Commit → List Commit
down root = root ∷ middle ∷ tip ∷ []
down middle = middle ∷ tip ∷ []
down tip = tip ∷ []

abbrev row : BasicSourceControlGraph Commit ℕ
row = record { ancestors = λ n. ok (up n); descendants = λ n. ok (down n) }

contains-up : (a b : Commit) → contains (up b) a ≡ leb (rank a) (rank b)
unfolding commit_eq
contains-up root root = refl
contains-up root middle = refl
contains-up root tip = refl
contains-up middle root = refl
contains-up middle middle = refl
contains-up middle tip = refl
contains-up tip root = refl
contains-up tip middle = refl
contains-up tip tip = refl

contains-down : (a b : Commit) → contains (down b) a ≡ leb (rank b) (rank a)
unfolding commit_eq
contains-down root root = refl
contains-down root middle = refl
contains-down root tip = refl
contains-down middle root = refl
contains-down middle middle = refl
contains-down middle tip = refl
contains-down tip root = refl
contains-down tip middle = refl
contains-down tip tip = refl

same_rank : (a b : Commit) → rank a ≡ rank b → a ≡ b
same_rank a b h = (commit_eqb_iff a b).0 (ground (arith, h))

above : (a b : Commit) → related row.ancestors a b ≡ ok true → rank a ≤ rank b
above a b h = let e = contains-up a b in ground arith

above-back : (a b : Commit) → rank a ≤ rank b → related row.ancestors a b ≡ ok true
above-back a b h = rw (contains-up a b) (ground arith)

below : (a b : Commit) → related row.descendants a b ≡ ok true → rank b ≤ rank a
below a b h = let e = contains-down a b in ground arith

below-back : (a b : Commit) → rank b ≤ rank a → related row.descendants a b ≡ ok true
below-back a b h = rw (contains-down a b) (ground arith)

row-IsDag : IsDag row
row-IsDag = record {
  ancestors_order = record {
    related-refl = λ a found h.
        let e : up a ≡ found = ground arith in rw (← e, contains-up a a) (ground arith);
    related-trans = λ a b c h k. above-back a c (omega (arith, above a b h, above b c k));
    related-antisym = λ a b h k. same_rank a b (omega (arith, above a b h, above b a k));
  };
  descendants_order = record {
    related-refl = λ a found h.
        let e : down a ≡ found = ground arith in rw (← e, contains-down a a) (ground arith);
    related-trans = λ a b c h k. below-back a c (omega (arith, below a b h, below b c k));
    related-antisym = λ a b h k. same_rank a b (omega (arith, below a b h, below b a k));
  };
  descendants-ancestors = λ a b h. above-back a b (below b a h);
  ancestors-descendants = λ a b found h k.
      let e : down a ≡ found = ground arith in
      let le = above a b h in rw (← e, contains-down b a) (ground arith);
}

-- the root succeeds and the tip fails
abbrev started : Search Commit ℕ
started = record {
  graph = as_graph row;
  nodes = (root, success) ∷ (middle, untested) ∷ (tip, failure) ∷ [];
}

abbrev tested : Search Commit ℕ
tested = record {
  graph = as_graph row;
  nodes = (root, success) ∷ (middle, failure) ∷ (tip, failure) ∷ [];
}

abbrev bounds : Bounds Commit
bounds = record { success_bound = root ∷ []; failure_bound = tip ∷ [] }

started-IsConsistent : IsConsistent started
unfolding lookup commit_eq is_ancestor
started-IsConsistent root n h k q = absurd (cc h)
started-IsConsistent middle n h k q = absurd (cc h)
started-IsConsistent tip root h k q = absurd (let e = above tip root q in omega (arith, e))
started-IsConsistent tip middle h k q = absurd (cc k)
started-IsConsistent tip tip h k q = absurd (cc k)

middle_fails : notify started middle failure ≡ ok tested
unfolding notify illegal contradiction success_bounds against_successes lookup insert ancestor_heads
    is_ancestor commit_eq
middle_fails = refl

notify-IsConsistent_example : IsConsistent tested
notify-IsConsistent_example =
    notify-IsConsistent started (as_graph-IsLawful row row-IsDag) tested middle failure
      started-IsConsistent middle_fails

notify_verdicts_example :
    (lookup middle tested.nodes ≡ some failure)
    × ((n : Commit) (v : Status)
        → IsVerdict v
        → lookup n started.nodes ≡ some v
        → lookup n tested.nodes ≡ some v)
notify_verdicts_example = notify_verdicts started tested middle failure middle_fails

tip_succeeds : notify tested tip success ≡ err (illegal_state_transition tip failure success)
unfolding notify illegal lookup commit_eq
tip_succeeds = refl

tested-IsUnique : IsUnique tested.nodes
unfolding lookup commit_eq
tested-IsUnique = (refl, (refl, (refl, tt)))

notify_refusals_example : Reported tested tip success (illegal_state_transition tip failure success)
notify_refusals_example =
    notify_refusals tested (as_graph-IsFilter row) tested-IsUnique tip success
      (illegal_state_transition tip failure success) tip_succeeds

as_graph-IsLawful_example : IsLawful (as_graph row)
as_graph-IsLawful_example = as_graph-IsLawful row row-IsDag

started-IsUnique : IsUnique started.nodes
unfolding lookup commit_eq
started-IsUnique = (refl, (refl, (refl, tt)))

found_middle : midpoint binary row bounds started.nodes ≡ ok (some middle)
unfolding midpoint ancestors_all descendants_all union_all extend choose commit_eq
found_middle = refl

midpoint_lem_example :
    (lookup middle started.nodes ≡ some untested)
    × ((n : Commit) → contains (root ∷ []) n ≡ true → is_ancestor row middle n ≡ ok false)
    × ((f : Commit) → contains (tip ∷ []) f ≡ true → is_ancestor row f middle ≢ ok true)
midpoint_lem_example =
    midpoint_lem binary row row-IsDag bounds started.nodes middle started-IsUnique found_middle

abbrev tight : Bounds Commit
tight = record { success_bound = []; failure_bound = middle ∷ [] }

abbrev open_tip : Map Commit Status
open_tip = (middle, failure) ∷ (tip, untested) ∷ []

nothing_left : midpoint linear row tight open_tip ≡ ok none
unfolding midpoint ancestors_all descendants_all union_all extend choose commit_eq
nothing_left = refl

tip_untested : lookup tip open_tip ≡ some untested
unfolding lookup commit_eq
tip_untested = refl

midpoint-none_example :
    ((b : Commit) × (contains [] b ≡ true) × (is_ancestor row tip b ≡ ok true))
    ⊎ ((f : Commit) × (contains (middle ∷ []) f ≡ true) × (is_ancestor row f tip ≡ ok true))
midpoint-none_example =
    midpoint-none linear row row-IsDag tight open_tip nothing_left tip tip_untested

abbrev first : Iter Commit
first = record { seen = []; states = record { bounds = bounds; statuses = started.nodes } ∷ [] }

starts : search started ≡ ok (bounds, first)
unfolding search success_bounds failure_bounds ancestor_heads descendant_roots commit_eq
starts = refl

search_suggests_example : IsRun started.nodes [] (
    collect_items
      (as_graph row)
      (midpoint binary row)
      (suc (full_tree (untested_count started.nodes)))
      (full_tree (untested_count started.nodes))
      first)
search_suggests_example =
    search_suggests started (midpoint binary row) bounds first
      (midpoint-IsStrategy binary row row-IsDag) started-IsUnique starts
