-- ===== src/Plan/Cycles/Walks.antt =====
-- git-branchless-lib/src/core/rewrite/plan.rs: `check_for_cycles` and the walks of the graph.
use git_branchless.Prelude.{
  ℕ, zero, suc, ◌≡◌, ◌≢◌, refl, ◌⊎◌, inl, inr, Bool, true, false, Bool-cases, ◌||◌, ◌==◌, ==_iff,
  ==_self, List, [], ◌∷◌, ◌++◌, contains, leb, arith,
}
use git_branchless.Prelude.Map.{lookup_list}
use git_branchless.Oid.{NonZeroOid, oid_eq}
use git_branchless.Plan.Graph.{ConstraintGraph, insert_oid, sort_oids}
use git_branchless.Plan.Cycles.{
  CycleCheck, acyclic, exhausted, cycle, check_each, sorted_children, check_for_cycles_helper,
}
use git_branchless.Plan.Cycles.Pigeonhole.{contains-append}

abbrev pub Edge : ConstraintGraph → NonZeroOid → NonZeroOid → Type 0
Edge g a b = contains (lookup_list a g.inner) b ≡ true

-- a walk of one edge or more
pub data Walk (g : ConstraintGraph) : NonZeroOid → NonZeroOid → Type 0 where
  step : (a b : NonZeroOid) → Edge g a b → Walk g a b
  onward : (a b c : NonZeroOid) → Edge g a b → Walk g b c → Walk g a c

-- each commit of a list has an edge to the next
abbrev pub IsChain : ConstraintGraph → List NonZeroOid → Type 0
IsChain g [] = Unit
IsChain g (a ∷ []) = Unit
IsChain g (a ∷ b ∷ os) = Edge g a b × IsChain g (b ∷ os)

contains-insert_oid :
    (o : NonZeroOid) (os : List NonZeroOid) (a : NonZeroOid)
    → contains (insert_oid o os) a ≡ (o == a || contains os a)
contains-insert_oid o [] a = refl
contains-insert_oid o (p ∷ ps) a = elim (Bool-cases (leb o.inner p.inner)) [
  | inl before ↦ rw before
  | inr after ↦ rw (after, contains-insert_oid o ps a) (swap (p == a) (o == a) (contains ps a))
]
  where
    swap : (x y z : Bool) → (x || (y || z)) ≡ (y || (x || z))
    swap true true z = refl
    swap true false z = refl
    swap false true z = refl
    swap false false z = refl

pub contains-sort_oids :
    (os : List NonZeroOid) (a : NonZeroOid) → contains (sort_oids os) a ≡ contains os a
unfolding sort_oids
contains-sort_oids [] a = refl
contains-sort_oids (o ∷ os) a = rw (contains-insert_oid o (sort_oids os) a, contains-sort_oids os a)

pub CycleCheck-cases :
    (x : CycleCheck) → (x ≡ acyclic) ⊎ ((x ≡ exhausted) ⊎ ((p : List NonZeroOid) × (x ≡ cycle p)))
CycleCheck-cases acyclic = inl refl
CycleCheck-cases exhausted = inr (inl refl)
CycleCheck-cases (cycle p) = inr (inr (p, refl))

pub or_true : (x : Bool) → (x || true) ≡ true
or_true true = refl
or_true false = refl

module _ (check : NonZeroOid → CycleCheck) where
  pub check_each-acyclic :
      (os : List NonZeroOid)
      → check_each check os ≡ acyclic
      → (o : NonZeroOid) → contains os o ≡ true
      → check o ≡ acyclic
  check_each-acyclic [] h o m = absurd (cc m)
  check_each-acyclic (p ∷ os) h o m = elim (CycleCheck-cases (check p)) [
    | inl fine ↦ elim (Bool-cases (p == o)) [
      | inl same ↦ rw (← (==_iff p o).0 same) fine
      | inr other ↦ check_each-acyclic os (rw (fine, check_each) at h) o (rw other at m)
    ]
    | inr (inl dry) ↦ absurd (ground arith)
    | inr (inr (path, bad)) ↦ absurd (ground arith)
  ]

  -- a result other than `acyclic` is that of one of the commits
  pub check_each-stops :
      (os : List NonZeroOid)
      → check_each check os ≢ acyclic
      → (o : NonZeroOid) × (contains os o ≡ true) × (check o ≡ check_each check os)
  check_each-stops [] h = absurd (h refl)
  check_each-stops (p ∷ os) h = elim (CycleCheck-cases (check p)) [
    | inl fine ↦
        let (o, within, same) = check_each-stops os (rw (fine, check_each) at h) in
        (o, rw within (or_true (p == o)), rw (fine, check_each) same)
    | inr (inl dry) ↦ (p, rw (==_self p) refl, rw (dry, check_each) refl)
    | inr (inr (path, bad)) ↦ (p, rw (==_self p) refl, rw (bad, check_each) refl)
  ]

pub contains_last : (path : List NonZeroOid) (o : NonZeroOid) → contains (path ++ o ∷ []) o ≡ true
contains_last path o = rw (contains-append path (o ∷ []) o, ==_self o) (or_true (contains path o))

pub contains_before :
    (path : List NonZeroOid) (o a : NonZeroOid)
    → contains path a ≡ true
    → contains (path ++ o ∷ []) a ≡ true
contains_before path o a h = rw (contains-append path (o ∷ []) a, h) refl

pub IsChain-snoc :
    (g : ConstraintGraph) (path : List NonZeroOid) (o c : NonZeroOid)
    → IsChain g (path ++ o ∷ [])
    → Edge g o c
    → IsChain g ((path ++ o ∷ []) ++ c ∷ [])
IsChain-snoc g [] o c h e = (e, tt)
IsChain-snoc g (a ∷ []) o c h e = (h.0, (e, tt))
IsChain-snoc g (a ∷ b ∷ path) o c h e = (h.0, IsChain-snoc g (b ∷ path) o c h.1 e)

-- a chain leads from each of its commits to the last
chain-Walk :
    (g : ConstraintGraph) (a : NonZeroOid) (path : List NonZeroOid) (o : NonZeroOid)
    → IsChain g (a ∷ path ++ o ∷ [])
    → Walk g a o
chain-Walk g a [] o h = step a o h.0
chain-Walk g a (b ∷ path) o h = onward a b o h.0 (chain-Walk g b path o h.1)

pub repeated-Walk :
    (g : ConstraintGraph) (path : List NonZeroOid) (o : NonZeroOid)
    → IsChain g (path ++ o ∷ [])
    → contains path o ≡ true
    → Walk g o o
repeated-Walk g [] o h m = absurd (cc m)
repeated-Walk g (a ∷ path) o h m = elim (Bool-cases (a == o)) [
  | inl same ↦ let walk = chain-Walk g a path o h in rw ((==_iff a o).0 same) at walk
  | inr other ↦ repeated-Walk g path o (rest path h) (rw other at m)
]
  where
    rest : (path : List NonZeroOid) → IsChain g (a ∷ path ++ o ∷ []) → IsChain g (path ++ o ∷ [])
    rest [] h = tt
    rest (b ∷ path) h = h.1

module _ (g : ConstraintGraph) where
  pub helper_acyclic :
      (fuel : ℕ) (path : List NonZeroOid) (o : NonZeroOid)
      → check_for_cycles_helper g fuel path o ≡ acyclic
      → (contains path o ≡ false)
        × ((c : NonZeroOid)
            → Edge g o c
            → (rest : ℕ) × (fuel ≡ suc rest)
              × (check_for_cycles_helper g rest (path ++ o ∷ []) c ≡ acyclic))
  unfolding check_for_cycles_helper
  helper_acyclic zero path o h = absurd (cc h)
  helper_acyclic (suc fuel) path o h = elim (Bool-cases (contains path o)) [
    | inl inside ↦ absurd (ground arith)
    | inr outside ↦ (
      outside,
      λ c e. (
        fuel,
        refl,
        check_each-acyclic (λ child. check_for_cycles_helper g fuel (path ++ o ∷ []) child)
            (sorted_children g o) (rw (outside, check_for_cycles_helper) at h) c
            (rw (contains-sort_oids (lookup_list o g.inner) c) e),
      ),
    )
  ]

  pub no-Walk_back :
      (x a : NonZeroOid)
      → Walk g x a
      → (fuel : ℕ) (path : List NonZeroOid) → check_for_cycles_helper g fuel path x ≡ acyclic
      → contains (path ++ x ∷ []) a ≡ true
      → ⊥
  no-Walk_back x a (step _ _ e) fuel path h m =
      let (rest, _, fine) = (helper_acyclic fuel path x h).1 a e in
      absurd (cc (m, (helper_acyclic rest (path ++ x ∷ []) a fine).0))
  no-Walk_back x a (onward _ y _ e walk) fuel path h m =
      let (rest, _, fine) = (helper_acyclic fuel path x h).1 y e in
      no-Walk_back y a walk rest (path ++ x ∷ []) fine (contains_before (path ++ x ∷ []) y a m)
