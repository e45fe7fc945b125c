-- ===== src/Execute/Kept.antt =====
-- git-branchless-lib/src/core/rewrite/execute.rs: the entries for rewritten commits, command by command.
use git_branchless.Prelude.{
  ◌≡◌, ◌⊎◌, refl, inl, inr, Option, some, Bool, true, false, Bool-cases, ◌||◌, ◌==◌, option_eq,
  if◌then◌else◌, List, [], ◌∷◌, ◌++◌, contains, arith,
}
use git_branchless.Prelude.Map.{Map, lookup, insert, lookup-insert}
use git_branchless.Oid.{NonZeroOid, MaybeZeroOid, non_zero, oid_eq}
use git_branchless.Plan.{
  RebaseCommand, create_label, reset, pick, merge, replace, break, register_extra_post_rewrite_hook,
  detect_empty_commit, skip_upstream_applied_commit,
}
use git_branchless.Plan.Cycles.Pigeonhole.{contains-append}
use git_branchless.Execute.InMemory.{RebaseState, insert_all}
use git_branchless.Execute.Effects.{Effect}

abbrev pub IsRewritten : NonZeroOid → Map NonZeroOid MaybeZeroOid → Type 0
IsRewritten o m = (new_oid : MaybeZeroOid) × (lookup o m ≡ some new_oid)

-- the commit that a command is about, and those that it may rewrite
abbrev pub original_of : RebaseCommand → List NonZeroOid
original_of (pick o _) = o ∷ []
original_of (replace o _ _) = o ∷ []
original_of (skip_upstream_applied_commit o) = o ∷ []
original_of _ = []

abbrev pub touched_by : RebaseCommand → List NonZeroOid
touched_by (pick o os) = o ∷ os
touched_by c = original_of c

abbrev pub originals : List RebaseCommand → List NonZeroOid
originals [] = []
originals (c ∷ cs) = original_of c ++ originals cs

abbrev pub touched : List RebaseCommand → List NonZeroOid
touched [] = []
touched (c ∷ cs) = touched_by c ++ touched cs

pub lookup-insert_all :
    (os : List NonZeroOid) (new_oid p : NonZeroOid) (m : Map NonZeroOid MaybeZeroOid)
    → lookup p (insert_all os new_oid m)
      ≡ (if contains os p then some (non_zero new_oid) else lookup p m)
unfolding insert_all
lookup-insert_all [] new_oid p m = refl
lookup-insert_all (o ∷ os) new_oid p m = ground (
  arith,
  lookup-insert_all os new_oid p (insert o (non_zero new_oid) m),
  lookup-insert o p (non_zero new_oid) m,
)

abbrev pub IsKept :
    Map NonZeroOid MaybeZeroOid
    → Map NonZeroOid MaybeZeroOid
    → List NonZeroOid
    → List NonZeroOid
    → Type 0
IsKept m m' must may =
    (o : NonZeroOid)
    → (IsRewritten o m → IsRewritten o m')
      × (contains must o ≡ true → IsRewritten o m')
      × (IsRewritten o m' → (contains may o ≡ true) ⊎ IsRewritten o m)

insert-IsKept :
    (o : NonZeroOid) (v : MaybeZeroOid) (os : List NonZeroOid) (m : Map NonZeroOid MaybeZeroOid)
    → IsKept m (insert o v m) (o ∷ []) (o ∷ os)
insert-IsKept o v os m p = elim (Bool-cases (o == p)) [
  | inl same ↦
      let found : lookup p (insert o v m) ≡ some v = rw (lookup-insert o p v m, same) refl in
      ((λ _. (v, found)), (λ _. (v, found)), λ _. inl (rw same refl))
  | inr other ↦
      let same : lookup p (insert o v m) ≡ lookup p m = rw (lookup-insert o p v m, other) refl in
      (
        (λ h. (h.0, rw same (h.1))),
        (λ h. absurd (cc (rw other at h))),
        λ h. inr (h.0, rw same at h.1),
      )
]

insert_all-IsKept :
    (os : List NonZeroOid) (o new_oid : NonZeroOid) (m : Map NonZeroOid MaybeZeroOid)
    → IsKept m (insert_all (o ∷ os) new_oid m) (o ∷ []) (o ∷ os)
insert_all-IsKept os o new_oid m p = elim (Bool-cases (contains (o ∷ os) p)) [
  | inl within ↦
      let found : lookup p (insert_all (o ∷ os) new_oid m) ≡ some (non_zero new_oid) =
        rw (lookup-insert_all (o ∷ os) new_oid p m, within) refl in
      ((λ _. (non_zero new_oid, found)), (λ _. (non_zero new_oid, found)), λ _. inl within)
  | inr outside ↦
      let same : lookup p (insert_all (o ∷ os) new_oid m) ≡ lookup p m =
        rw (lookup-insert_all (o ∷ os) new_oid p m, outside) refl in
      ((λ h. (h.0, rw same (h.1))), (λ h. absurd (ground arith)), λ h. inr (h.0, rw same at h.1))
]

pub IsKept-refl : (m : Map NonZeroOid MaybeZeroOid) → IsKept m m [] []
IsKept-refl m o = ((λ h. h), (λ h. absurd (cc h)), λ h. inr h)

module _ {Store : Type 0} (head_oid : Option NonZeroOid) where
  pub Effect-IsKept :
      (c : RebaseCommand) (before after : RebaseState Store)
      → Effect head_oid c before after
      → IsKept before.rewritten_oids after.rewritten_oids (original_of c) (touched_by c)
  Effect-IsKept (create_label _) before after e =
      rw e.same_rewritten (IsKept-refl before.rewritten_oids)
  Effect-IsKept (reset _) before after e = rw e.same_rewritten (IsKept-refl before.rewritten_oids)
  Effect-IsKept (pick o os) before after (inl skip) =
      rw skip.now_rewritten (insert-IsKept o MaybeZeroOid.zero os before.rewritten_oids)
  Effect-IsKept (pick o os) before after (inr rewrite) =
      rw rewrite.now_rewritten (insert_all-IsKept os o rewrite.new_oid before.rewritten_oids)
  Effect-IsKept (merge _ _) before after e = absurd e
  Effect-IsKept (replace o _ _) before after e =
      rw e.now_rewritten (insert_all-IsKept [] o e.new_oid before.rewritten_oids)
  Effect-IsKept break before after e = absurd e
  Effect-IsKept register_extra_post_rewrite_hook before after e =
      rw e.same_rewritten (IsKept-refl before.rewritten_oids)
  Effect-IsKept (detect_empty_commit _) before after e =
      rw e.same_rewritten (IsKept-refl before.rewritten_oids)
  Effect-IsKept (skip_upstream_applied_commit o) before after e =
      rw e.now_rewritten (insert-IsKept o MaybeZeroOid.zero [] before.rewritten_oids)

pub IsKept-trans :
    (m m' m'' : Map NonZeroOid MaybeZeroOid) (xs ys zs ws : List NonZeroOid)
    → IsKept m m' xs ys
    → IsKept m' m'' zs ws
    → IsKept m m'' (xs ++ zs) (ys ++ ws)
IsKept-trans m m' m'' xs ys zs ws h k o = (
  (λ r. (k o).0 ((h o).0 r)),
  (λ e. elim (Bool-cases (contains xs o)) [
    | inl early ↦ (k o).0 ((h o).1 early)
    | inr late ↦ (k o).1 (rw (contains-append xs zs o, late) at e)
  ]),
  λ r. elim ((k o).2 r) [
    | inl late ↦ inl (rw (contains-append ys ws o, late) (or_true (contains ys o)))
    | inr before ↦ elim ((h o).2 before) [
      | inl early ↦ inl (rw (contains-append ys ws o, early) refl)
      | inr start ↦ inr start
    ]
  ],
)
  where
    or_true : (x : Bool) → (x || true) ≡ true
    or_true true = refl
    or_true false = refl
