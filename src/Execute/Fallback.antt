-- ===== src/Execute/Fallback.antt =====
-- git-branchless-lib/src/core/rewrite/execute.rs: where `HEAD` goes in a rebase.
use git_branchless.Prelude.{
  ◌≡◌, refl, inl, inr, Option, some, Option-cases, Bool, Bool-cases, ◌==◌, option_eq, List, [], ◌∷◌,
  Result, ok, contains, Yields, Yields-map, Yields-bind, Yields-ok, Yields-all,
}
use git_branchless.Prelude.Map.{lookup, lookup-insert}
use git_branchless.Oid.{NonZeroOid, MaybeZeroOid, oid_eq}
use git_branchless.Plan.{
  oid, label, RebaseCommand, create_label, reset, pick, merge, replace, break,
  register_extra_post_rewrite_hook, detect_empty_commit, skip_upstream_applied_commit, RebasePlan,
}
use git_branchless.Execute.InMemory.{
  Stop, Repo, RebaseState, find_label, find_parents, start_state, run_command, run_commands,
  new_head,
}
use git_branchless.Execute.Effects.{IsSkip, IsRewrite, Effect}
use git_branchless.Execute.Runs.{Resolves, run_command-Effect}
use git_branchless.Execute.Kept.{
  original_of, touched_by, originals, touched, lookup-insert_all, IsKept, IsKept-refl,
  Effect-IsKept, IsKept-trans,
}

-- `HEAD` has somewhere to go if its commit was skipped
abbrev pub HasFallback : {Store : Type 0} → NonZeroOid → RebaseState Store → Type 0
HasFallback head state =
    lookup head state.rewritten_oids ≡ some MaybeZeroOid.zero
    → (o : NonZeroOid) × (state.skipped_head_new_oid ≡ some o)

module _ {Store : Type 0} (head : NonZeroOid) where
  same-HasFallback :
      (before after : RebaseState Store)
      → after.rewritten_oids ≡ before.rewritten_oids
      → after.skipped_head_new_oid ≡ before.skipped_head_new_oid
      → HasFallback head before
      → HasFallback head after
  same-HasFallback before after rewritten skipped h e =
      let (o, found) = h (rw rewritten at e) in (o, rw skipped found)

  skip-HasFallback :
      (o : NonZeroOid) (before after : RebaseState Store)
      → IsSkip (some head) o before after
      → HasFallback head before
      → HasFallback head after
  skip-HasFallback o before after skip h e = elim (Bool-cases (o == head)) [
    | inl same ↦ elim (Option-cases before.skipped_head_new_oid) [
      | inl unset ↦ (before.current_oid, rw (skip.now_skipped, same, unset) refl)
      | inr (p, set) ↦ (p, rw (skip.now_skipped, same, set) refl)
    ]
    | inr other ↦
        let before_too : lookup head before.rewritten_oids ≡ some MaybeZeroOid.zero =
          rw
            (
              skip.now_rewritten,
              lookup-insert o head MaybeZeroOid.zero before.rewritten_oids,
              other,
            )
            at e in
        let (p, found) = h before_too in (p, rw (skip.now_skipped, other) found)
  ]

  rewrite-HasFallback :
      (os : List NonZeroOid) (before after : RebaseState Store)
      → IsRewrite (some head) os before after
      → HasFallback head before
      → HasFallback head after
  rewrite-HasFallback os before after rewrite h e = elim (Bool-cases (contains os head)) [
    | inl within ↦ absurd (
        cc (
          rw
            (
              rewrite.now_rewritten,
              lookup-insert_all os rewrite.new_oid head before.rewritten_oids,
              within,
            )
            at e))
    | inr outside ↦
        let (p, found) = h (
          rw
            (
              rewrite.now_rewritten,
              lookup-insert_all os rewrite.new_oid head before.rewritten_oids,
              outside,
            )
            at e) in
        (p, rw rewrite.same_skipped found)
  ]

  pub Effect-HasFallback :
      (c : RebaseCommand) (before after : RebaseState Store)
      → Effect (some head) c before after
      → HasFallback head before
      → HasFallback head after
  Effect-HasFallback (create_label _) before after e =
      same-HasFallback before after e.same_rewritten e.same_skipped
  Effect-HasFallback (reset _) before after e =
      same-HasFallback before after e.same_rewritten e.same_skipped
  Effect-HasFallback (pick o os) before after (inl skip) = skip-HasFallback o before after skip
  Effect-HasFallback (pick o os) before after (inr rewrite) =
      rewrite-HasFallback (o ∷ os) before after rewrite
  Effect-HasFallback (merge _ _) before after e = absurd e
  Effect-HasFallback (replace o _ _) before after e = rewrite-HasFallback (o ∷ []) before after e
  Effect-HasFallback break before after e = absurd e
  Effect-HasFallback register_extra_post_rewrite_hook before after e =
      same-HasFallback before after e.same_rewritten e.same_skipped
  Effect-HasFallback (detect_empty_commit _) before after e =
      same-HasFallback before after e.same_rewritten e.same_skipped
  Effect-HasFallback (skip_upstream_applied_commit o) before after e =
      skip-HasFallback o before after e

-- every error is allowed
abbrev pub Any : {E : Type 0} → Stop E → Type 0
Any e = Unit

-- what some commands do to the rewritten commits, and to the fallback
abbrev pub IsRun :
    {Store : Type 0}
    → Option NonZeroOid
    → List RebaseCommand
    → RebaseState Store
    → RebaseState Store
    → Type 0
IsRun head_oid cs before after =
    IsKept before.rewritten_oids after.rewritten_oids (originals cs) (touched cs)
    × ((head : NonZeroOid)
        → head_oid ≡ some head
        → HasFallback head before
        → HasFallback head after)

module _ {E Store Signature Tree : Type 0} (repo : Repo E Store Signature Tree)
    (preserve_timestamps : Bool) (head_oid : Option NonZeroOid) where
  always : {A : Type 0} (r : Result (Stop E) A) → Yields Any (λ _. Unit) r
  always r = Yields-all Any (λ e. tt) r

  trivial-Resolves :
      (c : RebaseCommand) (state : RebaseState Store)
      → Resolves repo preserve_timestamps head_oid Any (λ e. tt) (λ info. tt) tt state c
  trivial-Resolves (create_label _) state = tt
  trivial-Resolves (reset (oid _)) state = tt
  trivial-Resolves (reset (label name)) state = always (find_label state.labels name)
  trivial-Resolves (pick _ _) state = tt
  trivial-Resolves (merge _ _) state = tt
  trivial-Resolves (replace _ _ parents) state =
      always (find_parents repo preserve_timestamps state.store state.labels parents)
  trivial-Resolves break state = tt
  trivial-Resolves register_extra_post_rewrite_hook state = tt
  trivial-Resolves (detect_empty_commit _) state = tt
  trivial-Resolves (skip_upstream_applied_commit _) state = tt

  pub run_commands-IsRun :
      (cs : List RebaseCommand) (state : RebaseState Store)
      → Yields Any
          (IsRun head_oid cs state)
          (run_commands repo preserve_timestamps head_oid cs state)
  unfolding run_commands
  run_commands-IsRun [] state = (IsKept-refl state.rewritten_oids, λ head _ h. h)
  run_commands-IsRun (c ∷ cs) state =
      Yields-bind Any (Effect head_oid c state) (IsRun head_oid (c ∷ cs) state)
        (run_command repo preserve_timestamps head_oid c state) _
        (run_command-Effect repo preserve_timestamps head_oid Any (λ e. tt) (λ info. tt) tt c state
          (trivial-Resolves c state))
        λ state' effect.
          Yields-map Any (IsRun head_oid cs state') (IsRun head_oid (c ∷ cs) state)
            (run_commands repo preserve_timestamps head_oid cs state')
            (λ state'' run. (
              IsKept-trans state.rewritten_oids state'.rewritten_oids state''.rewritten_oids
                  (original_of c) (touched_by c) (originals cs) (touched cs)
                  (Effect-IsKept head_oid c state state' effect) run.0,
              λ head is_head h.
                  run.1 head is_head
                    (Effect-HasFallback head c state state' (rw is_head at effect) h),
            ))
            (run_commands-IsRun cs state')

  -- If `HEAD` was at a commit that the commands left out, a commit for it to go to was saved, and it is
  -- the new `HEAD`: the warning that there is none is never printed.
  pub new_head-fallback :
      (cs : List RebaseCommand) (store : Store) (plan : RebasePlan) (state : RebaseState Store)
      (head : NonZeroOid)
      → head_oid ≡ some head
      → run_commands repo preserve_timestamps head_oid cs (start_state store plan) ≡ ok state
      → lookup head state.rewritten_oids ≡ some MaybeZeroOid.zero
      → (o : NonZeroOid) × (state.skipped_head_new_oid ≡ some o)
        × (new_head head_oid state ≡ some o)
  unfolding new_head lookup
  new_head-fallback cs store plan state head is_head ran skipped =
      let run =
        Yields-ok Any (IsRun head_oid cs (start_state store plan)) _ state
          (run_commands-IsRun cs (start_state store plan)) ran in
      let (o, saved) = run.1 head is_head (λ e. absurd (cc e)) skipped in
      (o, saved, rw (is_head, new_head, skipped, saved) refl)
