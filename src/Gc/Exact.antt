-- ===== src/Gc/Exact.antt =====
-- git-branchless-lib/src/core/gc.rs: which references are found.
use git_branchless.Prelude.{
  ◌≡◌, ◌↔◌, refl, sym, inl, inr, Option, none, some, true, Bool-cases, List, [], ◌∷◌, take, arith,
  Result, ok, err, Result-cases,
}
use mathlib.Core.Path.{subst}
use git_branchless.Oid.{NonZeroOid}
use git_branchless.EventLog.{ReferenceName, Event, is_gc_ref}
use git_branchless.Replay.{inactive, obsolete, EventCursor, EventReplayer, from_events}
use git_branchless.Replay.Status.Spec.{status_from, activity_status_lem}
use git_branchless.Gc.{
  Reference, is_hidden, is_dangling_gc_ref, is_dangling, dangling_among, find_dangling_references,
}
use git_branchless.Gc.Outcomes.{
  Outcome, Answer, Turn, status_hides, bind-ok, bind-err, Outcome-cons, other_name, peeled,
  other_fine, points_to,
}

module _ (main : ReferenceName) (es : List Event) (cursor : EventCursor) where
  abbrev replayer : EventReplayer
  replayer = from_events main es

  abbrev before : List Event
  before = take cursor.event_id replayer.events

  is_hidden_iff :
      (oid : NonZeroOid)
      → (is_hidden replayer cursor (some oid) ≡ true) ↔ (status_from inactive before oid ≡ obsolete)
  unfolding is_hidden
  is_hidden_iff oid =
      rw (activity_status_lem main es cursor oid, is_hidden)
        (status_hides (status_from inactive before oid))

  module _ {E : Type 0} (reference : Reference E) where
    Turn-peeled :
        (name : ReferenceName) (commit : Option NonZeroOid)
        → reference.get_name ≡ ok name
        → is_gc_ref name ≡ true
        → reference.peel_to_commit ≡ ok commit
        → Turn before reference (ok (is_hidden replayer cursor commit))
    unfolding is_hidden
    Turn-peeled name none named gc found = (
      (λ d. cc (points_to reference name named before none found d)),
      peeled reference name named none found,
    )
    Turn-peeled name (some oid) named gc found =
        elim (Bool-cases (is_hidden replayer cursor (some oid))) [
          | inl hides ↦
              subst (λ b. Turn before reference (ok b)) (sym hides)
                (
                  record {
                    name = name;
                    named = named;
                    of_gc = gc;
                    oid = oid;
                    points = found;
                    hidden = (is_hidden_iff oid).0 hides;
                  },
                  peeled reference name named (some oid) found,
                )
          | inr shows ↦
              subst (λ b. Turn before reference (ok b)) (sym shows)
                (
                  (λ d.
                      let same = points_to reference name named before (some oid) found d in
                      let is_oid : oid ≡ d.oid = ground arith in
                      let hides = (is_hidden_iff oid).1 (rw is_oid d.hidden) in cc (shows, hides)),
                  peeled reference name named (some oid) found,
                )
        ]

    Turn-is_dangling : Turn before reference (is_dangling replayer cursor reference)
    unfolding is_dangling
    Turn-is_dangling = elim (Result-cases reference.get_name) [
      | inr (e, bad) ↦ subst (Turn before reference) (sym (bind-err bad _)) (inl bad)
      | inl (name, named) ↦
          let of_name = is_dangling_gc_ref replayer cursor reference in
          subst (Turn before reference) (sym (bind-ok named (λ n. of_name (is_gc_ref n))))
            (elim (Bool-cases (is_gc_ref name)) [
              | inr other ↦
                  subst (λ b. Turn before reference (of_name b)) (sym other)
                    (
                      other_fine reference name named before other,
                      other_name reference name named other,
                    )
              | inl gc ↦
                  subst (λ b. Turn before reference (of_name b)) (sym gc)
                    (elim (Result-cases reference.peel_to_commit) [
                      | inr (e, bad) ↦
                          subst (Turn before reference) (sym (bind-err bad _))
                            (inr (name, named, gc, bad))
                      | inl (commit, found) ↦
                          subst (Turn before reference) (sym (bind-ok found _))
                            (Turn-peeled name commit named gc found)
                    ])
            ])
    ]

  dangling_among_lem :
      {E : Type 0} (references : List (Reference E))
      → Outcome before references (dangling_among replayer cursor references)
  unfolding dangling_among
  dangling_among_lem [] = λ reference. (((λ at. absurd at), (λ at. absurd at.0)), λ e at. absurd at)
  dangling_among_lem (x ∷ references) =
      Outcome-cons before x references (is_dangling replayer cursor x)
        (dangling_among replayer cursor references) (Turn-is_dangling x)
        (dangling_among_lem references)

  -- The search among the references of the repository ends with the error of the first one whose name
  -- cannot be read, or that is a gc reference whose commit git fails to look for. Otherwise the
  -- references found are those of the repository that are gc references, that peel to a commit, and
  -- whose commit the events before the cursor left obsolete. If the references cannot be listed, it
  -- ends with that error.
  pub find_dangling_references_lem :
      {E : Type 0} (get_all_references : Result E (List (Reference E)))
      → Answer before get_all_references
          (find_dangling_references replayer cursor get_all_references)
  unfolding find_dangling_references
  find_dangling_references_lem (ok references) = dangling_among_lem references
  find_dangling_references_lem (err e) = refl
