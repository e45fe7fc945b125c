-- ===== src/Gc/Outcomes.antt =====
-- git-branchless-lib/src/core/gc.rs: what the search for references can come to.
use git_branchless.Prelude.{
  ◌≡◌, ◌↔◌, sym, ap, if◌then◌else◌, ◌>>=◌, ◌⊎◌, inl, inr, Option, some, Bool, true, false, List, [],
  ◌∷◌, arith, Result, ok, err,
}
use mathlib.Core.Path.{subst}
use git_branchless.Oid.{NonZeroOid}
use git_branchless.EventLog.{ReferenceName, Event, is_gc_ref}
use git_branchless.Replay.{CommitActivityStatus, active, inactive, obsolete}
use git_branchless.Replay.Status.Spec.{status_from}
use git_branchless.Gc.{Reference}

pub status_hides :
    (status : CommitActivityStatus)
    → (elim status [ active ↦ false | inactive ↦ false | obsolete ↦ true ] ≡ true)
      ↔ (status ≡ obsolete)
status_hides active = ground arith
status_hides inactive = ground arith
status_hides obsolete = ground arith

pub bind-ok :
    {E A B : Type 0} {m : Result E A} {a : A} → m ≡ ok a → (f : A → Result E B) → (m >>= f) ≡ f a
bind-ok h f = ap (λ x. x >>= f) h

pub bind-err :
    {E A B : Type 0} {m : Result E A} {e : E} → m ≡ err e → (f : A → Result E B) → (m >>= f) ≡ err e
bind-err h f = ap (λ x. x >>= f) h

module _ {E : Type 0} where
  abbrev pub IsIn : Reference E → List (Reference E) → Type 0
  IsIn reference [] = ⊥
  IsIn reference (x ∷ references) = (x ≡ reference) ⊎ IsIn reference references

  -- what makes a reference dangle: its name, and that the events made its commit obsolete
  pub record IsDangling (events : List Event) (reference : Reference E) : Type 0 where
    pub name : ReferenceName
    pub named : reference.get_name ≡ ok name
    pub of_gc : is_gc_ref name ≡ true
    pub oid : NonZeroOid
    pub points : reference.peel_to_commit ≡ ok (some oid)
    pub hidden : status_from inactive events oid ≡ obsolete

  -- A reference stops the search with an error: its name cannot be read, or it is a gc reference and
  -- git fails to look for its commit.
  abbrev pub Stops : E → Reference E → Type 0
  Stops e reference =
      (reference.get_name ≡ err e)
      ⊎ ((name : ReferenceName) × (reference.get_name ≡ ok name)
          × (is_gc_ref name ≡ true)
          × (reference.peel_to_commit ≡ err e))

  -- the error of the first reference that stops the search
  abbrev pub StopsFirst : E → List (Reference E) → Type 0
  StopsFirst e [] = ⊥
  StopsFirst e (x ∷ references) = Stops e x ⊎ (((e' : E) → ¬ Stops e' x) × StopsFirst e references)

  -- What a search among references comes to: with those found, none of which stops it, or with the
  -- error of the first one that does.
  abbrev pub Outcome : List Event → List (Reference E) → Result E (List (Reference E)) → Type 0
  Outcome events references (ok found) =
      (reference : Reference E)
      → (IsIn reference found ↔ (IsIn reference references × IsDangling events reference))
        × ((e : E) → IsIn reference references → ¬ Stops e reference)
  Outcome events references (err e) = StopsFirst e references

  -- the error of the list, or what comes of the references
  abbrev pub Answer :
      List Event → Result E (List (Reference E)) → Result E (List (Reference E)) → Type 0
  Answer events (ok references) result = Outcome events references result
  Answer events (err e) result = result ≡ err e

  -- the turn of a reference
  abbrev pub Turn : List Event → Reference E → Result E Bool → Type 0
  Turn events reference (ok true) = IsDangling events reference × ((e : E) → ¬ Stops e reference)
  Turn events reference (ok false) =
      (¬ IsDangling events reference) × ((e : E) → ¬ Stops e reference)
  Turn events reference (err e) = Stops e reference

  found-cons :
      (events : List Event) (x : Reference E) (references found : List (Reference E)) (b : Bool)
      → Turn events x (ok b)
      → Outcome events references (ok found)
      → Outcome events (x ∷ references) (ok (if b then x ∷ found else found))
  found-cons events x references found true turn rest reference = (
    (
      λ at. elim at [
        | inl is_x ↦ (inl is_x, subst (λ r. IsDangling events r) is_x turn.0)
        | inr later ↦ let both = (rest reference).0.0 later in (inr both.0, both.1)
      ],
      λ at. elim at.0 [
        | inl is_x ↦ inl is_x
        | inr later ↦ inr ((rest reference).0.1 (later, at.1))
      ],
    ),
    λ e at. elim at [
      | inl is_x ↦ subst (λ r. ¬ Stops e r) is_x (turn.1 e)
      | inr later ↦ (rest reference).1 e later
    ],
  )
  found-cons events x references found false turn rest reference = (
    (
      λ at. let both = (rest reference).0.0 at in (inr both.0, both.1),
      λ at. elim at.0 [
        | inl is_x ↦ absurd (turn.0 (subst (λ r. IsDangling events r) (sym is_x) at.1))
        | inr later ↦ (rest reference).0.1 (later, at.1)
      ],
    ),
    λ e at. elim at [
      | inl is_x ↦ subst (λ r. ¬ Stops e r) is_x (turn.1 e)
      | inr later ↦ (rest reference).1 e later
    ],
  )

  pub Outcome-cons :
      (events : List Event) (x : Reference E) (references : List (Reference E))
      (turn : Result E Bool) (rest : Result E (List (Reference E)))
      → Turn events x turn
      → Outcome events references rest
      → Outcome events
          (x ∷ references)
          (turn >>= λ dangling. rest >>= λ found. ok (if dangling then x ∷ found else found))
  Outcome-cons events x references (err e) rest t o = inl t
  Outcome-cons events x references (ok true) (err e) t o = inr (t.1, o)
  Outcome-cons events x references (ok false) (err e) t o = inr (t.1, o)
  Outcome-cons events x references (ok b) (ok found) t o =
      found-cons events x references found b t o

module _ {E : Type 0} (reference : Reference E) (name : ReferenceName)
    (named : reference.get_name ≡ ok name) where
  pub other_name : is_gc_ref name ≡ false → (e : E) → ¬ Stops e reference
  other_name other e (inl bad) = cc (named, bad)
  other_name other e (inr (n, named', gc, bad)) =
      let same : name ≡ n = ground arith in
      let gc' : is_gc_ref name ≡ true = rw same gc in cc (other, gc')

  pub peeled :
      (commit : Option NonZeroOid)
      → reference.peel_to_commit ≡ ok commit
      → (e : E) → ¬ Stops e reference
  peeled commit found e (inl bad) = cc (named, bad)
  peeled commit found e (inr (n, named', gc, bad)) = cc (found, bad)

  pub other_fine : (events : List Event) → is_gc_ref name ≡ false → ¬ IsDangling events reference
  other_fine events other d =
      let named' = d.named in
      let same : name ≡ d.name = ground arith in
      let gc : is_gc_ref name ≡ true = rw same d.of_gc in cc (other, gc)

  pub points_to :
      (events : List Event) (commit : Option NonZeroOid)
      → reference.peel_to_commit ≡ ok commit
      → (d : IsDangling events reference) → commit ≡ some d.oid
  points_to events commit found d = let points = d.points in ground arith
