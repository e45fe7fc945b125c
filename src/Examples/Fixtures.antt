-- ===== src/Examples/Fixtures.antt =====
-- Texts of identifiers and a log of three transactions.
use Prim.Native.Char.{code}
use git_branchless.Prelude.{
  Option, true, Bool-cases, inl, inr, if◌then◌else◌, ℕ, zero, suc, ◌+◌, ◌≡◌, ◌≢◌, refl, ap, ◌∙◌, ℤ,
  pos, negsuc, none, some, List, [], ◌∷◌, String, arith,
}
use git_branchless.Oid.{NonZeroOid, MaybeZeroOid, non_zero, OidText}
use git_branchless.EventLog.{
  id, Event, rewrite_event, ref_update_event, commit_event, obsolete_event,
}
use git_branchless.EventLog.Db.{TxText, in_isize}
use git_branchless.Replay.{EventReplayer, EventCursor, from_events}

-- numbers by tally
abbrev tally : ℕ → String
tally zero = ""
tally (suc n) = String.◌∷◌ "1" (tally n)

abbrev count_tally : String → ℕ
count_tally String.[] = 0
count_tally (String.◌∷◌ _ s) = suc (count_tally s)

count_tally-tally : (n : ℕ) → count_tally (tally n) ≡ n
count_tally-tally zero = refl
count_tally-tally (suc n) = ap suc (count_tally-tally n)

pub tally_oids : OidText
tally_oids = record {
  render = tally;
  parse = λ s. some (count_tally s);
  parse-render = λ o _. ap some (count_tally-tally o);
}

abbrev fold_int : ℤ → ℕ
fold_int (pos n) = n + n
fold_int (negsuc n) = suc (n + n)

abbrev next_int : ℤ → ℤ
next_int (pos n) = negsuc n
next_int (negsuc n) = pos (suc n)

abbrev unfold_int : ℕ → ℤ
unfold_int zero = pos 0
unfold_int (suc n) = next_int (unfold_int n)

unfold_int-double : (n : ℕ) → unfold_int (n + n) ≡ pos n
unfold_int-double zero = refl
unfold_int-double (suc n) =
    let two : suc n + suc n ≡ suc (suc (n + n)) = omega arith in rw (two, unfold_int-double n)

unfold_int-fold_int : (z : ℤ) → unfold_int (fold_int z) ≡ z
unfold_int-fold_int (pos n) = unfold_int-double n
unfold_int-fold_int (negsuc n) = rw (unfold_int-double n)

abbrev first_code : String → ℕ
first_code String.[] = 0
first_code (String.◌∷◌ c s) = code c

first_code-tally : (n : ℕ) → tally n ≢ "SUPPRESSED"
first_code-tally zero e = let same = ap first_code e in absurd (omega (arith, same))
first_code-tally (suc n) e = let same = ap first_code e in absurd (omega (arith, same))

abbrev in_range : ℤ → Option ℤ
in_range z = if in_isize z then some z else none

in_range-in_isize : (z n : ℤ) → in_range z ≡ some n → in_isize n ≡ true
in_range-in_isize z n h = elim (Bool-cases (in_isize z)) [
  | inl fits ↦ let same : z ≡ n = ground arith in rw (← same) fits
  | inr too_large ↦ absurd (ground arith)
]

in_range-some : (z : ℤ) → in_isize z ≡ true → in_range z ≡ some z
in_range-some z fits = rw fits

pub tally_ints : TxText
tally_ints = record {
  render = λ z. tally (fold_int z);
  parse = λ s. in_range (unfold_int (count_tally s));
  parse-in_isize = λ s. in_range-in_isize (unfold_int (count_tally s));
  parse-render = λ z fits.
      ap in_range (ap unfold_int (count_tally-tally (fold_int z)) ∙ unfold_int-fold_int z)
      ∙ in_range-some z fits;
  render-ne-suppressed = λ z. first_code-tally (fold_int z);
}

abbrev pub a : NonZeroOid
a = record { inner = 1 }

abbrev pub b : NonZeroOid
b = record { inner = 2 }

-- a commit on a branch, an amend of it, and a hiding of the result
abbrev pub log : List Event
log =
    commit_event 10 (id (pos 1)) a
    ∷ ref_update_event 10 (id (pos 1)) "refs/heads/x" MaybeZeroOid.zero (non_zero a) none
    ∷ rewrite_event 20 (id (pos 2)) (non_zero a) (non_zero b)
    ∷ ref_update_event 20 (id (pos 2)) "refs/heads/x" (non_zero a) (non_zero b) none
    ∷ obsolete_event 30 (id (pos 3)) b
    ∷ []

abbrev pub replayer : EventReplayer
replayer = from_events "refs/heads/main" log

abbrev pub cursor : ℕ → EventCursor
cursor n = record { event_id = n }
