-- ===== src/Oid.antt =====
-- git-branchless-lib/src/git/oid.rs: object identifiers, and their text form.
-- A raw identifier is the number that its 20 bytes spell; `git2` prints and reads it.
use git_branchless.Prelude.{
  ℕ, ◌<◌, ◌≡◌, ◌↔◌, Bool, true, false, Option, none, some, Result, ok, err, String, arith, EqTest,
  nat_eq, nat_eqb, ◌==◌, if◌then◌else◌,
}

-- `git2::Oid::zero()`
abbrev pub zero_oid : ℕ
zero_oid = 0

-- one past the largest identifier of 20 bytes
abbrev pub oid_bound : ℕ
oid_bound = 1461501637330902918203684832716283019655932542976

pub record NonZeroOid : Type 0 where
  pub inner : ℕ

abbrev pub oid_eqb : NonZeroOid → NonZeroOid → Bool
oid_eqb a b = nat_eqb a.inner b.inner

pub oid_eqb_iff : (a b : NonZeroOid) → (oid_eqb a b ≡ true) ↔ (a ≡ b)
oid_eqb_iff a b = ground arith

instance abbrev pub oid_eq : EqTest NonZeroOid
oid_eq = record { eqb = oid_eqb; eqb_iff = oid_eqb_iff }

pub data MaybeZeroOid : Type 0 where
  zero : MaybeZeroOid
  non_zero : NonZeroOid → MaybeZeroOid

abbrev pub maybe_oid_eqb : MaybeZeroOid → MaybeZeroOid → Bool
maybe_oid_eqb MaybeZeroOid.zero MaybeZeroOid.zero = true
maybe_oid_eqb (non_zero a) (non_zero b) = oid_eqb a b
maybe_oid_eqb _ _ = false

pub maybe_oid_eqb_iff : (a b : MaybeZeroOid) → (maybe_oid_eqb a b ≡ true) ↔ (a ≡ b)
maybe_oid_eqb_iff MaybeZeroOid.zero MaybeZeroOid.zero = ground arith
maybe_oid_eqb_iff MaybeZeroOid.zero (non_zero b) = ground arith
maybe_oid_eqb_iff (non_zero a) MaybeZeroOid.zero = ground arith
maybe_oid_eqb_iff (non_zero a) (non_zero b) = ground (arith, oid_eqb_iff a b)

instance abbrev pub maybe_oid_eq : EqTest MaybeZeroOid
maybe_oid_eq = record { eqb = maybe_oid_eqb; eqb_iff = maybe_oid_eqb_iff }

-- `From<Option<NonZeroOid>> for MaybeZeroOid`
abbrev pub from_option : Option NonZeroOid → MaybeZeroOid
from_option (some oid) = non_zero oid
from_option none = MaybeZeroOid.zero

-- `From<MaybeZeroOid> for Option<NonZeroOid>`
abbrev pub to_option : MaybeZeroOid → Option NonZeroOid
to_option MaybeZeroOid.zero = none
to_option (non_zero oid) = some oid

pub data OidError : Type 0 where
  not_an_oid expected_non_zero : OidError

-- `TryFrom<MaybeZeroOid> for NonZeroOid`
unfoldable pub require_non_zero : MaybeZeroOid → Result OidError NonZeroOid
require_non_zero (non_zero oid) = ok oid
require_non_zero MaybeZeroOid.zero = err expected_non_zero

-- What the program uses of `git2::Oid`: `Debug` prints the 40 hexadecimal digits, and `FromStr`
-- reads them back.
pub record OidText : Type 0 where
  pub render : ℕ → String
  pub parse : String → Option ℕ
  pub parse-render : (o : ℕ) → o < oid_bound → parse (render o) ≡ some o

-- What `make_non_zero_oid` asserts, and the width of an identifier.
pub record IsOid (oid : NonZeroOid) : Type 0 where
  pub positive : zero_oid < oid.inner
  pub fits : oid.inner < oid_bound

abbrev pub IsMaybeOid : MaybeZeroOid → Type 0
IsMaybeOid MaybeZeroOid.zero = Unit
IsMaybeOid (non_zero oid) = IsOid oid

module _ (git : OidText) where
  -- `Display for NonZeroOid`
  unfoldable pub oid_to_string : NonZeroOid → String
  oid_to_string oid = git.render oid.inner

  -- `Display for MaybeZeroOid`
  unfoldable pub maybe_oid_to_string : MaybeZeroOid → String
  maybe_oid_to_string (non_zero oid) = git.render oid.inner
  maybe_oid_to_string MaybeZeroOid.zero = git.render zero_oid

  -- `FromStr for MaybeZeroOid`
  unfoldable pub parse_maybe_oid : String → Result OidError MaybeZeroOid
  parse_maybe_oid s = elim (git.parse s) [
    | some oid ↦
        if oid == zero_oid then ok MaybeZeroOid.zero else ok (non_zero (record { inner = oid }))
    | none ↦ err not_an_oid
  ]

  -- `FromStr for NonZeroOid`
  unfoldable pub parse_oid : String → Result OidError NonZeroOid
  parse_oid s = elim (parse_maybe_oid s) [
    | ok (non_zero oid) ↦ ok oid
    | ok MaybeZeroOid.zero ↦ err expected_non_zero
    | err e ↦ err e
  ]

  -- An identifier that `git2` could have produced is read back as it was printed, zero included.
  pub parse_maybe_oid-to_string :
      (oid : MaybeZeroOid) → IsMaybeOid oid → parse_maybe_oid (maybe_oid_to_string oid) ≡ ok oid
  unfolding parse_maybe_oid maybe_oid_to_string
  parse_maybe_oid-to_string MaybeZeroOid.zero h = ground (arith, git.parse-render zero_oid)
  parse_maybe_oid-to_string (non_zero oid) h = ground (arith, git.parse-render oid.inner h.fits)

  -- The same where the program printed an identifier that is known not to be zero.
  pub parse_maybe_oid-oid_to_string :
      (oid : NonZeroOid) → IsOid oid → parse_maybe_oid (oid_to_string oid) ≡ ok (non_zero oid)
  unfolding parse_maybe_oid oid_to_string
  parse_maybe_oid-oid_to_string oid h = ground (arith, git.parse-render oid.inner h.fits)

  -- An identifier that is not zero is read back as it was printed.
  pub parse_oid-oid_to_string :
      (oid : NonZeroOid) → IsOid oid → parse_oid (oid_to_string oid) ≡ ok oid
  unfolding parse_oid
  parse_oid-oid_to_string oid h = rw (parse_maybe_oid-oid_to_string oid h, parse_oid)
