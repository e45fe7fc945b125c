-- ===== src/EventLog/Db.antt =====
-- eventlog.rs: `EventLogDb`, the tables of events and of event transactions.
-- SQLite keeps the rows in the order of insertion, and commits a transaction as a whole; its failures
-- are modelled for the row of a new transaction only.
use git_branchless.Prelude.{
  ℕ, ℤ, pos, negsuc, ltb, Bool, true, Option, none, some, Result, ok, err, ◌>>=◌, collect, String,
  string_eq, int_eq, ◌==◌, if◌then◌else◌, ◌≡◌, ◌≢◌, List, [], ◌∷◌, ◌++◌,
}
use git_branchless.Prelude.Map.{Map, lookup}
use git_branchless.Oid.{OidText}
use git_branchless.EventLog.{EventTransactionId, id, suppressed, Event}
use git_branchless.EventLog.Row.{Row, RowError, to_row, from_row}

pub record EventLogDb : Type 0 where
  -- table `event_log`, in the order of `rowid`
  pub event_log : List Row
  -- table `event_transactions`: the message under each event_tx_id
  pub event_transactions : Map ℤ String

-- the range of `isize`, on 64 bits
abbrev pub in_isize : ℤ → Bool
in_isize (pos n) = ltb n 9223372036854775808
in_isize (negsuc n) = ltb n 9223372036854775808

-- How `isize` is printed and read: what is read is in its range, and what is printed is read back.
pub record TxText : Type 0 where
  pub render : ℤ → String
  pub parse : String → Option ℤ
  pub parse-in_isize : (s : String) (n : ℤ) → parse s ≡ some n → in_isize n ≡ true
  pub parse-render : (n : ℤ) → in_isize n ≡ true → parse (render n) ≡ some n
  pub render-ne-suppressed : (n : ℤ) → render n ≢ "SUPPRESSED"

-- What making a row takes from outside: `duration_since` of the current time, and the insertion of
-- the row, its commit included, with the key that an AUTOINCREMENT column gives to it.
pub record TxSource (E : Type 0) : Type 0 where
  pub timestamp : Result E ℕ
  pub insert_row : EventLogDb → ℕ → String → Result E ℤ

module _ {E : Type 0} (source : TxSource E) where
  -- the part of `make_transaction_id_inner` that inserts a row; the timestamp is not read again
  abbrev pub create_transaction : EventLogDb → String → Result E (EventTransactionId × EventLogDb)
  create_transaction db message = do
    timestamp ← source.timestamp
    event_tx_id ← source.insert_row db timestamp message
    ok (
      id event_tx_id,
      record db { event_transactions = (event_tx_id, message) ∷ db.event_transactions },
    )

module _ (text : TxText) where
  -- `Display for EventTransactionId`
  unfoldable pub tx_to_string : EventTransactionId → String
  tx_to_string (id n) = text.render n
  tx_to_string suppressed = "SUPPRESSED"

  -- `FromStr for EventTransactionId`; `none` is the error of `isize`
  unfoldable pub parse_tx : String → Option EventTransactionId
  parse_tx s =
      if s == "SUPPRESSED"
      then some suppressed
      else elim (text.parse s) [ some n ↦ some (id n) | none ↦ none ]

  -- `make_transaction_id_inner`: `var` is the environment variable `BRANCHLESS_TRANSACTION_ID`
  unfoldable pub make_transaction_id :
      {E : Type 0}
      → TxSource E
      → Option String
      → EventLogDb
      → String
      → Result E (EventTransactionId × EventLogDb)
  unfolding parse_tx
  make_transaction_id source var db message = elim var [
    | some s ↦ elim (parse_tx s) [
      | some tx ↦ ok (tx, db)
      | none ↦ create_transaction source db message
    ]
    | none ↦ create_transaction source db message
  ]

pub data MessageError : Type 0 where
  suppressed_has_no_message no_such_row : MessageError

unfoldable pub get_transaction_message :
    EventLogDb → EventTransactionId → Result MessageError String
get_transaction_message db (id n) = elim (lookup n db.event_transactions) [
  | some message ↦ ok message
  | none ↦ err no_such_row
]
get_transaction_message db suppressed = err suppressed_has_no_message

module _ (git : OidText) where
  -- the rows that the loop of `add_events` inserts
  unfoldable pub insert_rows : List Event → List Row
  insert_rows [] = []
  insert_rows (e ∷ es) = elim (to_row git e) [
    | none ↦ insert_rows es
    | some row ↦ row ∷ insert_rows es
  ]

  unfoldable pub add_events : EventLogDb → List Event → EventLogDb
  add_events db es = record db { event_log = db.event_log ++ insert_rows es }

  unfoldable pub get_events : EventLogDb → Result RowError (List Event)
  get_events db = collect (from_row git) db.event_log
