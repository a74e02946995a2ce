-- ===== src/Database/Connection.antt =====
-- db_interface/db_interface.cpp: what every function does around its statement: `open_db`, the texts that
-- v6strcat allocates, `sqlite3_exec`, CHECK_RC and `sqlite3_close`. SQLite is a parameter.
use v6chat.Base.{ℕ, ◌+◌, ◌-◌, Bool, true, Option, none, some, List, [], ◌∷◌, ◌++◌, if◌then◌else◌}
use v6chat.Numbers.{ℤ}
use v6chat.Text.{Text}
use v6chat.User.Loading.{Row}

-- What SQLite does during one call.
--   opens: `open_db`. exec: whether `sqlite3_exec` returns SQLITE_OK.
--   last_row: `sqlite3_last_insert_rowid` behind it, as an int.
--   get_table: the rows that `sqlite3_get_table` hands out; `none` where it does not return SQLITE_OK.
--   first_cell: the first column of the first row of a query; `none` where there is no row.
pub record Sqlite : Type 0 where
  pub opens : Bool
  pub exec : Text → Bool
  pub last_row : ℤ
  pub get_table : Text → Option (List Row)
  pub first_cell : Text → Option (Option Text)

-- What db_interface holds, and the statements that SQLite was handed, in their order.
pub record Ledger : Type 0 where
  pub connections : ℕ
  pub texts : ℕ
  pub sent : List Text

abbrev pub Session : Type 0 → Type 0
Session A = Ledger → A × Ledger

infixl 5 ◌>>=◌ ◌>>◌
abbrev pub ◌>>=◌ : {A B : Type 0} → Session A → (A → Session B) → Session B
◌>>=◌ m f l = let (a, l') = m l in f a l'

abbrev pub ◌>>◌ : {A B : Type 0} → Session A → Session B → Session B
◌>>◌ m k l = let (a, l') = m l in k l'

-- `open_db`; `failed` is returned where it fails.
abbrev pub with_db : {A : Type 0} → Sqlite → A → Session A → Session A
with_db db failed body l =
    if db.opens then body (record l { connections = l.connections + 1 }) else (failed, l)

-- `sqlite3_close` and `return`.
abbrev pub close : {A : Type 0} → A → Session A
close a l = (a, record l { connections = l.connections - 1 })

-- v6strcat, and `release_db_data` of its text.
abbrev pub allocate : Session (Unit {0})
allocate l = (tt, record l { texts = l.texts + 1 })

abbrev pub release : Session (Unit {0})
release l = (tt, record l { texts = l.texts - 1 })

-- `sqlite3_exec`: SQLite takes NULL for a text without a statement.
unfoldable pub exec : Sqlite → Option Text → Session Bool
exec db none l = (true, l)
exec db (some sql) l = (db.exec sql, record l { sent = l.sent ++ sql ∷ [] })

-- `sqlite3_get_table`
unfoldable pub get_table : Sqlite → Text → Session (Option (List Row))
get_table db sql l = (db.get_table sql, record l { sent = l.sent ++ sql ∷ [] })

-- `CHECK_RC`
abbrev pub check_rc : {A : Type 0} → Bool → A → Session A → Session A
check_rc ok failed rest l = if ok then rest l else close failed l

-- `CHECK_RC` behind `sqlite3_get_table`.
abbrev pub check_table : {A : Type 0} → Option (List Row) → A → (List Row → Session A) → Session A
check_table none failed rest l = close failed l
check_table (some rows) failed rest l = rest rows l

-- What is read of the first row that a query hands out. Outer `none`: the read crashes, and the connection stays
-- open; inner `none`: there is no row.
unfoldable pub reads_first :
    {A : Type 0} → (Row → Option A) → List Row → Session (Option (Option A))
reads_first f [] l = close (some none) l
reads_first f (row ∷ rows) l = elim (f row) [ none ↦ (none, l) | some a ↦ close (some (some a)) l ]

-- The functions that read one row by a query that v6strcat builds; where the database fails they return false.
unfoldable pub reads_row :
    {A : Type 0} → Sqlite → Text → (Row → Option A) → Session (Option (Option A))
unfolding get_table reads_first
reads_row db sql f = with_db db (some none) (do
  allocate
  answer ← get_table db sql
  release
  check_table answer (some none) (reads_first f))

-- What is held where a call returns; `none`: it crashed.
unfoldable pub returned : {A : Type 0} → Option A × Ledger → Option Ledger
returned (none, l) = none
returned (some a, l) = some l
