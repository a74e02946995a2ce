-- ===== src/Database/Mine.antt =====
-- db_interface/db_interface.cpp: `update_myProfile`, `get_myProfileById` and `get_myProfileByName`, with what
-- they hold and what they hand to SQLite.
use v6chat.Base.{ℕ, Option, some, if◌then◌else◌, ◌>>=◌}
use v6chat.Database.Connection.{Sqlite, Session, with_db, exec, check_rc, close, reads_row}
use v6chat.Database.Profiles.{built}
use v6chat.Numbers.{ℤ, pos, int_eq, to_unsigned}
use v6chat.Own.Row.{MyColumns, MyRow, update_my_sql, by_id_sql, by_name_sql, read_columns}
use v6chat.Text.Decimal.{atoi}
use v6chat.Text.{Text}
use v6chat.User.Loading.{Row}

-- `update_myProfile`: the number of the row, and 0 where the database fails.
unfoldable pub update_my_profile : Sqlite → Text → MyColumns → Session ℤ
unfolding exec
update_my_profile db id p l =
    with_db db (pos 0)
      (λ l'.
        let (done, l'') = built db (update_my_sql id p) l' in
        check_rc done (pos 0) (close (if int_eq (atoi id) (pos 0) then db.last_row else atoi id))
          l'')
      l

-- The name and the other columns of a row.
unfoldable pub read_named : Row → Option (Text × MyRow)
unfolding read_columns
read_named row = do name ← row 1; found ← read_columns row; some (name, found)

-- The number and the other columns of a row.
unfoldable pub read_numbered : Row → Option (ℕ × MyRow)
unfolding read_columns
read_numbered row = do id ← row 0; found ← read_columns row; some (to_unsigned (atoi id), found)

unfoldable pub get_my_profile_by_id : Sqlite → Text → Session (Option (Option (Text × MyRow)))
unfolding reads_row by_id_sql read_named
get_my_profile_by_id db id = reads_row db (by_id_sql id) read_named

unfoldable pub get_my_profile_by_name : Sqlite → Text → Session (Option (Option (ℕ × MyRow)))
unfolding reads_row by_name_sql read_numbered
get_my_profile_by_name db name = reads_row db (by_name_sql name) read_numbered
