-- ===== src/Database/Servers.antt =====
-- db_interface/db_interface.cpp: the functions on the table `server_information`, and `insert_myProfile`.
use v6chat.Base.{Bool, true, false, Option, none, some, List, [], ◌∷◌, if◌then◌else◌}
use v6chat.Database.Connection.{
  Sqlite, Session, ◌>>=◌, ◌>>◌, with_db, close, allocate, exec, get_table, check_rc, check_table,
}
use v6chat.Database.Profiles.{built}
use v6chat.Database.Statements.{sep}
use v6chat.Numbers.{ℤ, pos, int_eq}
use v6chat.Own.Row.{MyColumns, insert_my_base, my_columns}
use v6chat.Text.Concat.{v6strcat}
use v6chat.Text.Decimal.{atoi}
use v6chat.Text.{Text, codes}
use v6chat.User.Loading.{Row}

-- The arguments behind the number; `none` is NULL.
pub record ServerColumns : Type 0 where
  pub name : Option Text
  pub ip : Option Text
  pub port : Option Text
  pub description : Option Text
  pub uid : Option Text
  pub upassword : Option Text

abbrev pub server_columns : ServerColumns → List (Option Text)
server_columns p =
    p.name
    ∷ sep
    ∷ p.ip
    ∷ sep
    ∷ p.port
    ∷ sep
    ∷ p.description
    ∷ sep
    ∷ p.uid
    ∷ sep
    ∷ p.upassword
    ∷ some (codes "')")
    ∷ []

unfoldable pub insert_server_sql : ServerColumns → Text
insert_server_sql p = v6strcat (
    some (codes "insert into server_information(name,ip,port,description,uid,upassword) values('")
    ∷ server_columns p)

unfoldable pub replace_server_sql : Text → ServerColumns → Text
replace_server_sql sid p = v6strcat (
    some (
      codes
        "insert or replace into server_information(id,name,ip,port,description,uid,upassword) values('")
    ∷ some sid
    ∷ sep
    ∷ server_columns p)

-- `get_serversInformation`
unfoldable pub get_servers_information : Sqlite → Session (Option (List Row))
unfolding get_table
get_servers_information db = with_db db none (do
  answer ← get_table db (codes "select * from server_information")
  check_table answer none (λ rows. close (some rows)))

-- `clear_serversInformation`
unfoldable pub clear_servers_information : Sqlite → Session Bool
unfolding exec
clear_servers_information db = with_db db false (do
  done ← exec db (some (codes "delete * from server_information"))
  check_rc done false (close true))

-- `insert_serverInformation`: the number of the new row.
unfoldable pub insert_server_information : Sqlite → ServerColumns → Session ℤ
unfolding exec
insert_server_information db p =
    with_db db (pos 0)
      (do done ← built db (insert_server_sql p); check_rc done (pos 0) (close db.last_row))

-- `update_serverInformation`: for the number 0 the text of the insertion goes to a variable of its own block,
-- so that SQLite is handed NULL and the text stays.
unfoldable pub update_server_information : Sqlite → Text → ServerColumns → Session ℤ
unfolding exec
update_server_information db sid p = with_db db (pos 0) (
    if int_eq (atoi sid) (pos 0)
    then (do allocate; done ← exec db none; check_rc done (pos 0) (close db.last_row))
    else (do done ← built db (replace_server_sql sid p); check_rc done (pos 0) (close (atoi sid))))

-- `insert_myProfile`: the number of the new row.
unfoldable pub insert_my_profile : Sqlite → MyColumns → Session ℤ
unfolding exec
insert_my_profile db p = with_db db (pos 0) (do
  done ← built db (v6strcat (insert_my_base ∷ my_columns p))
  check_rc done (pos 0) (close db.last_row))
