-- ===== src/Database/Chats.antt =====
-- db_interface/db_interface.cpp: `insert_chatItem` and `get_chatItems` on the table of a user's chat.
use v6chat.Base.{Bool, true, false, Option, none, some, List, [], ◌∷◌, ◌++◌, if◌then◌else◌}
use v6chat.Database.Connection.{
  Sqlite, Session, ◌>>=◌, ◌>>◌, with_db, close, allocate, release, exec, get_table, check_rc,
  check_table,
}
use v6chat.Database.Profiles.{built}
use v6chat.Database.Statements.{sep}
use v6chat.Numbers.{ℤ, pos, negsuc, int_eq}
use v6chat.Text.Concat.{v6strcat}
use v6chat.Text.Decimal.{atoi, print_int}
use v6chat.Text.{Text, codes}
use v6chat.User.Loading.{Row}

-- The statements of `insert_chatItem`: whether the table is there, its creation, the insertion, and the time.
unfoldable pub probe_sql : Text → Text
probe_sql uid = v6strcat (some (codes "select max(id) from chat_with_") ∷ some uid ∷ [])

unfoldable pub create_sql : Text → Text
create_sql uid = v6strcat (
    some (codes "create table chat_with_")
    ∷ some uid
    ∷ some (
        codes
          "(id integer primary key autoincrement, name text, content text, chat_time TimeStamp NOT NULL DEFAULT (datetime('now','localtime')))")
    ∷ [])

unfoldable pub insert_chat_sql : (uid : Text) (name item : Option Text) → Text
insert_chat_sql uid name item = v6strcat (
    some (codes "insert into chat_with_")
    ∷ some uid
    ∷ some (codes "(name,content) values('")
    ∷ name
    ∷ sep
    ∷ item
    ∷ some (codes "')")
    ∷ [])

unfoldable pub time_sql : Text → ℤ → Text
time_sql uid id = v6strcat (
    some (codes "select chat_time from chat_with_")
    ∷ some uid
    ∷ some (codes " where id=")
    ∷ some (print_int id)
    ∷ [])

-- The last part of `insert_chatItem`, behind the insertion: the number of the new row, and its time.
unfoldable pub inserted_time : Sqlite → Text → Session (ℤ × Option Text)
inserted_time db uid = if int_eq db.last_row (pos 0) then close (db.last_row, none) else (do
  allocate
  cell ← λ l. (
    db.first_cell (time_sql uid db.last_row),
    record l { sent = l.sent ++ time_sql uid db.last_row ∷ [] },
  )
  release
  close (db.last_row, (elim cell [ none ↦ none | some t ↦ t ])))

-- `insert_chatItem`; `insert_time` is not NULL.
unfoldable pub insert_chat_item :
    Sqlite → (uid : Text) (name item : Option Text) → Session (ℤ × Option Text)
unfolding exec inserted_time
insert_chat_item db uid name item =
    with_db db (pos 0, none)
      (do
        there ← built db (probe_sql uid)
        made ← if there then (λ l. (true, l)) else built db (create_sql uid)
        check_rc made (pos 0, none)
            (do
              done ← built db (insert_chat_sql uid name item)
              check_rc done (pos 0, none) (inserted_time db uid)))

-- `id > -1`
is_offset : ℤ → Bool
is_offset (pos n) = true
is_offset (negsuc n) = false

-- The statement of `get_chatItems`: some rows from an offset on, or the last rows, the newest first.
unfoldable pub chat_items_sql : (uid id num : Text) → Text
unfolding is_offset
chat_items_sql uid id num =
    if is_offset (atoi id)
    then v6strcat (
        some (codes "select * from chat_with_")
        ∷ some uid
        ∷ some (codes " limit ")
        ∷ some id
        ∷ some (codes ",")
        ∷ some num
        ∷ [])
    else v6strcat (
        some (codes "select * from chat_with_")
        ∷ some uid
        ∷ some (codes " order by id desc limit ")
        ∷ some num
        ∷ [])

-- `get_chatItems`: nothing frees the text of the statement.
unfoldable pub get_chat_items : Sqlite → (uid id num : Text) → Session (Option (List Row))
unfolding get_table chat_items_sql
get_chat_items db uid id num = with_db db none (do
  allocate
  answer ← get_table db (chat_items_sql uid id num)
  check_table answer none (λ rows. close (some rows)))
