-- ===== src/Database/Calls.antt =====
-- db_interface/db_interface.cpp: its functions as calls, what is held after any of them, and the texts that the
-- sources leave behind.
use v6chat.Base.{ℕ, ◌+◌, ◌≡◌, Option, none, some, List, [], ◌∷◌, if◌then◌else◌}
use v6chat.Database.Chats.{insert_chat_item, get_chat_items}
use v6chat.Database.Connection.{returned, Sqlite, Ledger}
use v6chat.Database.Mine.{update_my_profile, get_my_profile_by_id, get_my_profile_by_name}
use v6chat.User.Loading.{Row}
use v6chat.Database.Profiles.{
  get_peers_profile, clear_peers_profile, get_peer_profile_by_id, insert_peer_profile,
  insert_peers_profile, last_insert_peer_profile_uid, update_peer_profile, delete_peer_profile,
}
use v6chat.Database.Servers.{
  ServerColumns, get_servers_information, clear_servers_information, insert_server_information,
  update_server_information, insert_my_profile,
}
use v6chat.Database.Statements.{PeerProfile}
use v6chat.Numbers.{pos, int_eq}
use v6chat.Own.Row.{MyColumns}
use v6chat.Text.Decimal.{atoi}
use v6chat.Text.{Text}
use v6chat.Database.Filled.{Filled}

pub data Call : Type 0 where
  get_peers : Call
  clear_peers : Call
  get_peer : Text → Call
  insert_peer : PeerProfile → Call
  insert_peers : List PeerProfile → Call
  last_uid : Call
  update_peer : Text → PeerProfile → Call
  delete_peer : Text → Call
  get_servers : Call
  clear_servers : Call
  insert_server : ServerColumns → Call
  update_server : Text → ServerColumns → Call
  insert_my : MyColumns → Call
  insert_chat : Text → Option Text → Option Text → Call
  get_chats : Text → Text → Text → Call
  update_my : Text → MyColumns → Call
  get_my_by_id : Text → Call
  get_my_by_name : Text → Call

-- What is held after a call.
unfoldable pub after : Sqlite → Call → Ledger → Option Ledger
unfolding returned
after db get_peers l = some (get_peers_profile db l).1
after db clear_peers l = some (clear_peers_profile db l).1
after db (get_peer uid) l = returned (get_peer_profile_by_id db uid l)
after db (insert_peer p) l = some (insert_peer_profile db p l).1
after db (insert_peers ps) l = some (insert_peers_profile db ps l).1
after db last_uid l = some (last_insert_peer_profile_uid db l).1
after db (update_peer uid p) l = some (update_peer_profile db uid p l).1
after db (delete_peer uid) l = some (delete_peer_profile db uid l).1
after db get_servers l = some (get_servers_information db l).1
after db clear_servers l = some (clear_servers_information db l).1
after db (insert_server p) l = some (insert_server_information db p l).1
after db (update_server sid p) l = some (update_server_information db sid p l).1
after db (insert_my p) l = some (insert_my_profile db p l).1
after db (insert_chat uid name item) l = some (insert_chat_item db uid name item l).1
after db (get_chats uid id num) l = some (get_chat_items db uid id num l).1
after db (update_my id p) l = some (update_my_profile db id p l).1
after db (get_my_by_id id) l = returned (get_my_profile_by_id db id l)
after db (get_my_by_name name) l = returned (get_my_profile_by_name db name l)

-- The texts that a call on a database that opens leaves behind.
unfoldable pub left_by : Call → ℕ
left_by (delete_peer uid) = 1
left_by (get_chats uid id num) = 1
left_by (update_server sid p) = if int_eq (atoi sid) (pos 0) then 1 else 0
left_by _ = 0

unfoldable pub after_all : List (Sqlite × Call) → Ledger → Option Ledger
unfolding after
after_all [] l = some l
after_all ((db, c) ∷ calls) l = elim (after db c l) [ none ↦ none | some l' ↦ after_all calls l' ]

unfoldable pub left_by_all : List (Sqlite × Call) → ℕ
unfolding left_by
left_by_all [] = 0
left_by_all ((db, c) ∷ calls) = (if db.opens then left_by c else 0) + left_by_all calls

-- The columns of a row that a call reads.
abbrev pub columns : Call → ℕ
columns (get_peer uid) = 12
columns (get_my_by_id id) = 8
columns (get_my_by_name name) = 8
columns _ = 0

-- The first row that SQLite hands out has the columns that the call reads.
abbrev pub IsFilled : Sqlite × Call → Type 0
IsFilled (db, c) =
    (sql : Text) (row : Row) (rows : List Row)
    → db.get_table sql ≡ some (row ∷ rows)
    → Filled (columns c) row
