-- ===== src/Server/ServerList.antt =====
-- kernel/Server/ServerList.cpp: the list of the servers.
use v6chat.Base.{ℕ, Bool, false, Option, none, some, List, [], ◌∷◌, ◌++◌, ◌==◌, if◌then◌else◌}
use v6chat.OrderedMap.{OrderedMap, lookup, put, insert, erase}
use v6chat.Server.Info.{
  ServerInfo, ServerState, server_connected, server_disconnect, is_connected, ClientCall, new,
  set_state, set_id, connect,
}
use v6chat.Text.Decimal.{print, print_int, atoi}
use v6chat.Numbers.{to_unsigned}
use v6chat.Text.{Text}
use v6chat.Windows.{Window, addfriend_wnd, Post, post, wm_updateserverlist}

abbrev pub ServerList : Type 0
ServerList = OrderedMap ServerInfo

-- What the list takes from elsewhere: the conversions, the statement that inserts a server and gives its
-- number, and which windows are open.
pub record Registry : Type 0 where
  pub to_utf8 : Text → Text
  pub to_unicode : Text → Text
  pub insert_server_information : (name ip port description uid upassword : Text) → ℕ
  pub is_open : Window → Bool

-- One row of the table of the servers.
pub record ServerRow : Type 0 where
  pub id : Text
  pub name : Text
  pub ip : Text
  pub port : Text
  pub description : Text
  pub uid : Text
  pub upassword : Text

unfoldable pub load_server : Registry → ServerRow → ServerInfo
unfolding new atoi to_unsigned
load_server r row =
    new (to_unsigned (atoi row.id)) (r.to_unicode row.name) row.ip (atoi row.port)
      (r.to_unicode row.description) row.uid row.upassword

-- `Init`: a row whose number is in the list already is passed over.
unfoldable pub init : Registry → List ServerRow → ServerList → ServerList
unfolding load_server insert
init r [] l = l
init r (row ∷ rows) l = let s = load_server r row in init r rows (insert s.id s l)

-- `Connect`
unfoldable pub connect_all : ServerList → List ClientCall
unfolding connect
connect_all [] = []
connect_all ((id, s) ∷ l) = connect s ++ connect_all l

-- `UpdateServerDisplay`
unfoldable pub update_server_display : Registry → ℕ → List Post
unfolding post
update_server_display r sid = post r.is_open addfriend_wnd wm_updateserverlist 3 sid

-- `AddServer`: its result, the server, which the caller shares, the list, the calls and the posts.
unfoldable pub add_server :
    Registry → ServerInfo → ServerList → ℕ × ServerInfo × ServerList × List ClientCall × List Post
unfolding set_id connect insert update_server_display
add_server r s l =
    let sid =
      r.insert_server_information (r.to_utf8 s.name) s.ip (print_int s.port)
        (r.to_utf8 s.description) s.uid s.upassword in
    let s' = set_id sid s in
    if sid == 0
    then (0, s, l, [], [])
    else (sid, s', insert sid s' l, connect s', update_server_display r sid)

-- `DeleteServer`
unfoldable pub delete_server : ℕ → ServerList → ServerList
delete_server id l = erase id l

-- `SetServerState`
unfoldable pub set_server_state : Registry → ℕ → ServerState → ServerList → ServerList × List Post
unfolding set_state update_server_display
set_server_state r id state l = elim (lookup id l) [
  | none ↦ (l, [])
  | some s ↦ (put id (set_state state s) l, update_server_display r id)
]

-- `GetServer`
unfoldable pub get_server : ℕ → ServerList → Option ServerInfo
get_server id l = lookup id l

-- `Store`: the rows that are written.
unfoldable pub store : Registry → ServerList → List ServerRow
store r [] = []
store r ((id, s) ∷ l) =
    let rest = store r l in
    if s.has_change
    then record {
      id = print s.id;
      name = r.to_utf8 s.name;
      ip = s.ip;
      port = print_int s.port;
      description = r.to_utf8 s.description;
      uid = s.uid;
      upassword = s.upassword;
    }
      ∷ rest
    else rest

-- `Connect` and `Disconnect` of ServerMsgListener.cpp: the list, the posts, and whether the file transfer of
-- the server is started.
unfoldable pub on_connect : Registry → ℕ → ServerList → ServerList × List Post × Bool
unfolding set_server_state get_server
on_connect r id l =
    let (l', posts) = set_server_state r id server_connected l in
    (l', posts, elim (get_server id l') [ none ↦ false | some s ↦ is_connected s ])

unfoldable pub on_disconnect : Registry → ℕ → ServerList → ServerList × List Post
unfolding set_server_state
on_disconnect r id l = set_server_state r id server_disconnect l
