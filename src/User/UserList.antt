-- ===== src/User/UserList.antt =====
-- kernel/User/UserList.cpp: the list of the users, its lookups, and how users come in and go.
use v6chat.Base.{
  ℕ, suc, Bool, false, not, ◌&&◌, Option, none, some, List, [], ◌∷◌, ◌++◌, ◌==◌, if◌then◌else◌,
}
use v6chat.Database.Statements.{PeerProfile}
use v6chat.Numbers.{ℤ, pos}
use v6chat.OrderedMap.{OrderedMap, lookup, put, find_if}
use v6chat.Text.Decimal.{print, print_int}
use v6chat.Text.{Text, text_eq}
use v6chat.User.Info.{MsgSender, p2p, server, UserInfo}
use v6chat.Windows.{Window, friendlist_wnd, chat_wnd, Post, post, wm_updatefriendlist}

-- What the list takes from elsewhere: the conversions of V6Util (Windows), the functions of the database
-- that run SQL, whether ServerList has a server, and which windows are open.
pub record Backend : Type 0 where
  pub to_utf8 : Text → Text
  pub to_unicode : Text → Text
  pub insert_peer_profile : PeerProfile → ℕ
  pub delete_peer_profile : Text → Bool
  pub has_server : ℕ → Bool
  pub is_open : Window → Bool

pub record UserList : Type 0 where
  pub has_init : Bool
  pub users : OrderedMap UserInfo

-- `UpdateUserDisplay`
unfoldable pub update_user_display : (Window → Bool) → ℕ → List Post
unfolding post
update_user_display is_open uid =
    post is_open friendlist_wnd wm_updatefriendlist 3 uid
    ++ post is_open (chat_wnd uid) wm_updatefriendlist 3 0

-- `serveruser_finder` and `p2puser_finder`
unfoldable pub serveruser_finder : ℕ → Text → UserInfo → Bool
serveruser_finder sid suid u = elim u.kind [
  | p2p ack_msgid ↦ false
  | server serverid serveruid t ↦ serverid == sid && text_eq serveruid suid
]

unfoldable pub p2puser_finder : Text → UserInfo → Bool
p2puser_finder ip u = elim u.kind [
  | p2p ack_msgid ↦ text_eq u.ip ip
  | server serverid serveruid t ↦ false
]

-- The test with which `FindUser` looks for a user.
unfoldable pub finder : UserInfo → UserInfo → Bool
unfolding serveruser_finder p2puser_finder
finder u = elim u.kind [
  | p2p ack_msgid ↦ p2puser_finder u.ip
  | server serverid serveruid t ↦ serveruser_finder serverid serveruid
]

-- The key of what was found, or 0.
unfoldable pub key_of : Option (ℕ × UserInfo) → ℕ
key_of none = 0
key_of (some (k, u)) = k

-- `FindUser`
unfoldable pub find_user : UserInfo → UserList → ℕ
unfolding finder key_of
find_user u l = key_of (find_if (finder u) l.users)

-- `GetUserUidByIp`, which returns the number that the user itself holds.
unfoldable pub get_user_uid_by_ip : Text → UserList → ℕ
get_user_uid_by_ip ip l = elim (find_if (λ u. text_eq u.ip ip) l.users) [
  | none ↦ 0
  | some (k, u) ↦ u.uid
]

-- `GetUserUidByServerIdAndUid`
unfoldable pub get_user_uid_by_server_id_and_uid : ℕ → Text → UserList → ℕ
unfolding serveruser_finder key_of
get_user_uid_by_server_id_and_uid sid suid l = key_of (find_if (serveruser_finder sid suid) l.users)

-- `GetUserIpByUid`, `GetUserTCPPortByUid`, `GetUserUDPPortByUid`
unfoldable pub get_user_ip_by_uid : ℕ → UserList → Text
get_user_ip_by_uid uid l = elim (lookup uid l.users) [ none ↦ [] | some u ↦ u.ip ]

unfoldable pub get_user_tcp_port_by_uid : ℕ → UserList → ℤ
get_user_tcp_port_by_uid uid l = elim (lookup uid l.users) [ none ↦ pos 0 | some u ↦ u.tcp_port ]

unfoldable pub get_user_udp_port_by_uid : ℕ → UserList → ℤ
get_user_udp_port_by_uid uid l = elim (lookup uid l.users) [ none ↦ pos 0 | some u ↦ u.udp_port ]

-- `GetUserSender`
unfoldable pub get_user_sender : ℕ → UserList → Option MsgSender
get_user_sender uid l = elim (lookup uid l.users) [ none ↦ none | some u ↦ some u.message_sender ]

-- The columns that `AddUser` hands to `insert_peerProfile`.
unfoldable pub new_profile : Backend → UserInfo → PeerProfile
new_profile b u =
    let base : PeerProfile = record {
      nick_name = some (b.to_utf8 u.nick_name);
      group_name = some (b.to_utf8 u.group_name);
      sex = some (print u.sex);
      age = some (print u.age);
      introduction = some (b.to_utf8 u.introduction);
      head_image_path = some (b.to_utf8 u.head_image_path);
      server_id = none;
      server_uid = none;
      last_ip = some u.ip;
      tcp_port = some (print_int u.tcp_port);
      udp_port = some (print_int u.udp_port);
    } in
    elim u.kind [
      | p2p ack_msgid ↦ base
      | server serverid serveruid t ↦ record base {
        server_id = some (print serverid);
        server_uid = some serveruid;
      }
    ]

-- A user that is not in the list and got its number from the database.
unfoldable pub enter : ℕ → UserInfo → UserList → UserList
enter userid u l = record l { users = put userid (record u { uid = userid }) l.users }

-- `AddUser`
unfoldable pub add_user : Backend → UserInfo → UserList → ℕ × UserList × List Post
unfolding find_user new_profile enter update_user_display
add_user b u l =
    let found = find_user u l in
    let userid = b.insert_peer_profile (new_profile b u) in
    if not l.has_init
    then (0, l, [])
    else if not (found == 0)
    then (found, l, [])
    else if userid == 0
    then (0, l, [])
    else (userid, enter userid u l, update_user_display b.is_open userid)

-- The columns that `AddUsers` hands over: a peer has an empty server here, not NULL.
unfoldable pub listed_profile : Backend → UserInfo → PeerProfile
unfolding new_profile
listed_profile b u = elim u.kind [
  | p2p ack_msgid ↦ record (new_profile b u) { server_id = some []; server_uid = some [] }
  | server serverid serveruid t ↦ new_profile b u
]

-- The loop of `AddUsers` from the number `last_uid` on: the list, the rows for the database, the posts.
unfoldable pub add_each :
    Backend → (last_uid : ℕ) → List UserInfo → UserList → UserList × List PeerProfile × List Post
unfolding find_user listed_profile enter update_user_display
add_each b last_uid [] l = (l, [], [])
add_each b last_uid (u ∷ us) l =
    let seen = add_each b last_uid us l in
    let (l', rows, posts) = add_each b (suc last_uid) us (enter (suc last_uid) u l) in
    if not (find_user u l == 0)
    then seen
    else (l', listed_profile b u ∷ rows, update_user_display b.is_open (suc last_uid) ++ posts)

-- `AddUsers`; `last_uid` is the answer of last_insert_peerProfileUid.
unfoldable pub add_users :
    Backend → (last_uid : ℕ) → List UserInfo → UserList → UserList × List PeerProfile × List Post
unfolding add_each
add_users b last_uid us l = if not l.has_init then (l, [], []) else add_each b last_uid us l
