-- ===== src/User/Loading.antt =====
-- kernel/User/UserList.cpp: `Init` reads the users from the table that the database hands out, and `Store`
-- writes back those that changed (StoreInDB of the two kinds of user).
use v6chat.Base.{
  ℕ, ◌%◌, ◌^◌, Bool, true, false, Option, none, some, List, [], ◌∷◌, ◌++◌, ◌==◌, if◌then◌else◌,
}
use v6chat.Database.Statements.{PeerProfile}
use v6chat.Numbers.{ℤ, pos, to_unsigned}
use v6chat.OrderedMap.{OrderedMap, insert}
use v6chat.Text.Decimal.{print, print_int, atoi}
use v6chat.Text.{Text}
use v6chat.User.Info.{p2p, server, UserInfo, new_p2p_user_info, new_server_user_info}
use v6chat.User.UserList.{Backend, UserList}

-- One row of the table by the numbers of its columns; `none` is NULL.
abbrev pub Row : Type 0
Row = ℕ → Option Text

-- A column through `atoi`, as a text, and as a text in the program's encoding; the variable's initial
-- value where the column is NULL.
unfoldable pub number : Option Text → ℤ
number none = pos 0
number (some t) = atoi t

unfoldable pub bytes : Option Text → Text
bytes none = []
bytes (some t) = t

unfoldable pub words : Backend → Option Text → Text
words b none = []
words b (some t) = b.to_unicode t

-- `int` to `unsigned short`
abbrev pub to_u16 : ℤ → ℕ
to_u16 z = to_unsigned z % 2 ^ 16

-- The body of the loop of `Init`: the user of a row. Its last two arguments stand the other way round in the
-- constructor of P2PUserInfo.
unfoldable pub load_row : Backend → Row → UserInfo
unfolding number bytes words new_p2p_user_info new_server_user_info
load_row b row =
    let id = to_unsigned (number (row 0)) in
    let nick_name = words b (row 1) in
    let group_name = words b (row 2) in
    let sex = to_u16 (number (row 3)) in
    let age = to_unsigned (number (row 4)) in
    let introduction = words b (row 5) in
    let head_image_path = words b (row 6) in
    let server_id = to_unsigned (number (row 7)) in
    if server_id == 0
    then new_p2p_user_info id nick_name group_name sex age introduction head_image_path
        (bytes (row 9)) (number (row 10)) (number (row 11))
    else new_server_user_info id nick_name group_name sex age introduction head_image_path server_id
        (bytes (row 8))

-- Whom `TestOnlineMsg` asks: the sender is made with the ports as they are named here.
unfoldable pub asked : Row → List (Text × ℤ)
unfolding number bytes
asked row = if to_unsigned (number (row 7)) == 0 then (bytes (row 9), number (row 11)) ∷ [] else []

unfoldable pub load_rows :
    Backend → List Row → OrderedMap UserInfo → OrderedMap UserInfo × List (Text × ℤ)
unfolding load_row asked
load_rows b [] m = (m, [])
load_rows b (row ∷ rows) m =
    let u = load_row b row in
    let (m', more) = load_rows b rows (insert u.uid u m) in (m', asked row ++ more)

-- `Init`: `table` is the answer of get_peersProfile. The result, the list, and whom it asks.
unfoldable pub init :
    Backend → (table : Option (List Row)) → UserList → Bool × UserList × List (Text × ℤ)
unfolding load_rows
init b table l = if l.has_init then (true, l, []) else elim table [
  | none ↦ (false, record l { users = [] }, [])
  | some rows ↦
      let (m, more) = load_rows b rows [] in (true, record { has_init = true; users = m }, more)
]

-- What `StoreInDB` hands to `update_peerProfile`.
unfoldable pub stored_profile : Backend → UserInfo → PeerProfile
stored_profile b u =
    let base : PeerProfile = record {
      nick_name = some (b.to_utf8 u.nick_name);
      group_name = some (b.to_utf8 u.group_name);
      sex = some (print u.sex);
      age = some (print u.age);
      introduction = some (b.to_utf8 u.introduction);
      head_image_path = some (b.to_utf8 u.head_image_path);
      server_id = none;
      server_uid = none;
      last_ip = none;
      tcp_port = none;
      udp_port = none;
    } in
    elim u.kind [
      | p2p ack_msgid ↦ record base {
        last_ip = some u.ip;
        tcp_port = some (print_int u.tcp_port);
        udp_port = some (print_int u.udp_port);
      }
      | server serverid serveruid t ↦ record base {
        server_id = some (print serverid);
        server_uid = some serveruid;
      }
    ]

store_each : Backend → OrderedMap UserInfo → List (Text × PeerProfile)
unfolding stored_profile
store_each b [] = []
store_each b ((k, u) ∷ m) =
    if u.has_change then (print u.uid, stored_profile b u) ∷ store_each b m else store_each b m

-- `Store`: the calls of update_peerProfile, each with the number of the user.
unfoldable pub store : Backend → UserList → List (Text × PeerProfile)
unfolding store_each
store b l = if l.has_init then store_each b l.users else []
