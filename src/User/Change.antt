-- ===== src/User/Change.antt =====
-- kernel/User/UserList.cpp, with Delete and GetLocation of the two kinds of user: what changes a user of
-- the list, or asks for it.
use v6chat.Ack.Pool.{WaitAckMsgSender, Event}
use v6chat.Base.{
  ℕ, Bool, true, false, not, ◌&&◌, Option, none, some, List, [], ◌∷◌, ◌++◌, ◌==◌, ltb,
  if◌then◌else◌,
}
use v6chat.Numbers.{ℤ, int_eq}
use v6chat.OrderedMap.{OrderedMap, lookup, put, erase}
use v6chat.Text.Decimal.{print}
use v6chat.Text.{Text, text_eq}
use v6chat.User.Info.{UserState, user_offline, user_online, p2p, server, UserInfo}
use v6chat.User.Presence.{Host, set_state, check_online}
use v6chat.User.UserList.{Backend, UserList, update_user_display}
use v6chat.Windows.{Post}

-- A pointer argument of `UpdateUser`: the new text, if there is one and it differs.
unfoldable pub differing : Option Text → Text → Option Text
differing none old = none
differing (some new) old = if text_eq old new then none else some new

unfoldable pub with_nick_name : Option Text → UserInfo → UserInfo
unfolding differing
with_nick_name nick_name u = elim (differing nick_name u.nick_name) [
  | none ↦ u
  | some t ↦ record u { nick_name = t; has_change = true }
]

unfoldable pub with_group_name : Option Text → UserInfo → UserInfo
unfolding differing
with_group_name group_name u = elim (differing group_name u.group_name) [
  | none ↦ u
  | some t ↦ record u { group_name = t; has_change = true }
]

unfoldable pub with_sex : ℕ → UserInfo → UserInfo
with_sex sex u =
    if ltb sex 3 && not (u.sex == sex) then record u { sex = sex; has_change = true } else u

unfoldable pub with_age : ℕ → UserInfo → UserInfo
with_age age u =
    if not (age == 0) && not (u.age == age) then record u { age = age; has_change = true } else u

-- Both the fifth and the sixth argument are compared with the introduction and written into it.
unfoldable pub with_introduction : Option Text → UserInfo → UserInfo
unfolding differing
with_introduction introduction u = elim (differing introduction u.introduction) [
  | none ↦ u
  | some t ↦ record u { introduction = t; has_change = true }
]

unfoldable pub updated :
    (nick_name group_name : Option Text) (sex age : ℕ) (introduction head_image_path : Option Text)
    → UserInfo
    → UserInfo
unfolding with_nick_name with_group_name with_sex with_age with_introduction
updated nick_name group_name sex age introduction head_image_path u =
    let u1 = with_nick_name nick_name u in
    let u2 = with_group_name group_name u1 in
    let u3 = with_sex sex u2 in
    let u4 = with_age age u3 in
    let u5 = with_introduction introduction u4 in with_introduction head_image_path u5

-- `UpdateUser`
unfoldable pub update_user :
    Backend
    → (uid : ℕ) (nick_name group_name : Option Text) (sex age : ℕ)
      (introduction head_image_path : Option Text) (show : Bool)
    → UserList
    → Bool × UserList × List Post
unfolding updated update_user_display
update_user b uid nick_name group_name sex age introduction head_image_path show l =
    elim (lookup uid l.users) [
      | none ↦ (false, l, [])
      | some u ↦
          let v = updated nick_name group_name sex age introduction head_image_path u in
          (
            true,
            record l { users = put uid v l.users },
            if show then update_user_display b.is_open uid else [],
          )
    ]

unfoldable pub same_state : UserState → UserState → Bool
same_state user_offline user_offline = true
same_state user_offline user_online = false
same_state user_online user_offline = false
same_state user_online user_online = true

-- `UpdateUserState`
unfoldable pub update_user_state :
    Backend
    → Host
    → (now uid : ℕ) → UserState
    → UserList
    → WaitAckMsgSender
    → Bool × UserList × WaitAckMsgSender × List Event × List Post
unfolding set_state same_state update_user_display
update_user_state b host now uid state l pool = elim (lookup uid l.users) [
  | none ↦ (false, l, pool, [], [])
  | some u ↦
      let (v, pool', events) = set_state host now state u pool in
      (
        true,
        record l { users = put uid v l.users },
        pool',
        events,
        if same_state state u.state then [] else update_user_display b.is_open uid,
      )
]

unfoldable pub with_ports : ℤ → ℤ → UserInfo → UserInfo
with_ports tcp_port udp_port u =
    let v =
      if int_eq u.tcp_port tcp_port
      then u
      else record u { tcp_port = tcp_port; has_change = true } in
    if int_eq v.udp_port udp_port then v else record v { udp_port = udp_port; has_change = true }

-- `UpdateUserPort`
unfoldable pub update_user_port : (uid : ℕ) (tcp_port udp_port : ℤ) → UserList → Bool × UserList
unfolding with_ports
update_user_port uid tcp_port udp_port l = elim (lookup uid l.users) [
  | none ↦ (false, l)
  | some u ↦ (true, record l { users = put uid (with_ports tcp_port udp_port u) l.users })
]

-- `Delete` of the two kinds: its result, the user, the pool, the events, and the user whom the server is
-- asked to delete.
unfoldable pub delete :
    Backend
    → Host
    → ℕ
    → UserInfo
    → WaitAckMsgSender
    → Bool × UserInfo × WaitAckMsgSender × List Event × Option (ℕ × Text)
unfolding set_state
delete b host now u pool = elim u.kind [
  | p2p ack_msgid ↦
      let (v, pool', events) = set_state host now user_offline u pool in
      (b.delete_peer_profile (print u.uid), v, pool', events, none)
  | server serverid serveruid t ↦
      if b.has_server serverid
      then (b.delete_peer_profile (print u.uid), u, pool, [], some (serverid, serveruid))
      else (false, u, pool, [], none)
]

-- `DeleteUser`
unfoldable pub delete_user :
    Backend
    → Host
    → (now uid : ℕ) → UserList
    → WaitAckMsgSender
    → UserList × WaitAckMsgSender × List Event × Option (ℕ × Text)
unfolding delete
delete_user b host now uid l pool = elim (lookup uid l.users) [
  | none ↦ (l, pool, [], none)
  | some u ↦
      let (deleted, v, pool', events, asked) = delete b host now u pool in
      if not l.has_init
      then (l, pool, [], none)
      else if deleted
      then (record l { users = erase uid l.users }, pool', events, asked)
      else (record l { users = put uid v l.users }, pool', events, asked)
]

-- The body of the loop of `TraverseAllUsers` for one user.
unfoldable pub visit :
    Backend
    → Host
    → ℕ
    → UserInfo
    → WaitAckMsgSender
    → UserInfo × WaitAckMsgSender × List Event × List Post
unfolding check_online update_user_display
visit b host now u pool = elim u.state [
  | user_offline ↦ (u, pool, [], [])
  | user_online ↦
      let (online, (v, pool', events)) = check_online host now u pool in
      (v, pool', events, if online then [] else update_user_display b.is_open v.uid)
]

unfoldable pub visit_all :
    Backend
    → Host
    → ℕ
    → OrderedMap UserInfo
    → WaitAckMsgSender
    → OrderedMap UserInfo × WaitAckMsgSender × List Event × List Post
unfolding visit
visit_all b host now [] pool = ([], pool, [], [])
visit_all b host now ((k, u) ∷ m) pool =
    let (v, pool', events, posts) = visit b host now u pool in
    let (m', pool'', events', posts') = visit_all b host now m pool' in
    ((k, v) ∷ m', pool'', events ++ events', posts ++ posts')

-- `TraverseAllUsers`
unfoldable pub traverse_all_users :
    Backend
    → Host
    → ℕ
    → UserList
    → WaitAckMsgSender
    → UserList × WaitAckMsgSender × List Event × List Post
unfolding visit_all
traverse_all_users b host now l pool =
    let (users, pool', events, posts) = visit_all b host now l.users pool in
    if l.has_init then (record l { users = users }, pool', events, posts) else (l, pool, [], [])
