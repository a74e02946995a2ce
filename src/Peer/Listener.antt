-- ===== src/Peer/Listener.antt =====
-- kernel/Listener/ClientMsgListener.cpp: the handlers of the datagrams but the chat's.
use v6chat.Ack.Pool.{find_msg}
use v6chat.Base.{ℕ, not, Option, none, some, [], ◌∷◌, ◌++◌, map}
use v6chat.Inbox.Asked.{find_temp_user, delete_temp_user}
use v6chat.Inbox.Unread.{unread_from_peer}
use v6chat.Numbers.{ℤ, to_unsigned}
use v6chat.Peer.Callbacks.{for_user, sends_profile, adds_unread, updates_state, deletes_msg}
use v6chat.Peer.Kernel.{
  Json, World, posted, Proc, skip, ◌⨾◌, when, reads, needs, given, to_unsigned_short,
  add_p2puser_ask, default_group_name,
}
use v6chat.Peer.Sender.{
  test_online_msg, test_online_msg_ack, keep_online_msg_ack, normal_msg_ack, update_profile_msg,
}
use v6chat.Text.Decimal.{stream_unsigned, stream_int}
use v6chat.Text.{Text, codes}
use v6chat.User.Change.{update_user_port}
use v6chat.User.Info.{UserInfo, new_p2p_user_info, user_online, user_offline}
use v6chat.User.UserList.{add_user}

-- `UpdateUserPort`
unfoldable pub updates_port : ℕ → (tcp_port udp_port : ℤ) → Proc
unfolding update_user_port
updates_port uid tcp_port udp_port k =
    let (done, users) = update_user_port uid tcp_port udp_port k.users in
    some (record k { users = users }, [])

-- `AddUser`
unfoldable pub adds_user : World → UserInfo → Proc
unfolding add_user
adds_user w u k =
    let (uid, users, posts) = add_user w.backend u k.users in
    some (record k { users = users }, map posted posts)

-- The entry of an address goes from the list of the requests.
unfoldable pub ends_request : Text → Proc
unfolding delete_temp_user
ends_request ip k = some (record k { asked = delete_temp_user ip k.asked }, [])

-- A datagram as a handler gets it; `mid` is NULL where the message has no number.
pub record Datagram (j : Json) : Type 0 where
  pub ip : Text
  pub port : ℤ
  pub content : j.Value
  pub mid : Option Text

-- `OnOnlineMsg`
unfoldable pub on_online_msg : (w : World) → Datagram w.json → Proc
unfolding for_user updates_state updates_port test_online_msg_ack sends_profile
on_online_msg w d = for_user d.ip (λ uid.
    updates_state w uid user_online
    ⨾ updates_port uid d.port d.port
    ⨾ test_online_msg_ack w d.ip d.port d.mid
    ⨾ sends_profile w d.ip uid)

-- `OnOnlineAckMsg`; the number is read from a stream.
unfoldable pub on_online_ack_msg : (w : World) → Datagram w.json → Proc
unfolding for_user updates_state deletes_msg sends_profile
on_online_ack_msg w d = for_user d.ip (λ uid.
    updates_state w uid user_online
    ⨾ needs d.mid (λ mid.
      deletes_msg w (stream_unsigned w.overflow mid) (w.json.write d.content) d.ip
      ⨾ sends_profile w d.ip uid))

-- `OnKeepOnlineMsg`
unfoldable pub on_keep_online_msg : (w : World) → Datagram w.json → Proc
unfolding for_user updates_state keep_online_msg_ack
on_keep_online_msg w d =
    for_user d.ip (λ uid. updates_state w uid user_online ⨾ keep_online_msg_ack w d.ip d.port d.mid)

-- `OnKeepOnlineAckMsg`
unfoldable pub on_keep_online_ack_msg : (w : World) → Datagram w.json → Proc
unfolding for_user updates_state
on_keep_online_ack_msg w d = for_user d.ip (λ uid. updates_state w uid user_online)

-- `OnOfflineMsg`
unfoldable pub on_offline_msg : (w : World) → Datagram w.json → Proc
unfolding for_user updates_state
on_offline_msg w d = for_user d.ip (λ uid. updates_state w uid user_offline)

-- `OnAddUserAskMsg`: the pointer that `_GetAddress` gives is not tested.
unfoldable pub on_add_user_ask_msg : (w : World) → Datagram w.json → Proc
unfolding normal_msg_ack adds_unread unread_from_peer
on_add_user_ask_msg w d =
    normal_msg_ack w d.ip d.port d.mid
    ⨾ needs (w.json.as_c_string (w.json.member (codes "my_info") d.content)) (λ info.
      given (w.json.parse info) skip (λ peer_info.
        needs (w.json.as_string (w.json.member (codes "nick_name") peer_info)) (λ nick_name.
          needs (w.address d.ip) (λ address.
            let pname = w.ansi_to_unicode nick_name in
            let message = pname ++ b'(' ∷ address ++ b')' ∷ [] in
            adds_unread w
              (unread_from_peer w.unset_id add_p2puser_ask pname d.ip d.port message)))))

-- The user that a reply describes.
unfoldable pub replying_user :
    (w : World) → Datagram w.json → (peer_info : w.json.Value) → Option UserInfo
unfolding new_p2p_user_info to_unsigned_short to_unsigned
replying_user w d peer_info =
    elim (w.json.as_string (w.json.member (codes "nick_name") peer_info)) [
      | none ↦ none
      | some nick_name ↦ elim (w.json.as_int (w.json.member (codes "sex") peer_info)) [
        | none ↦ none
        | some sex ↦ elim (w.json.as_int (w.json.member (codes "age") peer_info)) [
          | none ↦ none
          | some age ↦ elim (w.json.as_c_string (w.json.member (codes "introduction") peer_info)) [
            | none ↦ none
            | some introduction ↦ some (
                new_p2p_user_info 0 (w.ansi_to_unicode nick_name) default_group_name
                  (to_unsigned_short sex) (to_unsigned age) (w.ansi_to_unicode introduction) [] d.ip
                  d.port d.port)
          ]
        ]
      ]
    ]

-- The part of `OnReplyAddUserMsg` for a peer that agrees.
unfoldable pub accepts : (w : World) → Datagram w.json → Proc
unfolding replying_user adds_user test_online_msg
accepts w d =
    let my_info = w.json.member (codes "my_info") d.content in
    when (not (w.json.is_null my_info)) (
      needs (w.json.as_c_string my_info) (λ info. given (w.json.parse info) skip (λ peer_info.
        needs (replying_user w d peer_info) (λ u. adds_user w u ⨾ test_online_msg w d.ip d.port))))

-- `OnReplyAddUserMsg`
unfoldable pub on_reply_add_user_msg : (w : World) → Datagram w.json → Proc
unfolding accepts normal_msg_ack update_profile_msg ends_request find_temp_user
on_reply_add_user_msg w d = reads (λ k. when (find_temp_user d.ip k.asked) (
    accepts w d
    ⨾ normal_msg_ack w d.ip d.port d.mid
    ⨾ update_profile_msg w d.ip d.port
    ⨾ ends_request d.ip))

-- `OnNormalAckMsg`: the number is read as an `int`, and becomes an `unsigned long`.
unfoldable pub on_normal_ack_msg : (w : World) → Datagram w.json → Proc
unfolding find_msg deletes_msg
on_normal_ack_msg w d = needs d.mid (λ mid.
    let lmid = to_unsigned (stream_int w.int_overflow mid) in
    reads (λ k. when (find_msg lmid k.pool) (deletes_msg w lmid (w.json.write d.content) d.ip)))
