-- ===== src/Bridge/Requests.antt =====
-- kernel/LuaV6Chat3App.cpp: the functions by which the windows change users and servers and send messages. They
-- return nothing to Lua, except `ChatWithText`.
use v6chat.Base.{ℕ, Bool, true, false, Option, none, some, List, [], if◌then◌else◌, ◌>>=◌}
use v6chat.Bridge.Readers.{Shell, wide}
use v6chat.Bridge.Stack.{Arguments}
use v6chat.Inbox.Unread.{delete_unread_msg}
use v6chat.Numbers.{pos, int_eq, to_unsigned}
use v6chat.OrderedMap.{put}
use v6chat.Own.Info.{MyInfo, set_introduction, changed}
use v6chat.Peer.Answering.{answers_friend}
use v6chat.Peer.Kernel.{World, Proc, reads, needs, skip}
use v6chat.Peer.Runs.{edits_user, deletes_user}
use v6chat.Peer.Sender.{add_user_ask_msg, chat_with_text_msg}
use v6chat.Server.Info.{
  ServerInfo, ClientCall, new, set_name, set_ip, set_uid, set_upassword, set_description, connect,
}
use v6chat.Server.ServerList.{Registry, ServerList, add_server, get_server}
use v6chat.Text.Decimal.{atoi}
use v6chat.Text.{Text}
use v6chat.User.Chat.{record_chat_text, time_of}
use v6chat.User.Info.{client_msg_sender, server_msg_sender}
use v6chat.User.UserList.{get_user_sender}
use v6chat.Windows.{Post}

-- `AddP2PFriend`. The program ends where an argument is NULL.
unfoldable pub add_p2p_friend : World → Arguments → Proc
unfolding add_user_ask_msg
add_p2p_friend w a =
    needs (a.to_string 2) (λ ip. needs (a.to_string 3) (λ port. add_user_ask_msg w ip (atoi port)))

-- `AddFriendAck`, where a peer asked.
unfoldable pub add_friend_ack : World → Arguments → Proc
unfolding answers_friend
add_friend_ack w a = answers_friend w (int_eq (a.to_integer 2) (pos 1))

-- `ChangeFriendGroup`
unfoldable pub change_friend_group : World → Arguments → Proc
unfolding edits_user wide
change_friend_group w a =
    edits_user w (to_unsigned (a.to_integer 2)) none
      (some (wide w.backend.to_unicode (a.to_string 3)))

-- `DeleteFriend`
unfoldable pub delete_friend : World → Arguments → Proc
unfolding deletes_user
delete_friend w a = deletes_user w (to_unsigned (a.to_integer 2))

-- `DeleteUnreadMessage`. `none`: nothing waits, and the stack is popped all the same.
unfoldable pub delete_unread_message : Proc
unfolding delete_unread_msg
delete_unread_message k =
    delete_unread_msg k.unread >>= λ unread. some (record k { unread = unread }, [])

-- `ChatWithText` to a peer; a user who is not in the list has an unbound sender, which throws. The message to a
-- user of a server goes to the server alone.
unfoldable pub chat_with_text : World → Arguments → Proc
unfolding record_chat_text time_of chat_with_text_msg get_user_sender wide
chat_with_text w a =
    let uid = to_unsigned (a.to_integer 2) in
    let wtext = wide w.backend.to_unicode (a.to_string 3) in
    reads (λ k.
      let st = time_of (record_chat_text w.backend w.chat uid wtext k.users) in
      needs (get_user_sender uid k.users) (λ sender. elim sender [
        | client_msg_sender ip tcp_port udp_port ↦
            chat_with_text_msg w ip tcp_port udp_port wtext st
        | server_msg_sender serverid serveruid number_ ↦ skip
      ]))

-- `SetMyIntroduction`
unfoldable pub set_my_introduction : Shell → Arguments → MyInfo → MyInfo
unfolding changed wide
set_my_introduction w a m = changed (set_introduction (wide w.to_unicode (a.to_string 2))) m

-- `AddServer`: the number of the server, the list, the calls and the posts. `none`: a text that is not converted
-- is NULL.
unfoldable pub add_new_server :
    Registry → Arguments → ServerList → Option (ℕ × ServerList × List ClientCall × List Post)
unfolding new add_server wide
add_new_server r a l = do
  domain ← a.to_string 3
  account ← a.to_string 4
  password ← a.to_string 5
  let s =
      new 0 (wide r.to_unicode (a.to_string 2)) domain (pos 5222)
        (wide r.to_unicode (a.to_string 6)) account password
  let (sid, s', l', calls, posts) = add_server r s l
  some (sid, l', calls, posts)

-- A setter whose argument may be missing.
unfoldable pub given_text : Option Text → (Text → ServerInfo → ServerInfo) → ServerInfo → ServerInfo
given_text none set s = s
given_text (some t) set s = set t s

-- The new values of `ChangeServerInfo`.
unfoldable pub changed_server : Shell → Arguments → ServerInfo → ServerInfo
unfolding given_text set_name set_ip set_uid set_upassword set_description
changed_server w a s =
    let s1 = given_text (a.to_string 3) (λ t. set_name (w.to_unicode t)) s in
    let s2 = given_text (a.to_string 4) set_ip s1 in
    let s3 = given_text (a.to_string 5) set_uid s2 in
    let s4 = given_text (a.to_string 6) set_upassword s3 in
    given_text (a.to_string 7) (λ t. set_description (w.to_unicode t)) s4

-- `ChangeServerInfo`: the list, whether the client is closed, and the calls behind that. `closed`: the server as
-- the reports of the client leave it while it closes.
unfoldable pub change_server_info :
    Shell
    → (closed : ServerInfo → ServerInfo) → Arguments
    → ServerList
    → ServerList × Bool × List ClientCall
unfolding changed_server connect get_server
change_server_info w closed a l =
    let id = to_unsigned (a.to_integer 2) in
    elim (get_server id l) [
      | none ↦ (l, false, [])
      | some s ↦
          let s' = changed_server w a s in
          let s'' = closed s' in
          if s'.has_change then (put id s'' l, true, connect s'') else (put id s' l, false, [])
    ]
