-- ===== src/Bridge/ServerFriends.antt =====
-- kernel/LuaV6Chat3App.cpp: `AddServerFriend`, and `AddFriendAck` where a user of a server asked.
use v6chat.Base.{Option, some, List, [], ◌==◌, if◌then◌else◌, ◌>>=◌}
use v6chat.Bridge.Stack.{Arguments}
use v6chat.Inbox.Unread.{UnreadMsgList, get_unread_msg}
use v6chat.Numbers.{pos, int_eq, to_unsigned}
use v6chat.Peer.Kernel.{add_p2puser_ask}
use v6chat.Server.Info.{ClientCall}
use v6chat.Server.Sender.{ServerMsgSender, add_user_ask_msg, reply_add_user_msg}
use v6chat.Server.ServerList.{ServerList}
use v6chat.Text.{Text}

-- `AddServerFriend`: what the client of the server is asked. `none`: a string is made of NULL. The sender given
-- has the conversions; its server and account are those of the call.
unfoldable pub add_server_friend :
    ServerMsgSender → Arguments → ServerList → Option (List ClientCall)
unfolding add_user_ask_msg
add_server_friend m a servers = do
  account ← a.to_string 3
  some (
      add_user_ask_msg (record m { serverid = to_unsigned (a.to_integer 2); serveruid = account })
        servers)

-- `AddFriendAck`, where it is not a peer that asked. `none`: nothing is unread, and the code reads variables that
-- are unset.
unfoldable pub add_server_friend_ack :
    ServerMsgSender
    → (to_utf8 : Text → Text) → Arguments
    → UnreadMsgList
    → ServerList
    → Option (List ClientCall)
unfolding reply_add_user_msg get_unread_msg
add_server_friend_ack m to_utf8 a unread servers = do
  asked ← get_unread_msg unread
  some (
      if asked.0 == add_p2puser_ask
      then []
      else reply_add_user_msg (record m { serverid = asked.1; serveruid = to_utf8 asked.2 })
          (int_eq (a.to_integer 2) (pos 1)) servers)
