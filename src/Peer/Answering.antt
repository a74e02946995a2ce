-- ===== src/Peer/Answering.antt =====
-- kernel/LuaV6Chat3App.cpp: `AddFriendAck`, the user's answer to a peer that asks to be a friend.
use v6chat.Base.{Bool, []}
use v6chat.Base.{◌==◌}
use v6chat.Inbox.Unread.{get_unread_msg}
use v6chat.Peer.Kernel.{World, Proc, ◌⨾◌, when, reads, needs, add_p2puser_ask, default_group_name}
use v6chat.Peer.Listener.{adds_user}
use v6chat.Peer.Sender.{reply_add_user_msg, test_online_msg}
use v6chat.User.Info.{UserInfo, new_p2p_user_info}
use v6chat.Text.{Text}
use v6chat.Numbers.{ℤ}

-- The user that the answer adds; both of its ports are the one of the request.
unfoldable pub asking_user : (name ip : Text) (port : ℤ) → UserInfo
unfolding new_p2p_user_info
asking_user name ip port = new_p2p_user_info 0 name default_group_name 0 0 [] [] ip port port

-- The answer to a peer; that to a user of a server goes to the server alone. Without an unread message the code
-- reads variables that are unset.
unfoldable pub answers_friend : World → (agree : Bool) → Proc
unfolding asking_user adds_user reply_add_user_msg test_online_msg get_unread_msg
answers_friend w agree = reads (λ k. needs (get_unread_msg k.unread) (λ m.
    when (m.0 == add_p2puser_ask) (
      reply_add_user_msg w m.3 m.4 agree
      ⨾ when agree (adds_user w (asking_user m.2 m.3 m.4) ⨾ test_online_msg w m.3 m.4))))
