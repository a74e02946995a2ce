-- ===== src/User/Info.antt =====
-- kernel/User/UserInfo.h, P2PUserInfo.h and ServerUserInfo.h: a user. The two classes are the two
-- constructors of `Kind`; a `dynamic_cast` is a case distinction on it.
use v6chat.Base.{ℕ, Bool, false, List, [], ◌∷◌, ◌++◌}
use v6chat.Numbers.{ℤ, pos}
use v6chat.Text.{Text}

pub data UserState : Type 0 where
  user_offline user_online : UserState

pub record ChatMsg : Type 0 where
  pub msg : Text
  pub time : Text
  pub msg_type : ℤ

-- The sender that a constructor makes, with the copies of its arguments that it keeps.
pub data MsgSender : Type 0 where
  client_msg_sender : (ip : Text) (tcp_port udp_port : ℤ) → MsgSender
  server_msg_sender : (serverid : ℕ) (serveruid : Text) (uid : ℕ) → MsgSender

pub data Kind : Type 0 where
  p2p : (ack_msgid : ℕ) → Kind
  server : (serverid : ℕ) (serveruid : Text) (last_update_time : ℕ) → Kind

pub record UserInfo : Type 0 where
  pub has_change : Bool
  pub uid : ℕ
  pub nick_name : Text
  pub group_name : Text
  pub sex : ℕ
  pub age : ℕ
  pub introduction : Text
  pub head_image_path : Text
  pub ip : Text
  pub udp_port : ℤ
  pub tcp_port : ℤ
  pub unread_chat_content : List ChatMsg
  pub message_sender : MsgSender
  pub state : UserState
  pub last_active_time : ℕ
  pub kind : Kind

unfoldable pub new_p2p_user_info :
    (uid : ℕ) (nick_name group_name : Text) (sex age : ℕ) (introduction head_image_path : Text)
    (ip : Text) (udp_port tcp_port : ℤ)
    → UserInfo
new_p2p_user_info uid nick_name group_name sex age introduction head_image_path ip udp_port
      tcp_port =
    record {
      has_change = false;
      uid = uid;
      nick_name = nick_name;
      group_name = group_name;
      sex = sex;
      age = age;
      introduction = introduction;
      head_image_path = head_image_path;
      ip = ip;
      udp_port = udp_port;
      tcp_port = tcp_port;
      unread_chat_content = [];
      message_sender = client_msg_sender ip tcp_port udp_port;
      state = user_offline;
      last_active_time = 0;
      kind = p2p 0;
    }

unfoldable pub new_server_user_info :
    (uid : ℕ) (nick_name group_name : Text) (sex age : ℕ) (introduction head_image_path : Text)
    (serverid : ℕ) (serveruid : Text)
    → UserInfo
new_server_user_info uid nick_name group_name sex age introduction head_image_path serverid
      serveruid =
    record {
      has_change = false;
      uid = uid;
      nick_name = nick_name;
      group_name = group_name;
      sex = sex;
      age = age;
      introduction = introduction;
      head_image_path = head_image_path;
      ip = [];
      udp_port = pos 0;
      tcp_port = pos 0;
      unread_chat_content = [];
      message_sender = server_msg_sender serverid serveruid uid;
      state = user_offline;
      last_active_time = 0;
      kind = server serverid serveruid 0;
    }

-- The constructor that also takes the state; it leaves the time of the last update unset.
unfoldable pub new_server_user_info_in :
    (unset_time : ℕ)
    → UserState
    → (uid : ℕ) (nick_name group_name : Text) (sex age : ℕ) (introduction head_image_path : Text)
      (serverid : ℕ) (serveruid : Text)
    → UserInfo
unfolding new_server_user_info
new_server_user_info_in unset_time state uid nick group sex age intro head_image serverid
      serveruid =
    record (new_server_user_info uid nick group sex age intro head_image serverid serveruid) {
      state = state;
      kind = server serverid serveruid unset_time;
    }

-- `RecvText`
unfoldable pub recv_text : ℤ → Text → Text → UserInfo → UserInfo
recv_text text_type text record_time u = record u {
  unread_chat_content =
      u.unread_chat_content ++ record { msg = text; time = record_time; msg_type = text_type } ∷ [];
}
