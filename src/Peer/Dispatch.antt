-- ===== src/Peer/Dispatch.antt =====
-- kernel/Listener/ClientMsgListener.cpp: the handlers of the messages over TCP, and the two functions that
-- find the handler of a message. The handlers run one at a time here.
use v6chat.Base.{ℕ, true, not, Option, none, some, List, [], ◌∷◌, map, if◌then◌else◌}
use v6chat.FileList.Received
use v6chat.FileList.Sent.{get_file_path}
use v6chat.Numbers.{ℤ, pos, to_unsigned, int_eq}
use v6chat.Peer.Callbacks.{for_user}
use v6chat.Peer.Chat.{on_chat_with_text_msg, received_name, received_path}
use v6chat.Peer.Kernel.{
  Json, World, posted, head_image, small_file, Proc, skip, says, ◌⨾◌, when, reads, needs, either,
  given, to_unsigned_short, user_online_type, user_online_ack, user_keeponline, user_keeponline_ack,
  user_offline_type, add_p2puser_ask, reply_add_user, normal_ack, user_info_update, get_file,
  send_file,
}
use v6chat.Peer.Listener.{
  Datagram, on_online_msg, on_online_ack_msg, on_keep_online_msg, on_keep_online_ack_msg,
  on_offline_msg, on_add_user_ask_msg, on_reply_add_user_msg, on_normal_ack_msg,
}
use v6chat.Text.Decimal.{print_int}
use v6chat.Text.{Text, codes}
use v6chat.User.Change.{update_user}
use v6chat.User.Chat.{text_chat}

-- A message over a connection; what comes later over its socket is the world's.
pub record Message (j : Json) : Type 0 where
  pub ip : Text
  pub port : ℤ
  pub content : j.Value

-- `UpdateUser` with a name, a sex, an age and an introduction.
unfoldable pub updates_user : World → ℕ → (name : Text) (sex age : ℤ) (introduction : Text) → Proc
unfolding update_user to_unsigned to_unsigned_short
updates_user w uid name sex age introduction k =
    let (done, users, posts) =
      update_user w.backend uid (some (w.ansi_to_unicode name)) none (to_unsigned_short sex)
        (to_unsigned age) (some (w.ansi_to_unicode introduction)) none true k.users in
    some (record k { users = users }, map posted posts)

-- `OnUserInfoUpdateMsg`; `ReceiveHeadImage` stores the image under the number of the user.
unfoldable pub on_user_info_update_msg : (w : World) → Message w.json → Proc
unfolding for_user updates_user
on_user_info_update_msg w m = for_user m.ip (λ uid.
    says (head_image uid ∷ [])
    ⨾ needs (w.json.as_c_string (w.json.member (codes "my_info") m.content)) (λ info.
      given (w.json.parse info) skip (λ peer_info.
        needs (w.json.as_c_string (w.json.member (codes "nick_name") peer_info)) (λ name.
          needs (w.json.as_int (w.json.member (codes "sex") peer_info)) (λ sex.
            needs (w.json.as_int (w.json.member (codes "age") peer_info)) (λ age.
              needs (w.json.as_c_string (w.json.member (codes "introduction") peer_info))
                (λ introduction. updates_user w uid name sex age introduction)))))))

-- `OnGetFileMsg`
unfoldable pub on_get_file_msg : (w : World) → Message w.json → Proc
unfolding for_user get_file_path
on_get_file_msg w m = for_user m.ip (λ uid.
    needs (w.json.as_int (w.json.member (codes "number") m.content)) (λ number. reads (λ k.
      given (get_file_path number k.send_files) skip
        (λ path. says (small_file (w.unicode_to_ansi path) ∷ [])))))

-- A file that came over the socket joins the list, downloaded.
unfoldable pub enters_file : World → (uid : ℕ) (number file_name : Text) → Proc
unfolding Received.add_file_item
enters_file w uid number file_name k =
    let (n, files) =
      Received.add_file_item uid number (w.ansi_to_unicode file_name) true k.recv_files in
    some (record k { recv_files = files }, [])

-- `OnSendFileMsg`
unfoldable pub on_send_file_msg : (w : World) → Message w.json → Proc
unfolding for_user received_name received_path enters_file
on_send_file_msg w m = for_user m.ip (λ uid.
    needs (w.json.as_int (w.json.member (codes "number") m.content)) (λ number.
      needs (w.json.as_c_string (w.json.member (codes "filename") m.content)) (λ name.
        let file_name = received_name w uid (print_int number) name in
        when (w.received (received_path w file_name))
          (enters_file w uid (print_int number) file_name))))

-- `_ClientRecvUDPMsgCallBackFuncs` and `_ClientRecvTCPMsgCallBackFuncs`, without their last entries.
unfoldable pub udp_table : (w : World) → List (ℕ × (Datagram w.json → Proc))
udp_table w =
    (user_online_type, on_online_msg w)
    ∷ (user_online_ack, on_online_ack_msg w)
    ∷ (user_keeponline, on_keep_online_msg w)
    ∷ (user_keeponline_ack, on_keep_online_ack_msg w)
    ∷ (user_offline_type, on_offline_msg w)
    ∷ (add_p2puser_ask, on_add_user_ask_msg w)
    ∷ (reply_add_user, on_reply_add_user_msg w)
    ∷ (text_chat, on_chat_with_text_msg w)
    ∷ (normal_ack, on_normal_ack_msg w)
    ∷ []

unfoldable pub tcp_table : (w : World) → List (ℕ × (Message w.json → Proc))
tcp_table w =
    (user_info_update, on_user_info_update_msg w)
    ∷ (get_file, on_get_file_msg w)
    ∷ (send_file, on_send_file_msg w)
    ∷ []

-- The first handler of that type. The loop over the second table does not stop there, but no type is in
-- it twice.
unfoldable pub handler_of {ℓ} : {A : Type ℓ} → ℤ → List (ℕ × A) → Option A
handler_of type [] = none
handler_of type ((t, handler) ∷ table) =
    if int_eq type (pos t) then some handler else handler_of type table

-- The handler of a message, if it has a type and there is one.
unfoldable pub dispatch {ℓ} :
    {A : Type ℓ} → (w : World) → w.json.Value → List (ℕ × A) → (A → Proc) → Proc
unfolding handler_of
dispatch w content table use_it =
    let type = w.json.member (codes "type") content in
    when (not (w.json.is_null type))
      (needs (w.json.as_int type) (λ t. given (handler_of t table) skip use_it))

-- The number of a message; a message without one has none.
unfoldable pub with_mid : (w : World) → (box : w.json.Value) → (Option Text → Proc) → Proc
with_mid w box continue_with =
    let mid = w.json.member (codes "mid") box in
    either (w.json.is_null mid) (continue_with none)
      (needs (w.json.as_c_string mid) (λ m. continue_with (some m)))

-- `ListenerCallBack`
unfoldable pub listener_call_back : (w : World) → (rec : Option Text) (ip : Text) (port : ℤ) → Proc
unfolding udp_table dispatch with_mid
listener_call_back w none ip port = skip
listener_call_back w (some rec) ip port = given (w.json.parse rec) skip (λ box.
    let boxed = w.json.member (codes "content") box in
    when (not (w.json.is_null boxed)) (
      needs (w.json.as_c_string boxed) (λ inner. given (w.json.parse inner) skip (λ content.
        dispatch w content (udp_table w) (λ handler.
          with_mid w box
            (λ mid. handler (record { ip = ip; port = port; content = content; mid = mid })))))))

-- `ListenerWithSocketCallBack`
unfoldable pub listener_with_socket_call_back :
    (w : World) → (rec : Option Text) (ip : Text) (port : ℤ) → Proc
unfolding tcp_table dispatch
listener_with_socket_call_back w none ip port = skip
listener_with_socket_call_back w (some rec) ip port = given (w.json.parse rec) skip (λ msg.
    dispatch w msg (tcp_table w)
      (λ handler. handler (record { ip = ip; port = port; content = msg })))
