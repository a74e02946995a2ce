-- ===== src/Peer/Runs.antt =====
-- What goes on in the kernel, one step after the other: messages come in, the user sends, and the threads
-- sweep the pool (`TraverseAllMsg`) and the users (`TraverseAllUsers`). The system may answer anything at
-- each step.
use v6chat.Ack.Pool.{traverse_all_msg}
use v6chat.Base.{ℕ, ◌≡◌, Bool, true, Option, none, some, List, [], map}
use v6chat.FileList.Numbering
use v6chat.Numbers.{ℤ}
use v6chat.Peer.Answering.{answers_friend}
use v6chat.Peer.Callbacks.{performs}
use v6chat.Peer.Dispatch.{listener_call_back, listener_with_socket_call_back}
use v6chat.Peer.Kernel.{World, Kernel, Effect, Proc, posted, says, ◌⨾◌}
use v6chat.Peer.Sender.{add_user_ask_msg, reply_add_user_msg, test_online_msg, chat_with_text_msg}
use v6chat.Server.Events.{Listener, Report, reported}
use v6chat.Text.{Text}
use v6chat.User.Chat.{get_chat_content}
use v6chat.User.Change.{update_user, delete_user, traverse_all_users}

-- `TraverseAllMsg`, with the callbacks of the messages that are given up.
unfoldable pub sweeps_pool : World → Proc
unfolding traverse_all_msg performs
sweeps_pool w k =
    let (pool, events) = traverse_all_msg w.host.platform w.now k.pool in
    performs w events (record k { pool = pool })

-- `TraverseAllUsers`, with the events of the pool.
unfoldable pub sweeps_users : World → Proc
unfolding traverse_all_users performs
sweeps_users w k =
    let (users, pool, events, posts) = traverse_all_users w.backend w.host w.now k.users k.pool in
    (performs w events ⨾ says (map posted posts)) (record k { users = users; pool = pool })

-- `DeleteUser`, with the events of the pool.
unfoldable pub deletes_user : World → ℕ → Proc
unfolding delete_user performs
deletes_user w uid k =
    let (users, pool, events, asked) = delete_user w.backend w.host w.now uid k.users k.pool in
    performs w events (record k { users = users; pool = pool })

-- `UpdateUser` and `GetChatContent` from a window.
unfoldable pub edits_user : World → ℕ → (nick_name group_name : Option Text) → Proc
unfolding update_user
edits_user w uid nick_name group_name k =
    let (done, users, posts) =
      update_user w.backend uid nick_name group_name 3 0 none none true k.users in
    some (record k { users = users }, map posted posts)

unfoldable pub reads_chat : ℕ → Proc
unfolding get_chat_content
reads_chat uid k = some (record k { users = (get_chat_content uid k.users).1 }, [])

unfoldable pub changes_files : Numbering.Call → Proc
unfolding Numbering.after
changes_files call k = some (record k { recv_files = Numbering.after k.recv_files call }, [])

-- What starts a step: a datagram, a message over a connection, the four messages of the user, three
-- operations of the windows on the users, the user's answer to a request, one operation on the received files,
-- and the two threads.
pub data Cause : Type 0 where
  datagram_came message_came : (rec : Option Text) (ip : Text) (port : ℤ) → Cause
  user_asks : (ip : Text) (port : ℤ) → Cause
  user_replies : (ip : Text) (port : ℤ) (agree : Bool) → Cause
  user_tests : (ip : Text) (port : ℤ) → Cause
  user_chats : (ip : Text) (tcp_port udp_port : ℤ) (text time : Text) → Cause
  user_edits : (uid : ℕ) (nick_name group_name : Option Text) → Cause
  user_reads user_deletes : (uid : ℕ) → Cause
  user_answers : (agree : Bool) → Cause
  files_call : Numbering.Call → Cause
  pool_swept users_swept : Cause

unfoldable pub caused : World → Cause → Proc
unfolding sweeps_pool sweeps_users edits_user reads_chat deletes_user changes_files
caused w (datagram_came rec ip port) = listener_call_back w rec ip port
caused w (message_came rec ip port) = listener_with_socket_call_back w rec ip port
caused w (user_asks ip port) = add_user_ask_msg w ip port
caused w (user_replies ip port agree) = reply_add_user_msg w ip port agree
caused w (user_tests ip port) = test_online_msg w ip port
caused w (user_chats ip tcp_port udp_port text time) =
    chat_with_text_msg w ip tcp_port udp_port text time
caused w (user_edits uid nick_name group_name) = edits_user w uid nick_name group_name
caused w (user_reads uid) = reads_chat uid
caused w (user_deletes uid) = deletes_user w uid
caused w (user_answers agree) = answers_friend w agree
caused w (files_call call) = changes_files call
caused w pool_swept = sweeps_pool w
caused w users_swept = sweeps_users w

-- One step that ends, of the program or after a report of a server's client, and runs of them.
pub data Step : Kernel → Kernel → Type 1 where
  step :
      {k k' : Kernel} (w : World) (cause : Cause) (effects : List Effect)
      → caused w cause k ≡ some (k', effects)
      → Step k k'
  server_step :
      {k k' : Kernel} (s : Listener) (report : Report) (effects : List Effect)
      → reported s report k ≡ some (k', effects)
      → Step k k'

pub data Run : Kernel → Kernel → Type 1 where
  here : {k : Kernel} → Run k k
  next : {k k' k'' : Kernel} → Step k k' → Run k' k'' → Run k k''
