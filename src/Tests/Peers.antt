-- ===== src/Tests/Peers.antt =====
-- The messages between peers: bob is in the list, the others are not.
use v6chat.Ack.Pool.{WaitAckMsg, after_online_msg, find_msg, find_in}
use v6chat.Base.{
  ℕ, ◌-◌, ◌≡◌, ◌≢◌, if◌then◌else◌, refl, true, false, Option, none, some, List, [], ◌∷◌, ◌++◌, map,
  arith, inl,
}
use v6chat.FileList.Numbering.{IsNumbered}
use v6chat.FileList.Received
use v6chat.FileList.Sent.{SendFileList, get_file_path}
use v6chat.Inbox.Asked.{open_requests, find_temp_user, add_temp_user}
use v6chat.Numbers.{pos, int_eq, to_unsigned}
use v6chat.OrderedMap.{lookup, contains, find_if}
use v6chat.Peer.Asking.{on_normal_ack_msg-add_user_ask_msg}
use v6chat.Peer.Attempts.{are_resolved, get_file_msg-held}
use v6chat.Peer.Dispatch.{Message, listener_call_back}
use v6chat.Peer.Faults.{listener_call_back-unnumbered}
use v6chat.Peer.Invariant.{Run-IsSound}
use v6chat.Peer.Kernel.{
  Json, World, Kernel, Effect, default_group_name, to_unsigned_short, given, when, needs, either,
  reads, says, ◌⨾◌,
}
use v6chat.Peer.Listener.{
  Datagram, replying_user, on_offline_msg, on_reply_add_user_msg, on_normal_ack_msg,
}
use v6chat.Peer.Marks.{plain, file, renamed, render, are_pieces, is_piece, lacks, renumber-render}
use v6chat.Peer.Requests.{acknowledgement, own_profile, on_reply_add_user_msg-adds}
use v6chat.Peer.Sender.{add_user_ask_msg}
use v6chat.Peer.Strangers.{listener_call_back-contains}
use v6chat.Peer.Runs.{caused, datagram_came, Step, step, here, next}
use v6chat.Peer.Texts.{renumber}
use v6chat.Peer.Transfer.{Try, Offer, get_file_msg, send_file_msg}
use v6chat.Socket.Connection.{send_small_file, receive_small_file}
use v6chat.Socket.SmallFile.{receive_small_file-send_small_file}
use v6chat.Socket.Stream.{moved, int_bytes}
use v6chat.Socket.Datagram.{nothing}
use v6chat.Tests.Users.{host, backend, with_bob, with_bob-IsSound, chats}
use v6chat.Tests.Sockets.{good, slow, slow-IsSteady}
use v6chat.Text.Decimal.{print}
use v6chat.Text.{Text, codes, text_eq}
use v6chat.User.Change.{update_user_state}
use v6chat.User.Identity.{IsSound}
use v6chat.User.Info.{UserInfo, new_p2p_user_info}
use v6chat.User.UserList.{add_user, find_user, get_user_uid_by_ip}

-- Every text parses, and every object has the members that it is asked for, but a number; the value of a
-- member is its name, or the number given.
abbrev pub toy : ℕ → Json
toy type = record {
  Value = Text;
  parse = λ t. some t;
  member = λ name v. name;
  is_null = λ v. text_eq v (codes "mid");
  as_int = λ v. some (pos type);
  as_string = λ v. some v;
  as_c_string = λ v. some v;
  members = λ v. [];
  write = λ v. v;
  write_object = λ members. codes "{}";
}

abbrev pub world : ℕ → World
world type = record {
  json = toy type;
  backend = backend;
  host = host;
  chat = chats;
  my = record { name = codes "me"; sex = 1; age = 30; introduction = [] };
  ansi_to_unicode = λ t. t;
  unicode_to_ansi = λ t. t;
  address = λ ip. none;
  now = 5;
  unset_id = 0;
  unset_port = pos 0;
  unset_download = false;
  unset_uid = 0;
  overflow = 0;
  int_overflow = pos 0;
  recv_dir = codes "recv";
  local_time = codes "20140101120000";
  tries = λ number path. [];
  offers = λ number. [];
  received = λ path. true;
  asleep = λ round. [];
}

-- A request to 9::9 is open.
abbrev pub kernel : Kernel
kernel = record {
  users = with_bob;
  pool = record { wait_ack_msg_list = []; mid_count = 7 };
  asked = record { ip = codes "9::9"; port = pos 1 } ∷ [];
  unread = [];
  recv_files = Received.new;
  send_files = record { files = []; files_count = 1 };
}

abbrev from : {type : ℕ} → Text → Option Text → Datagram (toy type)
from ip mid = record { ip = ip; port = pos 1; content = []; mid = mid }

abbrev over : Text → Message (toy 8)
over ip = record { ip = ip; port = pos 1; content = [] }

listener_call_back-unnumbered_example :
    listener_call_back (world 6) (some (codes "{}")) (codes "7::7") (pos 1) kernel ≡ none
unfolding text_eq
listener_call_back-unnumbered_example =
    listener_call_back-unnumbered (world 6) (codes "{}") (codes "7::7") (codes "content") (pos 1)
      kernel (codes "{}") (codes "content") 6 (inl refl) refl refl refl refl refl refl refl

renumber-render_example :
    renumber (render (plain (codes "see ") ∷ file 1 ∷ file 12 ∷ [])) (pos 1) (pos 12)
    ≡ render (map (renamed 1 12) (plain (codes "see ") ∷ file 1 ∷ file 12 ∷ []))
unfolding are_pieces is_piece lacks
renumber-render_example = renumber-render 1 12 (plain (codes "see ") ∷ file 1 ∷ file 12 ∷ []) refl

-- What a computed procedure left and did.
abbrev left : Option (Kernel × List Effect) → Kernel
left none = kernel
left (some (k, effects)) = k

abbrev did : Option (Kernel × List Effect) → List Effect
did none = []
did (some (k, effects)) = effects

-- Bob says that he goes.
abbrev gone : Option (Kernel × List Effect)
gone = listener_call_back (world 5) (some (codes "{}")) (codes "1::2") (pos 1) kernel

gone_ends :
    listener_call_back (world 5) (some (codes "{}")) (codes "1::2") (pos 1) kernel
    ≡ some (left gone, did gone)
unfolding listener_call_back find_temp_user text_eq given when needs int_eq either on_offline_msg
    reads get_user_uid_by_ip find_if new_p2p_user_info ◌⨾◌ update_user_state lookup says
gone_ends = refl

listener_call_back-contains_example :
    contains 1 (left gone).users.users ≡ contains 1 kernel.users.users
unfolding find_temp_user text_eq
listener_call_back-contains_example =
    listener_call_back-contains (world 5) (some (codes "{}")) (codes "1::2") (pos 1) kernel
      (left gone) (did gone) 1 refl gone_ends

kernel-IsNumbered : IsNumbered kernel.recv_files
unfolding Received.new lookup
kernel-IsNumbered = record { ordered = tt; below = λ k h. cc; positive = omega arith }

gone_step : Step kernel (left gone)
unfolding caused
gone_step =
    step {k = kernel} {k' = left gone} (world 5)
      (datagram_came (some (codes "{}")) (codes "1::2") (pos 1)) (did gone) gone_ends

Run-IsSound_example : IsSound (left gone).users × IsNumbered (left gone).recv_files
Run-IsSound_example =
    Run-IsSound kernel (left gone) (next gone_step here) with_bob-IsSound kernel-IsNumbered

-- The peer at 9::9 agrees.
abbrev agreeing : Datagram (toy 8)
agreeing = from (codes "9::9") (some (codes "3"))

abbrev agreed : Option (Kernel × List Effect)
agreed = on_reply_add_user_msg (world 8) agreeing kernel

abbrev newcomer : UserInfo
newcomer =
    new_p2p_user_info 0 (codes "nick_name") default_group_name 8 8 (codes "introduction") []
      (codes "9::9") (pos 1) (pos 1)

on_reply_add_user_msg-adds_example :
    (k' : Kernel) × (before : List Effect) × (on_reply_add_user_msg (world 8) agreeing kernel
      ≡ some (
        k',
        before
            ++ acknowledgement (world 8) (codes "9::9") (pos 1) (codes "3")
              ∷ own_profile (world 8) (codes "9::9") (pos 1)
              ∷ [],
      ))
    × (find_user newcomer k'.users ≢ 0)
    × (k'.users ≡ (add_user backend newcomer with_bob).1)
    × ((q : Text)
        → open_requests q k'.asked
          ≡ open_requests q kernel.asked - (if text_eq (codes "9::9") q then 1 else 0))
    × ((m : WaitAckMsg) × (k'.pool.wait_ack_msg_list ≡ kernel.pool.wait_ack_msg_list ++ m ∷ [])
        × (m.peer_ip ≡ codes "9::9")
        × (m.call_back ≡ some after_online_msg))
unfolding find_temp_user text_eq replying_user to_unsigned_short to_unsigned new_p2p_user_info
on_reply_add_user_msg-adds_example =
    on_reply_add_user_msg-adds (world 8) agreeing kernel (codes "3") (codes "my_info")
      (codes "my_info") newcomer with_bob-IsSound refl (ground arith) refl refl refl refl refl refl

on_normal_ack_msg-add_user_ask_msg_example :
    (asked : Kernel) × (k' : Kernel) × (sent effects : List Effect) × (add_user_ask_msg
        (world 50)
        (codes "4::4")
        (pos 9)
        kernel
      ≡ some (asked, sent))
    × (on_normal_ack_msg (world 50) (from (codes "4::4") (some (print 7))) asked
        ≡ some (k', effects))
    × (k'.pool.wait_ack_msg_list ≡ kernel.pool.wait_ack_msg_list)
    × (k'.users ≡ kernel.users)
    × (k'.asked ≡ add_temp_user (record { ip = codes "4::4"; port = pos 9 }) kernel.asked)
unfolding find_msg find_in
on_normal_ack_msg-add_user_ask_msg_example =
    on_normal_ack_msg-add_user_ask_msg (world 50) (from (codes "4::4") (some (print 7)))
      (codes "4::4") 9 kernel (omega arith) (omega arith) refl refl

-- A peer that sends a file of two bytes.
abbrev giving : Try
giving = record {
  way = record { net = good; replies = moved 4 ∷ slow };
  disk = record { opens = true; allocates = λ n. true; writes = λ n. n };
  answers = moved 4 ∷ slow;
  wire = int_bytes 2 ++ codes "ab";
}

abbrev one_file : SendFileList
one_file = record { files = (1, codes "a") ∷ []; files_count = 2 }

abbrev offering : Offer
offering = record {
  way = record { net = good; replies = moved 4 ∷ slow };
  source = record { content = some (codes "ab"); allocates = λ n. true; reads = λ n. n };
  answers = moved 4 ∷ slow;
}

get_file_msg-held_example : (nothing ≡ nothing) × (nothing ≡ nothing)
unfolding get_file_msg send_file_msg are_resolved receive_small_file get_file_path lookup
    send_small_file
get_file_msg-held_example =
    get_file_msg-held (giving ∷ []) (offering ∷ []) (λ t. t) (codes "get") (λ name. codes "put")
      (pos 1) one_file nothing nothing nothing true true refl refl refl refl

receive_small_file-send_small_file_example :
    (wire : Text) × (send_small_file true offering.source (moved 4 ∷ slow) ≡ some (true, wire))
    × (receive_small_file true giving.disk (moved 4 ∷ slow) wire ≡ some (true, some (codes "ab")))
receive_small_file-send_small_file_example =
    receive_small_file-send_small_file offering.source giving.disk (codes "ab") slow slow 4 4 refl
      (omega arith) (omega arith) refl refl refl refl refl slow-IsSteady slow-IsSteady (omega arith)
      (omega arith) (omega arith) (omega arith)
