-- ===== src/Tests/Bridges.antt =====
-- The bridge to Lua: two texts of bob that wait, and a peer that asks.
use v6chat.Base.{
  ◌+◌, ◌≡◌, refl, true, false, none, some, List, [], ◌∷◌, ◌++◌, ltb, map, arith, if◌then◌else◌,
}
use v6chat.Bridge.Chats.{get_chat_contents, chat_row}
use v6chat.Bridge.Friends.{friend, on_add_user_ask_msg-answers_friend}
use v6chat.Bridge.Listing.{at_number, row_at, get_chat_contents-all}
use v6chat.Bridge.Readers.{Shell}
use v6chat.Bridge.Stack.{table, Fields, Arguments, Answer, results}
use v6chat.Numbers.{pos, to_unsigned, next_u32}
use v6chat.OrderedMap.{lookup}
use v6chat.Peer.Answering.{answers_friend}
use v6chat.Ack.Pool.{new_msg, after_online_msg}
use v6chat.Peer.Kernel.{World, Kernel, Effect, reply_add_user, user_online_type}
use v6chat.Peer.Listener.{Datagram, on_add_user_ask_msg}
use v6chat.Peer.Requests.{acknowledgement}
use v6chat.Peer.Sender.{letter, my_info}
use v6chat.Tests.Peers.{toy, world, kernel}
use v6chat.Tests.Users.{bob_online, with_bob-IsSound}
use v6chat.Text.{codes}
use v6chat.User.Info.{UserInfo, new_p2p_user_info}
use v6chat.User.UserList.{UserList, add_user, find_user}

abbrev shell : Shell
shell = record {
  to_utf8 = λ t. t;
  to_unicode = λ t. t;
  location_text = λ place. [];
  image = λ path. none;
  atlas = record { address = λ ip. none; server_name = λ n. none };
}

abbrev first_argument : Arguments
first_argument = record { to_string = λ n. none; to_integer = λ n. pos 1; to_boolean = λ n. false }

abbrev writing_bob : UserInfo
writing_bob = record bob_online {
  unread_chat_content =
      record { msg = codes "hi"; time = codes "noon"; msg_type = pos 1 }
      ∷ record { msg = codes "bye"; time = codes "night"; msg_type = pos 1 }
      ∷ [];
}

abbrev with_texts : UserList
with_texts = record { has_init = true; users = (1, writing_bob) ∷ [] }

get_chat_contents-all_example :
    (answer : Answer) × (l' : UserList) × (fs : Fields) × (get_chat_contents true shell 3
        first_argument with_texts
      ≡ some (answer, l'))
    × (results answer ≡ some (table fs ∷ []))
    × (at_number (1 + 1) fs ≡ row_at 1 (map (chat_row shell) writing_bob.unread_chat_content))
    × (lookup (to_unsigned (pos 1)) l'.users
        ≡ some (record writing_bob { unread_chat_content = [] }))
unfolding lookup to_unsigned
get_chat_contents-all_example =
    get_chat_contents-all shell 3 1 first_argument with_texts writing_bob refl refl (omega arith)

-- The peer at 9::9 asks.
abbrev asking_peer : Datagram (toy 6)
asking_peer = record { ip = codes "9::9"; port = pos 5; content = []; mid = some (codes "3") }

-- Every address converts.
abbrev naming : World
naming = record (world 6) { address = λ ip. some ip }

abbrev eve : UserInfo
eve = friend (codes "nick_name") (codes "9::9") (pos 5)

on_add_user_ask_msg-answers_friend_example :
    (asking k' : Kernel) × (shown effects : List Effect) × (on_add_user_ask_msg naming asking_peer
        kernel
      ≡ some (asking, acknowledgement naming (codes "9::9") (pos 5) (codes "3") ∷ shown))
    × (answers_friend naming true asking ≡ some (k', effects))
    × (ltb 0 (find_user eve k'.users) ≡ (if true then true else ltb 0 (find_user eve kernel.users)))
    × (k'.users ≡ (if true then (add_user naming.backend eve kernel.users).1 else kernel.users))
    × (k'.pool.wait_ack_msg_list
        ≡ kernel.pool.wait_ack_msg_list
          ++ new_msg naming.host.platform naming.now
              (codes "9::9")
              (pos 5)
              (letter naming reply_add_user
                (if true then (codes "my_info", my_info naming) ∷ [] else []))
              none
              false
              kernel.pool.mid_count
            ∷ (if true
                then new_msg naming.host.platform naming.now
                    (codes "9::9")
                    (pos 5)
                    (letter naming user_online_type [])
                    (some after_online_msg)
                    false
                    (next_u32 kernel.pool.mid_count)
                  ∷ []
                else []))
    × (k'.asked ≡ kernel.asked)
unfolding new_p2p_user_info
on_add_user_ask_msg-answers_friend_example =
    on_add_user_ask_msg-answers_friend naming asking_peer kernel true (codes "3") (codes "my_info")
      (codes "nick_name") (codes "9::9") (codes "my_info") with_bob-IsSound refl (ground arith) refl
      refl refl refl refl
