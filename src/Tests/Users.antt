-- ===== src/Tests/Users.antt =====
-- Users: two peers and a user of a server.
use v6chat.Ack.Pool.{Platform, WaitAckMsgSender}
use v6chat.Ack.Pool
use v6chat.Base.{
  ℕ, ◌≤◌, ◌≡◌, ◌↔◌, refl, true, false, none, some, List, [], ◌∷◌, ◌++◌, arith, ◌==◌, if◌then◌else◌,
  length,
}
use v6chat.Numbers.{ℤ, pos, sub_u32}
use v6chat.OrderedMap.{lookup, put}
use v6chat.Text.{Text, codes}
use v6chat.User.Calls.{
  Call, add, add_many, update, state, port, remove, traverse, tell, read, ask, run, run-IsSound,
}
use v6chat.User.Chat.{ChatStore, Atlas, record_text, time_of, update_chat_content}
use v6chat.User.Change.{traverse_all_users, visit_all, visit}
use v6chat.User.Entering.{find_user-identity}
use v6chat.User.Identity.{identity, IsSound}
use v6chat.User.Info.{
  user_online, UserInfo, p2p, new_p2p_user_info, new_server_user_info, recv_text,
}
use v6chat.User.Keeping.{IsKept, kept, set_state-IsKept, cycle, cycle-left}
use v6chat.User.Presence.{Host, live_time, keep_online_msg, set_state, check_online}
use v6chat.User.Profile.{traverse_all_users-IsFresh}
use v6chat.User.Queue.{receive, log, read_chat, read_chat-receive}
use v6chat.User.UserList.{Backend, UserList, find_user}

abbrev pub platform : Platform
platform = record { write_box = λ mid content. mid ++ content; is_ipv6 = λ ip. false }

abbrev pub host : Host
host = record { platform = platform; keep_online = codes "keep" }

abbrev pub backend : Backend
backend = record {
  to_utf8 = λ t. t;
  to_unicode = λ t. t;
  insert_peer_profile = λ p. 7;
  delete_peer_profile = λ t. true;
  has_server = λ n. true;
  is_open = λ w. true;
}

abbrev pub bob : UserInfo
bob =
    new_p2p_user_info 0 (codes "bob") (codes "friends") 1 30 [] [] (codes "1::2") (pos 5000)
      (pos 6000)

abbrev ann : UserInfo
ann = new_server_user_info 0 (codes "ann") (codes "work") 2 31 [] [] 3 (codes "ann@x")

-- Bob online since a second after the start of the clock, with message 4.
abbrev pub bob_online : UserInfo
bob_online = record bob { uid = 1; state = user_online; last_active_time = 1000; kind = p2p 4 }

abbrev ready : UserList
ready = record { has_init = true; users = [] }

abbrev pub with_bob : UserList
with_bob = record { has_init = true; users = (1, bob_online) ∷ [] }

abbrev pub pool : WaitAckMsgSender
pool = record { wait_ack_msg_list = []; mid_count = 4 }

abbrev pub with_ann : UserList
with_ann = record { has_init = true; users = (2, record ann { uid = 2 }) ∷ [] }

ready-IsSound : IsSound ready
unfolding lookup
ready-IsSound = record {
  keys = tt;
  own = λ k u at. absurd (cc);
  unique = λ j k u v at at' same. absurd (cc);
}

pub with_bob-IsSound : IsSound with_bob
unfolding lookup
with_bob-IsSound = record {
  keys = (omega arith, tt);
  own = λ k u at. ground arith;
  unique = λ j k u v at at' same. ground arith;
}

abbrev pub chats : ChatStore
chats = record { insert_chat_item = λ peer name text. some (codes "noon"); my_name = codes "me" }

abbrev atlas : Atlas
atlas = record { address = λ ip. none; server_name = λ n. some (codes "work") }

abbrev calls : List Call
calls =
    add bob
    ∷ add_many 1 (ann ∷ bob ∷ [])
    ∷ state 10 7 user_online
    ∷ port 7 (pos 1) (pos 2)
    ∷ update 7 (some (codes "rob")) none 2 0 none none true
    ∷ tell 7 (codes "hi") (pos 1)
    ∷ read 7
    ∷ ask 40000 2
    ∷ traverse 60000
    ∷ remove 70000 7
    ∷ []

run-IsSound_example : IsSound (run backend host chats atlas calls (ready, pool)).0
run-IsSound_example = run-IsSound backend host chats atlas calls ready pool ready-IsSound

find_user-identity_example : (find_user bob with_bob ≡ 1) ↔ (identity bob ≡ identity bob_online)
unfolding lookup
find_user-identity_example = find_user-identity bob bob_online with_bob 1 with_bob-IsSound refl

set_state-IsKept_example :
    let (v, pool', events) = set_state host 5000 user_online bob pool in IsKept v pool'
unfolding kept new_p2p_user_info
set_state-IsKept_example = set_state-IsKept host 5000 user_online bob pool (omega arith) refl

cycle-left_example :
    let added = (keep_online_msg host 5000 bob Pool.new).1 in
    (cycle host 5000 9000 bob Pool.new).1
    ≡ (if Pool.new.mid_count == 0 then added.wait_ack_msg_list else Pool.new.wait_ack_msg_list)
unfolding Pool.new new_p2p_user_info
cycle-left_example = cycle-left host 5000 9000 bob Pool.new (omega arith) refl

traverse_all_users-IsFresh_example : sub_u32 20000 bob_online.last_active_time ≤ live_time
unfolding lookup traverse_all_users visit_all visit check_online
traverse_all_users-IsFresh_example =
    traverse_all_users-IsFresh backend host 20000 with_bob pool 1 4 bob_online refl refl refl refl

abbrev arrivals : List (ℕ × Text × ℤ)
arrivals = (1, codes "one", pos 1) ∷ (1, codes "two", pos 1) ∷ []

abbrev bob_told : UserInfo
bob_told = record bob_online {
  unread_chat_content =
      record { msg = codes "one"; time = codes "noon"; msg_type = pos 1 }
      ∷ record { msg = codes "two"; time = codes "noon"; msg_type = pos 1 }
      ∷ [];
}

read_chat-receive_example :
    let queue = bob_online.unread_chat_content ++ log backend chats 1 bob_online arrivals in
    read_chat (length queue) 1 (record { has_init = true; users = (1, bob_told) ∷ [] }) ≡ queue
unfolding receive update_chat_content lookup put record_text time_of recv_text new_p2p_user_info
read_chat-receive_example =
    read_chat-receive backend chats arrivals 1 with_bob
      (record { has_init = true; users = (1, bob_told) ∷ [] }) bob_online refl refl refl
