-- ===== src/User/Calls.antt =====
-- The operations of the list in any order: each keeps it sound.
use v6chat.Ack.Pool.{WaitAckMsgSender}
use v6chat.Base.{
  ℕ, Bool, ◌≡◌, refl, Option, none, some, List, [], ◌∷◌, arith, Option-cases, inl, inr,
}
use v6chat.Numbers.{ℤ}
use v6chat.OrderedMap.{lookup}
use v6chat.Text.{Text}
use v6chat.User.Change.{
  update_user, update_user_state, update_user_port, delete, delete_user, traverse_all_users,
}
use v6chat.User.Entering.{add_user-IsSound, add_users-IsSound}
use v6chat.User.Chat.{ChatStore, Atlas, update_chat_content, get_chat_content, get_user}
use v6chat.User.Identity.{IsSound, identity}
use v6chat.User.Info.{UserState, user_offline, UserInfo, ChatMsg, Kind, p2p, server, recv_text}
use v6chat.User.Presence.{Host, update_profile}
use v6chat.User.UserList.{Backend, UserList, add_user, add_users}
use v6chat.User.Sound.{
  Alike, replace-IsSound, erase-IsSound, with_text-Alike, with_ports-Alike, set_state-Alike,
  visit_all-AllAlike, AllAlike-IsSound,
}

-- The operations of the list that change it, with what each is given.
pub data Call : Type 0 where
  add : UserInfo → Call
  add_many : (last_uid : ℕ) → List UserInfo → Call
  update :
      (uid : ℕ) (nick_name group_name : Option Text) (sex age : ℕ)
      (introduction head_image_path : Option Text) (show : Bool)
      → Call
  state : (now uid : ℕ) → UserState → Call
  port : (uid : ℕ) (tcp_port udp_port : ℤ) → Call
  remove : (now uid : ℕ) → Call
  traverse : (now : ℕ) → Call
  tell : (uid : ℕ) (text : Text) (content_type : ℤ) → Call
  read : (uid : ℕ) → Call
  ask : (now uid : ℕ) → Call

-- The list after `UpdateChatContent`; where that throws, the list is as it was.
unfoldable pub told : UserList → Option UserList → UserList
told l none = l
told l (some l') = l'

-- The list and the pool after a call.
unfoldable pub after :
    Backend
    → Host
    → ChatStore
    → Atlas
    → Call
    → UserList × WaitAckMsgSender
    → UserList × WaitAckMsgSender
unfolding told
after b host c atlas (add u) (l, pool) = ((add_user b u l).1, pool)
after b host c atlas (add_many last_uid us) (l, pool) = ((add_users b last_uid us l).0, pool)
after b host c atlas (update uid n g s a i h show) (l, pool) =
    ((update_user b uid n g s a i h show l).1, pool)
after b host c atlas (state now uid s) (l, pool) =
    let (done, l', pool', events, posts) = update_user_state b host now uid s l pool in (l', pool')
after b host c atlas (port uid t p) (l, pool) = ((update_user_port uid t p l).1, pool)
after b host c atlas (remove now uid) (l, pool) =
    let (l', pool', events, asked) = delete_user b host now uid l pool in (l', pool')
after b host c atlas (traverse now) (l, pool) =
    let (l', pool', events, posts) = traverse_all_users b host now l pool in (l', pool')
after b host c atlas (tell uid text content_type) (l, pool) =
    (told l (update_chat_content b c uid text content_type l), pool)
after b host c atlas (read uid) (l, pool) = ((get_chat_content uid l).1, pool)
after b host c atlas (ask now uid) (l, pool) = ((get_user atlas now uid l).1, pool)

unfoldable pub run :
    Backend
    → Host
    → ChatStore
    → Atlas
    → List Call
    → UserList × WaitAckMsgSender
    → UserList × WaitAckMsgSender
unfolding after
run b host c atlas [] s = s
run b host c atlas (call ∷ calls) s = run b host c atlas calls (after b host c atlas call s)

delete-Alike :
    (b : Backend) (host : Host) (now : ℕ) (u : UserInfo) (pool : WaitAckMsgSender)
    → Alike u (delete b host now u pool).1
unfolding delete
delete-Alike b host now u pool = ground (arith, set_state-Alike host now user_offline u pool)

pub update_user-IsSound :
    (b : Backend) (uid : ℕ) (n g : Option Text) (x a : ℕ) (i h : Option Text) (show : Bool)
    (l : UserList)
    → IsSound l
    → IsSound (update_user b uid n g x a i h show l).1
unfolding update_user
update_user-IsSound b uid n g x a i h show l s = elim (Option-cases (lookup uid l.users)) [
  | inl nobody ↦ rw (update_user, nobody) s
  | inr (u, at) ↦
      rw (update_user, at) (replace-IsSound uid u _ l s at (with_text-Alike n g x a i h u))
]

pub update_user_state-IsSound :
    (b : Backend) (host : Host) (now uid : ℕ) (x : UserState) (l : UserList)
    (pool : WaitAckMsgSender)
    → IsSound l
    → IsSound (update_user_state b host now uid x l pool).1
unfolding update_user_state
update_user_state-IsSound b host now uid x l pool s = elim (Option-cases (lookup uid l.users)) [
  | inl nobody ↦ rw (update_user_state, nobody) s
  | inr (u, at) ↦
      rw (update_user_state, at)
        (replace-IsSound uid u _ l s at (set_state-Alike host now x u pool))
]

pub update_user_port-IsSound :
    (uid : ℕ) (t p : ℤ) (l : UserList) → IsSound l → IsSound (update_user_port uid t p l).1
unfolding update_user_port
update_user_port-IsSound uid t p l s = elim (Option-cases (lookup uid l.users)) [
  | inl nobody ↦ rw (update_user_port, nobody) s
  | inr (u, at) ↦
      rw (update_user_port, at) (replace-IsSound uid u _ l s at (with_ports-Alike t p u))
]

pub delete_user-IsSound :
    (b : Backend) (host : Host) (now uid : ℕ) (l : UserList) (pool : WaitAckMsgSender)
    → IsSound l
    → IsSound (delete_user b host now uid l pool).0
unfolding delete_user
delete_user-IsSound b host now uid l pool s = elim (Option-cases (lookup uid l.users)) [
  | inl nobody ↦ rw (delete_user, nobody) s
  | inr (u, at) ↦
      let kept = replace-IsSound uid u _ l s at (delete-Alike b host now u pool) in
      rw (delete_user, at) (ground (arith, kept, erase-IsSound uid l s))
]

pub update_chat_content-IsSound :
    (b : Backend) (c : ChatStore) (uid : ℕ) (text : Text) (content_type : ℤ) (l : UserList)
    → IsSound l
    → IsSound (told l (update_chat_content b c uid text content_type l))
unfolding told update_chat_content recv_text identity
update_chat_content-IsSound b c uid text content_type l s =
    elim (Option-cases (lookup uid l.users)) [
      | inl nobody ↦ rw (update_chat_content, nobody) s
      | inr (u, at) ↦ rw (update_chat_content, at) (replace-IsSound uid u _ l s at (refl, refl))
    ]

read-IsSound :
    (uid : ℕ) (l : UserList) (u : UserInfo) (queue : List ChatMsg)
    → IsSound l
    → lookup uid l.users ≡ some u
    → u.unread_chat_content ≡ queue
    → IsSound (get_chat_content uid l).1
unfolding get_chat_content identity
read-IsSound uid l u [] s at e = ground (arith, e, at)
read-IsSound uid l u (m ∷ ms) s at e =
    let v = record u { unread_chat_content = ms } in
    ground (arith, e, at, replace-IsSound uid u v l s at (refl, refl))

pub get_chat_content-IsSound :
    (uid : ℕ) (l : UserList) → IsSound l → IsSound (get_chat_content uid l).1
unfolding get_chat_content identity
get_chat_content-IsSound uid l s = elim (Option-cases (lookup uid l.users)) [
  | inl nobody ↦ ground (arith, nobody)
  | inr (u, at) ↦ read-IsSound uid l u u.unread_chat_content s at refl
]

update_profile-Alike :
    (now : ℕ) (u : UserInfo) (k : Kind) → u.kind ≡ k → Alike u (update_profile now u).0
unfolding update_profile identity
update_profile-Alike now u (p2p ack) e = rw e (ground arith)
update_profile-Alike now u (server x r t) e = rw e (ground arith)

get_user-IsSound :
    (atlas : Atlas) (now uid : ℕ) (l : UserList) → IsSound l → IsSound (get_user atlas now uid l).1
unfolding get_user
get_user-IsSound atlas now uid l s = elim (Option-cases (lookup uid l.users)) [
  | inl nobody ↦ rw (get_user, nobody) s
  | inr (u, at) ↦
      rw (get_user, at) (replace-IsSound uid u _ l s at (update_profile-Alike now u u.kind refl))
]

pub traverse_all_users-IsSound :
    (b : Backend) (host : Host) (now : ℕ) (l : UserList) (pool : WaitAckMsgSender)
    → IsSound l
    → IsSound (traverse_all_users b host now l pool).0
unfolding traverse_all_users
traverse_all_users-IsSound b host now l pool s =
    ground (arith, AllAlike-IsSound _ l (visit_all-AllAlike b host now l.users pool) s)

after-IsSound :
    (b : Backend) (host : Host) (c : ChatStore) (atlas : Atlas) (call : Call) (l : UserList)
    (pool : WaitAckMsgSender)
    → IsSound l
    → IsSound (after b host c atlas call (l, pool)).0
unfolding after told traverse_all_users get_chat_content get_user
after-IsSound b host c atlas (add u) l pool s = add_user-IsSound b u l s
after-IsSound b host c atlas (add_many last_uid us) l pool s = add_users-IsSound b last_uid us l s
after-IsSound b host c atlas (update uid n g x a i h show) l pool s =
    update_user-IsSound b uid n g x a i h show l s
after-IsSound b host c atlas (state now uid x) l pool s =
    update_user_state-IsSound b host now uid x l pool s
after-IsSound b host c atlas (port uid t p) l pool s = update_user_port-IsSound uid t p l s
after-IsSound b host c atlas (remove now uid) l pool s = delete_user-IsSound b host now uid l pool s
after-IsSound b host c atlas (traverse now) l pool s =
    traverse_all_users-IsSound b host now l pool s
after-IsSound b host c atlas (tell uid text content_type) l pool s =
    update_chat_content-IsSound b c uid text content_type l s
after-IsSound b host c atlas (read uid) l pool s = get_chat_content-IsSound uid l s
after-IsSound b host c atlas (ask now uid) l pool s = get_user-IsSound atlas now uid l s

-- After any calls of the operations on a sound list, in any order, and whatever the database, the servers and the windows answer: the keys
-- increase, every user holds its key, and no two users have one identity.
pub run-IsSound :
    (b : Backend) (host : Host) (c : ChatStore) (atlas : Atlas) (calls : List Call) (l : UserList)
    (pool : WaitAckMsgSender)
    → IsSound l
    → IsSound (run b host c atlas calls (l, pool)).0
unfolding run
run-IsSound b host c atlas [] l pool s = s
run-IsSound b host c atlas (call ∷ calls) l pool s =
    let (l', pool') = after b host c atlas call (l, pool) in
    run-IsSound b host c atlas calls l' pool' (after-IsSound b host c atlas call l pool s)
