-- ===== src/Bridge/Friends.antt =====
-- The request of a peer, and what the user's answer to it does.
use v6chat.Ack.Pool.{new_msg, add_msg, after_online_msg}
use v6chat.Base.{
  ℕ, ◌≡◌, ◌≢◌, refl, sym, ap, ◌∙◌, Bool, true, false, none, some, List, [], ◌∷◌, ◌++◌, map,
  append_assoc, arith, ltb, if◌then◌else◌,
}
use v6chat.Inbox.Unread.{
  get_unread_msg, UnreadMsgList, add_unread_msg, unread_from_peer, display_msg,
}
use v6chat.Numbers.{ℤ, next_u32}
use v6chat.Peer.Answering.{answers_friend, asking_user}
use v6chat.Peer.Callbacks.{adds_unread}
use v6chat.Peer.Kernel.{
  posted, pooled, World, Kernel, Effect, ◌⨾◌, when, reads, needs, given, says, skip, continue,
  after, add_p2puser_ask, reply_add_user, user_online_type, default_group_name,
}
use v6chat.Peer.Listener.{Datagram, adds_user, on_add_user_ask_msg}
use v6chat.Peer.Requests.{acknowledgement}
use v6chat.Peer.Sender.{
  letter, my_info, reply_add_user_msg, test_online_msg, pool_msg, normal_msg_ack, acknowledges,
}
use v6chat.Text.Decimal.{print_int}
use v6chat.Text.{Text, codes}
use v6chat.User.Entering.{add_user_twice}
use v6chat.User.Identity.{IsSound}
use v6chat.User.Info.{UserInfo, new_p2p_user_info}
use v6chat.User.UserList.{UserList, add_user, find_user, new_profile}

-- The peer that asks, as it enters the list.
abbrev pub friend : (name ip : Text) → ℤ → UserInfo
friend name ip port = new_p2p_user_info 0 name default_group_name 0 0 [] [] ip port port

answer_given :
    (w : World) (k : Kernel) (agree : Bool) (id : ℕ) (name ip text : Text) (port : ℤ)
    → get_unread_msg k.unread ≡ some (add_p2puser_ask, id, name, ip, port, text)
    → (k' : Kernel) × (effects : List Effect) × (answers_friend w agree k ≡ some (k', effects))
      × (k'.users
          ≡ (if agree then (add_user w.backend (friend name ip port) k.users).1 else k.users))
      × (k'.pool.wait_ack_msg_list
          ≡ k.pool.wait_ack_msg_list
            ++ new_msg w.host.platform w.now ip port
                (letter w reply_add_user (if agree then (codes "my_info", my_info w) ∷ [] else []))
                none
                false
                k.pool.mid_count
              ∷ (if agree
                  then new_msg w.host.platform w.now ip port
                      (letter w user_online_type [])
                      (some after_online_msg)
                      false
                      (next_u32 k.pool.mid_count)
                    ∷ []
                  else []))
      × (k'.asked ≡ k.asked)
      × (k'.unread ≡ k.unread)
unfolding answers_friend reads needs when ◌⨾◌ continue after skip reply_add_user_msg pool_msg
    adds_user test_online_msg asking_user add_msg
answer_given w k true id name ip text port e =
    let (uid, users, posts) = add_user w.backend (friend name ip port) k.users in
    let letters = letter w reply_add_user ((codes "my_info", my_info w) ∷ []) in
    let (n1, pool1, sent1) = add_msg w.host.platform w.now ip port letters none false k.pool in
    let (n2, pool2, sent2) =
      add_msg w.host.platform w.now ip port (letter w user_online_type []) (some after_online_msg)
        false pool1 in
    (
      record k { users = users; pool = pool2 },
      map pooled sent1 ++ map posted posts ++ map pooled sent2,
      rw (answers_friend, e) refl,
      refl,
      append_assoc k.pool.wait_ack_msg_list
          (new_msg w.host.platform w.now ip port letters none false k.pool.mid_count ∷ [])
          (new_msg w.host.platform w.now ip port (letter w user_online_type [])
              (some after_online_msg) false (next_u32 k.pool.mid_count)
            ∷ []),
      refl,
      refl,
    )
answer_given w k false id name ip text port e =
    let (n, pool, sent) =
      add_msg w.host.platform w.now ip port (letter w reply_add_user []) none false k.pool in
    (record k { pool = pool }, map pooled sent, rw (answers_friend, e) refl, refl, refl, refl, refl)

-- A number that is not 0, as a test.
not_zero : (n : ℕ) → n ≢ 0 → ltb 0 n ≡ true
not_zero n h = ground arith

-- `FindUser` finds the peer behind the answer, if the user agrees, or where it found the peer before.
found_after :
    (w : World) (users : UserList) (u : UserInfo) (agree : Bool)
    → IsSound users
    → users.has_init ≡ true
    → w.backend.insert_peer_profile (new_profile w.backend u) ≢ 0
    → ltb 0 (find_user u (if agree then (add_user w.backend u users).1 else users))
      ≡ (if agree then true else ltb 0 (find_user u users))
found_after w users u true sound ready taken =
    let (differs, there, again) = add_user_twice w.backend u users sound ready taken in
    not_zero (find_user u (add_user w.backend u users).1) (λ e. differs (sym there ∙ e))
found_after w users u false sound ready taken = refl

-- What the handler of the request leaves: the acknowledgement goes out first, and the request is on top of the
-- unread messages.
request_shown :
    (w : World) (d : Datagram w.json) (k : Kernel) (mid info nick_name address : Text)
    (peer_info : w.json.Value)
    → d.mid ≡ some mid
    → w.json.as_c_string (w.json.member (codes "my_info") d.content) ≡ some info
    → w.json.parse info ≡ some peer_info
    → w.json.as_string (w.json.member (codes "nick_name") peer_info) ≡ some nick_name
    → w.address d.ip ≡ some address
    → let name = w.ansi_to_unicode nick_name in
      (unread : UnreadMsgList) × (shown : List Effect) × (on_add_user_ask_msg w d k
        ≡ some (record k { unread = unread }, acknowledgement w d.ip d.port mid ∷ shown))
      × (get_unread_msg unread
          ≡ some (
            add_p2puser_ask,
            w.unset_id,
            name,
            d.ip,
            d.port,
            name ++ b'(' ∷ address ++ b')' ∷ [],
          ))
unfolding normal_msg_ack acknowledges adds_unread add_unread_msg unread_from_peer get_unread_msg
    needs given says ◌⨾◌ continue after on_add_user_ask_msg print_int
request_shown w d k mid info nick_name address peer_info m c p n a =
    let name = w.ansi_to_unicode nick_name in
    let msg =
      unread_from_peer w.unset_id add_p2puser_ask name d.ip d.port
        (name ++ b'(' ∷ address ++ b')' ∷ []) in
    (
      add_unread_msg msg k.unread,
      map posted (display_msg w.backend.is_open (add_unread_msg msg k.unread)).1,
      rw (on_add_user_ask_msg, m, c, p, n, a) refl,
      refl,
    )

-- Let the list of users be sound and ready, and the database give a new user a number. Let a peer ask to be a
-- friend, with a description that can be read and an address that converts. Then its message is acknowledged
-- before anything else is done, and the user may answer it. The answer returns, whichever it is. If the user
-- agrees, the peer is in the list, found by `FindUser`, as `AddUser` leaves it: under its name and address, in
-- the default group, with the port of the request for both of its ports; the pool gets the reply with the own
-- description and then the question whether the peer is online, under the next two numbers. If not, the users
-- stay, and the pool gets the reply alone. The requests to others stay.
pub on_add_user_ask_msg-answers_friend :
    (w : World) (d : Datagram w.json) (k : Kernel) (agree : Bool)
    (mid info nick_name address : Text) (peer_info : w.json.Value)
    → IsSound k.users
    → k.users.has_init ≡ true
    → w.backend.insert_peer_profile
        (new_profile w.backend (friend (w.ansi_to_unicode nick_name) d.ip d.port))
      ≢ 0
    → d.mid ≡ some mid
    → w.json.as_c_string (w.json.member (codes "my_info") d.content) ≡ some info
    → w.json.parse info ≡ some peer_info
    → w.json.as_string (w.json.member (codes "nick_name") peer_info) ≡ some nick_name
    → w.address d.ip ≡ some address
    → let u = friend (w.ansi_to_unicode nick_name) d.ip d.port in
      (asking k' : Kernel) × (shown effects : List Effect) × (on_add_user_ask_msg w d k
        ≡ some (asking, acknowledgement w d.ip d.port mid ∷ shown))
      × (answers_friend w agree asking ≡ some (k', effects))
      × (ltb 0 (find_user u k'.users) ≡ (if agree then true else ltb 0 (find_user u k.users)))
      × (k'.users ≡ (if agree then (add_user w.backend u k.users).1 else k.users))
      × (k'.pool.wait_ack_msg_list
          ≡ k.pool.wait_ack_msg_list
            ++ new_msg w.host.platform w.now d.ip d.port
                (letter w reply_add_user (if agree then (codes "my_info", my_info w) ∷ [] else []))
                none
                false
                k.pool.mid_count
              ∷ (if agree
                  then new_msg w.host.platform w.now d.ip d.port
                      (letter w user_online_type [])
                      (some after_online_msg)
                      false
                      (next_u32 k.pool.mid_count)
                    ∷ []
                  else []))
      × (k'.asked ≡ k.asked)
on_add_user_ask_msg-answers_friend w d k agree mid info nick_name address peer_info sound ready
      taken m c p n a =
    let (unread, shown, asks, top) =
      request_shown w d k mid info nick_name address peer_info m c p n a in
    let name = w.ansi_to_unicode nick_name in
    let asking : Kernel = record k { unread = unread } in
    let (k', effects, done, users, pool, asked, same) =
      answer_given w asking agree w.unset_id name d.ip (name ++ b'(' ∷ address ++ b')' ∷ []) d.port
        top in
    let u = friend name d.ip d.port in
    let found =
      ap (λ (l : UserList). ltb 0 (find_user u l)) users
      ∙ found_after w k.users u agree sound ready taken in
    (asking, k', shown, effects, asks, done, found, users, pool, asked)
