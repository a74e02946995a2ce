-- ===== src/Peer/Requests.antt =====
-- The life of a request to become friends: it is open once its delivery is acknowledged, a reply uses it
-- up, and a reply that agrees brings the peer into the list.
use mathlib.Core.Path.{subst}
use v6chat.Ack.Pool.{CallBack, WaitAckMsg, add_msg, new_msg, after_online_msg}
use v6chat.Base.{
  ◌-◌, ◌≡◌, ◌≢◌, refl, sym, ◌∙◌, true, false, Option, some, List, [], ◌∷◌, arith, Bool-cases, inl,
  inr, if◌then◌else◌, map, ◌++◌,
}
use v6chat.Inbox.Asked.{
  TempUser, TempUserList, find_temp_user, open_requests, delete_temp_user, find_temp_user-open,
}
use v6chat.Numbers.{ℤ, pos}
use v6chat.Peer.Keeping.{Holds, Keeps, keeps_rules, seq-leads}
use v6chat.Peer.Kernel
use v6chat.Peer.Kernel.{
  string, posted, pooled, datagram, tcp_profile, user_online_type, normal_ack, user_info_update,
  World, Kernel, Effect, Proc, skip, fails, says, when, reads, needs, given, continue, ◌⨾◌,
}
use v6chat.Peer.Listener.{
  Datagram, adds_user, ends_request, accepts, replying_user, on_reply_add_user_msg,
}
use v6chat.Peer.Sender.{
  pool_msg, normal_msg_ack, acknowledges, letter, my_info, update_profile_msg, test_online_msg,
}
use v6chat.Text.Decimal.{print_int}
use v6chat.Text.{Text, codes, text_eq, text_eq_iff}
use v6chat.User.Info.{UserInfo}
use v6chat.User.Entering.{add_user_twice}
use v6chat.User.Identity.{IsSound}
use v6chat.User.UserList.{add_user, find_user, new_profile}

-- The requests are those of `a`.
SameAsked : TempUserList → Kernel → Type 0
SameAsked a k = k.asked ≡ a

adds_user-SameAsked :
    (w : World) (a : TempUserList) (u : UserInfo) → Keeps (SameAsked a) (adds_user w u)
unfolding adds_user SameAsked
adds_user-SameAsked w a u = record { at = λ k g. g }

pool_msg-SameAsked :
    (w : World) (a : TempUserList) (ip : Text) (port : ℤ) (text : Text) (cb : Option CallBack)
    → Keeps (SameAsked a) (pool_msg w ip port text cb)
unfolding pool_msg SameAsked
pool_msg-SameAsked w a ip port text cb = record { at = λ k g. g }

ruleset asked_rules = (keeps_rules, adds_user-SameAsked, pool_msg-SameAsked)

accepts-SameAsked :
    (w : World) (a : TempUserList) (d : Datagram w.json) → Keeps (SameAsked a) (accepts w d)
unfolding accepts test_online_msg
accepts-SameAsked w a d = search asked_rules depth 12

ack-SameAsked :
    (w : World) (a : TempUserList) (d : Datagram w.json)
    → Keeps (SameAsked a) (normal_msg_ack w d.ip d.port d.mid)
unfolding normal_msg_ack acknowledges
ack-SameAsked w a d = search asked_rules

profile-SameAsked :
    (w : World) (a : TempUserList) (d : Datagram w.json)
    → Keeps (SameAsked a) (update_profile_msg w d.ip d.port)
unfolding update_profile_msg
profile-SameAsked w a d = search asked_rules

Ended : TempUserList → Text → Kernel → Type 0
Ended a ip k = k.asked ≡ delete_temp_user ip a

found-Ended :
    (w : World) (d : Datagram w.json) (k : Kernel)
    → find_temp_user d.ip k.asked ≡ true
    → Holds (Ended k.asked d.ip) (on_reply_add_user_msg w d k)
unfolding on_reply_add_user_msg reads when SameAsked Ended ends_request
found-Ended w d k open_request =
    let a = k.asked in
    rw (on_reply_add_user_msg, open_request)
      (seq-leads (SameAsked a) (Ended a d.ip) _ _ k ((accepts-SameAsked w a d).at k refl) (λ k1 h1.
        seq-leads (SameAsked a) (Ended a d.ip) _ _ k1 ((ack-SameAsked w a d).at k1 h1) (λ k2 h2.
          seq-leads (SameAsked a) (Ended a d.ip) _ _ k2 ((profile-SameAsked w a d).at k2 h2)
            (λ k3 h3. rw h3 refl))))

missed-SameAsked :
    (w : World) (d : Datagram w.json) (k : Kernel)
    → find_temp_user d.ip k.asked ≡ false
    → Holds (SameAsked k.asked) (on_reply_add_user_msg w d k)
unfolding on_reply_add_user_msg reads when skip SameAsked
missed-SameAsked w d k missed = rw (on_reply_add_user_msg, missed) refl

none_open :
    (ip q : Text) (a : TempUserList)
    → find_temp_user ip a ≡ false
    → open_requests q a ≡ open_requests q a - (if text_eq ip q then 1 else 0)
none_open ip q a missed = elim (Bool-cases (text_eq ip q)) [
  | inl same ↦
      let e : ip ≡ q = (text_eq_iff ip q).0 same in
      let none_there : find_temp_user q a ≡ false = rw (← e) missed in
      rw same (
        ground
          (arith, none_there, (find_temp_user-open q q (record { ip = []; port = pos 0 }) a).0))
  | inr other ↦ rw other (omega arith)
]

-- A reply that is handled uses up one request to its sender, if one is open, and no other: of every
-- address, as many requests are open as before, less one for the sender. A second reply finds none.
pub on_reply_add_user_msg-open :
    (w : World) (d : Datagram w.json) (k k' : Kernel) (effects : List Effect) (q : Text)
    → on_reply_add_user_msg w d k ≡ some (k', effects)
    → open_requests q k'.asked ≡ open_requests q k.asked - (if text_eq d.ip q then 1 else 0)
unfolding Ended SameAsked
on_reply_add_user_msg-open w d k k' effects q e = elim (Bool-cases (find_temp_user d.ip k.asked)) [
  | inl found ↦
      let ended : k'.asked ≡ delete_temp_user d.ip k.asked =
        subst (Holds (Ended k.asked d.ip)) e (found-Ended w d k found) in
      rw ended (find_temp_user-open q d.ip user k.asked).2
  | inr missed ↦
      let same : k'.asked ≡ k.asked =
        subst (Holds (SameAsked k.asked)) e (missed-SameAsked w d k missed) in
      rw same (none_open d.ip q k.asked missed)
]
  where
    user : TempUser
    user = record { ip = []; port = pos 0 }

-- The datagram that acknowledges message `mid`, as the kernel sends it to an address.
abbrev pub acknowledgement : World → Text → ℤ → Text → Effect
acknowledgement w ip port mid = datagram ip (print_int port) (
    w.json.write_object
      ((codes "content", string (letter w normal_ack [])) ∷ (codes "mid", string mid) ∷ []))

-- The own profile, as it goes to an address.
abbrev pub own_profile : World → Text → ℤ → Effect
own_profile w ip port =
    tcp_profile ip (print_int port) (letter w user_info_update ((codes "my_info", my_info w) ∷ []))

-- Let the list of users be sound and ready, and the database give a new user a number. If a request to a peer is
-- open, and its reply agrees with a description that can be read, then the handler returns. The peer is then in
-- the list, found by `FindUser`, in the list that `AddUser` leaves; one request to its address is used up; the
-- question whether it is online waits in the pool behind the messages that waited; and the last things that
-- are sent are the acknowledgement of the reply, with its number, and the own profile, both to the peer.
pub on_reply_add_user_msg-adds :
    (w : World) (d : Datagram w.json) (k : Kernel) (mid info : Text) (peer_info : w.json.Value)
    (u : UserInfo)
    → IsSound k.users
    → k.users.has_init ≡ true
    → w.backend.insert_peer_profile (new_profile w.backend u) ≢ 0
    → find_temp_user d.ip k.asked ≡ true
    → d.mid ≡ some mid
    → w.json.is_null (w.json.member (codes "my_info") d.content) ≡ false
    → w.json.as_c_string (w.json.member (codes "my_info") d.content) ≡ some info
    → w.json.parse info ≡ some peer_info
    → replying_user w d peer_info ≡ some u
    → (k' : Kernel) × (before : List Effect) × (on_reply_add_user_msg w d k
        ≡ some (k', before ++ acknowledgement w d.ip d.port mid ∷ own_profile w d.ip d.port ∷ []))
      × (find_user u k'.users ≢ 0)
      × (k'.users ≡ (add_user w.backend u k.users).1)
      × ((q : Text)
          → open_requests q k'.asked ≡ open_requests q k.asked - (if text_eq d.ip q then 1 else 0))
      × ((m : WaitAckMsg) × (k'.pool.wait_ack_msg_list ≡ k.pool.wait_ack_msg_list ++ m ∷ [])
          × (m.peer_ip ≡ d.ip)
          × (m.call_back ≡ some after_online_msg))
unfolding on_reply_add_user_msg accepts adds_user test_online_msg pool_msg normal_msg_ack
    acknowledges update_profile_msg ends_request reads when needs given says skip ◌⨾◌ continue
    Kernel.after add_msg new_msg
on_reply_add_user_msg-adds w d k mid info peer_info u sound ready taken found m n c p r =
    let (uid, users, posts) = add_user w.backend u k.users in
    let (number, pool, events) =
      add_msg w.host.platform w.now d.ip d.port (letter w user_online_type [])
        (some after_online_msg) false k.pool in
    let (differs, there, again) = add_user_twice w.backend u k.users sound ready taken in
    let in_list : find_user u (add_user w.backend u k.users).1 ≢ 0 = λ e. differs (sym there ∙ e) in
    let before = map posted posts ++ map pooled events in
    let user : TempUser = record { ip = []; port = pos 0 } in
    (
      record k { users = users; pool = pool; asked = delete_temp_user d.ip k.asked },
      before,
      rw (on_reply_add_user_msg, accepts, found, m, n, c, p, r) refl,
      in_list,
      refl,
      λ q. (find_temp_user-open q d.ip user k.asked).2,
      (_, refl, refl, refl),
    )
