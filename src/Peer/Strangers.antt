-- ===== src/Peer/Strangers.antt =====
-- What a peer that is not in the list can do, and how peers come into it.
use mathlib.Core.Path.{subst}
use v6chat.Base.{ℕ, ◌≡◌, refl, false, Option, some, List, arith, Option-cases, inl, inr}
use v6chat.Inbox.Asked.{find_temp_user}
use v6chat.OrderedMap.{OrderedMap, lookup, put, contains, lookup-put}
use v6chat.Numbers.{ℤ}
use v6chat.Peer.Dispatch.{listener_call_back}
use v6chat.Peer.Dispatched.{listener_call_back-Leaves}
use v6chat.Peer.Handlers.{udp_table-Leaves}
use v6chat.Peer.Keeping.{Holds}
use v6chat.Peer.Kernel.{World, Kernel, Effect, skip, when, reads}
use v6chat.Peer.Laws.{Law, Good}
use v6chat.Peer.Listener.{Datagram, on_reply_add_user_msg}
use v6chat.Text.{Text}
use v6chat.User.Calls.{told}
use v6chat.User.Change.{update_user, update_user_state, update_user_port}
use v6chat.User.Chat.{update_chat_content}
use v6chat.User.Info.{UserInfo}
use v6chat.User.UserList.{UserList}

-- The numbers in use are those of `m`.
SameKeys : OrderedMap UserInfo → UserList → Type 0
SameKeys m l = (q : ℕ) → contains q l.users ≡ contains q m

replaced :
    (uid : ℕ) (u v : UserInfo) (m users : OrderedMap UserInfo) (q : ℕ)
    → contains q users ≡ contains q m
    → lookup uid users ≡ some u
    → contains q (put uid v users) ≡ contains q m
replaced uid u v m users q h at = ground (arith, lookup-put q uid v users, h, at)

told-SameKeys :
    (w : World) (m : OrderedMap UserInfo) (uid : ℕ) (text : Text) (t : ℤ) (l : UserList)
    → SameKeys m l
    → SameKeys m (told l (update_chat_content w.backend w.chat uid text t l))
unfolding SameKeys told update_chat_content
told-SameKeys w m uid text t l h q = elim (Option-cases (lookup uid l.users)) [
  | inl nobody ↦ rw (update_chat_content, nobody) (h q)
  | inr (u, at) ↦ rw (update_chat_content, at) (replaced uid u _ m l.users q (h q) at)
]

Law-SameKeys : (w : World) (m : OrderedMap UserInfo) → Law w (SameKeys m) (λ s. Unit {0})
unfolding SameKeys told update_user_state update_user_port update_user
Law-SameKeys w m = record {
  state = λ uid x l pool h q. elim (Option-cases (lookup uid l.users)) [
    | inl nobody ↦ rw (update_user_state, nobody) (h q)
    | inr (u, at) ↦ rw (update_user_state, at) (replaced uid u _ m l.users q (h q) at)
  ];
  port = λ uid t p l h q. elim (Option-cases (lookup uid l.users)) [
    | inl nobody ↦ rw (update_user_port, nobody) (h q)
    | inr (u, at) ↦ rw (update_user_port, at) (replaced uid u _ m l.users q (h q) at)
  ];
  profile = λ uid n g x a i hd show l h q. elim (Option-cases (lookup uid l.users)) [
    | inl nobody ↦ rw (update_user, nobody) (h q)
    | inr (u, at) ↦ rw (update_user, at) (replaced uid u _ m l.users q (h q) at)
  ];
  told = λ uid text t l l' h e.
      subst (λ o. SameKeys m (told l o)) e (told-SameKeys w m uid text t l h);
  file = λ s c f. tt;
}

reply-SameKeys :
    (w : World) (d : Datagram w.json) (k : Kernel)
    → find_temp_user d.ip k.asked ≡ false
    → Holds (Good w _ _ (Law-SameKeys w k.users.users)) (on_reply_add_user_msg w d k)
unfolding on_reply_add_user_msg reads when skip SameKeys
reply-SameKeys w d k nobody = rw (on_reply_add_user_msg, nobody) (λ q. refl, tt)

-- While no request to an address is open, no datagram from it changes which users there are, whatever it
-- says: if the handling ends, the same numbers are in use.
pub listener_call_back-contains :
    (w : World) (rec : Option Text) (ip : Text) (port : ℤ) (k k' : Kernel) (effects : List Effect)
    (q : ℕ)
    → find_temp_user ip k.asked ≡ false
    → listener_call_back w rec ip port k ≡ some (k', effects)
    → contains q k'.users.users ≡ contains q k.users.users
unfolding SameKeys
listener_call_back-contains w rec ip port k k' effects q nobody e =
    let G : Kernel → Type 0 = Good w _ _ (Law-SameKeys w k.users.users) in
    let g : G k = (λ q. refl, tt) in
    let left : Holds G (listener_call_back w rec ip port k) =
      listener_call_back-Leaves G k g w rec ip port (
        udp_table-Leaves w _ _ (Law-SameKeys w k.users.users) ip k g
          (λ d same. reply-SameKeys w d k (rw same nobody))) in
    let kept : G k' = subst (Holds G) e left in kept.0 q
