-- ===== src/Peer/Laws.antt =====
-- What the callbacks and the shared procedures keep: every property of the users and one of the received
-- files that their own operations keep.
use v6chat.Ack.Pool.{
  Event, send, called, CallBack, after_online_msg, after_add_p2p_user_msg, after_chat_with_text_msg,
  WaitAckMsgSender,
}
use v6chat.Base.{ℕ, ◌≡◌, Bool, true, false, Option, some, List, [], ◌∷◌, Option-cases, inl, inr}
use v6chat.FileList.Numbering.{Call, after}
use v6chat.FileList.Received.{RecvFileList}
use v6chat.Inbox.Unread.{UnreadMsg}
use v6chat.Numbers.{ℤ}
use v6chat.Peer.Callbacks.{
  changes_state, sends_profile, answered, online_msg_answered, add_p2p_user_msg_answered, asks,
  tells, adds_unread, shows_unsent, chat_msg_answered, call_back, performs, updates_state,
  deletes_msg,
}
use v6chat.Peer.Keeping.{Keeps, seq-Keeps, skip-Keeps, says-Keeps, keeps_rules}
use v6chat.Peer.Kernel.{World, Kernel, Proc}
use v6chat.Peer.Sender.{update_profile_msg, acknowledges, pool_msg}
use v6chat.Text.{Text}
use v6chat.User.Change.{update_user, update_user_state, update_user_port}
use v6chat.User.Chat.{update_chat_content}
use v6chat.User.Info.{UserState}
use v6chat.User.UserList.{UserList}

-- The operations that the messages of peers reach, but `AddUser`.
pub record Law (w : World) (U : UserList → Type 0) (F : RecvFileList → Type 0) : Type 0 where
  pub state :
      (uid : ℕ) (x : UserState) (l : UserList) (pool : WaitAckMsgSender)
      → U l
      → U (update_user_state w.backend w.host w.now uid x l pool).1
  pub port : (uid : ℕ) (t p : ℤ) (l : UserList) → U l → U (update_user_port uid t p l).1
  pub profile :
      (uid : ℕ) (n g : Option Text) (x a : ℕ) (i h : Option Text) (show : Bool) (l : UserList)
      → U l
      → U (update_user w.backend uid n g x a i h show l).1
  pub told :
      (uid : ℕ) (text : Text) (content_type : ℤ) (l l' : UserList)
      → U l
      → update_chat_content w.backend w.chat uid text content_type l ≡ some l'
      → U l'
  pub file : (s : RecvFileList) (c : Call) → F s → F (after s c)

module _ (w : World) (U : UserList → Type 0) (F : RecvFileList → Type 0) (law : Law w U F) where
  abbrev pub Good : Kernel → Type 0
  Good k = U k.users × F k.recv_files

  pub changes_state-Keeps :
      (uid : ℕ) (x : UserState) (f : List Event → Proc)
      → ((events : List Event) → Keeps Good (f events))
      → Keeps Good (changes_state w uid x f)
  unfolding changes_state
  changes_state-Keeps uid x f h = record {
    at = λ k g. (seq-Keeps _ _ (h _) (says-Keeps _)).at _ (law.state uid x k.users k.pool g.0, g.1);
  }

  pub sends_profile-Keeps : (ip : Text) (uid : ℕ) → Keeps Good (sends_profile w ip uid)
  unfolding sends_profile update_profile_msg
  sends_profile-Keeps ip uid = search keeps_rules

  answered-Keeps : (ip : Text) → Keeps Good (answered w ip)
  unfolding answered
  answered-Keeps ip = search (keeps_rules, changes_state-Keeps, sends_profile-Keeps)

  pub tells-Keeps : (uid : ℕ) (text : Text) (t : ℤ) → Keeps Good (tells w uid text t)
  unfolding tells
  tells-Keeps uid text t = record {
    at = λ k g. elim (Option-cases (update_chat_content w.backend w.chat uid text t k.users)) [
      | inl thrown ↦ rw (tells, thrown) tt
      | inr (l, e) ↦ rw (tells, e) (law.told uid text t k.users l g.0 e, g.1)
    ];
  }

  pub adds_unread-Keeps : (msg : UnreadMsg) → Keeps Good (adds_unread w msg)
  unfolding adds_unread
  adds_unread-Keeps msg = record { at = λ k g. g }

  shows_unsent-Keeps : (ip text : Text) → Keeps Good (shows_unsent w ip text)
  unfolding shows_unsent
  shows_unsent-Keeps ip text = search (keeps_rules, tells-Keeps, adds_unread-Keeps)

  chat_msg_answered-Keeps :
      (success : Bool) (ip msg : Text) → Keeps Good (chat_msg_answered w success ip msg)
  unfolding chat_msg_answered
  chat_msg_answered-Keeps true ip msg = answered-Keeps ip
  chat_msg_answered-Keeps false ip msg = search (keeps_rules, shows_unsent-Keeps)

  asks-Keeps : (ip port : Text) → Keeps Good (asks w ip port)
  unfolding asks
  asks-Keeps ip port = record { at = λ k g. g }

  call_back-Keeps :
      (cb : CallBack) (success : Bool) (ip port : Text) (msg : Option Text)
      → Keeps Good (call_back w cb success ip port msg)
  unfolding call_back online_msg_answered add_p2p_user_msg_answered
  call_back-Keeps after_online_msg success ip port msg = search (keeps_rules, answered-Keeps)
  call_back-Keeps after_add_p2p_user_msg success ip port msg = search (keeps_rules, asks-Keeps)
  call_back-Keeps after_chat_with_text_msg success ip port msg =
      search (keeps_rules, chat_msg_answered-Keeps)

  pub performs-Keeps : (events : List Event) → Keeps Good (performs w events)
  unfolding performs
  performs-Keeps [] = skip-Keeps
  performs-Keeps (send v i p m ∷ events) = seq-Keeps _ _ (says-Keeps _) (performs-Keeps events)
  performs-Keeps (called cb s i p m ∷ events) =
      seq-Keeps _ _ (says-Keeps _)
        (seq-Keeps _ _ (call_back-Keeps cb s i p m) (performs-Keeps events))

  pub updates_state-Keeps : (uid : ℕ) (x : UserState) → Keeps Good (updates_state w uid x)
  unfolding updates_state
  updates_state-Keeps uid x = search (changes_state-Keeps, performs-Keeps)

  pub deletes_msg-Keeps : (mid : ℕ) (text ip : Text) → Keeps Good (deletes_msg w mid text ip)
  unfolding deletes_msg
  deletes_msg-Keeps mid text ip = record { at = λ k g. (performs-Keeps _).at _ g }

  pub pool_msg-Keeps :
      (ip : Text) (port : ℤ) (text : Text) (cb : Option CallBack)
      → Keeps Good (pool_msg w ip port text cb)
  unfolding pool_msg
  pool_msg-Keeps ip port text cb = record { at = λ k g. g }

  pub acknowledges-Keeps :
      (type : ℕ) (ip : Text) (port : ℤ) (mid : Option Text)
      → Keeps Good (acknowledges w type ip port mid)
  unfolding acknowledges
  acknowledges-Keeps type ip port mid = search keeps_rules
