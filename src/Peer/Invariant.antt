-- ===== src/Peer/Invariant.antt =====
-- What every run of steps keeps: the users are sound and the received files are numbered.
use mathlib.Core.Path.{subst}
use v6chat.Base.{ℕ, true, Option, none, some, List, false, Bool, ◌++◌, ◌∷◌}
use v6chat.Numbers.{pos}
use v6chat.FileList.Numbering
use v6chat.FileList.Numbering.{IsNumbered, after-IsNumbered}
use v6chat.Peer.Handlers.{
  shows_chat-Keeps, listener_call_back-Keeps, listener_with_socket_call_back-Keeps,
}
use v6chat.Peer.Keeping.{Holds, Keeps, keeps_rules, seq-Keeps, says-Keeps, when-Keeps, reads-Keeps}
use v6chat.Peer.Kernel.{World, Kernel, Proc}
use v6chat.Peer.Laws.{
  Law, Good, performs-Keeps, pool_msg-Keeps, adds_unread-Keeps, updates_state-Keeps, tells-Keeps,
}
use v6chat.Peer.Listener.{adds_user}
use v6chat.Peer.Answering.{answers_friend}
use v6chat.Peer.Runs.{
  sweeps_pool, sweeps_users, deletes_user, edits_user, reads_chat, changes_files, Cause,
  datagram_came, message_came, user_asks, user_replies, user_tests, user_chats, user_edits,
  user_reads, user_deletes, user_answers, files_call, pool_swept, users_swept, caused, Step, step,
  server_step, Run, here, next,
}
use v6chat.Peer.Sender.{add_user_ask_msg, reply_add_user_msg, test_online_msg, chat_with_text_msg}
use v6chat.Server.Events.{
  Listener, RosterItem, Report, subscription_asked, added, rosters, presence, text_came,
  transfer_asked, transfer_ended, reported, recv_roster_subscription_request, roster_added,
  new_users, recv_all_rosters, for_account, presents, roster_presence, recv_text, expects_file,
  recv_file_transfer_request, ends_transfer, file_transfer_end,
}
use v6chat.Text.{Text}
use v6chat.User.Calls.{
  told, update_user-IsSound, update_user_state-IsSound, update_user_port-IsSound,
  update_chat_content-IsSound, get_chat_content-IsSound, delete_user-IsSound,
  traverse_all_users-IsSound,
}
use v6chat.User.Entering.{add_user-IsSound, add_users-IsSound}
use v6chat.User.Identity.{IsSound}
use v6chat.User.Info.{UserInfo}

Law-IsSound : (w : World) → Law w IsSound IsNumbered
unfolding told
Law-IsSound w = record {
  state = λ uid x l pool s. update_user_state-IsSound w.backend w.host w.now uid x l pool s;
  port = update_user_port-IsSound;
  profile = λ uid n g x a i h show l s. update_user-IsSound w.backend uid n g x a i h show l s;
  told = λ uid text t l l' s e.
      subst (λ o. IsSound (told l o)) e
        (update_chat_content-IsSound w.backend w.chat uid text t l s);
  file = after-IsNumbered;
}

module _ (w : World) where
  abbrev Whole : Kernel → Type 0
  Whole = Good w IsSound IsNumbered (Law-IsSound w)

  adds_user-Keeps : (u : UserInfo) → Keeps Whole (adds_user w u)
  unfolding adds_user
  adds_user-Keeps u = record { at = λ k g. (add_user-IsSound w.backend u k.users g.0, g.1) }

  sweeps_pool-Keeps : Keeps Whole (sweeps_pool w)
  unfolding sweeps_pool
  sweeps_pool-Keeps = record {
    at = λ k g. (performs-Keeps w IsSound IsNumbered (Law-IsSound w) _).at _ g;
  }

  sweeps_users-Keeps : Keeps Whole (sweeps_users w)
  unfolding sweeps_users
  sweeps_users-Keeps = record {
    at = λ k g.
        (seq-Keeps _ _ (performs-Keeps w IsSound IsNumbered (Law-IsSound w) _) (says-Keeps _)).at _
          (traverse_all_users-IsSound w.backend w.host w.now k.users k.pool g.0, g.1);
  }

  deletes_user-Keeps : (uid : ℕ) → Keeps Whole (deletes_user w uid)
  unfolding deletes_user
  deletes_user-Keeps uid = record {
    at = λ k g.
        (performs-Keeps w IsSound IsNumbered (Law-IsSound w) _).at _
          (delete_user-IsSound w.backend w.host w.now uid k.users k.pool g.0, g.1);
  }

  edits_user-Keeps : (uid : ℕ) (n g : Option Text) → Keeps Whole (edits_user w uid n g)
  unfolding edits_user
  edits_user-Keeps uid n g = record {
    at = λ k h. (update_user-IsSound w.backend uid n g 3 0 none none true k.users h.0, h.1);
  }

  reads_chat-Keeps : (uid : ℕ) → Keeps Whole (reads_chat uid)
  unfolding reads_chat
  reads_chat-Keeps uid = record { at = λ k g. (get_chat_content-IsSound uid k.users g.0, g.1) }

  changes_files-Keeps : (c : Numbering.Call) → Keeps Whole (changes_files c)
  unfolding changes_files
  changes_files-Keeps c = record { at = λ k g. (g.0, after-IsNumbered k.recv_files c g.1) }

  caused-Keeps : (cause : Cause) → Keeps Whole (caused w cause)
  unfolding caused add_user_ask_msg reply_add_user_msg test_online_msg chat_with_text_msg
  caused-Keeps (datagram_came rec ip port) =
      listener_call_back-Keeps w IsSound IsNumbered (Law-IsSound w) adds_user-Keeps rec ip port
  caused-Keeps (message_came rec ip port) =
      listener_with_socket_call_back-Keeps w IsSound IsNumbered (Law-IsSound w) rec ip port
  caused-Keeps (user_asks ip port) = pool_msg-Keeps w IsSound IsNumbered (Law-IsSound w) _ _ _ _
  caused-Keeps (user_replies ip port agree) =
      pool_msg-Keeps w IsSound IsNumbered (Law-IsSound w) _ _ _ _
  caused-Keeps (user_tests ip port) = pool_msg-Keeps w IsSound IsNumbered (Law-IsSound w) _ _ _ _
  caused-Keeps (user_chats ip t p text time) =
      search (keeps_rules, pool_msg-Keeps w IsSound IsNumbered (Law-IsSound w)) depth 10
  caused-Keeps (user_edits uid n g) = edits_user-Keeps uid n g
  caused-Keeps (user_reads uid) = reads_chat-Keeps uid
  caused-Keeps (user_deletes uid) = deletes_user-Keeps uid
  caused-Keeps (user_answers agree) =
      unfold answers_friend in
      (search (keeps_rules, adds_user-Keeps, pool_msg-Keeps w IsSound IsNumbered (Law-IsSound w))
        depth 10)
  caused-Keeps (files_call call) = changes_files-Keeps call
  caused-Keeps pool_swept = sweeps_pool-Keeps
  caused-Keeps users_swept = sweeps_users-Keeps

module _ (s : Listener) where
  abbrev All : Kernel → Type 0
  All = Whole s.world

  recv_all_rosters-Keeps :
      (last_uid : ℕ) (roster : List RosterItem) → Keeps All (recv_all_rosters s last_uid roster)
  unfolding recv_all_rosters
  recv_all_rosters-Keeps last_uid roster = record {
    at =
        λ k g. (add_users-IsSound s.world.backend last_uid (new_users s roster k) k.users g.0, g.1);
  }

  for_account-Keeps :
      (account : Text) (f : ℕ → Proc)
      → ((uid : ℕ) → Keeps All (f uid))
      → Keeps All (for_account s account f)
  unfolding for_account
  for_account-Keeps account f h = reads-Keeps _ (λ k. when-Keeps _ _ (h _))

  presents-Keeps : (uid : ℕ) (name status : Text) → Keeps All (presents s uid name status)
  unfolding presents
  presents-Keeps uid name status = record {
    at = λ k g. (
      update_user-IsSound s.world.backend uid (some (s.world.backend.to_unicode name)) none 0 0
          (some (s.world.backend.to_unicode status)) none false k.users g.0,
      g.1,
    );
  }

  expects_file-Keeps :
      (uid : ℕ) (sid file_name : Text) → Keeps All (expects_file s uid sid file_name)
  unfolding expects_file Numbering.after
  expects_file-Keeps uid sid file_name = record {
    at = λ k g. (
      g.0,
      after-IsNumbered k.recv_files
          (Numbering.add_item uid sid (s.recv_dir ++ b'\\' ∷ s.world.backend.to_unicode file_name)
            false)
          g.1,
    );
  }

  ends_transfer-Keeps :
      (uid : ℕ) (sid : Text) (success : Bool) → Keeps All (ends_transfer s uid sid success)
  unfolding ends_transfer Numbering.after
  ends_transfer-Keeps uid sid success = record {
    at = λ k g. (g.0, after-IsNumbered k.recv_files (Numbering.change (pos uid) sid true) g.1);
  }

  reported-Keeps : (report : Report) → Keeps All (reported s report)
  unfolding reported recv_roster_subscription_request roster_added roster_presence recv_text
      recv_file_transfer_request file_transfer_end
  reported-Keeps (subscription_asked server_name peer_account) =
      adds_unread-Keeps s.world IsSound IsNumbered (Law-IsSound s.world) _
  reported-Keeps (added peer_account) = search (adds_user-Keeps)
  reported-Keeps (rosters last_uid roster) = recv_all_rosters-Keeps last_uid roster
  reported-Keeps (presence jid name p status) = search (
    keeps_rules,
    for_account-Keeps,
    presents-Keeps,
    updates_state-Keeps s.world IsSound IsNumbered (Law-IsSound s.world),
  )
  reported-Keeps (text_came peer_account body) = reads-Keeps _ (λ k.
      seq-Keeps _ _ (tells-Keeps s.world IsSound IsNumbered (Law-IsSound s.world) _ _ _)
        (shows_chat-Keeps s.world IsSound IsNumbered (Law-IsSound s.world) _))
  reported-Keeps (transfer_asked peer_account sid file_name) =
      for_account-Keeps _ _ (λ uid. expects_file-Keeps uid sid file_name)
  reported-Keeps (transfer_ended success peer_account sid) =
      for_account-Keeps _ _ (λ uid. ends_transfer-Keeps uid sid success)

Step-keeps :
    (k k' : Kernel)
    → Step k k'
    → IsSound k.users × IsNumbered k.recv_files
    → IsSound k'.users × IsNumbered k'.recv_files
Step-keeps k k' (step w cause effects e) g =
    subst (λ o. Holds (Whole w) o) e ((caused-Keeps w cause).at k g)
Step-keeps k k' (server_step s report effects e) g =
    subst (λ o. Holds (Whole s.world) o) e ((reported-Keeps s report).at k g)

-- Whatever datagrams and connections come in, from whomever and with whatever texts, whatever the clients of
-- the servers report, and whatever the user and the threads do in between: from a kernel whose users are sound (their keys increase, each holds its
-- key, no two have one identity) and whose received files are numbered, every run leads to such a kernel.
pub Run-IsSound :
    (k k' : Kernel)
    → Run k k'
    → IsSound k.users
    → IsNumbered k.recv_files
    → IsSound k'.users × IsNumbered k'.recv_files
Run-IsSound k k' here s n = (s, n)
Run-IsSound k k' (next {k' = k1} first rest) s n =
    let (s', n') = Step-keeps k k1 first (s, n) in Run-IsSound k1 k' rest s' n'
