-- ===== src/Peer/Handlers.antt =====
-- What the handlers keep, and with them the two listeners.
use v6chat.Base.{ℕ, zero, suc, ◌≡◌, true, Option, none, some, List, [], ◌∷◌}
use v6chat.FileList.Numbering
use v6chat.FileList.Numbering.{Call, add_name, add_item}
use v6chat.FileList.Received.{RecvFileList}
use v6chat.Numbers.{ℤ, pos, to_unsigned}
use v6chat.Peer.Chat.{
  sleeps, awaits, stores_file, new_number, renumbers, shows_chat, delivers, with_files,
  on_chat_with_text_msg,
}
use v6chat.Peer.Dispatch.{
  Message, updates_user, on_user_info_update_msg, on_get_file_msg, enters_file, on_send_file_msg,
  udp_table, tcp_table, listener_call_back, listener_with_socket_call_back,
}
use v6chat.Peer.Dispatched.{Each, listener_call_back-Leaves, listener_with_socket_call_back-Leaves}
use v6chat.Peer.Keeping.{
  Holds, Keeps, keeps_rules, seq-Keeps, needs-Keeps, given-Keeps, reads-Keeps,
}
use v6chat.Peer.Kernel.{World, Kernel, Proc, to_unsigned_short}
use v6chat.Peer.Texts.{renumber}
use v6chat.Text.Decimal.{atoi}
use v6chat.Peer.Laws.{
  Law, Good, updates_state-Keeps, deletes_msg-Keeps, sends_profile-Keeps, tells-Keeps,
  adds_unread-Keeps, pool_msg-Keeps, acknowledges-Keeps,
}
use v6chat.Peer.Listener.{
  Datagram, updates_port, adds_user, ends_request, on_online_msg, on_online_ack_msg,
  on_keep_online_msg, on_keep_online_ack_msg, on_offline_msg, on_add_user_ask_msg, accepts,
  on_reply_add_user_msg, on_normal_ack_msg,
}
use v6chat.Peer.Sender.{
  test_online_msg, test_online_msg_ack, keep_online_msg_ack, normal_msg_ack, update_profile_msg,
  gets_file,
}
use v6chat.Text.{Text}
use v6chat.User.Info.{UserInfo}
use v6chat.User.UserList.{UserList}

module _ (w : World) (U : UserList → Type 0) (F : RecvFileList → Type 0) (law : Law w U F) where
  abbrev G : Kernel → Type 0
  G = Good w U F law

  updates_port-Keeps : (uid : ℕ) (t p : ℤ) → Keeps G (updates_port uid t p)
  unfolding updates_port
  updates_port-Keeps uid t p = record { at = λ k g. (law.port uid t p k.users g.0, g.1) }

  ends_request-Keeps : (ip : Text) → Keeps G (ends_request ip)
  unfolding ends_request
  ends_request-Keeps ip = record { at = λ k g. g }

  ruleset rules = (
    keeps_rules, updates_port-Keeps, ends_request-Keeps, updates_state-Keeps, deletes_msg-Keeps,
    sends_profile-Keeps, tells-Keeps, adds_unread-Keeps, pool_msg-Keeps, acknowledges-Keeps,
  )

  on_online_msg-Keeps : (d : Datagram w.json) → Keeps G (on_online_msg w d)
  unfolding on_online_msg test_online_msg_ack
  on_online_msg-Keeps d = search (rules, law)

  on_online_ack_msg-Keeps : (d : Datagram w.json) → Keeps G (on_online_ack_msg w d)
  unfolding on_online_ack_msg
  on_online_ack_msg-Keeps d = search (rules, law)

  on_keep_online_msg-Keeps : (d : Datagram w.json) → Keeps G (on_keep_online_msg w d)
  unfolding on_keep_online_msg keep_online_msg_ack
  on_keep_online_msg-Keeps d = search (rules, law)

  on_keep_online_ack_msg-Keeps : (d : Datagram w.json) → Keeps G (on_keep_online_ack_msg w d)
  unfolding on_keep_online_ack_msg
  on_keep_online_ack_msg-Keeps d = search (rules, law)

  on_offline_msg-Keeps : (d : Datagram w.json) → Keeps G (on_offline_msg w d)
  unfolding on_offline_msg
  on_offline_msg-Keeps d = search (rules, law)

  on_add_user_ask_msg-Keeps : (d : Datagram w.json) → Keeps G (on_add_user_ask_msg w d)
  unfolding on_add_user_ask_msg normal_msg_ack
  on_add_user_ask_msg-Keeps d = search (rules, law) depth 10

  on_normal_ack_msg-Keeps : (d : Datagram w.json) → Keeps G (on_normal_ack_msg w d)
  unfolding on_normal_ack_msg
  on_normal_ack_msg-Keeps d = search (rules, law)

  on_reply_add_user_msg-Keeps :
      (adding : (u : UserInfo) → Keeps G (adds_user w u)) (d : Datagram w.json)
      → Keeps G (on_reply_add_user_msg w d)
  unfolding on_reply_add_user_msg accepts normal_msg_ack update_profile_msg test_online_msg
  on_reply_add_user_msg-Keeps adding d = search (rules, law, adding) depth 14

  sleeps-Keeps : (round : ℕ) → Keeps G (sleeps w round)
  unfolding sleeps Numbering.run
  sleeps-Keeps round = record { at = λ k g. (g.0, run-Keeps (w.asleep round) k.recv_files g.1) }
    where
      run-Keeps : (calls : List Call) (s : RecvFileList) → F s → F (Numbering.run s calls)
      run-Keeps [] s f = f
      run-Keeps (c ∷ calls) s f = run-Keeps calls (Numbering.after s c) (law.file s c f)

  awaits-Keeps :
      (uid : ℕ) (number : Text) (rounds : ℕ) (f : ℤ → Proc)
      → ((n : ℤ) → Keeps G (f n))
      → Keeps G (awaits w uid number rounds f)
  unfolding awaits
  awaits-Keeps uid number zero f h = h (pos 0)
  awaits-Keeps uid number (suc n) f h = reads-Keeps _ (λ k.
      given-Keeps _ _ _ (seq-Keeps _ _ (sleeps-Keeps n) (awaits-Keeps uid number n f h))
        (λ found. h (pos found)))

  stores_file-Keeps :
      (file_name : Text) (f : ℤ → Proc)
      → ((n : ℤ) → Keeps G (f n))
      → Keeps G (stores_file w file_name f)
  unfolding stores_file Numbering.after
  stores_file-Keeps file_name f h = record {
    at = λ k g. (h _).at _ (
      g.0,
      law.file k.recv_files (add_name w.unset_download w.unset_uid (w.ansi_to_unicode file_name))
          g.1,
    );
  }

  new_number-Keeps :
      (ip : Text) (tcp_port : ℤ) (uid : ℕ) (number name : Text) (f : ℤ → Proc)
      → ((n : ℤ) → Keeps G (f n))
      → Keeps G (new_number w ip tcp_port uid number name f)
  unfolding new_number gets_file
  new_number-Keeps ip tcp_port uid number name f h =
      search (keeps_rules, awaits-Keeps, stores_file-Keeps, h) depth 10

  renumbers-Keeps :
      (ip : Text) (tcp_port : ℤ) (uid : ℕ) (files : List (Text × w.json.Value)) (text : Text)
      (f : Text → Proc)
      → ((t : Text) → Keeps G (f t))
      → Keeps G (renumbers w ip tcp_port uid files text f)
  unfolding renumbers
  renumbers-Keeps ip tcp_port uid [] text f h = h text
  renumbers-Keeps ip tcp_port uid ((number, value) ∷ more) text f h = needs-Keeps _ _ (λ name.
      new_number-Keeps ip tcp_port uid number name _
        (λ n. renumbers-Keeps ip tcp_port uid more (renumber text (atoi number) n) f h))

  pub shows_chat-Keeps : (uid : ℕ) → Keeps G (shows_chat w uid)
  unfolding shows_chat
  shows_chat-Keeps uid = record { at = λ k g. g }

  delivers-Keeps : (uid : ℕ) (text : Text) → Keeps G (delivers w uid text)
  unfolding delivers
  delivers-Keeps uid text = search (rules, law, shows_chat-Keeps)

  with_files-Keeps :
      (d : Datagram w.json) (tcp_port : ℤ) (text : Text) (f : Text → Proc)
      → ((t : Text) → Keeps G (f t))
      → Keeps G (with_files w d tcp_port text f)
  unfolding with_files
  with_files-Keeps d tcp_port text f h = search (keeps_rules, renumbers-Keeps, h) depth 10

  on_chat_with_text_msg-Keeps : (d : Datagram w.json) → Keeps G (on_chat_with_text_msg w d)
  unfolding on_chat_with_text_msg normal_msg_ack
  on_chat_with_text_msg-Keeps d = search (rules, law, with_files-Keeps, delivers-Keeps) depth 12

  updates_user-Keeps :
      (uid : ℕ) (name : Text) (sex age : ℤ) (introduction : Text)
      → Keeps G (updates_user w uid name sex age introduction)
  unfolding updates_user
  updates_user-Keeps uid name sex age introduction = record {
    at = λ k g. (
      law.profile uid (some (w.ansi_to_unicode name)) none (to_unsigned_short sex) (to_unsigned age)
          (some (w.ansi_to_unicode introduction)) none true k.users g.0,
      g.1,
    );
  }

  on_user_info_update_msg-Keeps : (m : Message w.json) → Keeps G (on_user_info_update_msg w m)
  unfolding on_user_info_update_msg
  on_user_info_update_msg-Keeps m = search (keeps_rules, updates_user-Keeps) depth 14

  on_get_file_msg-Keeps : (m : Message w.json) → Keeps G (on_get_file_msg w m)
  unfolding on_get_file_msg
  on_get_file_msg-Keeps m = search keeps_rules depth 10

  enters_file-Keeps :
      (uid : ℕ) (number file_name : Text) → Keeps G (enters_file w uid number file_name)
  unfolding enters_file Numbering.after
  enters_file-Keeps uid number file_name = record {
    at = λ k g.
        (g.0, law.file k.recv_files (add_item uid number (w.ansi_to_unicode file_name) true) g.1);
  }

  on_send_file_msg-Keeps : (m : Message w.json) → Keeps G (on_send_file_msg w m)
  unfolding on_send_file_msg
  on_send_file_msg-Keeps m = search (keeps_rules, enters_file-Keeps) depth 10

  -- The listener of the datagrams, if the handler of replies keeps it too.
  pub udp_table-Leaves :
      (ip : Text) (k : Kernel)
      → G k
      → ((d : Datagram w.json) → d.ip ≡ ip → Holds G (on_reply_add_user_msg w d k))
      → Each (λ h. (d : Datagram w.json) → d.ip ≡ ip → Holds G (h d k)) (udp_table w)
  unfolding udp_table
  udp_table-Leaves ip k g reply = (
    λ d e. (on_online_msg-Keeps d).at k g,
    (
      λ d e. (on_online_ack_msg-Keeps d).at k g,
      (
        λ d e. (on_keep_online_msg-Keeps d).at k g,
        (
          λ d e. (on_keep_online_ack_msg-Keeps d).at k g,
          (
            λ d e. (on_offline_msg-Keeps d).at k g,
            (
              λ d e. (on_add_user_ask_msg-Keeps d).at k g,
              (
                reply,
                (
                  λ d e. (on_chat_with_text_msg-Keeps d).at k g,
                  (λ d e. (on_normal_ack_msg-Keeps d).at k g, tt),
                ),
              ),
            ),
          ),
        ),
      ),
    ),
  )

  pub listener_call_back-Keeps :
      ((u : UserInfo) → Keeps G (adds_user w u))
      → (rec : Option Text) (ip : Text) (port : ℤ) → Keeps G (listener_call_back w rec ip port)
  listener_call_back-Keeps adding rec ip port = record {
    at = λ k g.
        listener_call_back-Leaves G k g w rec ip port
          (udp_table-Leaves ip k g (λ d e. (on_reply_add_user_msg-Keeps adding d).at k g));
  }

  tcp_table-Leaves :
      (ip : Text) (k : Kernel)
      → G k
      → Each (λ h. (m : Message w.json) → m.ip ≡ ip → Holds G (h m k)) (tcp_table w)
  unfolding tcp_table
  tcp_table-Leaves ip k g = (
    λ m e. (on_user_info_update_msg-Keeps m).at k g,
    (λ m e. (on_get_file_msg-Keeps m).at k g, (λ m e. (on_send_file_msg-Keeps m).at k g, tt)),
  )

  -- The listener of the connections.
  pub listener_with_socket_call_back-Keeps :
      (rec : Option Text) (ip : Text) (port : ℤ)
      → Keeps G (listener_with_socket_call_back w rec ip port)
  listener_with_socket_call_back-Keeps rec ip port = record {
    at = λ k g. listener_with_socket_call_back-Leaves G k g w rec ip port (tcp_table-Leaves ip k g);
  }
