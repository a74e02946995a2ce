-- ===== src/Peer/Sender.antt =====
-- kernel/Sender/ClientMsgSender.cpp: the messages that are sent to a peer. `source` is the empty string of
-- every sender that the program makes.
use v6chat.Ack.Pool.{
  CallBack, after_online_msg, after_add_p2p_user_msg, after_chat_with_text_msg, add_msg,
}
use v6chat.Base.{
  ℕ, Bool, true, false, Option, none, some, List, [], ◌∷◌, ◌++◌, ◌==◌, ◌>>=◌, map, if◌then◌else◌,
}
use v6chat.FileList.Sent.{SendFileList, get_file_path}
use v6chat.Numbers.{ℤ, pos}
use v6chat.Peer.Kernel.{
  Field, number, string, World, Effect, pooled, datagram, tcp_profile, fetched, offered, Proc, says,
  ◌⨾◌, reads, needs, user_online_type, user_online_ack, user_keeponline_ack, user_offline_type,
  add_p2puser_ask, reply_add_user, normal_ack, user_info_update, get_file, send_file,
}
use v6chat.Peer.Transfer.{get_file_msg, send_file_msg, file_name}
use v6chat.Socket.Datagram.{nothing}
use v6chat.Text.Decimal.{print_int, is_digit, atoi}
use v6chat.Text.{Text, codes}
use v6chat.User.Chat.{text_chat}

-- A message of a type with its members.
unfoldable pub letter : World → ℕ → List (Text × Field) → Text
letter w type members =
    w.json.write_object ((codes "type", number (pos type)) ∷ (codes "source", string []) ∷ members)

unfoldable pub my_info : World → Field
my_info w = string (
    w.json.write_object (
      (codes "nick_name", string (w.unicode_to_ansi w.my.name))
      ∷ (codes "sex", number (pos w.my.sex))
      ∷ (codes "age", number (pos w.my.age))
      ∷ (codes "introduction", string (w.unicode_to_ansi w.my.introduction))
      ∷ []))

-- A message joins the pool, which sends it.
unfoldable pub pool_msg : World → Text → ℤ → Text → Option CallBack → Proc
unfolding add_msg
pool_msg w ip udp_port text cb k =
    let (mid, pool, events) = add_msg w.host.platform w.now ip udp_port text cb false k.pool in
    some (record k { pool = pool }, map pooled events)

-- `AddUserAskMsg`
unfoldable pub add_user_ask_msg : World → Text → ℤ → Proc
unfolding letter my_info pool_msg
add_user_ask_msg w ip udp_port =
    pool_msg w ip udp_port (letter w add_p2puser_ask ((codes "my_info", my_info w) ∷ []))
      (some after_add_p2p_user_msg)

-- `ReplyAddUserMsg`
unfoldable pub reply_add_user_msg : World → Text → ℤ → (agree : Bool) → Proc
unfolding letter my_info pool_msg
reply_add_user_msg w ip udp_port agree =
    let members : List (Text × Field) = if agree then (codes "my_info", my_info w) ∷ [] else [] in
    pool_msg w ip udp_port (letter w reply_add_user members) none

-- `TestOnlineMsg`
unfoldable pub test_online_msg : World → Text → ℤ → Proc
unfolding letter pool_msg
test_online_msg w ip udp_port =
    pool_msg w ip udp_port (letter w user_online_type []) (some after_online_msg)

-- The datagram that answers message `mid` with a message of that type. A null pointer is no `std::string`.
unfoldable pub acknowledges : World → ℕ → Text → ℤ → (mid : Option Text) → Proc
unfolding letter
acknowledges w type ip udp_port mid = needs mid (λ m. says (
    datagram ip (print_int udp_port) (
      w.json.write_object
        ((codes "content", string (letter w type [])) ∷ (codes "mid", string m) ∷ []))
    ∷ []))

-- `TestOnlineMsgAck`, `KeepOnlineMsgAck`, `NormalMsgAck`
unfoldable pub test_online_msg_ack : World → Text → ℤ → Option Text → Proc
unfolding acknowledges
test_online_msg_ack w ip udp_port mid = acknowledges w user_online_ack ip udp_port mid

unfoldable pub keep_online_msg_ack : World → Text → ℤ → Option Text → Proc
unfolding acknowledges
keep_online_msg_ack w ip udp_port mid = acknowledges w user_keeponline_ack ip udp_port mid

unfoldable pub normal_msg_ack : World → Text → ℤ → Option Text → Proc
unfolding acknowledges
normal_msg_ack w ip udp_port mid = acknowledges w normal_ack ip udp_port mid

-- `Offline`, which has no number.
unfoldable pub offline_msg : World → Text → ℤ → Proc
unfolding letter
offline_msg w ip udp_port = says (
    datagram ip (print_int udp_port)
      (w.json.write_object ((codes "content", string (letter w user_offline_type [])) ∷ []))
    ∷ [])

-- `UpdateProfileMsg`
unfoldable pub update_profile_msg : World → Text → ℤ → Proc
unfolding letter my_info
update_profile_msg w ip tcp_port = says (
    tcp_profile ip (print_int tcp_port)
      (letter w user_info_update ((codes "my_info", my_info w) ∷ []))
    ∷ [])

-- `GetFileMsg` of the sender, with what it answers going to `then`.
unfoldable pub gets_file : World → Text → ℤ → (file_id : ℤ) (path : Text) → (Bool → Proc) → Proc
unfolding letter get_file_msg
gets_file w ip tcp_port file_id path continue_with =
    let request = letter w get_file ((codes "number", number file_id) ∷ []) in
    says (fetched ip (print_int tcp_port) request path ∷ [])
    ⨾ needs (get_file_msg (w.tries file_id path) request nothing) (λ (got, held). continue_with got)

-- The digits of a mark `<\d+>` whose `<` was passed; `seen`: there was a digit.
unfoldable pub mark_after : (seen : Bool) → Text → Option Text
unfolding is_digit
mark_after seen [] = none
mark_after seen (c ∷ cs) = elim (mark_after true cs) [
  | none ↦ if c == b'>' then (if seen then some [] else none) else none
  | some digits ↦
      if c == b'>'
      then (if seen then some [] else none)
      else if is_digit c
      then some (c ∷ digits)
      else none
]

-- The digits of all marks of a text, in their order: what the iterator over the regular expression gives.
unfoldable pub marks : Text → List Text
unfolding mark_after
marks [] = []
marks (c ∷ cs) =
    let rest = marks cs in
    if c == b'<'
    then elim (mark_after false cs) [ none ↦ rest | some digits ↦ digits ∷ rest ]
    else rest

-- The member of `file_list` for one mark: the empty text where the file was sent, else its name, if the
-- list has the file.
unfoldable pub listed : World → SendFileList → (digits : Text) (sent : Bool) → List (Text × Field)
unfolding file_name
listed w files digits sent =
    if sent then (digits, string []) ∷ [] else elim (get_file_path (atoi digits) files) [
      | none ↦ []
      | some path ↦ (digits, string (w.unicode_to_ansi (file_name path))) ∷ []
    ]

-- The loop of `SendTextThread` over the marks: the members, and the attempts. `none`: an attempt waits for
-- ever.
unfoldable pub offer_files :
    World → Text → ℤ → SendFileList → List Text → Option (List (Text × Field) × List Effect)
unfolding letter listed send_file_msg
offer_files w ip tcp_port files [] = some ([], [])
offer_files w ip tcp_port files (digits ∷ more) =
    let message : Text → Text = λ name.
      letter w send_file
        ((codes "number", number (atoi digits)) ∷ (codes "filename", string name) ∷ []) in
    do
      (sent, held) ←
          send_file_msg w.unicode_to_ansi (w.offers (atoi digits)) message (atoi digits) files
            nothing
      (members, effects) ← offer_files w ip tcp_port files more
      some (
        listed w files digits sent ++ members,
        offered ip (print_int tcp_port) (atoi digits) ∷ effects,
      )

-- `ChatWithTextMsg`, whose work `SendTextThread` does.
unfoldable pub chat_with_text_msg :
    World → Text → (tcp_port udp_port : ℤ) (text send_time : Text) → Proc
unfolding letter pool_msg offer_files marks
chat_with_text_msg w ip tcp_port udp_port text send_time = reads (λ k.
    let mtext = w.unicode_to_ansi text in
    needs (offer_files w ip tcp_port k.send_files (marks mtext)) (λ (members, effects).
      says effects
      ⨾ pool_msg w ip udp_port
          (letter w text_chat (
            (codes "text", string mtext)
            ∷ (codes "time", string send_time)
            ∷ (codes "file_list", string (w.json.write_object members))
            ∷ []))
          (some after_chat_with_text_msg)))
