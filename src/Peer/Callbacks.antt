-- ===== src/Peer/Callbacks.antt =====
-- kernel/Sender/ClientMsgSender.cpp: the callbacks of the messages that wait for an answer, and the changes
-- of the users that the handlers share. The pool calls back before it drops the message; a callback only
-- adds to the pool, so the two orders leave the same pool.
use v6chat.Ack.Pool.{
  Event, send, called, CallBack, after_online_msg, after_add_p2p_user_msg, after_chat_with_text_msg,
  delete_msg,
}
use v6chat.Base.{
  ℕ, Bool, true, false, not, Option, none, some, List, [], ◌∷◌, ◌++◌, ◌==◌, map, if◌then◌else◌,
}
use v6chat.Inbox.Asked.{add_temp_user}
use v6chat.Inbox.Unread.{UnreadMsg, unread_from_id, add_unread_msg, display_msg}
use v6chat.Numbers.{ℤ, pos, int_eq}
use v6chat.Peer.Kernel.{
  World, pooled, posted, Proc, skip, says, ◌⨾◌, when, reads, needs, either, given, system_content,
  failed_before, failed_after,
}
use v6chat.Peer.Sender.{update_profile_msg}
use v6chat.Text.Decimal.{atoi}
use v6chat.Text.{Text, codes}
use v6chat.User.Change.{update_user_state}
use v6chat.User.Chat.{text_chat, update_chat_content}
use v6chat.User.Info.{UserState, user_online}
use v6chat.User.UserList.{get_user_uid_by_ip, get_user_tcp_port_by_uid}
use v6chat.Windows.{main_wnd, chat_wnd, post, wm_updatechatpanel, wm_showsendedmsg}

-- What a handler does if the sender is in the list, given its number.
unfoldable pub for_user : Text → (ℕ → Proc) → Proc
for_user ip body =
    reads (λ k. let uid = get_user_uid_by_ip ip k.users in when (not (uid == 0)) (body uid))

-- `UpdateUserState`, with the events of the pool passed on.
unfoldable pub changes_state : World → ℕ → UserState → (List Event → Proc) → Proc
changes_state w uid state events_to k =
    let (done, users, pool, events, posts) =
      update_user_state w.backend w.host w.now uid state k.users k.pool in
    (events_to events ⨾ says (map posted posts)) (record k { users = users; pool = pool })

abbrev pub records : List Event → Proc
records events = says (map pooled events)

-- The profile goes to a peer whose TCP port is known.
unfoldable pub sends_profile : World → Text → ℕ → Proc
unfolding update_profile_msg
sends_profile w ip uid = reads (λ k.
    let port = get_user_tcp_port_by_uid uid k.users in
    when (not (int_eq port (pos 0))) (update_profile_msg w ip port))

-- What two of the callbacks do with an answer: the peer is online. A user that comes online puts at most
-- one message into the pool.
unfoldable pub answered : World → Text → Proc
unfolding for_user changes_state sends_profile
answered w ip =
    for_user ip (λ uid. changes_state w uid user_online records ⨾ sends_profile w ip uid)

-- `AfterOnlineMsg`
unfoldable pub online_msg_answered : World → (success : Bool) → Text → Proc
unfolding answered
online_msg_answered w success ip = when success (answered w ip)

-- A request that was delivered joins the list of the requests.
unfoldable pub asks : World → (ip port : Text) → Proc
unfolding add_temp_user post
asks w ip port k = some (
  record k { asked = add_temp_user (record { ip = ip; port = atoi port }) k.asked },
  map posted (post w.backend.is_open main_wnd wm_showsendedmsg 0 0),
)

-- `AfterAddP2PUserMsg`
unfoldable pub add_p2p_user_msg_answered : World → (success : Bool) → (ip port : Text) → Proc
unfolding asks
add_p2p_user_msg_answered w success ip port = when success (asks w ip port)

-- `UpdateChatContent`, which may throw.
unfoldable pub tells : World → ℕ → Text → ℤ → Proc
unfolding update_chat_content
tells w uid text content_type k =
    elim (update_chat_content w.backend w.chat uid text content_type k.users) [
      | none ↦ none
      | some users ↦ some (record k { users = users }, [])
    ]

-- A message joins those that were not seen, and the window is told.
unfoldable pub adds_unread : World → UnreadMsg → Proc
unfolding add_unread_msg display_msg
adds_unread w msg k =
    let unread = add_unread_msg msg k.unread in
    some (record k { unread = unread }, map posted (display_msg w.backend.is_open unread).1)

-- The text of a chat message that was not sent, if the message is one; `some none`: it is not.
unfoldable pub unsent_text : World → (msg : Text) → Option (Option Text)
unsent_text w msg = elim (w.json.parse msg) [
  | none ↦ some none
  | some box ↦
      let boxed = w.json.member (codes "content") box in
      if w.json.is_null boxed then some none else elim (w.json.as_c_string boxed) [
        | none ↦ none
        | some inner ↦ elim (w.json.parse inner) [
          | none ↦ some none
          | some content ↦
              let text = w.json.member (codes "text") content in
              if w.json.is_null text
              then some none
              else if w.json.is_null (w.json.member (codes "time") content)
              then some none
              else elim (w.json.as_c_string text) [ none ↦ none | some t ↦ some (some t) ]
        ]
      ]
]

-- The user sees that a text did not arrive.
unfoldable pub shows_unsent : World → Text → Text → Proc
unfolding for_user tells post adds_unread unread_from_id
shows_unsent w ip text = for_user ip (λ uid.
    let wtext = w.ansi_to_unicode (failed_before ++ text ++ failed_after) in
    tells w uid wtext system_content
    ⨾ either (w.backend.is_open (chat_wnd uid))
        (says (map posted (post w.backend.is_open (chat_wnd uid) wm_updatechatpanel 0 0)))
        (adds_unread w (unread_from_id w.unset_port text_chat uid wtext)))

-- `AfterChatWithTextMsg`
unfoldable pub chat_msg_answered : World → (success : Bool) → (ip msg : Text) → Proc
unfolding answered unsent_text shows_unsent
chat_msg_answered w true ip msg = answered w ip
chat_msg_answered w false ip msg =
    needs (unsent_text w msg) (λ found. given found skip (shows_unsent w ip))

-- One callback; a null pointer is no `std::string`.
unfoldable pub call_back : World → CallBack → Bool → (ip port : Text) → (msg : Option Text) → Proc
unfolding online_msg_answered add_p2p_user_msg_answered chat_msg_answered
call_back w after_online_msg success ip port msg =
    needs msg (λ text. online_msg_answered w success ip)
call_back w after_add_p2p_user_msg success ip port msg =
    needs msg (λ text. add_p2p_user_msg_answered w success ip port)
call_back w after_chat_with_text_msg success ip port msg =
    needs msg (λ text. chat_msg_answered w success ip text)

-- The events of the pool with the callbacks that they are.
unfoldable pub performs : World → List Event → Proc
unfolding call_back
performs w [] = skip
performs w (send ipv6 ip port message ∷ events) =
    says (pooled (send ipv6 ip port message) ∷ []) ⨾ performs w events
performs w (called cb success ip port msg ∷ events) =
    says (pooled (called cb success ip port msg) ∷ [])
    ⨾ call_back w cb success ip port msg
    ⨾ performs w events

-- `UpdateUserState` as a handler calls it.
unfoldable pub updates_state : World → ℕ → UserState → Proc
unfolding changes_state performs
updates_state w uid state = changes_state w uid state (performs w)

-- `DeleteMsg(true, mid, text, ip)`
unfoldable pub deletes_msg : World → ℕ → (text ip : Text) → Proc
unfolding delete_msg performs
deletes_msg w mid text ip k =
    let (pool, events) = delete_msg true mid (some text) (some ip) k.pool in
    performs w events (record k { pool = pool })
