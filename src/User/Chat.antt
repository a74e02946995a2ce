-- ===== src/User/Chat.antt =====
-- kernel/User/UserInfo.cpp and UserList.cpp: the texts of the chats, and the windows that show them; what
-- `GetUser` tells of a user.
use v6chat.Base.{
  ℕ, Bool, true, false, not, Option, none, some, List, [], ◌∷◌, ◌==◌, if◌then◌else◌, length,
}
use v6chat.Inbox.Unread.{UnreadMsgList, unread_from_id, add_unread_msg, display_msg}
use v6chat.Numbers.{ℤ}
use v6chat.OrderedMap.{lookup, put}
use v6chat.Text.Decimal.{print}
use v6chat.Text.{Text}
use v6chat.User.Info.{user_offline, user_online, ChatMsg, p2p, server, UserInfo, recv_text}
use v6chat.User.Presence.{update_profile}
use v6chat.User.UserList.{Backend, UserList}
use v6chat.Windows.{Window, chat_wnd, Post, post, wm_updatechatpanel, wm_updatechatdownloadfile}

-- What the chat takes from elsewhere: insert_chatItem, which gives the time of the record if it makes one,
-- and the user's own name.
pub record ChatStore : Type 0 where
  pub insert_chat_item : (peer_id name text : Text) → Option Text
  pub my_name : Text

-- `RecordText`: its result, and the time; the caller's string is empty before.
unfoldable pub record_text :
    Backend → ChatStore → (send_or_recv : Bool) → Text → UserInfo → Option Text
record_text b c send_or_recv text u =
    let name = if send_or_recv then c.my_name else u.nick_name in
    c.insert_chat_item (print u.uid) (b.to_utf8 name) (b.to_utf8 text)

unfoldable pub time_of : Option Text → Text
time_of none = []
time_of (some time) = time

-- `RecordChatText`: what is handed to the database, if anything, is what this asks for.
unfoldable pub record_chat_text : Backend → ChatStore → ℕ → Text → UserList → Option Text
unfolding record_text
record_chat_text b c uid text l = elim (lookup uid l.users) [
  | none ↦ none
  | some u ↦ if l.has_init then record_text b c true text u else none
]

-- `UpdateChatContent`. For a number that the list does not have, `users[uid]` enters a null Handle, whose
-- `operator->` throws: `none`.
unfoldable pub update_chat_content :
    Backend → ChatStore → ℕ → Text → (content_type : ℤ) → UserList → Option UserList
unfolding record_text time_of recv_text
update_chat_content b c uid text content_type l = elim (lookup uid l.users) [
  | none ↦ none
  | some u ↦
      let time = time_of (record_text b c false text u) in
      some (record l { users = put uid (recv_text content_type text time u) l.users })
]

-- `GetChatContent`: the first text that was not seen, if there is one, and the list without it.
unfoldable pub get_chat_content : ℕ → UserList → Option ChatMsg × UserList
get_chat_content uid l = if not l.has_init then (none, l) else elim (lookup uid l.users) [
  | none ↦ (none, l)
  | some u ↦ elim u.unread_chat_content [
    | [] ↦ (none, l)
    | msg ∷ rest ↦
        (some msg, record l { users = put uid (record u { unread_chat_content = rest }) l.users })
  ]
]

-- TEXT_CHAT of kernel/V6ChatDef.h.
abbrev pub text_chat : ℕ
text_chat = 10

-- The first text of a user that was not seen, which `ShowChatContent` shows outside the chat's window.
unfoldable pub first_unread : ℕ → UserList → Text
first_unread uid l = elim (lookup uid l.users) [
  | none ↦ []
  | some u ↦ elim u.unread_chat_content [
    | [] ↦ []
    | msg ∷ rest ↦ if l.has_init then msg.msg else []
  ]
]

-- `ShowChatContent`, with the stack of the messages that were not seen.
unfoldable pub show_chat_content :
    (Window → Bool) → (unset_port : ℤ) → ℕ → UserList → UnreadMsgList → UnreadMsgList × List Post
unfolding first_unread post add_unread_msg display_msg unread_from_id
show_chat_content is_open unset_port uid l unread =
    let wtext = first_unread uid l in
    let unread' = add_unread_msg (unread_from_id unset_port text_chat uid wtext) unread in
    if is_open (chat_wnd uid)
    then (unread, post is_open (chat_wnd uid) wm_updatechatpanel 0 0)
    else if length wtext == 0
    then (unread, [])
    else (unread', (display_msg is_open unread').1)

-- `UpdateChatFile`
unfoldable pub update_chat_file : (Window → Bool) → ℕ → (success : Bool) → List Post
unfolding post
update_chat_file is_open uid success =
    post is_open (chat_wnd uid) wm_updatechatdownloadfile 0 (if success then 1 else 0)

-- The texts that `GetLocation` sets: a place, or one of the two fixed words. A peer that is online
-- and has no known address gets the word for offline.
pub data Location : Type 0 where
  place : Text → Location
  offline_word unknown_source_word : Location

-- IPSearcher's `_GetAddress`, as one text, and the name that ServerList has for a server.
pub record Atlas : Type 0 where
  pub address : Text → Option Text
  pub server_name : ℕ → Option Text

named : Location → Option Text → Location
named unknown none = unknown
named unknown (some t) = place t

-- `GetLocation` of the two kinds of user.
unfoldable pub get_location : Atlas → UserInfo → Location
unfolding named
get_location atlas u = elim u.state [
  | user_offline ↦ offline_word
  | user_online ↦ elim u.kind [
    | p2p ack_msgid ↦ named offline_word (atlas.address u.ip)
    | server serverid serveruid t ↦ named unknown_source_word (atlas.server_name serverid)
  ]
]

-- `GetUser`: name, group, sex, age, introduction and location; the list; whether the server is asked.
unfoldable pub get_user :
    Atlas
    → (now uid : ℕ) → UserList
    → Option (Text × Text × ℕ × ℕ × Text × Location) × UserList × Bool
unfolding get_location update_profile
get_user atlas now uid l = elim (lookup uid l.users) [
  | none ↦ (none, l, false)
  | some u ↦
      let (v, asks) = update_profile now u in
      (
        some (u.nick_name, u.group_name, u.sex, u.age, u.introduction, get_location atlas u),
        record l { users = put uid v l.users },
        asks,
      )
]
