-- ===== src/Inbox/Unread.antt =====
-- kernel/UnreadMsg: the stack of messages that the user has not seen. A field that a constructor leaves
-- unset is an argument.
use mathlib.Core.List.{reverse, reverse-cons}
use v6chat.Base.{
  ℕ, zero, suc, ◌++◌, map, append_assoc, length, length-append, sym, ◌∙◌, ◌>>=◌, ◌≡◌, refl, Bool,
  Option, none, some, List, [], ◌∷◌, arith, true, false,
}
use v6chat.Numbers.{ℤ}
use v6chat.Text.{Text}
use v6chat.Windows.{Window, main_wnd, Post, post, wm_showunreadmsg}

pub record UnreadMsg : Type 0 where
  pub message_type : ℕ
  pub reply_id : ℕ
  pub reply_name : Text
  pub reply_ip : Text
  pub reply_port : ℤ
  pub message : Text

-- The three constructors.
unfoldable pub unread_from_peer : (unset_id : ℕ) → ℕ → Text → Text → ℤ → Text → UnreadMsg
unread_from_peer unset_id message_type name ip port message = record {
  message_type = message_type;
  reply_id = unset_id;
  reply_name = name;
  reply_ip = ip;
  reply_port = port;
  message = message;
}

unfoldable pub unread_from_id : (unset_port : ℤ) → ℕ → ℕ → Text → UnreadMsg
unread_from_id unset_port message_type id message = record {
  message_type = message_type;
  reply_id = id;
  reply_name = [];
  reply_ip = [];
  reply_port = unset_port;
  message = message;
}

unfoldable pub unread_named : (unset_port : ℤ) → ℕ → ℕ → Text → Text → UnreadMsg
unread_named unset_port message_type id name message = record {
  message_type = message_type;
  reply_id = id;
  reply_name = name;
  reply_ip = [];
  reply_port = unset_port;
  message = message;
}

-- `std::stack`, its top first.
abbrev pub UnreadMsgList : Type 0
UnreadMsgList = List UnreadMsg

unfoldable pub add_unread_msg : UnreadMsg → UnreadMsgList → UnreadMsgList
add_unread_msg msg s = msg ∷ s

-- The four overloads of `GetUnreadMsg`; `none` is the result `false`.
unfoldable pub get_unread_msg : UnreadMsgList → Option (ℕ × ℕ × Text × Text × ℤ × Text)
get_unread_msg [] = none
get_unread_msg (top ∷ s) =
    some (top.message_type, top.reply_id, top.reply_name, top.reply_ip, top.reply_port, top.message)

unfoldable pub get_unread_id : UnreadMsgList → Option (ℕ × ℕ × Text)
get_unread_id [] = none
get_unread_id (top ∷ s) = some (top.message_type, top.reply_id, top.message)

unfoldable pub get_unread_type : UnreadMsgList → Option (ℕ × Text)
get_unread_type [] = none
get_unread_type (top ∷ s) = some (top.message_type, top.message)

unfoldable pub get_unread_text : UnreadMsgList → Option Text
get_unread_text [] = none
get_unread_text (top ∷ s) = some top.message

-- `pop` on an empty stack is undefined: `none`.
unfoldable pub delete_unread_msg : UnreadMsgList → Option UnreadMsgList
delete_unread_msg [] = none
delete_unread_msg (top ∷ s) = some s

unfoldable pub display_msg : (Window → Bool) → UnreadMsgList → Bool × List Post
unfolding post
display_msg is_open [] = (false, [])
display_msg is_open (top ∷ s) = (true, post is_open main_wnd wm_showunreadmsg top.message_type 0)

-- What `GetUnreadMsg` hands out of a message.
unfoldable pub fields_of : UnreadMsg → ℕ × ℕ × Text × Text × ℤ × Text
fields_of m = (m.message_type, m.reply_id, m.reply_name, m.reply_ip, m.reply_port, m.message)

unfoldable pub add_all : List UnreadMsg → UnreadMsgList → UnreadMsgList
unfolding add_unread_msg
add_all [] s = s
add_all (m ∷ ms) s = add_all ms (add_unread_msg m s)

-- Reading and deleting, as often as given; `none` if one of them fails.
unfoldable pub read_all :
    ℕ → UnreadMsgList → Option (List (ℕ × ℕ × Text × Text × ℤ × Text) × UnreadMsgList)
unfolding get_unread_msg delete_unread_msg
read_all zero s = some ([], s)
read_all (suc n) s = do
  seen ← get_unread_msg s
  under ← delete_unread_msg s
  (more, rest) ← read_all n under
  some (seen ∷ more, rest)

add_all-reverse : (ms : List UnreadMsg) (s : UnreadMsgList) → add_all ms s ≡ reverse ms ++ s
unfolding add_all
add_all-reverse [] s = refl
add_all-reverse (m ∷ ms) s =
    add_all-reverse ms (m ∷ s) ∙ sym (rw (reverse-cons m ms) (append_assoc (reverse ms) (m ∷ []) s))

read_all-append :
    (xs s : List UnreadMsg) → read_all (length xs) (xs ++ s) ≡ some (map fields_of xs, s)
unfolding read_all fields_of
read_all-append [] s = refl
read_all-append (x ∷ xs) s = rw (read_all-append xs s)

length-reverse : (xs : List UnreadMsg) → length (reverse xs) ≡ length xs
length-reverse [] = refl
length-reverse (x ∷ xs) =
    rw (reverse-cons x xs) (omega (arith, length-append (reverse xs) (x ∷ []), length-reverse xs))

-- Messages that come in are read in the opposite order, each with all its fields, and the messages that
-- were there before are left as they were.
pub read_all-add_all :
    (ms : List UnreadMsg) (s : UnreadMsgList)
    → read_all (length ms) (add_all ms s) ≡ some (map fields_of (reverse ms), s)
read_all-add_all ms s =
    rw (add_all-reverse ms s, ← length-reverse ms) (read_all-append (reverse ms) s)
