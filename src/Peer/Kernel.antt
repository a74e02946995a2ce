-- ===== src/Peer/Kernel.antt =====
-- What the messages of peers reach: the lists of the kernel as one state, the libraries and the system as
-- one record, and procedures on them. kernel/V6ChatDef.h has the numbers of the messages.
use v6chat.Ack.Pool.{WaitAckMsgSender, Event}
use v6chat.Base.{ℕ, ◌-◌, ◌%◌, ◌^◌, Bool, Option, none, some, List, [], ◌∷◌, ◌++◌, if◌then◌else◌}
use v6chat.FileList.Numbering.{Call}
use v6chat.FileList.Received.{RecvFileList}
use v6chat.FileList.Sent.{SendFileList}
use v6chat.Inbox.Asked.{TempUserList}
use v6chat.Inbox.Unread.{UnreadMsgList}
use v6chat.Numbers.{ℤ, pos, negsuc}
use v6chat.Peer.Transfer.{Try, Offer}
use v6chat.Text.{Text}
use v6chat.User.Chat.{ChatStore}
use v6chat.User.Presence.{Host}
use v6chat.User.UserList.{Backend, UserList}
use v6chat.Windows.{Post}

-- A member that the program writes into a JSON object.
pub data Field : Type 0 where
  number : ℤ → Field
  string : Text → Field

-- JsonCpp. The three conversions fail (assert, or throw) on a value of another kind; `members` are the
-- names and values that an iterator passes. `write_object`: the text of a value on which these members
-- are set, in this order.
pub record Json : Type 1 where
  pub Value : Type 0
  pub parse : Text → Option Value
  pub member : Text → Value → Value
  pub is_null : Value → Bool
  pub as_int : Value → Option ℤ
  pub as_string : Value → Option Text
  pub as_c_string : Value → Option Text
  pub members : Value → List (Text × Value)
  pub write : Value → Text
  pub write_object : List (Text × Field) → Text

-- What MyInfo holds of the program's own user.
pub record Profile : Type 0 where
  pub name : Text
  pub sex : ℕ
  pub age : ℕ
  pub introduction : Text

-- What a procedure takes from outside the lists; it holds still while one procedure runs.
--   now: GetTickCount. unset_*: fields that a constructor leaves unset.
--   address: `_GetAddress` of IPSearcher, its two texts as one wide text.
--   overflow, int_overflow: what reading a number that is too large leaves.
--   recv_dir, local_time: the folder of received files and the 14 digits of the time.
--   tries, offers: what the network and the disk do in the attempts of `GetFileMsg`, for a file and a path,
--   and of `SendFileMsg`, for a file.
--   received: whether a file comes in whole over the socket of a message. asleep: what other threads
--   do to the list of received files during each wait.
pub record World : Type 1 where
  pub json : Json
  pub backend : Backend
  pub host : Host
  pub chat : ChatStore
  pub my : Profile
  pub ansi_to_unicode : Text → Text
  pub unicode_to_ansi : Text → Text
  pub address : Text → Option Text
  pub now : ℕ
  pub unset_id : ℕ
  pub unset_port : ℤ
  pub unset_download : Bool
  pub unset_uid : ℕ
  pub overflow : ℕ
  pub int_overflow : ℤ
  pub recv_dir : Text
  pub local_time : Text
  pub tries : ℤ → Text → List Try
  pub offers : ℤ → List Offer
  pub received : Text → Bool
  pub asleep : ℕ → List Call

pub record Kernel : Type 0 where
  pub users : UserList
  pub pool : WaitAckMsgSender
  pub asked : TempUserList
  pub unread : UnreadMsgList
  pub recv_files : RecvFileList
  pub send_files : SendFileList

-- What a procedure does outside the lists.
--   datagram: `send_udp_string`. tcp_profile: `async_send_tcp_string`, whose callback sends the head image.
--   fetched, offered: the attempts of `GetFileMsg` and of `SendFileMsg` for one file. head_image: the file that a head image goes to.
--   small_file: the file that is sent over the socket of a message.
pub data Effect : Type 0 where
  pooled : Event → Effect
  posted : Post → Effect
  datagram : (ip port text : Text) → Effect
  tcp_profile : (ip port text : Text) → Effect
  fetched : (ip port text path : Text) → Effect
  offered : (ip port : Text) (number : ℤ) → Effect
  head_image : (uid : ℕ) → Effect
  small_file : (path : Text) → Effect

-- A procedure on the kernel. `none`: it does not return, because a failed conversion or a null pointer
-- ends the program, or because a socket never answers.
abbrev pub Proc : Type 0
Proc = Kernel → Option (Kernel × List Effect)

unfoldable pub skip : Proc
skip k = some (k, [])

unfoldable pub fails : Proc
fails k = none

unfoldable pub says : List Effect → Proc
says effects k = some (k, effects)

unfoldable pub after : List Effect → Option (Kernel × List Effect) → Option (Kernel × List Effect)
after effects none = none
after effects (some (k, more)) = some (k, effects ++ more)

unfoldable pub continue : Proc → Option (Kernel × List Effect) → Option (Kernel × List Effect)
unfolding after
continue q none = none
continue q (some (k, effects)) = after effects (q k)

infixr 5 ◌⨾◌
-- One procedure, then the other.
unfoldable pub ◌⨾◌ : Proc → Proc → Proc
unfolding continue
(p ⨾ q) k = continue q (p k)

unfoldable pub when : Bool → Proc → Proc
unfolding skip
when b p k = if b then p k else skip k

-- A procedure that looks at the lists first.
unfoldable pub reads : (Kernel → Proc) → Proc
reads f k = f k k

unfoldable pub needs {ℓ} : {A : Type ℓ} → Option A → (A → Proc) → Proc
unfolding fails
needs none f k = fails k
needs (some a) f k = f a k

unfoldable pub either : Bool → (met unmet : Proc) → Proc
either b met unmet k = if b then met k else unmet k

unfoldable pub given {ℓ} : {A : Type ℓ} → Option A → (absent : Proc) → (A → Proc) → Proc
given none absent f k = absent k
given (some a) absent f k = f a k

-- The conversion of an `int` to an `unsigned short`.
unfoldable pub to_unsigned_short : ℤ → ℕ
to_unsigned_short (pos n) = n % 2 ^ 16
to_unsigned_short (negsuc n) = 2 ^ 16 - 1 - n % 2 ^ 16

abbrev pub user_online_type : ℕ
user_online_type = 1

abbrev pub user_online_ack : ℕ
user_online_ack = 2

abbrev pub user_keeponline : ℕ
user_keeponline = 3

abbrev pub user_keeponline_ack : ℕ
user_keeponline_ack = 4

abbrev pub user_offline_type : ℕ
user_offline_type = 5

abbrev pub add_p2puser_ask : ℕ
add_p2puser_ask = 6

abbrev pub reply_add_user : ℕ
reply_add_user = 8

abbrev pub normal_ack : ℕ
normal_ack = 50

abbrev pub user_info_update : ℕ
user_info_update = 51

abbrev pub get_file : ℕ
get_file = 52

abbrev pub send_file : ℕ
send_file = 53

-- ContentType
abbrev pub system_content : ℤ
system_content = pos 0

abbrev pub user_content : ℤ
user_content = pos 1

-- DEFAULT_GROUP_NAME in UTF-16, and the two texts around a message that was not sent, in GBK.
abbrev pub default_group_name : Text
default_group_name = 0x597d ∷ 0x53cb ∷ []

abbrev pub failed_before : Text
failed_before = 0xc4 ∷ 0xfa ∷ 0xb7 ∷ 0xa2 ∷ 0xcb ∷ 0xcd ∷ 0xb5 ∷ 0xc4 ∷ 0x20 ∷ 0xa1 ∷ 0xb0 ∷ []

abbrev pub failed_after : Text
failed_after =
    0xa1 ∷ 0xb1 ∷ 0x20 ∷ 0xbd ∷ 0xd3 ∷ 0xca ∷ 0xd5 ∷ 0xca ∷ 0xa7 ∷ 0xb0 ∷ 0xdc ∷ 0xa3 ∷ 0xa1 ∷ []
