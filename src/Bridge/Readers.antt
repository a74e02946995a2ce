-- ===== src/Bridge/Readers.antt =====
-- kernel/LuaV6Chat3App.cpp: the functions that hand what the kernel holds to Lua. `app`: whether the object is
-- there.
use v6chat.Base.{
  ℕ, zero, suc, Bool, true, false, Option, none, some, List, [], ◌∷◌, ◌++◌, if◌then◌else◌, ◌>>=◌,
}
use v6chat.Bridge.Stack.{
  Value, nil, number, string, bitmap, table, empty, Arguments, Row, Answer, push_table, set_fields,
  answers,
}
use v6chat.Inbox.Unread.{UnreadMsgList, get_unread_id}
use v6chat.Numbers.{pos, to_unsigned}
use v6chat.OrderedMap.{OrderedMap}
use v6chat.Own.Info.{MyInfo}
use v6chat.Text.Decimal.{print, print_int}
use v6chat.Text.{Text, codes}
use v6chat.User.Chat.{Atlas, Location, get_location, get_user}
use v6chat.User.Info.{UserInfo}
use v6chat.User.UserList.{UserList}

-- What the functions take from outside the kernel: the conversions, the texts of a location, and for the path of
-- an image whether it opens and whether XLUE_PushBitmap pushes it.
pub record Shell : Type 0 where
  pub to_utf8 : Text → Text
  pub to_unicode : Text → Text
  pub location_text : Location → Text
  pub image : Text → Option Bool
  pub atlas : Atlas

abbrev pub pushed_image : Option Bool → Value
pushed_image none = nil
pushed_image (some true) = bitmap
pushed_image (some false) = nil

-- The field `head` of a user, which is there where the image opens.
head_field : Option Bool → Row
head_field none = []
head_field (some b) = (codes "head", pushed_image (some b)) ∷ []

unfoldable pub head_path : (number : Text) → Text
head_path number_ = codes "Head" ++ b'\\' ∷ number_

-- `Utf8ToUnicode` of an argument: of NULL, the empty text.
unfoldable pub wide : (Text → Text) → Option Text → Text
wide to_unicode none = []
wide to_unicode (some t) = to_unicode t

-- The results are `n` times nil.
unfoldable pub nils : ℕ → List Value
nils zero = []
nils (suc n) = nil ∷ nils n

-- `GetMyInfo`: `V6Chat3App::GetMyInfo` takes the sex and the age by value, so that the two numbers stay 0.
unfoldable pub get_my_info : (app : Bool) → Shell → MyInfo → Answer
unfolding answers nils
get_my_info app w m =
    if app
    then answers (
        string (w.to_utf8 m.name)
        ∷ number (pos 0)
        ∷ number (pos 0)
        ∷ string (w.to_utf8 m.introduction)
        ∷ [])
    else answers (nils 4)

-- `GetMyIpAndPort`
unfoldable pub get_my_ip_and_port : (app : Bool) → MyInfo → Answer
unfolding answers nils
get_my_ip_and_port app m =
    if app
    then answers (string m.ipv4 ∷ number m.v4_tcp_port ∷ string m.ipv6 ∷ number m.v6_tcp_port ∷ [])
    else answers (nils 4)

-- `GetImageHandle`
unfoldable pub get_image_handle : (app : Bool) → Shell → Arguments → Answer
unfolding answers nils wide
get_image_handle app w a =
    if app
    then answers (pushed_image (w.image (wide w.to_unicode (a.to_string 2))) ∷ [])
    else answers (nils 1)

-- `FileExist`: behind the number it pushes nil, and it returns one value.
unfoldable pub file_exist : (app : Bool) → (exists : Text → Bool) → Shell → Arguments → Answer
unfolding wide
file_exist app exists w a =
    if app
    then some
        (1, nil ∷ number (if exists (wide w.to_unicode (a.to_string 2)) then pos 1 else pos 0) ∷ [])
    else some (1, nil ∷ [])

unfoldable pub user_row : Shell → UserInfo → Row
unfolding head_path head_field
user_row w u =
    (codes "groupname", string (w.to_utf8 u.group_name))
    ∷ (codes "id", number (pos u.uid))
    ∷ (codes "nickname", string (w.to_utf8 u.nick_name))
    ∷ (codes "location", string (w.to_utf8 (w.location_text (get_location w.atlas u))))
    ∷ head_field (w.image (head_path (print u.uid)))

unfoldable pub user_rows : Shell → OrderedMap UserInfo → List Row
unfolding user_row
user_rows w [] = []
user_rows w ((k, u) ∷ m) = user_row w u ∷ user_rows w m

-- One table as the only result.
unfoldable pub table_answer : List Row → Answer
unfolding push_table
table_answer rows = push_table rows [] >>= λ s. some (1, s)

-- `GetUserList`
unfoldable pub get_user_list : (app : Bool) → Shell → UserList → Answer
unfolding table_answer user_rows answers nils
get_user_list app w l = if app then table_answer (user_rows w l.users) else answers (nils 1)

-- A row as the only result.
unfoldable pub row_answer : Row → Answer
unfolding set_fields
row_answer row = set_fields row (table empty ∷ []) >>= λ s. some (1, s)

-- `GetUserInfoByID`, with the list after it, and whether the server is asked for the profile.
unfoldable pub get_user_info_by_id :
    (app : Bool) → Shell → (now : ℕ) → Arguments → UserList → Answer × UserList × Bool
unfolding row_answer answers nils head_path head_field
get_user_info_by_id app w now a l =
    let (found, l', asks) = get_user w.atlas now (to_unsigned (a.to_integer 2)) l in
    if app
    then elim found [
      | none ↦ (answers (nils 1), l', asks)
      | some (nick_name, group_name, sex, age, introduction, location) ↦ (
        row_answer (
            (codes "name", string (w.to_utf8 nick_name))
            ∷ (codes "groupname", string (w.to_utf8 group_name))
            ∷ (codes "sex", number (pos sex))
            ∷ (codes "age", number (pos age))
            ∷ (codes "introduction", string (w.to_utf8 introduction))
            ∷ (codes "location", string (w.to_utf8 (w.location_text location)))
            ∷ head_field (w.image (head_path (print_int (a.to_integer 2))))),
        l',
        asks,
      )
    ]
    else (answers (nils 1), l, false)

-- `GetUnreadMessage`
unfoldable pub get_unread_message : (app : Bool) → Shell → UnreadMsgList → Answer
unfolding answers nils
get_unread_message app w s =
    if app
    then elim (get_unread_id s) [
      | none ↦ answers (nils 3)
      | some (type_, uid, text) ↦
          answers (string (w.to_utf8 text) ∷ number (pos type_) ∷ number (pos uid) ∷ [])
    ]
    else answers (nils 3)
