-- ===== src/Own/Info.antt =====
-- kernel/User/MyInfo.h and MyInfo.cpp: the object, what sets its fields, `Init` in its two forms, and
-- `Store`.
use v6chat.Base.{ℕ, Bool, true, false, Option, none, some, [], take, ◌>>=◌}
use v6chat.Numbers.{ℤ, pos, to_unsigned}
use v6chat.Own.Row.{
  Sqlite, MyColumns, update_my_profile, get_my_profile_by_id, get_my_profile_by_name,
}
use v6chat.Text.Decimal.{print, print_int}
use v6chat.Text.{Text, codes}
use v6chat.User.Loading.{to_u16}
use v6chat.User.UserList.{Backend}

pub record MyInfo : Type 0 where
  pub db_id : ℕ
  pub name : Text
  pub sex : ℕ
  pub age : ℕ
  pub introduction : Text
  pub ipv4 : Text
  pub ipv6 : Text
  pub v4_tcp_port : ℤ
  pub v6_tcp_port : ℤ
  pub has_change : Bool

-- The calls that set a field.
pub data MyChange : Type 0 where
  set_name : Text → MyChange
  set_sex : ℕ → MyChange
  set_age : ℕ → MyChange
  set_introduction : Text → MyChange
  set_ipv4 : Text → MyChange
  set_ipv6 : Text → MyChange
  set_ipv4_tcp_port : ℤ → MyChange
  set_ipv6_tcp_port : ℤ → MyChange

unfoldable pub changed : MyChange → MyInfo → MyInfo
changed (set_name t) m = record m { name = t; has_change = true }
changed (set_sex n) m = record m { sex = n; has_change = true }
changed (set_age n) m = record m { age = n; has_change = true }
changed (set_introduction t) m = record m { introduction = t; has_change = true }
changed (set_ipv4 t) m = record m { ipv4 = t; has_change = true }
changed (set_ipv6 t) m = record m { ipv6 = t; has_change = true }
changed (set_ipv4_tcp_port z) m = record m { v4_tcp_port = z; has_change = true }
changed (set_ipv6_tcp_port z) m = record m { v6_tcp_port = z; has_change = true }

-- `GetPrivateProfileStringA` for the key `id` of app.ini, with the default "1" and room for six
-- characters, the closing 0 among them.
unfoldable pub read_id : Option Text → Text
read_id none = codes "1"
read_id (some t) = take 5 t

-- `Init()`; `ini` is the key `id` of app.ini. `none`: a crash.
unfoldable pub init : Backend → Sqlite → (ini : Option Text) → MyInfo → Option (Bool × MyInfo)
unfolding read_id
init b db ini m =
    let blank : MyInfo = record m {
      db_id = 0;
      name = [];
      sex = 0;
      age = 0;
      introduction = [];
      v4_tcp_port = pos 0;
      v6_tcp_port = pos 0;
    } in
    do
      answer ← get_my_profile_by_id db (read_id ini)
      elim answer [
        | none ↦ some (false, blank)
        | some (name, found) ↦ some (
          true,
          record blank {
            name = b.to_unicode name;
            sex = found.sex;
            age = found.age;
            introduction = b.to_unicode found.introduction;
            v4_tcp_port = found.v4_port;
            v6_tcp_port = found.v6_port;
          },
        )
      ]

-- `Init(nick_name, sex, age, introduction)`: a row under the name overwrites what was handed in.
unfoldable pub init_named :
    Backend
    → Sqlite
    → (nick_name : Text) (sex age : ℤ) (introduction : Text) → MyInfo
    → Option (Bool × MyInfo)
init_named b db nick_name sex age introduction m =
    let given : MyInfo = record m {
      db_id = 0;
      sex = to_u16 sex;
      age = to_unsigned age;
      introduction = introduction;
      v4_tcp_port = pos 0;
      v6_tcp_port = pos 0;
      name = nick_name;
    } in
    do
      answer ← get_my_profile_by_name db (b.to_utf8 nick_name)
      elim answer [
        | none ↦ some (true, given)
        | some (id, found) ↦ some (
          true,
          record given {
            db_id = id;
            sex = found.sex;
            age = found.age;
            introduction = b.to_unicode found.introduction;
            v4_tcp_port = found.v4_port;
            v6_tcp_port = found.v6_port;
          },
        )
      ]

-- What `Store` hands to `update_myProfile`; there is no picture.
unfoldable pub own_columns : Backend → MyInfo → MyColumns
own_columns b m = record {
  nick_name = some (b.to_utf8 m.name);
  sex = some (print m.sex);
  age = some (print m.age);
  introduction = some (b.to_utf8 m.introduction);
  head_image_path = none;
  v4_port = some (print_int m.v4_tcp_port);
  v6_port = some (print_int m.v6_tcp_port);
}

-- `Store`: the object, and what goes to the key `id` of app.ini.
unfoldable pub store : Backend → Sqlite → MyInfo → MyInfo × Text
unfolding own_columns
store b db m =
    let id = to_unsigned (update_my_profile db (print m.db_id) (own_columns b m)) in
    (record m { db_id = id }, print id)
