-- ===== src/Own/Stored.antt =====
-- The own profile, from `Store` to the database and back with `Init` by the name.
use v6chat.Base.{ℕ, ◌^◌, ◌<◌, ◌≡◌, []}
use v6chat.Numbers.{pos}
use v6chat.Own.Info.{MyInfo}
use v6chat.Own.Row.{MyRow}
use v6chat.Text.{Text}
use v6chat.User.Loading.{Row}
use v6chat.User.UserList.{Backend}

-- What stands in that row of a profile.
stored_row : Backend → MyInfo → MyRow
stored_row b m = record {
  sex = m.sex;
  age = m.age;
  introduction = b.to_utf8 m.introduction;
  head_image_path = [];
  v4_port = m.v4_tcp_port;
  v6_port = m.v6_tcp_port;
}

-- A profile whose numbers fit, with ports that are not negative.
pub record Fits (m : MyInfo) : Type 0 where
  pub tcp4 : ℕ
  pub tcp6 : ℕ
  pub v4_is : m.v4_tcp_port ≡ pos tcp4
  pub v6_is : m.v6_tcp_port ≡ pos tcp6
  pub sex_fits : m.sex < 2 ^ 16
  pub v4_fits : tcp4 < 2 ^ 31
  pub v6_fits : tcp6 < 2 ^ 31
  pub age_fits : m.age < 2 ^ 31
