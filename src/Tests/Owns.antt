-- ===== src/Tests/Owns.antt =====
-- The own profile: a replacement of row 3 of the table, and a database that answers every query with what it wrote.
use v6chat.Base.{true, some, [], ◌∷◌, ◌>>=◌}
use v6chat.Numbers.{pos}
use v6chat.Own.Info.{MyInfo, own_columns}
use v6chat.Own.Row.{Sqlite, update_my_sql}
use v6chat.Own.Written.{written_my_row}
use v6chat.Text.Decimal.{print}
use v6chat.Text.{codes}
use v6chat.Tests.Users.{backend}

abbrev anna : MyInfo
anna = record {
  db_id = 3;
  name = codes "anna";
  sex = 1;
  age = 30;
  introduction = codes "hello";
  ipv4 = codes "10.0.0.1";
  ipv6 = [];
  v4_tcp_port = pos 5000;
  v6_tcp_port = pos 0;
  has_change = true;
}

abbrev fresh : MyInfo
fresh = record {
  db_id = 0;
  name = [];
  sex = 0;
  age = 0;
  introduction = [];
  ipv4 = [];
  ipv6 = [];
  v4_tcp_port = pos 0;
  v6_tcp_port = pos 0;
  has_change = true;
}

abbrev table : Sqlite
table = record {
  opens = true;
  exec = λ sql. true;
  last_row = pos 4;
  get_table = λ sql.
      written_my_row 9 (update_my_sql (print 3) (own_columns backend anna)) >>= λ row.
      some (row ∷ []);
}
