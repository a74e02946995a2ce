-- ===== src/Database/PeerRow.antt =====
-- db_interface/db_interface.cpp: what `get_peerProfileById` copies out of a row.
use v6chat.Base.{Option, some, ◌>>=◌}
use v6chat.Numbers.{ℤ}
use v6chat.Text.Decimal.{atoi}
use v6chat.Text.{Text}
use v6chat.User.Loading.{Row}

pub record PeerRow : Type 0 where
  pub nick_name : Text
  pub group_name : Text
  pub sex : ℤ
  pub age : ℤ
  pub introduction : Text
  pub head_image_path : Text
  pub server_id : ℤ
  pub server_uid : Text
  pub last_ip : Text
  pub tcp_port : ℤ
  pub udp_port : ℤ

-- `none`: a column is NULL, and `strlen` or `atoi` reads through it.
unfoldable pub read_peer : Row → Option PeerRow
read_peer row = do
  nick_name ← row 1
  group_name ← row 2
  sex ← row 3
  age ← row 4
  introduction ← row 5
  path ← row 6
  server_id ← row 7
  server_uid ← row 8
  ip ← row 9
  tcp ← row 10
  udp ← row 11
  some (record {
    nick_name = nick_name;
    group_name = group_name;
    sex = atoi sex;
    age = atoi age;
    introduction = introduction;
    head_image_path = path;
    server_id = atoi server_id;
    server_uid = server_uid;
    last_ip = ip;
    tcp_port = atoi tcp;
    udp_port = atoi udp;
  })
