-- ===== src/Database/Statements.antt =====
-- db_interface/db_interface.cpp: the statements that `insert_peerProfile` and `update_peerProfile`
-- build for the table `peers_profile`. A column is a C string; `none` is NULL.
use v6chat.Base.{Option, none, some, List, [], ◌∷◌, ◌++◌, ◌+◌, length, if◌then◌else◌}
use v6chat.Numbers.{pos, int_eq}
use v6chat.Text.Concat.{v6strcat, replacestr}
use v6chat.Text.Decimal.{atoi}
use v6chat.Text.{Text, codes}

pub record PeerProfile : Type 0 where
  pub nick_name : Option Text
  pub group_name : Option Text
  pub sex : Option Text
  pub age : Option Text
  pub introduction : Option Text
  pub head_image_path : Option Text
  pub server_id : Option Text
  pub server_uid : Option Text
  pub last_ip : Option Text
  pub tcp_port : Option Text
  pub udp_port : Option Text

-- `','` between two columns, and the end of the statement.
abbrev pub sep : Option Text
sep = some (codes "','")

abbrev closing : Option Text
closing = some (codes "')")

unfoldable pub insert_base : Option Text
insert_base = some (
    codes
      "insert into peers_profile(nick_name,group_name,sex,age,introduction,head_image_path,server_id,server_uid,last_ip,last_tcp_port,last_udp_port) values('")

unfoldable pub replace_base : Option Text
replace_base = some (
    codes
      "insert or replace into peers_profile(uid,nick_name,group_name,sex,age,introduction,head_image_path,server_id,server_uid,last_ip,last_tcp_port,last_udp_port) values('")

-- The columns before the introduction, and those after it.
abbrev pub columns_before : PeerProfile → List (Option Text)
columns_before p = p.nick_name ∷ sep ∷ p.group_name ∷ sep ∷ p.sex ∷ sep ∷ p.age ∷ sep ∷ []

abbrev pub columns_last : PeerProfile → List (Option Text)
columns_last p =
    p.head_image_path ∷ sep ∷ p.server_id ∷ sep ∷ p.server_uid ∷ sep ∷ p.last_ip ∷ sep ∷ p.tcp_port
    ∷ sep ∷ p.udp_port ∷ closing ∷ []

abbrev pub columns_after : PeerProfile → List (Option Text)
columns_after p = sep ∷ columns_last p

-- `insert_peerProfile`: all columns as they are.
unfoldable pub insert_peer_sql : PeerProfile → Text
insert_peer_sql p = v6strcat (insert_base ∷ columns_before p ++ p.introduction ∷ columns_after p)

-- `replacestr(introduction, "'", "''")`, which returns within the rounds given.
unfoldable pub new_introduction : Option Text → Option Text
new_introduction none = none
new_introduction (some s) =
    elim (replacestr (length s + 1) (some s) (some (codes "'")) (some (codes "''"))) [
      | none ↦ none
      | some none ↦ none
      | some (some b) ↦ some b.written
    ]

-- `update_peerProfile`: the introduction has its quotes doubled, the other columns are as they are; a
-- profile without number is inserted, and another is replaced.
unfoldable pub update_peer_sql : Text → PeerProfile → Text
update_peer_sql uid p =
    if int_eq (atoi uid) (pos 0)
    then v6strcat
        (insert_base ∷ columns_before p ++ new_introduction p.introduction ∷ columns_after p)
    else v6strcat (
        replace_base
        ∷ some uid
        ∷ sep
        ∷ (columns_before p ++ new_introduction p.introduction ∷ columns_after p))

-- What stands before the introduction in that statement.
unfoldable pub before_introduction : Text → PeerProfile → Text
before_introduction uid p =
    if int_eq (atoi uid) (pos 0)
    then v6strcat (insert_base ∷ columns_before p)
    else v6strcat (replace_base ∷ some uid ∷ sep ∷ columns_before p)
