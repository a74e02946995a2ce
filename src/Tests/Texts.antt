-- ===== src/Tests/Texts.antt =====
-- Texts: short strings, with and without quotes.
use v6chat.Base.{◌+◌, ◌≡◌, refl, false, none, some, [], ◌∷◌, ◌++◌, length}
use v6chat.Database.Literals.{update_peer_sql-introduction}
use v6chat.Database.Statements.{PeerProfile, update_peer_sql, before_introduction}
use v6chat.Text.Concat.{Buffer, replacestr}
use v6chat.Text.Quote.{quote, read_literal}
use v6chat.Text.Replace.{substitute, replacestr-substitute}
use v6chat.Text.{Text, codes}

replacestr-substitute_example :
    (r : Buffer) × (replacestr
        (length (codes "it's") + 1)
        (some (codes "it's"))
        (some (quote ∷ []))
        (some (codes "''"))
      ≡ some (some r))
    × (r.written ≡ substitute quote (codes "''") (codes "it's"))
replacestr-substitute_example = replacestr-substitute (codes "it's") quote (codes "''")

-- Both the nickname and the introduction have a quote.
abbrev pat : PeerProfile
pat = record {
  nick_name = some (codes "o'neil");
  group_name = none;
  sex = some (codes "1");
  age = some (codes "30");
  introduction = some (codes "it's me");
  head_image_path = none;
  server_id = none;
  server_uid = none;
  last_ip = none;
  tcp_port = none;
  udp_port = none;
}

update_peer_sql-introduction_example :
    (after rest : Text) × (update_peer_sql (codes "4") pat
      ≡ before_introduction (codes "4") pat ++ after)
    × (read_literal false after ≡ some (codes "it's me", rest))
update_peer_sql-introduction_example =
    update_peer_sql-introduction (codes "4") (codes "it's me") pat refl
