-- ===== src/User/Stored.antt =====
-- A user that goes to the database with `AddUser` and comes back with the next `Init`.
use v6chat.Base.{ℕ, ◌≡◌, false, Option, none, some, List, [], ◌∷◌}
use v6chat.Database.Statements.{PeerProfile, insert_base}
use v6chat.Database.Values.{behind, read_values, text_of, row_of}
use v6chat.Text.Decimal.{print}
use v6chat.Text.Quote.{has_quote}
use v6chat.Text.{Text}
use v6chat.User.Info.{UserInfo}
use v6chat.User.Loading.{Row}
use v6chat.User.UserList.{Backend}

-- The columns of a profile in the order of the statement, behind the first.
abbrev behind_name : PeerProfile → List (Option Text)
behind_name p =
    p.group_name ∷ p.sex ∷ p.age ∷ p.introduction ∷ p.head_image_path ∷ p.server_id ∷ p.server_uid
    ∷ p.last_ip ∷ p.tcp_port ∷ p.udp_port ∷ []

-- The row that SQL writes for the statement of `insert_peerProfile`, where it gives the number `uid`.
unfoldable pub written_row : ℕ → Text → Option Row
unfolding behind read_values row_of
written_row uid sql = elim (behind (text_of insert_base) sql) [
  | none ↦ none
  | some rest ↦ elim (read_values 11 rest) [ none ↦ none | some cells ↦ some (row_of uid cells) ]
]

-- The texts of a user have no quote as they go into the statement.
pub record Unquoted (b : Backend) (u : UserInfo) : Type 0 where
  pub nick_name : has_quote (b.to_utf8 u.nick_name) ≡ false
  pub group_name : has_quote (b.to_utf8 u.group_name) ≡ false
  pub introduction : has_quote (b.to_utf8 u.introduction) ≡ false
  pub head_image_path : has_quote (b.to_utf8 u.head_image_path) ≡ false
  pub ip : has_quote u.ip ≡ false

-- What goes into the statement for a peer.
peer_profile : Backend → UserInfo → (tcp udp : ℕ) → PeerProfile
peer_profile b u tcp udp = record {
  nick_name = some (b.to_utf8 u.nick_name);
  group_name = some (b.to_utf8 u.group_name);
  sex = some (print u.sex);
  age = some (print u.age);
  introduction = some (b.to_utf8 u.introduction);
  head_image_path = some (b.to_utf8 u.head_image_path);
  server_id = none;
  server_uid = none;
  last_ip = some u.ip;
  tcp_port = some (print tcp);
  udp_port = some (print udp);
}
