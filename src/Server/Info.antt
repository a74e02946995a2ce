-- ===== src/Server/Info.antt =====
-- kernel/Server/ServerInfo.h and ServerInfo.cpp: a server, and what is asked of its XMPP client. The
-- listener of its messages keeps a copy of its number.
use v6chat.Base.{ℕ, zero, suc, Bool, true, false, ◌&&◌, List, [], ◌∷◌, ◌==◌, if◌then◌else◌}
use v6chat.Numbers.{ℤ, int_eq}
use v6chat.Text.Decimal.{is_digit}
use v6chat.Text.{Text, text_eq}

pub data ServerState : Type 0 where
  server_disconnect server_connected : ServerState

pub record ServerInfo : Type 0 where
  pub has_change : Bool
  pub id : ℕ
  pub name : Text
  pub ip : Text
  pub port : ℤ
  pub description : Text
  pub uid : Text
  pub upassword : Text
  pub state : ServerState
  pub listener_id : ℕ

-- A call of the XMPP client of a server.
--   start_at, start: the two ways to start it. send_text, get_vcard, add_roster, delete_roster: as named.
pub data ClientCall : Type 0 where
  start_at : (uid upassword ip : Text) (port : ℤ) → ClientCall
  start : (ip uid upassword : Text) → ClientCall
  send_text : (account text : Text) → ClientCall
  get_vcard add_roster delete_roster : (account : Text) → ClientCall

unfoldable pub new :
    (id : ℕ) (name ip : Text) (port : ℤ) (description uid upassword : Text) → ServerInfo
new id name ip port description uid upassword = record {
  has_change = false;
  id = id;
  name = name;
  ip = ip;
  port = port;
  description = description;
  uid = uid;
  upassword = upassword;
  state = server_disconnect;
  listener_id = id;
}

unfoldable pub is_connected : ServerInfo → Bool
is_connected s = elim s.state [ server_disconnect ↦ false | server_connected ↦ true ]

unfoldable pub set_state : ServerState → ServerInfo → ServerInfo
set_state state s = record s { state = state }

unfoldable pub set_id : ℕ → ServerInfo → ServerInfo
set_id id s = if s.id == id then s else record s { id = id; listener_id = id; has_change = true }

unfoldable pub set_name : Text → ServerInfo → ServerInfo
set_name name s = if text_eq s.name name then s else record s { name = name; has_change = true }

unfoldable pub set_ip : Text → ServerInfo → ServerInfo
set_ip ip s = if text_eq s.ip ip then s else record s { ip = ip; has_change = true }

unfoldable pub set_port : ℤ → ServerInfo → ServerInfo
set_port port s = if int_eq s.port port then s else record s { port = port; has_change = true }

unfoldable pub set_description : Text → ServerInfo → ServerInfo
set_description description s =
    if text_eq s.description description
    then s
    else record s { description = description; has_change = true }

unfoldable pub set_uid : Text → ServerInfo → ServerInfo
set_uid uid s = if text_eq s.uid uid then s else record s { uid = uid; has_change = true }

unfoldable pub set_upassword : Text → ServerInfo → ServerInfo
set_upassword upassword s =
    if text_eq s.upassword upassword
    then s
    else record s { upassword = upassword; has_change = true }

-- The rest of a match of `\d+\.\d+\.\d+\.\d+`: `dots` are still to come, `seen` says that the part has a
-- digit.
unfoldable pub matches_dotted : (dots : ℕ) (seen : Bool) → Text → Bool
unfolding is_digit
matches_dotted zero seen [] = seen
matches_dotted (suc dots) seen [] = false
matches_dotted zero seen (c ∷ cs) = is_digit c && matches_dotted zero true cs
matches_dotted (suc dots) seen (c ∷ cs) =
    let part = is_digit c && matches_dotted (suc dots) true cs in
    let next = seen && matches_dotted dots false cs in if c == b'.' then next else part

-- `Connect` and `ConnectThread`
unfoldable pub connect : ServerInfo → List ClientCall
unfolding matches_dotted
connect s = elim s.state [
  | server_connected ↦ []
  | server_disconnect ↦
      (if matches_dotted 3 false s.ip
        then start_at s.uid s.upassword s.ip s.port
        else start s.ip s.uid s.upassword)
      ∷ []
]

-- `SendText`, `AskUserInfo`, `AddUser`, `DeleteUser`: calls of the client of a connected server.
unfoldable pub when_connected : ServerInfo → ClientCall → List ClientCall
unfolding is_connected
when_connected s call = if is_connected s then call ∷ [] else []
