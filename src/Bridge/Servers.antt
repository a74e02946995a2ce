-- ===== src/Bridge/Servers.antt =====
-- kernel/LuaV6Chat3App.cpp: the functions that hand the servers to Lua. `app`: whether the object is there.
use v6chat.Base.{Bool, none, some, List, [], ◌∷◌, if◌then◌else◌}
use v6chat.Bridge.Stack.{number, string, Arguments, Row, Answer, answers}
use v6chat.Numbers.{ℤ, pos, to_unsigned}
use v6chat.Server.Info.{ServerInfo, ServerState, server_disconnect, server_connected}
use v6chat.Server.ServerList.{ServerList, get_server}
use v6chat.Text.{codes}
use v6chat.Bridge.Readers.{Shell, nils, table_answer, row_answer}

abbrev state_number : ServerState → ℤ
state_number server_disconnect = pos 0
state_number server_connected = pos 1

unfoldable pub server_row : Shell → ServerInfo → Row
server_row w s =
    (codes "id", number (pos s.id))
    ∷ (codes "server_name", string (w.to_utf8 s.name))
    ∷ (codes "introduction", string (w.to_utf8 s.description))
    ∷ (codes "domain", string s.ip)
    ∷ (codes "state", number (state_number s.state))
    ∷ []

unfoldable pub server_rows : Shell → ServerList → List Row
unfolding server_row
server_rows w [] = []
server_rows w ((k, s) ∷ m) = server_row w s ∷ server_rows w m

-- `GetServerList`
unfoldable pub get_server_list : (app : Bool) → Shell → ServerList → Answer
unfolding table_answer server_rows answers nils
get_server_list app w l = if app then table_answer (server_rows w l) else answers (nils 1)

-- `GetServerInfoByID`
unfoldable pub get_server_info_by_id : (app : Bool) → Shell → Arguments → ServerList → Answer
unfolding row_answer answers nils
get_server_info_by_id app w a l =
    if app
    then elim (get_server (to_unsigned (a.to_integer 2)) l) [
      | none ↦ answers (nils 1)
      | some s ↦ row_answer (
          (codes "id", number (pos s.id))
          ∷ (codes "server_name", string (w.to_utf8 s.name))
          ∷ (codes "account", string s.uid)
          ∷ (codes "password", string s.upassword)
          ∷ (codes "introduction", string (w.to_utf8 s.description))
          ∷ (codes "domain", string s.ip)
          ∷ (codes "state", number (state_number s.state))
          ∷ [])
    ]
    else answers (nils 1)
