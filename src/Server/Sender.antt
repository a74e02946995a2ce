-- ===== src/Server/Sender.antt =====
-- kernel/Sender/ServerMsgSender.cpp: the messages to a user of a server.
use v6chat.Base.{ℕ, Bool, Option, none, some, List, [], ◌∷◌, if◌then◌else◌}
use v6chat.FileList.Sent.{SendFileList, get_file_path}
use v6chat.Numbers.{pos}
use v6chat.OrderedMap.{OrderedMap, insert}
use v6chat.Peer.Sender.{marks}
use v6chat.Peer.Texts.{regex_replace}
use v6chat.Server.Info.{ServerInfo, ClientCall, send_text, get_vcard, add_roster, when_connected}
use v6chat.Server.ServerList.{ServerList, get_server}
use v6chat.Text.Decimal.{read_digits}
use v6chat.Text.{Text}

-- A sender, with the conversions of V6Util; `send_file`: what SendFile of the server answers for a path, a
-- name of the transfer where it succeeds.
pub record ServerMsgSender : Type 0 where
  pub serverid : ℕ
  pub serveruid : Text
  pub unicode_to_ansi : Text → Text
  pub ansi_to_utf8 : Text → Text
  pub send_file : Text → Option Text

for_server : Option ServerInfo → (ServerInfo → List ClientCall) → List ClientCall
for_server none f = []
for_server (some s) f = f s

-- `AddUserAskMsg`
unfoldable pub add_user_ask_msg : ServerMsgSender → ServerList → List ClientCall
unfolding get_server for_server when_connected
add_user_ask_msg m servers =
    for_server (get_server m.serverid servers) (λ s. when_connected s (add_roster m.serveruid))

-- `ReplyAddUserMsg`
unfoldable pub reply_add_user_msg : ServerMsgSender → (agree : Bool) → ServerList → List ClientCall
unfolding add_user_ask_msg
reply_add_user_msg m agree servers = if agree then add_user_ask_msg m servers else []

-- `UpdateProfileMsg`
unfoldable pub update_profile_msg : ServerMsgSender → ServerList → List ClientCall
unfolding get_server for_server when_connected
update_profile_msg m servers =
    for_server (get_server m.serverid servers) (λ s. when_connected s (get_vcard m.serveruid))

-- `nis`: the numbers of the marks in their order, each with the digits that first gave it.
unfoldable pub numbered : List Text → OrderedMap Text → OrderedMap Text
unfolding insert read_digits
numbered [] nis = nis
numbered (digits ∷ more) nis = numbered more (insert (read_digits 0 digits) digits nis)

-- The second loop: the digits, not the whole mark, are replaced where they stand.
unfoldable pub with_transfers :
    ServerMsgSender → SendFileList → OrderedMap Text → (mtext : Text) → Text
unfolding regex_replace
with_transfers m files [] mtext = mtext
with_transfers m files ((ni, digits) ∷ nis) mtext =
    let sent : Option Text = elim (get_file_path (pos ni) files) [
      | none ↦ none
      | some path ↦ m.send_file path
    ] in
    elim sent [
      | none ↦ with_transfers m files nis mtext
      | some rsid ↦ with_transfers m files nis (regex_replace mtext digits rsid)
    ]

-- `ChatWithTextMsg`
unfoldable pub chat_with_text_msg :
    ServerMsgSender → (text : Text) → SendFileList → ServerList → List ClientCall
unfolding get_server for_server marks numbered with_transfers when_connected
chat_with_text_msg m text files servers = for_server (get_server m.serverid servers) (λ s.
    let mtext = m.unicode_to_ansi text in
    when_connected s (
      send_text m.serveruid
        (m.ansi_to_utf8 (with_transfers m files (numbered (marks mtext) []) mtext))))
