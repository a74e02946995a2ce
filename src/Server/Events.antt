-- ===== src/Server/Events.antt =====
-- kernel/Listener/ServerMsgListener.cpp: what an XMPP client reports, as procedures on the lists of the kernel
-- (Peer/Kernel). The photos that come with a presence are left out.
use v6chat.Base.{
  ℕ, Bool, true, false, not, none, some, List, [], ◌∷◌, ◌++◌, ◌==◌, map, if◌then◌else◌,
}
use v6chat.FileList.Received.{add_file_item, change_file_state}
use v6chat.Inbox.Unread.{unread_named}
use v6chat.Numbers.{pos}
use v6chat.Peer.Callbacks.{tells, adds_unread, updates_state}
use v6chat.Peer.Chat.{shows_chat}
use v6chat.Peer.Kernel.{
  World, Kernel, posted, Proc, ◌⨾◌, when, reads, user_content, default_group_name,
}
use v6chat.Peer.Listener.{adds_user}
use v6chat.Server.ServerList.{ServerList, get_server}
use v6chat.Text.{Text}
use v6chat.User.Change.{update_user}
use v6chat.User.Chat.{update_chat_file}
use v6chat.User.Info.{UserInfo, user_offline, user_online, new_server_user_info}
use v6chat.User.UserList.{add_users, get_user_uid_by_server_id_and_uid}

-- ADD_SERVERUSER_ASK of kernel/V6ChatDef.h.
abbrev pub add_serveruser_ask : ℕ
add_serveruser_ask = 7

-- A listener: its number, the world, the servers as they are at the event, two conversions of V6Util, and
-- the folder of received files.
pub record Listener : Type 1 where
  pub world : World
  pub id : ℕ
  pub servers : ServerList
  pub utf8_to_ansi : Text → Text
  pub ansi_to_utf8 : Text → Text
  pub recv_dir : Text

-- The part before the first `@`.
unfoldable pub before_at : Text → Text
before_at [] = []
before_at (c ∷ cs) = if c == b'@' then [] else c ∷ before_at cs

-- The account by which a user of the server is known here.
unfoldable pub account_of : Listener → Text → Text
unfolding before_at
account_of s jid = s.ansi_to_utf8 (before_at (s.utf8_to_ansi jid))

-- The name of the server, or the empty text.
unfoldable pub server_name : Listener → Text
unfolding get_server
server_name s = elim (get_server s.id s.servers) [ none ↦ [] | some server ↦ server.name ]

-- `RecvRosterSubscriptionRequest`; it answers `false`.
unfoldable pub recv_roster_subscription_request :
    Listener → (server_name peer_account : Text) → Proc
unfolding adds_unread unread_named
recv_roster_subscription_request s server_name peer_account =
    let w = s.world in
    let servername = w.backend.to_unicode server_name in
    let account = w.backend.to_unicode peer_account in
    let message = account ++ b'(' ∷ servername ++ b')' ∷ [] in
    adds_unread w (unread_named w.unset_port add_serveruser_ask s.id account message)

-- `RosterAdded`
unfoldable pub roster_added : Listener → (peer_account : Text) → Proc
unfolding adds_user account_of server_name new_server_user_info
roster_added s peer_account =
    let account = account_of s peer_account in
    adds_user s.world (
      new_server_user_info 0 (s.world.backend.to_unicode account)
        (server_name s ++ default_group_name) 0 0 [] [] s.id account)

-- An entry of the roster: the account, the name and the groups.
pub record RosterItem : Type 0 where
  pub jid : Text
  pub name : Text
  pub groups : List Text

-- The group of a user who comes from the roster.
unfoldable pub group_of : Listener → List Text → Text
unfolding server_name
group_of s [] = server_name s ++ default_group_name
group_of s (group ∷ groups) = s.world.backend.to_unicode group

-- The loop of `RecvAllRosters`: the users that the list does not have yet.
unfoldable pub new_users : Listener → List RosterItem → Kernel → List UserInfo
unfolding account_of group_of new_server_user_info
new_users s [] k = []
new_users s (item ∷ roster) k =
    let account = account_of s item.jid in
    let rest = new_users s roster k in
    let u =
      new_server_user_info 0 (s.world.backend.to_unicode item.name) (group_of s item.groups) 0 0 []
        [] s.id account in
    if get_user_uid_by_server_id_and_uid s.id account k.users == 0 then u ∷ rest else rest

-- `RecvAllRosters`; `last_uid` is what the database answers in `AddUsers`.
unfoldable pub recv_all_rosters : Listener → (last_uid : ℕ) → List RosterItem → Proc
unfolding new_users add_users
recv_all_rosters s last_uid roster k =
    let (users, rows, posts) = add_users s.world.backend last_uid (new_users s roster k) k.users in
    some (record k { users = users }, map posted posts)

-- What a handler does if the account is a user of the list, given its number.
unfoldable pub for_account : Listener → Text → (ℕ → Proc) → Proc
for_account s account body = reads (λ k.
    let uid = get_user_uid_by_server_id_and_uid s.id account k.users in
    when (not (uid == 0)) (body uid))

-- `UpdateUser` as `RosterPresence` calls it: NULL stands for the sex and the age too.
unfoldable pub presents : Listener → ℕ → (name status : Text) → Proc
unfolding update_user
presents s uid name status k =
    let b = s.world.backend in
    let (done, users, posts) =
      update_user b uid (some (b.to_unicode name)) none 0 0 (some (b.to_unicode status)) none false
        k.users in
    some (record k { users = users }, map posted posts)

-- `RosterPresence`; 6 is gloox's `Unavailable`.
unfoldable pub roster_presence : Listener → (jid name : Text) (presence : ℕ) (status : Text) → Proc
unfolding account_of for_account presents updates_state
roster_presence s jid name presence status = for_account s (account_of s jid) (λ uid.
    presents s uid name status
    ⨾ updates_state s.world uid (if presence == 6 then user_offline else user_online))

-- `RecvText`: the number of the sender is not tested.
unfoldable pub recv_text : Listener → (peer_account body : Text) → Proc
unfolding tells shows_chat
recv_text s peer_account body = reads (λ k.
    let uid = get_user_uid_by_server_id_and_uid s.id peer_account k.users in
    tells s.world uid (s.world.backend.to_unicode body) user_content ⨾ shows_chat s.world uid)

-- A file that is to come joins the list.
unfoldable pub expects_file : Listener → (uid : ℕ) (sid file_name : Text) → Proc
unfolding add_file_item
expects_file s uid sid file_name k =
    let path = s.recv_dir ++ b'\\' ∷ s.world.backend.to_unicode file_name in
    let (n, files) = add_file_item uid sid path false k.recv_files in
    some (record k { recv_files = files }, [])

-- `RecvFileTransferRequest`, whose answer is whether the sender is a user.
unfoldable pub recv_file_transfer_request : Listener → (peer_account sid file_name : Text) → Proc
unfolding for_account expects_file
recv_file_transfer_request s peer_account sid file_name =
    for_account s peer_account (λ uid. expects_file s uid sid file_name)

-- The file of a transfer counts as downloaded, and the chat is told if that is new.
unfoldable pub ends_transfer : Listener → (uid : ℕ) (sid : Text) (success : Bool) → Proc
unfolding change_file_state update_chat_file
ends_transfer s uid sid success k =
    let (changed, files) = change_file_state (pos uid) sid true k.recv_files in
    some (
      record k { recv_files = files },
      map posted (if changed then update_chat_file s.world.backend.is_open uid success else []),
    )

-- `FileTransferEnd`
unfoldable pub file_transfer_end : Listener → (success : Bool) (peer_account sid : Text) → Proc
unfolding for_account ends_transfer
file_transfer_end s success peer_account sid =
    for_account s peer_account (λ uid. ends_transfer s uid sid success)

-- The events of an XMPP client that reach the lists of the kernel.
pub data Report : Type 0 where
  subscription_asked : (server_name peer_account : Text) → Report
  added : (peer_account : Text) → Report
  rosters : (last_uid : ℕ) → List RosterItem → Report
  presence : (jid name : Text) (presence : ℕ) (status : Text) → Report
  text_came : (peer_account body : Text) → Report
  transfer_asked : (peer_account sid file_name : Text) → Report
  transfer_ended : (success : Bool) (peer_account sid : Text) → Report

unfoldable pub reported : Listener → Report → Proc
reported s (subscription_asked server_name peer_account) =
    recv_roster_subscription_request s server_name peer_account
reported s (added peer_account) = roster_added s peer_account
reported s (rosters last_uid roster) = recv_all_rosters s last_uid roster
reported s (presence jid name p status) = roster_presence s jid name p status
reported s (text_came peer_account body) = recv_text s peer_account body
reported s (transfer_asked peer_account sid file_name) =
    recv_file_transfer_request s peer_account sid file_name
reported s (transfer_ended success peer_account sid) = file_transfer_end s success peer_account sid
