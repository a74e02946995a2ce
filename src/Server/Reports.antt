-- ===== src/Server/Reports.antt =====
-- What a report of a server's client does to the user that it is about.
use v6chat.Base.{
  ℕ, ◌<◌, ◌≡◌, refl, Bool, true, false, none, some, List, [], arith, ◌==◌, map, if◌then◌else◌,
}
use v6chat.FileList.Downloads.{first_path, get_downloaded_file_path-change_file_state}
use v6chat.FileList.Received.{get_downloaded_file_path, change_file_state}
use v6chat.Numbers.{pos}
use v6chat.OrderedMap.{lookup, lookup_below}
use v6chat.Peer.Callbacks.{tells}
use v6chat.Peer.Kernel.{posted, Kernel, Effect, continue, when, reads, ◌⨾◌}
use v6chat.Server.Events.{Listener, for_account, recv_text, ends_transfer, file_transfer_end}
use v6chat.Text.{Text}
use v6chat.User.Chat.{update_chat_content, update_chat_file}
use v6chat.User.Identity.{IsSound}
use v6chat.User.UserList.{get_user_uid_by_server_id_and_uid}

-- A text from an account that no user of a sound list has does not come through: the program throws.
pub recv_text-unknown :
    (s : Listener) (peer_account body : Text) (k : Kernel)
    → IsSound k.users
    → get_user_uid_by_server_id_and_uid s.id peer_account k.users ≡ 0
    → recv_text s peer_account body k ≡ none
unfolding recv_text reads tells update_chat_content ◌⨾◌ continue
recv_text-unknown s peer_account body k sound unknown =
    let nobody : lookup 0 k.users.users ≡ none =
      lookup_below 1 0 k.users.users sound.keys (omega arith) in
    rw (recv_text, unknown, tells, update_chat_content, nobody) refl

-- The end of a transfer marks its file as downloaded, whether the transfer succeeded or not: afterwards the search for
-- the downloaded file of the transfer finds the file of the transfer that stands first in the list.
pub file_transfer_end-downloaded :
    (s : Listener) (success : Bool) (peer_account sid : Text) (k : Kernel) (uid : ℕ)
    → 0 < uid
    → get_user_uid_by_server_id_and_uid s.id peer_account k.users ≡ uid
    → (k' : Kernel) × (effects : List Effect) × (file_transfer_end s success peer_account sid k
        ≡ some (k', effects))
      × (get_downloaded_file_path (pos uid) sid k'.recv_files
          ≡ first_path (pos uid) sid k.recv_files.files)
unfolding file_transfer_end for_account reads when ends_transfer
file_transfer_end-downloaded s success peer_account sid k uid positive known =
    let found : (uid == 0) ≡ false = ground arith in
    (
      record k { recv_files = (change_file_state (pos uid) sid true k.recv_files).1 },
      map posted (
          if (change_file_state (pos uid) sid true k.recv_files).0
          then update_chat_file s.world.backend.is_open uid success
          else []),
      rw (file_transfer_end, for_account, known, found) refl,
      get_downloaded_file_path-change_file_state (pos uid) sid k.recv_files,
    )
