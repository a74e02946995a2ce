-- ===== src/Tests/Servers.antt =====
-- A server, and reports about a user of it.
use v6chat.Base.{◌≡◌, refl, true, false, none, some, List, [], ◌∷◌, arith}
use v6chat.FileList.Downloads.{first_path}
use v6chat.FileList.Received
use v6chat.FileList.Received.{get_downloaded_file_path, add_file_item}
use v6chat.Numbers.{pos}
use v6chat.OrderedMap.{lookup, find_if}
use v6chat.Peer.Kernel.{Kernel, Effect}
use v6chat.Server.Events.{Listener, recv_text, file_transfer_end}
use v6chat.Server.Registered.{
  IsRegistered, Call, add, remove, connects, disconnects, load, run, run-IsRegistered,
}
use v6chat.Server.Reports.{recv_text-unknown, file_transfer_end-downloaded}
use v6chat.Server.ServerList.{Registry}
use v6chat.Tests.Peers.{world, kernel}
use v6chat.Tests.Users.{with_bob-IsSound, with_ann}
use v6chat.Text.{codes, text_eq}
use v6chat.User.Info.{new_p2p_user_info, new_server_user_info}
use v6chat.User.UserList.{get_user_uid_by_server_id_and_uid, serveruser_finder, key_of}

abbrev registry : Registry
registry = record {
  to_utf8 = λ t. t;
  to_unicode = λ t. t;
  insert_server_information = λ name ip port description uid upassword. 3;
  is_open = λ w. true;
}

abbrev stored : Call
stored = load (
    record {
      id = codes "2";
      name = codes "home";
      ip = codes "10.0.0.1";
      port = codes "5222";
      description = [];
      uid = codes "me";
      upassword = codes "secret";
    }
    ∷ [])

empty-IsRegistered : IsRegistered []
unfolding lookup
empty-IsRegistered = record { keys = tt; own = λ k s at. absurd (cc) }

abbrev calls : List Call
calls =
    stored
    ∷ add 0 (codes "work") (codes "x.org") (pos 5222) [] (codes "me") []
    ∷ connects 3
    ∷ disconnects 2
    ∷ remove 2
    ∷ []

run-IsRegistered_example : IsRegistered (run registry calls [])
run-IsRegistered_example = run-IsRegistered registry calls [] empty-IsRegistered

abbrev listener : Listener
listener = record {
  world = world 1;
  id = 3;
  servers = [];
  utf8_to_ansi = λ t. t;
  ansi_to_utf8 = λ t. t;
  recv_dir = codes "recv";
}

recv_text-unknown_example : recv_text listener (codes "eve") (codes "hi") kernel ≡ none
unfolding get_user_uid_by_server_id_and_uid find_if serveruser_finder key_of new_p2p_user_info
recv_text-unknown_example =
    recv_text-unknown listener (codes "eve") (codes "hi") kernel with_bob-IsSound refl

-- Ann is in the list, and a file of hers is to come.
abbrev waiting : Kernel
waiting = record kernel {
  users = with_ann;
  recv_files = (add_file_item 2 (codes "t1") (codes "recv\\a") false Received.new).1;
}

file_transfer_end-downloaded_example :
    (k' : Kernel) × (effects : List Effect) × (file_transfer_end listener false
        (codes "ann@x")
        (codes "t1")
        waiting
      ≡ some (k', effects))
    × (get_downloaded_file_path (pos 2) (codes "t1") k'.recv_files
        ≡ first_path (pos 2) (codes "t1") waiting.recv_files.files)
unfolding get_user_uid_by_server_id_and_uid find_if serveruser_finder key_of new_server_user_info
    text_eq
file_transfer_end-downloaded_example =
    file_transfer_end-downloaded listener false (codes "ann@x") (codes "t1") waiting 2 (omega arith)
      refl
