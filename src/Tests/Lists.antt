-- ===== src/Tests/Lists.antt =====
-- Lists of files, of unread messages and of open requests.
use mathlib.Core.List.{reverse}
use v6chat.Base.{◌≡◌, true, false, some, List, [], ◌∷◌, map, length}
use v6chat.FileList.Numbering.{
  Call, add_name, add_item, delete, change, run, IsNumbered, run-IsNumbered,
}
use v6chat.FileList.Received
use v6chat.FileList.Received.{RecvFileList, get_downloaded_file_path, change_file_state}
use v6chat.Inbox.Asked.{TempUserList}
use v6chat.Inbox.Unread.{UnreadMsg, unread_from_id, add_all, read_all, fields_of, read_all-add_all}
use v6chat.Numbers.{pos}
use v6chat.Text.{codes}

abbrev calls : List Call
calls =
    add_item 5 (codes "f1") (codes "a.txt") false
    ∷ add_name false 9 (codes "b.txt")
    ∷ change (pos 5) (codes "f1") true
    ∷ delete (pos 2)
    ∷ []

abbrev two_files : RecvFileList
two_files = run Received.new calls

run-IsNumbered_example : IsNumbered (run Received.new calls)
run-IsNumbered_example = run-IsNumbered calls

abbrev unread : List UnreadMsg
unread = unread_from_id (pos 0) 10 1 (codes "hi") ∷ unread_from_id (pos 0) 10 2 (codes "ho") ∷ []

read_all-add_all_example :
    read_all (length unread) (add_all unread []) ≡ some (map fields_of (reverse unread), [])
read_all-add_all_example = read_all-add_all unread []

abbrev asked : TempUserList
asked =
    record { ip = codes "1::2"; port = pos 80 } ∷ record { ip = codes "1::3"; port = pos 80 } ∷ []
