-- ===== src/Bridge/Chats.antt =====
-- kernel/LuaV6Chat3App.cpp: the functions on files and on the texts of chats.
use v6chat.Base.{
  ℕ, zero, suc, Bool, not, Option, none, some, List, [], ◌∷◌, ◌++◌, map, ltb, ◌==◌, if◌then◌else◌,
  ◌>>=◌,
}
use v6chat.Bridge.Readers.{Shell, nils, table_answer}
use v6chat.Bridge.Stack.{nil, number, string, Arguments, Row, Answer, push_table, answers}
use v6chat.Database.Connection.{Sqlite, Ledger}
use v6chat.FileList.Received.{RecvFileList, get_file_path, get_downloaded_file_path}
use v6chat.FileList.Sent.{SendFileList, add_file_item}
use v6chat.FileList.Sent
use v6chat.History.Paging.{ChatHistoryItem, get_chat_history}
use v6chat.Numbers.{pos, int_eq, to_unsigned}
use v6chat.Socket.Connection.{small_file_maxsize}
use v6chat.Text.Decimal.{atoi}
use v6chat.Text.{Text, codes}
use v6chat.User.Chat.{get_chat_content}
use v6chat.User.Info.{ChatMsg}
use v6chat.User.UserList.{Backend, UserList}

-- SelectFileRetCode
abbrev pub success : ℕ
success = 0

abbrev pub user_cancel : ℕ
user_cancel = 1

abbrev pub invalid_file : ℕ
invalid_file = 2

abbrev pub size_too_large : ℕ
size_too_large = 3

-- The code of a chosen file; `size`: `GetFileSize`, which has no answer also for a file that does not open.
unfoldable pub select_code : (size : Option ℕ) → ℕ
select_code none = size_too_large
select_code (some n) = if ltb small_file_maxsize n then size_too_large else success

-- `SelectChatFile`; `chosen`: the path that the dialogue hands out.
unfoldable pub select_chat_file :
    (app : Bool)
    → Shell
    → (chosen : Option Text) → (size : Option ℕ) → SendFileList
    → Answer × SendFileList
unfolding answers nils select_code add_file_item
select_chat_file app w chosen size files =
    if app
    then elim chosen [
      | none ↦ (answers (number (pos user_cancel) ∷ nil ∷ nil ∷ []), files)
      | some path ↦
          let ret = select_code size in
          let (n, files') = add_file_item path files in
          if ret == success
          then (answers (number (pos ret) ∷ string (w.to_utf8 path) ∷ number (pos n) ∷ []), files')
          else (answers (number (pos ret) ∷ nil ∷ nil ∷ []), files)
    ]
    else (answers (nils 3), files)

-- `GetSendFile`
unfoldable pub get_send_file : (app : Bool) → Shell → Arguments → SendFileList → Answer
unfolding answers nils
get_send_file app w a files =
    if app
    then elim (Sent.get_file_path (a.to_integer 2) files) [
      | none ↦ answers (nil ∷ [])
      | some path ↦ answers (string (w.to_utf8 path) ∷ [])
    ]
    else answers (nils 1)

-- `GetRecvFile`; `recv_dir`: the folder of received files. `none`: `atoi` reads through NULL.
unfoldable pub get_recv_file :
    (app : Bool) → Shell → (recv_dir : Text) → Arguments → RecvFileList → Answer
unfolding answers nils
get_recv_file app w recv_dir a files =
    if app
    then (a.to_string 2 >>= λ sid.
        if not (int_eq (atoi sid) (pos 0))
        then elim (get_file_path (atoi sid) files) [
          | none ↦ answers (nil ∷ [])
          | some file_name ↦ answers (string (w.to_utf8 (recv_dir ++ file_name)) ∷ [])
        ]
        else elim (a.to_string 3) [
          | none ↦ answers (nil ∷ [])
          | some uid ↦ elim (get_downloaded_file_path (atoi uid) sid files) [
            | none ↦ answers (nil ∷ [])
            | some path ↦ answers (string (w.to_utf8 path) ∷ [])
          ]
        ])
    else answers (nils 1)

unfoldable pub chat_row : Shell → ChatMsg → Row
chat_row w m =
    (codes "time", string m.time)
    ∷ (codes "message", string (w.to_utf8 m.msg))
    ∷ (codes "message_type", number m.msg_type)
    ∷ []

-- One text before those of the later rounds, or the end of the loop.
unfoldable pub taken :
    Option ChatMsg → UserList → Option (List ChatMsg × UserList) → Option (List ChatMsg × UserList)
taken none l later = some ([], l)
taken (some m) l later = later >>= λ r. some (m ∷ r.0, r.1)

-- The loop of `GetChatContent`, for as many rounds as given: the texts it took, if it ended, and the list.
unfoldable pub take_chats : ℕ → ℕ → UserList → Option (List ChatMsg × UserList)
unfolding taken
take_chats zero uid l = none
take_chats (suc rounds) uid l =
    let (seen, l') = get_chat_content uid l in taken seen l' (take_chats rounds uid l')

-- `GetChatContent`, with the list after it. `none`: the loop still runs.
unfoldable pub get_chat_contents :
    (app : Bool) → Shell → (rounds : ℕ) → Arguments → UserList → Option (Answer × UserList)
unfolding take_chats chat_row table_answer answers nils
get_chat_contents app w rounds a l =
    if app
    then (take_chats rounds (to_unsigned (a.to_integer 2)) l >>= λ r.
        some (table_answer (map (chat_row w) r.0), r.1))
    else some (answers (nils 1), l)

unfoldable pub history_row : Shell → ChatHistoryItem → Row
history_row w item =
    (codes "name", string (w.to_utf8 item.name))
    ∷ (codes "time", string item.time)
    ∷ (codes "message", string (w.to_utf8 item.content))
    ∷ []

-- EACH_CHATHISTORYITEM_NUM
abbrev pub each_chathistoryitem_num : ℕ
each_chathistoryitem_num = 20

-- `GetChatHistory`: the table, and the numbers of its first and last row. `none`: a crash.
unfoldable pub get_chat_history_page :
    (app : Bool) → Shell → Backend → Sqlite → Arguments → Ledger → Option (Answer × Ledger)
unfolding history_row push_table answers nils
get_chat_history_page app w b db a l =
    if app
    then (get_chat_history b db (a.to_integer 2) (a.to_boolean 3) (a.to_integer 4)
          (pos each_chathistoryitem_num) (pos 0) (pos 0) l
        >>= λ r. some (
          (if r.0
              then (push_table (map (history_row w) r.1.items) [] >>= λ s.
                  some (3, number r.1.end_mid ∷ number r.1.begin_mid ∷ s))
              else answers (nils 3)),
          r.2,
        ))
    else some (answers (nils 3), l)
