-- ===== src/Xmpp/Table.antt =====
-- xmpp_interface/XmppFileTransfer.cpp and XmppFT.cpp: the table of the files that are on their way.
use v6chat.Base.{ℕ, Bool, true, false, ◌||◌, Option, none, some, List, [], ◌∷◌, ◌==◌, if◌then◌else◌}
use v6chat.Numbers.{ℤ}
use v6chat.Text.{Text, text_eq}
use v6chat.Xmpp.File.{unset, Stream, FileInformation, Ended}

-- `std::map<std::string, FileInformation>`: only its members are used, not their order.
abbrev pub FileList : Type 0
FileList = List (Text × FileInformation)

unfoldable pub find_file : Text → FileList → Option FileInformation
find_file sid [] = none
find_file sid ((k, fi) ∷ files) = if text_eq sid k then some fi else find_file sid files

-- `insert` keeps an entry that is there.
unfoldable pub insert_file : Text → FileInformation → FileList → FileList
unfolding find_file
insert_file sid fi files = elim (find_file sid files) [
  | none ↦ (sid, fi) ∷ files
  | some old ↦ files
]

unfoldable pub erase_file : Text → FileList → FileList
erase_file sid [] = []
erase_file sid ((k, fi) ∷ files) =
    if text_eq sid k then erase_file sid files else (k, fi) ∷ erase_file sid files

unfoldable pub change_file : Text → FileInformation → FileList → FileList
change_file sid fi [] = []
change_file sid fi ((k, old) ∷ files) =
    if text_eq sid k
    then (k, fi) ∷ change_file sid fi files
    else (k, old) ∷ change_file sid fi files

pub record XmppFileTransfer : Type 0 where
  pub has_start : Bool
  pub file_list : FileList
  pub has_listener : Bool

-- What the table does outside.
pub data Effect : Type 0 where
  accepted : (id : Text) → Effect
  declined : (sid : Text) → Effect
  sender_started : (sid : Text) → Effect
  receiver_started : (sid : Text) → Effect
  ended : Ended → Effect

-- What a request brings: the server and the account of the peer, the id of the request, the number of the
-- stream, and the name and the size of the file.
pub record Request : Type 0 where
  pub server : Text
  pub username : Text
  pub id : Text
  pub sid : Text
  pub name : Text
  pub size : ℤ

-- The record of a file that is received. Its `endflag` and `pf` stay unset.
unfoldable pub received_file :
    (to_ansi : Text → Text) → Request → (file_path : Text) → FileInformation
received_file to_ansi r file_path = record {
  file_type = 2;
  endflag = none;
  filename = r.name;
  filepath = file_path;
  ansifilename = to_ansi r.name;
  ansifilepath = to_ansi file_path;
  pf = unset;
  content = [];
  filesize = r.size;
  handedsize = 0;
  socks_stream = none;
  has_listener = true;
}

-- `handleFTRequest`; `answer`: the path where the listener wants the file, if it takes it.
unfoldable pub handle_ft_request :
    (to_ansi : Text → Text)
    → (answer : Option Text) → Request
    → XmppFileTransfer
    → XmppFileTransfer × List Effect
unfolding insert_file received_file
handle_ft_request to_ansi answer r t = elim answer [
  | none ↦ (t, declined r.sid ∷ [])
  | some file_path ↦
      if t.has_listener
      then (
        record t { file_list = insert_file r.sid (received_file to_ansi r file_path) t.file_list },
        accepted r.id ∷ [],
      )
      else (t, declined r.sid ∷ [])
]

-- `handleFTRequestError`. `none`: there is no listener, and the call goes through NULL.
unfoldable pub handle_ft_request_error :
    (server sid : Text) → XmppFileTransfer → Option (XmppFileTransfer × List Effect)
unfolding erase_file
handle_ft_request_error server sid t =
    if t.has_listener
    then some (
      record t { file_list = erase_file sid t.file_list },
      ended (record { success = false; server = server; account = []; sid = sid }) ∷ [],
    )
    else none

-- `handleFTSOCKS5Bytestream`; `connects`: `s5b->connect()`. `none`: as above.
unfoldable pub handle_ft_socks5_bytestream :
    (connects : Bool) → Stream → XmppFileTransfer → Option (XmppFileTransfer × List Effect)
unfolding find_file change_file
handle_ft_socks5_bytestream connects s5b t = elim (find_file s5b.sid t.file_list) [
  | none ↦ some (t, [])
  | some fi ↦
      let t' : XmppFileTransfer = record t {
        file_list = change_file s5b.sid (record fi { socks_stream = some s5b }) t.file_list;
      } in
      if (fi.file_type == 1) || connects
      then some (
        t',
        (if fi.file_type == 1
            then sender_started s5b.sid ∷ []
            else if fi.file_type == 2
            then receiver_started s5b.sid ∷ []
            else []),
      )
      else if t.has_listener
      then some (
        t',
        ended (record {
          success = false;
          server = s5b.server;
          account = s5b.username;
          sid = s5b.sid;
        })
            ∷ [],
      )
      else none
]

-- `Start`; `listens`: whether the server listens.
unfoldable pub start : (listens : Bool) → XmppFileTransfer → Bool × XmppFileTransfer
start listens t =
    if t.has_start
    then (true, t)
    else if listens
    then (true, record t { has_start = true })
    else (false, t)

-- `Close`
unfoldable pub close : XmppFileTransfer → XmppFileTransfer
close t = record t { has_start = false }

unfoldable pub has_code : ℕ → Text → Bool
has_code mark [] = false
has_code mark (c ∷ cs) = c == mark || has_code mark cs

-- `filePath.substr(filePath.find_last_of("\\") + 1)`
unfoldable pub after_last : (mark : ℕ) → Text → Text
unfolding has_code
after_last mark [] = []
after_last mark (c ∷ cs) =
    let rest = after_last mark cs in
    if has_code mark cs then rest else if c == mark then cs else c ∷ cs

-- The record of a file that is sent. Its `endflag` and `pf` stay unset.
unfoldable pub sent_file :
    (to_ansi : Text → Text)
    → (file_path : Text) → (size : ℤ) → (has_listener : Bool) → FileInformation
unfolding after_last
sent_file to_ansi file_path size has_listener = record {
  file_type = 1;
  endflag = none;
  filename = after_last b'\\' file_path;
  filepath = file_path;
  ansifilename = to_ansi (after_last b'\\' file_path);
  ansifilepath = to_ansi file_path;
  pf = unset;
  content = [];
  filesize = size;
  handedsize = 0;
  socks_stream = none;
  has_listener = has_listener;
}

-- `SendFile`; `size`: `stat` of the file, where it succeeds; `sid`: the answer of `requestFT`.
unfoldable pub send_file :
    (to_ansi : Text → Text)
    → (size : Option ℤ) → (sid file_path : Text) → XmppFileTransfer
    → Option Text × XmppFileTransfer
unfolding insert_file sent_file
send_file to_ansi size sid file_path t =
    if t.has_start
    then elim size [
      | none ↦ (none, t)
      | some n ↦ (
        some sid,
        record t {
          file_list = insert_file sid (sent_file to_ansi file_path n t.has_listener) t.file_list;
        },
      )
    ]
    else (none, t)

-- The loop of XmppFT over three ports; `listens` holds what the server answers for each.
unfoldable pub start_tries : (listens : List Bool) → XmppFileTransfer → Bool × XmppFileTransfer
unfolding start
start_tries [] t = (false, t)
start_tries (listens ∷ others) t =
    let rest = start_tries others t in
    let (done, t') = start listens t in if done then (true, t') else rest

-- `StartFileTransfer` of XmppFT.
unfoldable pub start_file_transfer :
    (first second third : Bool) → XmppFileTransfer → Bool × XmppFileTransfer
unfolding start_tries
start_file_transfer first second third t =
    if t.has_start then (true, t) else start_tries (first ∷ second ∷ third ∷ []) t

-- `SendFile` of XmppFT.
unfoldable pub start_and_send :
    (first second third : Bool)
    → (to_ansi : Text → Text) → (size : Option ℤ) → (sid file_path : Text) → XmppFileTransfer
    → Option Text × XmppFileTransfer
unfolding start_file_transfer send_file
start_and_send first second third to_ansi size sid file_path t =
    let (done, t') = start_file_transfer first second third t in
    if done then send_file to_ansi size sid file_path t' else (none, t')
