-- ===== src/Peer/Transfer.antt =====
-- kernel/Sender/ClientMsgSender.cpp: `GetFileMsg` and `SendFileMsg`, at most MAX_TRY_TIMES attempts over
-- connections of their own, and what they hold.
use v6chat.Ack.Pool.{max_try_times}
use v6chat.Base.{
  ℕ, zero, suc, Bool, true, false, Option, none, some, List, [], ◌∷◌, ◌>>=◌, map, ◌==◌,
  if◌then◌else◌,
}
use v6chat.FileList.Sent.{SendFileList, get_file_path}
use v6chat.Numbers.{ℤ}
use v6chat.Socket.Connection.{
  Disk, Source, send_tcp_string_without_closesocket, receive_small_file, send_small_file,
}
use v6chat.Socket.Datagram.{Held, Net, wsa_cleanup, closesocket}
use v6chat.Socket.Stream.{Reply}
use v6chat.Text.{Text}

-- `release_socket` of a socket that is one.
abbrev pub release_socket : Held → Held
release_socket h = wsa_cleanup (closesocket h)

-- What an attempt meets on the way: the connection, and the answers of its socket to the message.
pub record Way : Type 0 where
  pub net : Net
  pub replies : List Reply

-- One attempt of either kind, `moves` being the work over the connection: whether the file moved, and what
-- is held after it. `none`: a socket never answers.
unfoldable pub attempt : Way → Option Bool → (message : Text) → Held → Option (Bool × Held)
unfolding send_tcp_string_without_closesocket
attempt way moves message h =
    elim (send_tcp_string_without_closesocket way.net way.replies message h) [
      | none ↦ none
      | some (sent, h', bytes) ↦
          if sent
          then elim moves [ none ↦ none | some moved ↦ some (moved, release_socket h') ]
          else some (false, h')
    ]

-- The rounds that are left, one attempt each, until one succeeds.
unfoldable pub attempts : ℕ → List (Way × Option Bool) → Text → Held → Option (Bool × Held)
unfolding attempt
attempts zero tries message h = some (false, h)
attempts (suc n) [] message h = none
attempts (suc n) ((way, moves) ∷ tries) message h = do
  (moved, h') ← attempt way moves message h
  if moved then some (true, h') else attempts n tries message h'

-- An attempt to get a file: the disk, the answers to the receiving and what the peer sends.
pub record Try : Type 0 where
  pub way : Way
  pub disk : Disk
  pub answers : List Reply
  pub wire : Text

abbrev pub getting : Try → Way × Option Bool
getting t = (
  t.way,
  elim (receive_small_file true t.disk t.answers t.wire) [
    | none ↦ none
    | some (got, file) ↦ some got
  ],
)

-- `GetFileMsg`, `message` being the request that it writes.
unfoldable pub get_file_msg : List Try → (message : Text) → Held → Option (Bool × Held)
unfolding attempts
get_file_msg tries message h = attempts max_try_times (map getting tries) message h

-- An attempt to send a file: the file as the disk gives it, and the answers to the sending.
pub record Offer : Type 0 where
  pub way : Way
  pub source : Source
  pub answers : List Reply

abbrev pub sending : Offer → Way × Option Bool
sending t = (
  t.way,
  elim (send_small_file true t.source t.answers) [ none ↦ none | some (sent, wire) ↦ some sent ],
)

-- The part of a path after its last `\`.
unfoldable pub file_name_from : (last : Text) → Text → Text
file_name_from last [] = last
file_name_from last (c ∷ cs) =
    let after = file_name_from cs cs in
    let further = file_name_from last cs in if c == b'\\' then after else further

unfoldable pub file_name : Text → Text
unfolding file_name_from
file_name path = file_name_from path path

-- `SendFileMsg` for the number of a file; `message` writes the message for the name of the file.
unfoldable pub send_file_msg :
    (to_ansi : Text → Text)
    → List Offer
    → (message : Text → Text) (file_id : ℤ) → SendFileList
    → Held
    → Option (Bool × Held)
unfolding attempts file_name
send_file_msg to_ansi offers message file_id files h = elim (get_file_path file_id files) [
  | none ↦ some (false, h)
  | some path ↦ attempts max_try_times (map sending offers) (message (file_name (to_ansi path))) h
]
