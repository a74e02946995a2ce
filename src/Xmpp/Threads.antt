-- ===== src/Xmpp/Threads.antt =====
-- xmpp_interface/XmppFileTransfer.cpp: the threads that send and receive a file over its byte stream. What
-- gloox answers in each round of a loop is an argument; a list that ends is a loop that still runs.
use v6chat.Base.{
  ℕ, ◌+◌, Bool, true, false, not, Option, none, some, List, [], ◌∷◌, ltb, if◌then◌else◌, length,
  take, drop,
}
use v6chat.Text.{Text}
use v6chat.Xmpp.File.{Stream, FileInformation, Ended, handle_socks5_close}

-- BLOCK_SIZE
abbrev pub block_size : ℕ
block_size = 2048

-- One round of the loop of `sendFileThread`: whether the stream is open, and whether it takes the data.
pub record Round : Type 0 where
  pub is_open : Bool
  pub sends : Text → Bool

-- What a thread did: the pieces that it sent, what the close of the stream reported to `ftListener`, whether
-- it handed the stream to `dispose`, and whether it freed its package.
pub record Sent : Type 0 where
  pub pieces : List Text
  pub ended : List Ended
  pub disposed : Bool
  pub freed : Bool

-- The loop: `left` is what is left of the file, `eof` whether a read met its end. A read of `block_size`
-- bytes meets the end where fewer are left. The result is the pieces, the bytes handed, and whether the
-- loop ended by `hasFinish`. A file whose size is a multiple of `block_size` has an empty last piece.
unfoldable pub send_loop :
    List Round → (left : Text) → (eof : Bool) → (handed : ℕ) → Option (List Text × ℕ × Bool)
send_loop [] left eof handed = none
send_loop (r ∷ rounds) left eof handed =
    let piece = take block_size left in
    let next =
      send_loop rounds (drop block_size left) (ltb (length left) block_size)
        (handed + length piece) in
    let again = send_loop rounds left eof handed in
    if eof
    then some ([], handed, true)
    else if not r.is_open
    then again
    else if not (r.sends piece)
    then some ([], handed, false)
    else elim next [
      | none ↦ none
      | some (pieces, handed', ended) ↦ some (piece ∷ pieces, handed', ended)
    ]

-- `SOCKStream->close()`, or the destructor that `dispose` calls: a stream that is open calls
-- `handleSOCKS5Close` of its handler before it returns.
unfoldable pub closes_stream :
    (is_open : Bool) → Stream → FileInformation → Option (FileInformation × List Ended)
closes_stream is_open s fi = if is_open then handle_socks5_close s fi else some (fi, [])

-- `sendFileThread`; `file`: the content of the file, if it opens; `open_at_end`: whether the stream is open
-- when it is closed. Outer `none`: the record has no stream, and the thread reads through NULL, the handler
-- crashes, or the loop still runs.
unfoldable pub send_file_thread :
    (file : Option Text)
    → List Round
    → (open_at_end : Bool) → FileInformation
    → Option (FileInformation × Sent)
unfolding send_loop closes_stream
send_file_thread file rounds open_at_end fi = elim fi.socks_stream [
  | none ↦ none
  | some s ↦ elim file [
    | none ↦ elim (closes_stream open_at_end s fi) [
      | none ↦ none
      | some (fi', ended) ↦
          some (fi', record { pieces = []; ended = ended; disposed = false; freed = false })
    ]
    | some content ↦ elim (send_loop rounds content false fi.handedsize) [
      | none ↦ none
      | some (pieces, handed, finished) ↦
          elim (closes_stream open_at_end s (record fi { handedsize = handed })) [
            | none ↦ none
            | some (fi', ended) ↦ some (
              record fi' { socks_stream = none },
              record { pieces = pieces; ended = ended; disposed = true; freed = true },
            )
          ]
    ]
  ]
]

-- The loop of `recvFileThread`: `recv(100)`, until it does not return ConnNoError.
unfoldable pub recv_loop : List Bool → Option ℕ
recv_loop [] = none
recv_loop (no_error ∷ answers) =
    let rest = recv_loop answers in
    if no_error then elim rest [ none ↦ none | some n ↦ some (n + 1) ] else some 1

-- `recvFileThread`, which is handed the record as the handlers left it during the loop.
unfoldable pub recv_file_thread :
    List Bool
    → (open_at_end : Bool) → (left_by_handlers : FileInformation) → FileInformation
    → Option (FileInformation × Sent)
unfolding recv_loop closes_stream
recv_file_thread answers open_at_end left_by_handlers fi = elim fi.socks_stream [
  | none ↦ none
  | some s ↦ elim (recv_loop answers) [
    | none ↦ none
    | some n ↦ elim (closes_stream open_at_end s left_by_handlers) [
      | none ↦ none
      | some (fi', ended) ↦ some (
        record fi' { socks_stream = none },
        record { pieces = []; ended = ended; disposed = true; freed = true },
      )
    ]
  ]
]
