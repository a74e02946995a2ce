-- ===== src/Xmpp/Runs.antt =====
-- Runs of the table of files, with the handlers and the threads of its entries.
use v6chat.Base.{◌≡◌, ◌⊎◌, Bool, Option, none, some, List, [], ◌∷◌, arith, ◌>>=◌, inl, inr}
use v6chat.Numbers.{ℤ}
use v6chat.Text.{Text}
use v6chat.Xmpp.File.{
  Stream, FileInformation, write_file, handle_socks5_data, handle_socks5_open, handle_socks5_error,
  handle_socks5_close, close_file,
}
use v6chat.Xmpp.Table.{
  XmppFileTransfer, Request, find_file, change_file, handle_ft_request, handle_ft_request_error,
  handle_ft_socks5_bytestream, start, close, send_file,
}
use v6chat.Xmpp.Threads.{Round, closes_stream, send_file_thread, recv_file_thread}

-- What gloox, the threads and the user do with the table. The last six act on the entry under a number.
pub data Operation : Type 0 where
  requested : (answer : Option Text) → Request → Operation
  refused : (server sid : Text) → Operation
  streamed : (connects : Bool) → Stream → Operation
  started : (listens : Bool) → Operation
  closed : Operation
  offered : (size : Option ℤ) → (sid file_path : Text) → Operation
  stream_opened : (sid : Text) → (opens : Bool) → Operation
  data_came : (sid : Text) → (is_open writes : Bool) → Text → Operation
  stream_broke : (sid : Text) → Stream → Operation
  stream_closed : (sid : Text) → Stream → Operation
  file_sent : (sid : Text) → (file : Option Text) → List Round → (open_at_end : Bool) → Operation
  file_received : (sid : Text) → List Bool → (open_at_end : Bool) → Operation

-- A handler or a thread at its entry.
unfoldable pub on_file :
    Text → (FileInformation → Option FileInformation) → XmppFileTransfer → Option XmppFileTransfer
on_file sid f t = elim (find_file sid t.file_list) [
  | none ↦ some t
  | some fi ↦ f fi >>= λ fi'. some (record t { file_list = change_file sid fi' t.file_list })
]

unfoldable pub first_part {ℓ κ} : {A : Type ℓ} {B : Type κ} → Option (A × B) → Option A
first_part none = none
first_part (some (a, b)) = some a

-- `none`: the program crashes, or a thread still runs.
unfoldable pub after : (Text → Text) → Operation → XmppFileTransfer → Option XmppFileTransfer
unfolding on_file first_part
after to_ansi (requested answer r) t = some (handle_ft_request to_ansi answer r t).0
after to_ansi (refused server sid) t = first_part (handle_ft_request_error server sid t)
after to_ansi (streamed connects s5b) t = first_part (handle_ft_socks5_bytestream connects s5b t)
after to_ansi (started listens) t = some (start listens t).1
after to_ansi closed t = some (close t)
after to_ansi (offered size sid file_path) t = some (send_file to_ansi size sid file_path t).1
after to_ansi (stream_opened sid opens) t = on_file sid (λ fi. some (handle_socks5_open opens fi)) t
after to_ansi (data_came sid is_open writes piece) t =
    on_file sid (handle_socks5_data is_open writes piece) t
after to_ansi (stream_broke sid s5b) t =
    on_file sid (λ fi. first_part (handle_socks5_error s5b fi)) t
after to_ansi (stream_closed sid s5b) t =
    on_file sid (λ fi. first_part (handle_socks5_close s5b fi)) t
after to_ansi (file_sent sid file rounds open_at_end) t =
    on_file sid (λ fi. first_part (send_file_thread file rounds open_at_end fi)) t
after to_ansi (file_received sid answers open_at_end) t =
    on_file sid (λ fi. first_part (recv_file_thread answers open_at_end fi fi)) t

unfoldable pub run : (Text → Text) → List Operation → XmppFileTransfer → Option XmppFileTransfer
unfolding after
run to_ansi [] t = some t
run to_ansi (op ∷ ops) t = do t' ← after to_ansi op t; run to_ansi ops t'

-- The stream of a record stays, or is given back.
abbrev pub KeepsStream : FileInformation → FileInformation → Type 0
KeepsStream fi fi' = (fi'.socks_stream ≡ fi.socks_stream) ⊎ (fi'.socks_stream ≡ none)

pub data-KeepsStream :
    (is_open writes : Bool) (piece : Text) (fi fi' : FileInformation)
    → handle_socks5_data is_open writes piece fi ≡ some fi'
    → KeepsStream fi fi'
unfolding handle_socks5_data write_file
data-KeepsStream is_open writes piece fi fi' e = inl (ground arith)

pub open-KeepsStream :
    (opens : Bool) (fi : FileInformation) → KeepsStream fi (handle_socks5_open opens fi)
unfolding handle_socks5_open
open-KeepsStream opens fi = inl (ground arith)

pub error-KeepsStream :
    (s5b : Stream) (fi fi' : FileInformation)
    → first_part (handle_socks5_error s5b fi) ≡ some fi'
    → KeepsStream fi fi'
unfolding first_part handle_socks5_error close_file
error-KeepsStream s5b fi fi' e = inl (ground arith)

pub close-KeepsStream :
    (s5b : Stream) (fi fi' : FileInformation)
    → first_part (handle_socks5_close s5b fi) ≡ some fi'
    → KeepsStream fi fi'
unfolding first_part handle_socks5_close close_file
close-KeepsStream s5b fi fi' e = inl (ground arith)

pub send-KeepsStream :
    (file : Option Text) (rounds : List Round) (open_at_end : Bool) (fi fi' : FileInformation)
    → first_part (send_file_thread file rounds open_at_end fi) ≡ some fi'
    → KeepsStream fi fi'
unfolding first_part send_file_thread closes_stream handle_socks5_close close_file
send-KeepsStream none rounds open_at_end fi fi' e = inl (ground arith)
send-KeepsStream (some content) rounds open_at_end fi fi' e = inr (ground arith)

pub recv-KeepsStream :
    (answers : List Bool) (open_at_end : Bool) (fi fi' : FileInformation)
    → first_part (recv_file_thread answers open_at_end fi fi) ≡ some fi'
    → KeepsStream fi fi'
unfolding first_part recv_file_thread closes_stream
recv-KeepsStream answers open_at_end fi fi' e = inr (ground arith)
