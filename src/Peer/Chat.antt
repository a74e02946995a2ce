-- ===== src/Peer/Chat.antt =====
-- kernel/Listener/ClientMsgListener.cpp: the handler of a chat text, with the files that its marks name.
use v6chat.Ack.Pool.{max_try_times}
use v6chat.Base.{ℕ, zero, suc, not, ◌&&◌, some, List, [], ◌∷◌, ◌++◌, ◌==◌, map, length}
use v6chat.FileList.Numbering
use v6chat.FileList.Received.{add_file_name, get_downloaded_file_number}
use v6chat.Numbers.{ℤ, pos}
use v6chat.Peer.Callbacks.{for_user, tells}
use v6chat.Peer.Kernel.{World, posted, Proc, ◌⨾◌, when, reads, needs, either, given, user_content}
use v6chat.Peer.Listener.{Datagram}
use v6chat.Peer.Sender.{normal_msg_ack, gets_file}
use v6chat.Peer.Texts.{renumber}
use v6chat.Text.Decimal.{print, atoi}
use v6chat.Text.{Text, codes}
use v6chat.User.Chat.{show_chat_content}
use v6chat.User.UserList.{get_user_uid_by_ip, get_user_tcp_port_by_uid}

-- The name under which a file of a peer is stored, and its path.
unfoldable pub received_name : World → (uid : ℕ) (number name : Text) → Text
received_name w uid number name = print uid ++ b'_' ∷ w.local_time ++ b'_' ∷ number ++ b'_' ∷ name

unfoldable pub received_path : World → (file_name : Text) → Text
received_path w file_name = w.recv_dir ++ b'\\' ∷ file_name

-- `Sleep(100)`: the other threads go on.
unfoldable pub sleeps : World → (round : ℕ) → Proc
unfolding Numbering.run
sleeps w round k = some (record k { recv_files = Numbering.run k.recv_files (w.asleep round) }, [])

-- The rounds that are left of the wait for a file that the peer has sent; 0 stands for no file.
unfoldable pub awaits : World → (uid : ℕ) (number : Text) (rounds : ℕ) → (ℤ → Proc) → Proc
unfolding get_downloaded_file_number sleeps
awaits w uid number zero continue_with = continue_with (pos 0)
awaits w uid number (suc n) continue_with =
    let later = sleeps w n ⨾ awaits w uid number n continue_with in
    reads (λ k.
      given (get_downloaded_file_number (pos uid) number k.recv_files) later
        (λ found. continue_with (pos found)))

-- A file that was fetched joins the list.
unfoldable pub stores_file : World → (file_name : Text) → (ℤ → Proc) → Proc
unfolding add_file_name
stores_file w file_name continue_with k =
    let (n, files) =
      add_file_name w.unset_download w.unset_uid (w.ansi_to_unicode file_name) k.recv_files in
    continue_with (pos n) (record k { recv_files = files })

-- The number here of the file that the peer calls `number`; an empty name says that it was sent already.
unfoldable pub new_number : World → Text → ℤ → (uid : ℕ) (number name : Text) → (ℤ → Proc) → Proc
unfolding awaits gets_file stores_file received_name received_path
new_number w ip tcp_port uid number name continue_with =
    let file_name = received_name w uid number name in
    either (length name == 0) (awaits w uid number max_try_times continue_with) (
      gets_file w ip tcp_port (atoi number) (received_path w file_name)
        (λ got. either got (stores_file w file_name continue_with) (continue_with (pos 0))))

-- The loop over `file_list`: the marks of the text are replaced one file after the other.
unfoldable pub renumbers :
    (w : World) → Text → ℤ → (uid : ℕ) → List (Text × w.json.Value) → Text → (Text → Proc) → Proc
unfolding new_number renumber
renumbers w ip tcp_port uid [] text continue_with = continue_with text
renumbers w ip tcp_port uid ((number, value) ∷ more) text continue_with =
    needs (w.json.as_string value) (λ name.
      new_number w ip tcp_port uid number name
        (λ n. renumbers w ip tcp_port uid more (renumber text (atoi number) n) continue_with))

-- `ShowChatContent`
unfoldable pub shows_chat : World → ℕ → Proc
unfolding show_chat_content
shows_chat w uid k =
    let (unread, posts) = show_chat_content w.backend.is_open w.unset_port uid k.users k.unread in
    some (record k { unread = unread }, map posted posts)

-- The end of the handler, for the text with its new numbers.
unfoldable pub delivers : World → ℕ → Text → Proc
unfolding tells shows_chat
delivers w uid text = tells w uid (w.ansi_to_unicode text) user_content ⨾ shows_chat w uid

-- The part about `file_list`.
unfoldable pub with_files : (w : World) → Datagram w.json → ℤ → Text → (Text → Proc) → Proc
unfolding renumbers
with_files w d tcp_port text continue_with =
    let file_list = w.json.member (codes "file_list") d.content in
    either (w.json.is_null file_list) (continue_with text) (
      needs (w.json.as_c_string file_list) (λ listing.
        given (w.json.parse listing) (continue_with text) (λ files. reads (λ k.
          renumbers w d.ip tcp_port (get_user_uid_by_ip d.ip k.users) (w.json.members files) text
            continue_with))))

-- `OnChatWithTextMsg`
unfoldable pub on_chat_with_text_msg : (w : World) → Datagram w.json → Proc
unfolding for_user normal_msg_ack with_files delivers
on_chat_with_text_msg w d = for_user d.ip (λ uid.
    let text = w.json.member (codes "text") d.content in
    when
      (not (w.json.is_null text) && not (w.json.is_null (w.json.member (codes "time") d.content)))
      (reads (λ k.
        let tcp_port = get_user_tcp_port_by_uid uid k.users in
        normal_msg_ack w d.ip d.port d.mid
        ⨾ needs (w.json.as_c_string text) (λ text. with_files w d tcp_port text (delivers w uid)))))
