-- ===== src/Tests/Sockets.antt =====
-- Sockets: short strings and files over a good and a bad network.
use v6chat.Base.{◌≡◌, refl, true, false, none, some, List, [], ◌∷◌, ◌++◌, arith, length}
use v6chat.Socket.Connection.{Disk, send_tcp_string, connect_fails, tcp_child_listen_thread}
use v6chat.Socket.Datagram.{Held, Net, nothing}
use v6chat.Socket.Faults.{tcp_child_listen_thread-waits, tcp_child_listen_thread-send_tcp_string}
use v6chat.Socket.Framing.{IsSteady, receive_binary_data-send_binary_data}
use v6chat.Socket.Stream.{Reply, moved, int_bytes, send_binary_data, receive_binary_data}
use v6chat.Text.{Text, codes}

abbrev pub good : Net
good = record {
  startup = true;
  resolves = true;
  socket_made = true;
  option_set = true;
  connects = true;
  sendto = λ n. some n;
}

-- No address resolves.
abbrev lost : Net
lost = record good { resolves = false }

-- Four bytes at once, then one at a time.
abbrev pub slow : List Reply
slow = moved 1 ∷ moved 1 ∷ moved 1 ∷ moved 1 ∷ []

pub slow-IsSteady : IsSteady slow
slow-IsSteady = (omega arith, (omega arith, (omega arith, (omega arith, tt))))

receive_binary_data-send_binary_data_example :
    (wire : Text) × (send_binary_data true (moved 4 ∷ slow) (codes "abc")
      ≡ some (length (codes "abc"), wire))
    × (receive_binary_data true (moved 4 ∷ slow) 10 (wire ++ codes "z")
        ≡ some (codes "abc", codes "z"))
receive_binary_data-send_binary_data_example =
    receive_binary_data-send_binary_data (codes "abc") (codes "z") slow slow 4 4 10 (omega arith)
      (omega arith) (omega arith) slow-IsSteady slow-IsSteady (omega arith) (omega arith)
      (omega arith) (omega arith)

tcp_child_listen_thread-waits_example :
    tcp_child_listen_thread true (moved 4 ∷ slow) (int_bytes 9 ++ codes "abc") ≡ none
tcp_child_listen_thread-waits_example =
    tcp_child_listen_thread-waits slow 9 4 (codes "abc") tt (omega arith) (omega arith)
      (omega arith)

tcp_child_listen_thread-send_tcp_string_example :
    (held : Held) × (wire : Text) × (send_tcp_string good (moved 4 ∷ slow) (codes "abc") nothing
      ≡ some (true, held, wire))
    × (tcp_child_listen_thread true (moved 4 ∷ slow) wire ≡ some (some (codes "abc")))
unfolding connect_fails
tcp_child_listen_thread-send_tcp_string_example =
    tcp_child_listen_thread-send_tcp_string good (codes "abc") slow slow 4 4 nothing refl
      (omega arith, (omega arith, (omega arith, tt))) (omega arith) slow-IsSteady slow-IsSteady
      (omega arith) (omega arith) (omega arith) (omega arith)

abbrev disk : Disk
disk = record { opens = true; allocates = λ n. true; writes = λ n. n }
