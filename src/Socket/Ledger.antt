-- ===== src/Socket/Ledger.antt =====
-- Which resources the datagram functions give back, and what their results mean.
use v6chat.Base.{
  ℕ, ◌+◌, ◌≡◌, Bool, false, not, ◌&&◌, Option, none, some, arith, leb, ◌==◌, if◌then◌else◌, length,
}
use v6chat.Socket.Datagram.{
  Held, Net, buffer_size, send_udp_string, send_udp_string_by_socket, multicast_string,
}
use v6chat.OrderedMap.{is_some}
use v6chat.Text.{Text}

-- The string with its NUL fits, WinSock starts, and the address does not resolve.
abbrev pub gives_up_early : Net → Text → Bool
gives_up_early net string = leb (length string + 1) buffer_size && net.startup && not net.resolves

-- `send_udp_string` gives back all that it takes, on every path but one: where the string fits, WinSock
-- starts and the address does not resolve, one WSAStartup stays without its WSACleanup.
pub send_udp_string-held :
    (net : Net) (string : Text) (h : Held)
    → (send_udp_string net string h).1
      ≡ record h { started = h.started + (if gives_up_early net string then 1 else 0) }
unfolding send_udp_string
send_udp_string-held net string h = ground arith

-- The whole datagram, the NUL included, was handed over.
abbrev pub hands_over : Net → ℕ → Bool
hands_over net n = elim (net.sendto n) [ none ↦ false | some sent ↦ sent == n ]

-- `send_udp_string` answers `true` exactly if the string with its NUL fits the buffer size, WinSock
-- starts, the address resolves, the socket is made, and `sendto` takes all its bytes.
pub send_udp_string-true :
    (net : Net) (string : Text) (h : Held)
    → (send_udp_string net string h).0 ≡ (
        leb (length string + 1) buffer_size
        && net.startup
        && net.resolves
        && net.socket_made
        && hands_over net (length string + 1))
unfolding send_udp_string
send_udp_string-true net string h = ground arith

-- Whether a datagram left.
abbrev pub left_count : Option Text → ℕ
left_count none = 0
left_count (some t) = 1

-- `send_udp_string_by_socket` keeps an address list for each datagram that leaves, and gives back all
-- that it takes where none leaves.
pub send_udp_string_by_socket-held :
    (sock : Option ℕ) (net : Net) (string : Text) (h : Held)
    → (let (sent, held, left) = send_udp_string_by_socket sock net string h in
        held ≡ record h { addrs = h.addrs + left_count left })
unfolding send_udp_string_by_socket
send_udp_string_by_socket-held none net string h = ground arith
send_udp_string_by_socket-held (some s) net string h = ground arith

-- `multicast_string` answers `false` whatever happens, also where the datagram leaves: it leaves exactly
-- if the string with its NUL fits, WinSock starts, the address resolves, the socket is made, the option
-- is set and `sendto` does not fail.
pub multicast_string-false :
    (net : Net) (string : Text) (h : Held)
    → (let (sent, held, left) = multicast_string net string h in
        (sent ≡ false)
        × (left_count left ≡ (
            if leb (length string + 1) buffer_size
              && net.startup
              && net.resolves
              && net.socket_made
              && net.option_set
              && is_some (net.sendto (length string + 1))
            then 1
            else 0)))
unfolding multicast_string
multicast_string-false net string h = ground arith
