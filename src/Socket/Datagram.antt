-- ===== src/Socket/Datagram.antt =====
-- socket_interface/socket_interface.cpp: the functions that send one datagram, and one string over a
-- connection, with the WinSock resources that they take and give back.
use v6chat.Base.{
  ℕ, ◌+◌, ◌-◌, Bool, false, not, Option, none, some, ltb, ◌==◌, if◌then◌else◌, length,
}
use v6chat.Text.{Text}

-- BUFFER_SIZE of socket_interface.h.
abbrev pub buffer_size : ℕ
buffer_size = 1024

-- What a function holds: WSAStartup not yet matched by WSACleanup, address lists, open sockets.
pub record Held : Type 0 where
  pub started : ℕ
  pub addrs : ℕ
  pub sockets : ℕ

abbrev pub nothing : Held
nothing = record { started = 0; addrs = 0; sockets = 0 }

abbrev pub wsa_startup : Held → Held
wsa_startup h = record h { started = h.started + 1 }

abbrev pub wsa_cleanup : Held → Held
wsa_cleanup h = record h { started = h.started - 1 }

abbrev pub getaddrinfo : Held → Held
getaddrinfo h = record h { addrs = h.addrs + 1 }

abbrev pub freeaddrinfo : Held → Held
freeaddrinfo h = record h { addrs = h.addrs - 1 }

abbrev pub open_socket : Held → Held
open_socket h = record h { sockets = h.sockets + 1 }

abbrev pub closesocket : Held → Held
closesocket h = record h { sockets = h.sockets - 1 }

-- The answers of WinSock to one call of a function: whether WSAStartup gives version 2.2, whether the
-- address resolves, whether the socket is made, the option set and the connection made, and how many
-- bytes `sendto` reports (`none` is SOCKET_ERROR).
pub record Net : Type 0 where
  pub startup : Bool
  pub resolves : Bool
  pub socket_made : Bool
  pub option_set : Bool
  pub connects : Bool
  pub sendto : ℕ → Option ℕ

-- The result, what is still held, and the datagram that left, if one did.
abbrev pub Outcome : Type 0
Outcome = Bool × Held × Option Text

sent_of : Option ℕ → Text → Option Text
sent_of none t = none
sent_of (some n) t = some t

-- The last part of `send_udp_string`, from the call of `sendto` on.
udp_finish : Net → Text → Held → Outcome
unfolding sent_of
udp_finish net string h =
    let stringlen = length string + 1 in
    let reply = net.sendto stringlen in
    let h' = wsa_cleanup (freeaddrinfo (closesocket h)) in
    elim reply [
      | none ↦ (false, h', none)
      | some sendedlen ↦ (sendedlen == stringlen, h', some string)
    ]

unfoldable pub send_udp_string : Net → Text → Held → Outcome
unfolding udp_finish
send_udp_string net string h =
    if ltb buffer_size (length string + 1)
    then (false, h, none)
    else if not net.startup
    then (false, h, none)
    else if not net.resolves
    then (false, wsa_startup h, none)
    else if not net.socket_made
    then (false, wsa_cleanup (freeaddrinfo (getaddrinfo (wsa_startup h))), none)
    else udp_finish net string (open_socket (getaddrinfo (wsa_startup h)))

-- The socket is the caller's; `none` is SOCKET_ERROR. The address list is given back only where `sendto`
-- fails.
unfoldable pub send_udp_string_by_socket : Option ℕ → Net → Text → Held → Outcome
send_udp_string_by_socket none net string h = (false, h, none)
send_udp_string_by_socket (some sockfd) net string h =
    let stringlen = length string + 1 in
    if ltb buffer_size stringlen
    then (false, h, none)
    else if not net.resolves
    then (false, h, none)
    else elim (net.sendto stringlen) [
      | none ↦ (false, freeaddrinfo (getaddrinfo h), none)
      | some sendedlen ↦ (sendedlen == stringlen, getaddrinfo h, some string)
    ]

-- `(sendedlen = sendto(…) == SOCKET_ERROR)` assigns the comparison: 1 where `sendto` fails, else 0.
compared : Option ℕ → ℕ
compared none = 1
compared (some n) = 0

multicast_finish : Net → Text → Held → Outcome
unfolding compared sent_of
multicast_finish net string h =
    let stringlen = length string + 1 in
    let sendedlen = compared (net.sendto stringlen) in
    let h' = wsa_cleanup (freeaddrinfo (closesocket h)) in
    if sendedlen == 0
    then (sendedlen == stringlen, h', sent_of (net.sendto stringlen) string)
    else (false, h', none)

unfoldable pub multicast_string : Net → Text → Held → Outcome
unfolding multicast_finish
multicast_string net string h =
    if ltb buffer_size (length string + 1)
    then (false, h, none)
    else if not net.startup
    then (false, h, none)
    else if not net.resolves
    then (false, wsa_startup h, none)
    else if not net.socket_made
    then (false, wsa_cleanup (freeaddrinfo (getaddrinfo (wsa_startup h))), none)
    else if not net.option_set
    then (
      false,
      wsa_cleanup (freeaddrinfo (closesocket (open_socket (getaddrinfo (wsa_startup h))))),
      none,
    )
    else multicast_finish net string (open_socket (getaddrinfo (wsa_startup h)))
