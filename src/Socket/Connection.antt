-- ===== src/Socket/Connection.antt =====
-- socket_interface/socket_interface.cpp: one string over a connection of its own (`send_tcp_string` and
-- its variant that leaves the socket open), the thread that receives it (`tcp_child_listen_thread`),
-- and the reception of a small file.
use v6chat.Base.{
  ℕ, zero, suc, ◌-◌, ◌*◌, ◌^◌, Bool, true, false, not, ◌&&◌, ◌||◌, Option, none, some, List, [],
  ◌∷◌, ltb, leb, ◌==◌, if◌then◌else◌, length, take, drop, ◌++◌, min,
}
use v6chat.Socket.Datagram.{
  Held, Net, buffer_size, wsa_startup, wsa_cleanup, getaddrinfo, freeaddrinfo, open_socket,
  closesocket,
}
use v6chat.Socket.Stream.{
  Reply, failed, moved, int_bytes, int_of, send_loop, send_binary_data, receive_loop,
}
use v6chat.Text.{Text}

-- The bytes of a C string with its NUL.
abbrev pub with_nul : Text → Text
with_nul s = s ++ 0 ∷ []

-- The length and the string over a connected socket: whether all was sent, and the wire.
unfoldable pub send_string : List Reply → Text → Option (Bool × Text)
unfolding send_loop
send_string [] string = none
send_string (failed ∷ script) string = some (false, [])
send_string (moved k ∷ script) string =
    let bytes = with_nul string in
    elim (send_loop script bytes 0 (take k (int_bytes (length bytes)))) [
      | none ↦ none
      | some (sendedlen, wire) ↦ some (sendedlen == length bytes, wire)
    ]

-- What is held once the connection stands: the address list was given back.
abbrev pub connected : Held → Held
connected h = freeaddrinfo (open_socket (getaddrinfo (wsa_startup h)))

-- The way to a connection: what is held where it ends early, or else `none`.
unfoldable pub connect_fails : Net → Held → Option Held
connect_fails net h =
    if not net.startup
    then some h
    else if not net.resolves
    then some (wsa_startup h)
    else if not net.socket_made
    then some (wsa_cleanup (freeaddrinfo (getaddrinfo (wsa_startup h))))
    else if not net.connects
    then some (wsa_cleanup (freeaddrinfo (closesocket (open_socket (getaddrinfo (wsa_startup h))))))
    else none

-- Result, what is held, and the bytes on the wire. `close` gives the socket and WinSock back.
unfoldable pub send_tcp_string : Net → List Reply → Text → Held → Option (Bool × Held × Text)
unfolding connect_fails send_string
send_tcp_string net script string h = elim (connect_fails net h) [
  | some h' ↦ some (false, h', [])
  | none ↦ elim (send_string script string) [
    | none ↦ none
    | some (done, wire) ↦ some (done, wsa_cleanup (closesocket (connected h)), wire)
  ]
]

-- Where all was sent, the socket stays open and is the caller's.
unfoldable pub send_tcp_string_without_closesocket :
    Net → List Reply → Text → Held → Option (Bool × Held × Text)
unfolding connect_fails send_string
send_tcp_string_without_closesocket net script string h = elim (connect_fails net h) [
  | some h' ↦ some (false, h', [])
  | none ↦ elim (send_string script string) [
    | none ↦ none
    | some (done, wire) ↦
        some (done, (if done then connected h else wsa_cleanup (closesocket (connected h))), wire)
  ]
]

-- The loop of `tcp_child_listen_thread`: only a failure ends it early; a call that yields no byte does
-- not.
unfoldable pub child_loop : List Reply → (left : ℕ) (got wire : Text) → Option Text
child_loop script zero got wire = some got
child_loop [] (suc n) got wire = none
child_loop (failed ∷ script) (suc n) got wire = some got
child_loop (moved k ∷ script) (suc n) got wire =
    let part = take (min k (suc n)) wire in
    child_loop script (suc n - length part) (got ++ part) (drop (min k (suc n)) wire)

-- The C string at the start of a buffer; `none` if `memchr` finds no NUL in it.
abbrev pub c_more : ℕ → Option Text → Option Text
c_more c none = none
c_more c (some s) = some (c ∷ s)

unfoldable pub c_string : Text → Option Text
c_string [] = none
c_string (c ∷ cs) = if c == 0 then some [] else c_more c (c_string cs)

-- `tcp_child_listen_thread`: the string that the callback is called with, if it is called. `ready` is the
-- answer of `select`.
unfoldable pub tcp_child_listen_thread :
    (ready : Bool) → List Reply → (wire : Text) → Option (Option Text)
unfolding child_loop c_string
tcp_child_listen_thread false script wire = some none
tcp_child_listen_thread true [] wire = none
tcp_child_listen_thread true (failed ∷ script) wire = some none
tcp_child_listen_thread true (moved k ∷ script) wire =
    let stringlen = int_of (take (min k 4) wire) in
    if ltb buffer_size stringlen
    then some none
    else elim (child_loop script stringlen [] (drop (min k 4) wire)) [
      | none ↦ none
      | some recbuf ↦ some (c_string recbuf)
    ]

-- SMALL_FILE_MAXSIZE of socket_interface.h.
abbrev pub small_file_maxsize : ℕ
small_file_maxsize = 10 * 1024 * 1024

-- Whether the file opens, whether `malloc` gives that many bytes, and how many bytes `fwrite` reports
-- when it is given that many.
pub record Disk : Type 0 where
  pub opens : Bool
  pub allocates : ℕ → Bool
  pub writes : ℕ → ℕ

-- The result, and the file that is left, if one is.
unfoldable pub store : Disk → Text → Bool × Option Text
store disk got = if disk.writes (length got) == length got then (true, some got) else (false, none)

-- `receive_small_file_by_tcp_socket`. The size is an `int`: for a negative one, which is not too large,
-- `malloc` is asked for its bit pattern, and the loop ends at once.
unfoldable pub receive_small_file :
    (valid : Bool) → Disk → List Reply → (wire : Text) → Option (Bool × Option Text)
unfolding receive_loop store
receive_small_file false disk script wire = some (false, none)
receive_small_file true disk script wire =
    if not disk.opens then some (false, none) else elim script [
      | [] ↦ none
      | r ∷ more ↦ elim r [
        | failed ↦ some (false, none)
        | moved k ↦
            let size = int_of (take (min k 4) wire) in
            let negative = leb (2 ^ 31) size in
            if size == 0 || (ltb small_file_maxsize size && not negative)
            then some (false, none)
            else if not (disk.allocates size)
            then some (false, none)
            else elim (receive_loop more (if negative then 0 else size) [] (drop (min k 4) wire)) [
              | none ↦ none
              | some (got, rest) ↦ some (store disk got)
            ]
      ]
    ]

-- A file that is read: its bytes if it opens, whether `malloc` gives that many bytes, and how many bytes
-- `fread` reports when it is asked for that many. `ftell` measures files below 2 ^ 31 bytes.
pub record Source : Type 0 where
  pub content : Option Text
  pub allocates : ℕ → Bool
  pub reads : ℕ → ℕ

-- `send_small_file_by_tcp_socket`: the result, and the bytes on the wire.
unfoldable pub send_small_file : (valid : Bool) → Source → List Reply → Option (Bool × Text)
unfolding send_binary_data
send_small_file false source script = some (false, [])
send_small_file true source script = elim source.content [
  | none ↦ some (false, [])
  | some bytes ↦
      let size = length bytes in
      if ltb small_file_maxsize size || not (source.allocates size)
      then some (false, [])
      else if not (source.reads size == size)
      then some (false, [])
      else elim (send_binary_data true script bytes) [
        | none ↦ none
        | some (sendlen, wire) ↦ some (sendlen == size, wire)
      ]
]
