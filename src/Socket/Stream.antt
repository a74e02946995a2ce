-- ===== src/Socket/Stream.antt =====
-- socket_interface/socket_interface.cpp: length-prefixed data over a connection. A byte is a number. What
-- `send` and `recv` do is a list of replies, one for each call; where the list ends, the call is still
-- waiting, and the function has not returned (`none`).
use v6chat.Base.{
  ℕ, zero, suc, ◌+◌, ◌-◌, ◌*◌, ◌/◌, ◌%◌, ◌^◌, Bool, true, false, ◌||◌, Option, none, some, List, [],
  ◌∷◌, ltb, leb, ◌==◌, if◌then◌else◌, length, take, drop, ◌++◌, min,
}
use v6chat.Text.{Text}

-- `failed` is SOCKET_ERROR; `moved k` takes at most `k` bytes (`send` of the data it is given, `recv` of
-- what has arrived and is asked for).
pub data Reply : Type 0 where
  failed : Reply
  moved : ℕ → Reply

-- An `int` as its four bytes, the least first.
abbrev pub int_bytes : ℕ → Text
int_bytes n = n % 256 ∷ n / 256 % 256 ∷ n / 256 / 256 % 256 ∷ n / 256 / 256 / 256 % 256 ∷ []

-- Fewer than four bytes leave the others of the variable 0.
abbrev pub int_of : Text → ℕ
int_of [] = 0
int_of (b ∷ bs) = b + 256 * int_of bs

-- The loop of `send_binary_data`: the count of bytes sent, and the bytes on the wire.
unfoldable pub send_loop :
    List Reply → (rest : Text) (sendedlen : ℕ) (wire : Text) → Option (ℕ × Text)
send_loop script [] sendedlen wire = some (sendedlen, wire)
send_loop [] (c ∷ cs) sendedlen wire = none
send_loop (failed ∷ script) (c ∷ cs) sendedlen wire = some (sendedlen, wire)
send_loop (moved k ∷ script) (c ∷ cs) sendedlen wire =
    send_loop script (drop k (c ∷ cs)) (sendedlen + min k (length (c ∷ cs)))
      (wire ++ take k (c ∷ cs))

-- `send_binary_data`; `open` says that the socket is not SOCKET_ERROR. A length that was sent only in
-- part is not sent again.
unfoldable pub send_binary_data : (valid : Bool) → List Reply → Text → Option (ℕ × Text)
unfolding send_loop
send_binary_data false script bin = some (0, [])
send_binary_data true [] bin = none
send_binary_data true (failed ∷ script) bin = some (0, [])
send_binary_data true (moved k ∷ script) bin =
    let wire = take k (int_bytes (length bin)) in
    if length bin == 0 then some (0, wire) else send_loop script bin 0 wire

-- The loop of `receive_binary_data` with `left` bytes to come: the bytes received, and what stays on the
-- wire. A call that yields no byte ends it, as the end of the connection does.
unfoldable pub receive_loop : List Reply → (left : ℕ) (got wire : Text) → Option (Text × Text)
receive_loop script zero got wire = some (got, wire)
receive_loop [] (suc n) got wire = none
receive_loop (failed ∷ script) (suc n) got wire = some (got, wire)
receive_loop (moved k ∷ script) (suc n) got wire =
    let part = take (min k (suc n)) wire in
    let more =
      receive_loop script (suc n - length part) (got ++ part) (drop (min k (suc n)) wire) in
    if length part == 0 then some (got, wire) else more

-- The size is an `int`: a negative one, which is no larger than any buffer, ends the loop at once.
unfoldable pub is_refused : (size binlen : ℕ) → Bool
is_refused size binlen = size == 0 || leb (2 ^ 31) size || ltb binlen size

-- `receive_binary_data` into a buffer of `binlen` bytes: the bytes received.
unfoldable pub receive_binary_data :
    (valid : Bool) → List Reply → (binlen : ℕ) (wire : Text) → Option (Text × Text)
unfolding receive_loop is_refused
receive_binary_data false script binlen wire = some ([], wire)
receive_binary_data true [] binlen wire = none
receive_binary_data true (failed ∷ script) binlen wire = some ([], wire)
receive_binary_data true (moved k ∷ script) binlen wire =
    let size = int_of (take (min k 4) wire) in
    let rest = drop (min k 4) wire in
    if is_refused size binlen then some ([], rest) else receive_loop script size [] rest
