-- ===== src/Socket/Faults.antt =====
-- What becomes of a string and of a file over a connection, whole or cut off.
use v6chat.Base.{
  ℕ, zero, suc, ◌+◌, ◌-◌, ◌≤◌, ◌<◌, ◌≡◌, refl, sym, ap, ◌∙◌, Bool, true, false, not, ◌&&◌, Option,
  none, some, List, [], ◌∷◌, arith, ◌==◌, ltb, if◌then◌else◌, length, take, drop, ◌++◌, min, All,
  append-nil, append_assoc, length-take, length-drop,
}
use v6chat.Socket.Connection.{
  with_nul, send_string, connected, connect_fails, send_tcp_string, child_loop, c_string,
  tcp_child_listen_thread,
}
use v6chat.Socket.Datagram.{Held, Net, buffer_size, wsa_cleanup, closesocket}
use v6chat.Socket.Framing.{
  IsSteady, int_of-int_bytes, take-all, take-exact, drop-exact, chunk, send_loop_steady,
}
use v6chat.Socket.Stream.{Reply, failed, moved, int_bytes, int_of}
use v6chat.Text.{Text}

-- `send_tcp_string` gives back all that it takes, on every path on which it returns but one: where WinSock
-- starts and the address does not resolve, one WSAStartup stays without its WSACleanup.
pub send_tcp_string-held :
    (net : Net) (script : List Reply) (string : Text) (h held : Held) (done : Bool) (wire : Text)
    → send_tcp_string net script string h ≡ some (done, held, wire)
    → held ≡ record h { started = h.started + (if net.startup && not net.resolves then 1 else 0) }
unfolding send_tcp_string connect_fails
send_tcp_string-held net script string h held done wire e = ground arith

-- No call fails.
abbrev pub IsOpen : List Reply → Type 0
IsOpen [] = Unit {0}
IsOpen (failed ∷ script) = ⊥
IsOpen (moved k ∷ script) = IsOpen script

child_loop-waits :
    (script : List Reply) (left : ℕ) (got wire : Text)
    → IsOpen script
    → length wire < left
    → child_loop script left got wire ≡ none
unfolding child_loop
child_loop-waits script zero got wire o h = absurd (omega arith)
child_loop-waits [] (suc n) got wire o h = refl
child_loop-waits (failed ∷ script) (suc n) got wire o h = absurd o
child_loop-waits (moved k ∷ script) (suc n) got wire o h =
    let m = min k (suc n) in
    child_loop-waits script (suc n - length (take m wire)) (got ++ take m wire) (drop m wire) o
      (omega (arith, length-take m wire, length-drop m wire))

-- What the thread makes of what its loop received.
abbrev delivered : Option Text → Option (Option Text)
delivered none = none
delivered (some recbuf) = some (c_string recbuf)

child_at :
    (head part : Text) (script : List Reply) (k n : ℕ)
    → length head ≡ 4
    → int_of head ≡ n
    → n ≤ buffer_size
    → 4 ≤ k
    → tcp_child_listen_thread true (moved k ∷ script) (head ++ part)
      ≡ delivered (child_loop script n [] part)
unfolding tcp_child_listen_thread
child_at head part script k n four size small hk =
    let m : min k 4 ≡ length head = omega arith in
    let fits : ltb buffer_size n ≡ false = ground arith in
    rw (m, take-exact head part, drop-exact head part, size, fits) (ground arith)

-- A peer that announces a string of an allowed length and ends the connection before all of it came keeps
-- the receiving thread for ever: whatever number of calls of `recv` go by without a failure, the thread
-- has not returned.
pub tcp_child_listen_thread-waits :
    (script : List Reply) (n k : ℕ) (part : Text)
    → IsOpen script
    → n ≤ buffer_size
    → length part < n
    → 4 ≤ k
    → tcp_child_listen_thread true (moved k ∷ script) (int_bytes n ++ part) ≡ none
tcp_child_listen_thread-waits script n k part o small short hk =
    child_at (int_bytes n) part script k n refl (int_of-int_bytes n (omega arith)) small hk
    ∙ ap delivered (child_loop-waits script n [] part o short)

child_loop_steady :
    (script : List Reply) (n : ℕ) (got wire : Text)
    → IsSteady script
    → n ≤ length script
    → n ≤ length wire
    → child_loop script n got wire ≡ some (got ++ take n wire)
unfolding child_loop
child_loop_steady [] zero got wire st h l = ap (λ t. some t) (sym (append-nil got))
child_loop_steady (r ∷ script) zero got wire st h l = ap (λ t. some t) (sym (append-nil got))
child_loop_steady [] (suc n) got wire st h l = absurd (omega arith)
child_loop_steady (failed ∷ script) (suc n) got wire st h l = absurd st
child_loop_steady (moved k ∷ script) (suc n) got wire st h l =
    let k' = min k (suc n) in
    let (e, taken, left) = chunk k' (suc n) wire (omega arith) l in
    let rest = suc n - length (take k' wire) in
    child_loop_steady script rest (got ++ take k' wire) (drop k' wire) st.1 (omega (arith, e, st.0))
      (omega (arith, e, length-drop k' wire))
    ∙ ap (λ t. some t)
        (append_assoc got (take k' wire) (take rest (drop k' wire)) ∙ ap (λ t. got ++ t) taken)

-- A C string has no NUL before its end.
abbrev pub IsString : Text → Type 0
IsString = All (λ c. 0 < c)

c_string-with_nul : (s : Text) → IsString s → c_string (with_nul s) ≡ some s
unfolding c_string
c_string-with_nul [] h = refl
c_string-with_nul (c ∷ s) h =
    let plain : (c == 0) ≡ false = ground (arith, h.0) in rw (plain, c_string-with_nul s h.1)

sent_whole :
    (net : Net) (string : Text) (ss : List Reply) (k : ℕ) (h : Held)
    → connect_fails net h ≡ none
    → IsSteady ss
    → length (with_nul string) ≤ length ss
    → 4 ≤ k
    → send_tcp_string net (moved k ∷ ss) string h
      ≡ some (
        true,
        wsa_cleanup (closesocket (connected h)),
        int_bytes (length (with_nul string)) ++ with_nul string,
      )
unfolding send_tcp_string send_string
sent_whole net string ss k h c s a hk =
    let bytes = with_nul string in
    rw
      (
        c,
        send_tcp_string,
        send_string,
        take-all k (int_bytes (length bytes)) hk,
        send_loop_steady ss bytes 0 (int_bytes (length bytes)) s a,
      )
      (ground arith)

-- Let the connection be made and every call on either side move at least one byte, the first one at least
-- the four of the length, and let each side make enough calls. Then a string that fits the buffer size
-- with its NUL is sent whole, with `true`, and the receiving thread calls the callback with it.
pub tcp_child_listen_thread-send_tcp_string :
    (net : Net) (string : Text) (ss rs : List Reply) (k j : ℕ) (h : Held)
    → connect_fails net h ≡ none
    → IsString string
    → length (with_nul string) ≤ buffer_size
    → IsSteady ss
    → IsSteady rs
    → length (with_nul string) ≤ length ss
    → length (with_nul string) ≤ length rs
    → 4 ≤ k
    → 4 ≤ j
    → (held : Held) × (wire : Text) × (send_tcp_string net (moved k ∷ ss) string h
        ≡ some (true, held, wire))
      × (tcp_child_listen_thread true (moved j ∷ rs) wire ≡ some (some string))
tcp_child_listen_thread-send_tcp_string net string ss rs k j h c st fits s r a b hk hj =
    let bytes = with_nul string in
    (
      wsa_cleanup (closesocket (connected h)),
      int_bytes (length bytes) ++ bytes,
      sent_whole net string ss k h c s a hk,
      child_at (int_bytes (length bytes)) bytes rs j (length bytes) refl
            (int_of-int_bytes (length bytes) (omega arith)) fits hj
          ∙ ap delivered (child_loop_steady rs (length bytes) [] bytes r b (omega arith))
          ∙ ap (λ t. some (c_string t)) (take-all (length bytes) bytes (omega arith))
          ∙ ap (λ o. some o) (c_string-with_nul string st),
    )
