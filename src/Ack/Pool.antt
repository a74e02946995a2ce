-- ===== src/Ack/Pool.antt =====
-- kernel/Sender/WaitACKMsgSender.cpp: the pool, and the operations on it. What an operation does
-- outside the pool is a list of events, in their order. The clock (GetTickCount) is an argument.
use v6chat.Base.{
  ℕ, ◌-◌, ◌*◌, ◌&&◌, Bool, true, false, Option, none, some, List, [], ◌∷◌, ◌++◌, ◌==◌, ltb,
  if◌then◌else◌,
}
use v6chat.Numbers.{ℤ, pos, int_eq, decrement, minus_one, sub_u32, next_u32}
use v6chat.Text.Decimal.{print, print_int}
use v6chat.Text.{Text}

-- MAX_TRY_TIMES, ETERNAL_TRY_TIMES, SEND_WAITACKMSG_LOOP_TIME of kernel/V6ChatDef.h.
abbrev pub max_try_times : ℕ
max_try_times = 3

abbrev pub eternal_try_times : ℤ
eternal_try_times = minus_one

abbrev pub send_waitackmsg_loop_time : ℕ
send_waitackmsg_loop_time = 5 * 1000

-- The callbacks that the program registers: the functions of ClientMsgSender.
pub data CallBack : Type 0 where
  after_online_msg after_add_p2p_user_msg after_chat_with_text_msg : CallBack

pub record WaitAckMsg : Type 0 where
  pub mid : ℕ
  pub left_try_times : ℤ
  pub last_send_time : ℕ
  pub peer_ip : Text
  pub peer_port : Text
  pub message : Text
  pub call_back : Option CallBack

pub record WaitAckMsgSender : Type 0 where
  pub wait_ack_msg_list : List WaitAckMsg
  pub mid_count : ℕ

-- `send`: one call of send_udp_string_by_socket on the IPv6 or the IPv4 socket. `called`: one call of a
-- callback with its four arguments; `none` is the message NULL.
pub data Event : Type 0 where
  send : (ipv6 : Bool) (ip port message : Text) → Event
  called : CallBack → (has_send : Bool) (ip port : Text) (message : Option Text) → Event

-- What the pool takes from libraries: JsonCpp's text of `{"content": …, "mid": …}`, given the number as
-- a text and the content, and IsIpv6A of IPSearcher.
pub record Platform : Type 0 where
  pub write_box : Text → Text → Text
  pub is_ipv6 : Text → Bool

unfoldable pub new : WaitAckMsgSender
new = record { wait_ack_msg_list = []; mid_count = 0 }

unfoldable pub new_msg : Platform → ℕ → Text → ℤ → Text → Option CallBack → Bool → ℕ → WaitAckMsg
new_msg p now ip port message cb forever mid = record {
  mid = mid;
  left_try_times = if forever then eternal_try_times else pos (max_try_times - 1);
  last_send_time = now;
  peer_ip = ip;
  peer_port = print_int port;
  message = p.write_box (print mid) message;
  call_back = cb;
}

-- `AddMsg`: the number of the message, the pool with it at the end, and its first sending.
unfoldable pub add_msg :
    Platform
    → (now : ℕ) (ip : Text) (port : ℤ) (message : Text) → Option CallBack
    → (forever : Bool) → WaitAckMsgSender
    → ℕ × WaitAckMsgSender × List Event
unfolding new_msg
add_msg p now ip port message cb forever s =
    let m = new_msg p now ip port message cb forever s.mid_count in
    (
      s.mid_count,
      record {
        wait_ack_msg_list = s.wait_ack_msg_list ++ m ∷ [];
        mid_count = next_u32 s.mid_count;
      },
      send (p.is_ipv6 ip) ip m.peer_port m.message ∷ [],
    )

-- The call of the callback in `DeleteMsg`.
unfoldable pub answer : (has_send : Bool) → Option Text → Option Text → WaitAckMsg → List Event
answer has_send msg ip m = elim m.call_back [
  | none ↦ []
  | some cb ↦
      if has_send
      then elim ip [
        | none ↦ called cb has_send m.peer_ip m.peer_port msg ∷ []
        | some peer ↦ called cb has_send peer m.peer_port msg ∷ []
      ]
      else called cb has_send m.peer_ip m.peer_port (some m.message) ∷ []
]

unfoldable pub delete_first :
    Bool → ℕ → Option Text → Option Text → List WaitAckMsg → List WaitAckMsg × List Event
unfolding answer
delete_first has_send mid msg ip [] = ([], [])
delete_first has_send mid msg ip (m ∷ ms) =
    let (rest, events) = delete_first has_send mid msg ip ms in
    if m.mid == mid then (ms, answer has_send msg ip m) else (m ∷ rest, events)

-- `DeleteMsg`
unfoldable pub delete_msg :
    (has_send : Bool) (mid : ℕ) (msg ip : Option Text)
    → WaitAckMsgSender
    → WaitAckMsgSender × List Event
unfolding delete_first
delete_msg has_send mid msg ip s =
    let (rest, events) = delete_first has_send mid msg ip s.wait_ack_msg_list in
    (record s { wait_ack_msg_list = rest }, events)

unfoldable pub find_in : ℕ → List WaitAckMsg → Bool
find_in mid [] = false
find_in mid (m ∷ ms) = if m.mid == mid then true else find_in mid ms

-- `FindMsg`
unfoldable pub find_msg : ℕ → WaitAckMsgSender → Bool
unfolding find_in
find_msg mid s = find_in mid s.wait_ack_msg_list

-- `GetTickCount() - lastSendTime > 3 * SEND_WAITACKMSG_LOOP_TIME`, on 32 bits.
unfoldable pub is_due : ℕ → WaitAckMsg → Bool
is_due now m = ltb (3 * send_waitackmsg_loop_time) (sub_u32 now m.last_send_time)

unfoldable pub resend : Platform → WaitAckMsg → Event
resend p m = send (p.is_ipv6 m.peer_ip) m.peer_ip m.peer_port m.message

unfoldable pub give_up : WaitAckMsg → List Event
give_up m = elim m.call_back [
  | none ↦ []
  | some cb ↦ called cb false m.peer_ip m.peer_port (some m.message) ∷ []
]

-- A message that was sent again and stays: a finite one loses a try, an eternal one keeps its time.
unfoldable pub retried : ℕ → WaitAckMsg → WaitAckMsg
retried now m =
    if int_eq eternal_try_times m.left_try_times
    then m
    else record m { left_try_times = decrement m.left_try_times; last_send_time = now }

-- The message is sent a last time and leaves the pool.
unfoldable pub is_lost : ℕ → WaitAckMsg → Bool
unfolding is_due
is_lost now m = is_due now m && int_eq (pos 0) m.left_try_times

-- `TraverseAllMsg`. `passed`: the message before was erased, so the iterator stands on this one
-- already, and the step of the `for` loop passes over it.
unfoldable pub traverse :
    Platform → ℕ → (passed : Bool) → List WaitAckMsg → List WaitAckMsg × List Event
unfolding is_due is_lost resend give_up retried
traverse p now passed [] = ([], [])
traverse p now true (m ∷ ms) = let (rest, events) = traverse p now false ms in (m ∷ rest, events)
traverse p now false (m ∷ ms) =
    let (rest, events) = traverse p now (is_lost now m) ms in
    if is_due now m
    then if is_lost now m
      then (rest, resend p m ∷ give_up m ++ events)
      else (retried now m ∷ rest, resend p m ∷ events)
    else (m ∷ rest, events)

unfoldable pub traverse_all_msg : Platform → ℕ → WaitAckMsgSender → WaitAckMsgSender × List Event
unfolding traverse
traverse_all_msg p now s =
    let (rest, events) = traverse p now false s.wait_ack_msg_list in
    (record s { wait_ack_msg_list = rest }, events)
