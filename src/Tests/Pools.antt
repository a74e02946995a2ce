-- ===== src/Tests/Pools.antt =====
-- Pools: a message for ever, and two others.
use v6chat.Ack.Drain.{IsSpaced, sweeps, sweeps_drain, add_msg-sends}
use v6chat.Ack.Order.{Call, add, delete, sweep, run, IsOrdered, run-IsOrdered}
use v6chat.Ack.Pool
use v6chat.Ack.Pool.{
  WaitAckMsg, WaitAckMsgSender, Platform, CallBack, after_online_msg, add_msg, delete_msg, find_msg,
  traverse_all_msg, max_try_times, eternal_try_times,
}
use v6chat.Ack.Sweep.{total, sends, failures, watched, weight}
use v6chat.Base.{◌+◌, ◌≡◌, true, false, none, some, List, [], ◌∷◌, ◌++◌, arith}
use v6chat.Numbers.{pos}
use v6chat.Text.{codes}

abbrev platform : Platform
platform = record { write_box = λ mid content. mid ++ content; is_ipv6 = λ ip. false }

-- A message that is asked for once more.
abbrev once : WaitAckMsg
once = record {
  mid = 4;
  left_try_times = pos 0;
  last_send_time = 1000;
  peer_ip = codes "1::2";
  peer_port = codes "5000";
  message = codes "hi";
  call_back = some after_online_msg;
}

abbrev for_ever : WaitAckMsg
for_ever = record once { mid = 6; left_try_times = eternal_try_times; call_back = none }

abbrev twice : WaitAckMsg
twice = record once { mid = 9; left_try_times = pos 1; call_back = none }

abbrev three : WaitAckMsgSender
three = record { wait_ack_msg_list = once ∷ for_ever ∷ twice ∷ []; mid_count = 12 }

three-IsOrdered : IsOrdered three
three-IsOrdered = (omega arith, (omega arith, (omega arith, omega arith)))

abbrev calls : List Call
calls =
    add 10 (codes "1::2") (pos 5000) (codes "hi") none true
    ∷ add 20 (codes "1::3") (pos 5000) (codes "ho") (some after_online_msg) false
    ∷ sweep 20000
    ∷ delete true 0 none none
    ∷ []

run-IsOrdered_example : IsOrdered (run platform Pool.new calls)
run-IsOrdered_example = run-IsOrdered platform calls (omega arith)

times-IsSpaced : IsSpaced 1000 (20000 ∷ 40000 ∷ 60000 ∷ [])
times-IsSpaced =
    (omega arith, omega arith, (omega arith, omega arith, (omega arith, omega arith, tt)))

sweeps_drain_example :
    let r = sweeps platform (20000 ∷ 40000 ∷ 60000 ∷ []) (once ∷ twice ∷ []) in
    (r.0 ≡ [])
    × (sends r.1 ≡ total (once ∷ twice ∷ []))
    × (failures r.1 ≡ watched (once ∷ twice ∷ []))
unfolding total weight
sweeps_drain_example =
    sweeps_drain platform 1000 (20000 ∷ 40000 ∷ 60000 ∷ []) (once ∷ twice ∷ []) times-IsSpaced
      ((omega arith, omega arith), ((omega arith, omega arith), tt)) (omega arith)

add_msg-sends_example :
    let (mid, s, first) =
      add_msg platform 1000
        (codes "1::2")
        (pos 5000)
        (codes "hi")
        none
        false
        (record { wait_ack_msg_list = []; mid_count = 3 }) in
    let (rest, later) = sweeps platform (20000 ∷ 40000 ∷ 60000 ∷ []) s.wait_ack_msg_list in
    (rest ≡ []) × (sends (first ++ later) ≡ max_try_times + 1)
add_msg-sends_example =
    add_msg-sends platform 1000 20000 40000 60000 3 (codes "1::2") (pos 5000) (codes "hi") none
      times-IsSpaced
