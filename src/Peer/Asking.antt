-- ===== src/Peer/Asking.antt =====
-- From the message that asks a peer to its acknowledgement.
use v6chat.Ack.Pool.{
  WaitAckMsg, called, after_add_p2p_user_msg, add_msg, new_msg, delete_msg, delete_first, find_msg,
  find_in, answer,
}
use v6chat.Base.{
  ℕ, ◌<◌, ◌^◌, ◌≡◌, refl, true, false, Option, some, List, [], ◌∷◌, ◌++◌, arith, map, ltb,
}
use v6chat.Inbox.Asked.{add_temp_user}
use v6chat.Numbers.{ℤ, pos, to_unsigned}
use v6chat.Peer.Callbacks.{asks, add_p2p_user_msg_answered, call_back, performs, deletes_msg}
use v6chat.Peer.Kernel
use v6chat.Peer.Kernel.{
  World, Kernel, Effect, pooled, posted, says, skip, when, reads, needs, continue, ◌⨾◌,
  add_p2puser_ask,
}
use v6chat.Peer.Listener.{Datagram, on_normal_ack_msg}
use v6chat.Peer.Sender.{pool_msg, letter, my_info, add_user_ask_msg}
use v6chat.Text.Decimal.{print, print_int, atoi, stream_int, atoi-print, read_int-print}
use v6chat.Text.{Text, codes}
use v6chat.Windows.{main_wnd, post, wm_showsendedmsg}

delete_first-last :
    (mid : ℕ) (msg ip : Option Text) (l : List WaitAckMsg) (m : WaitAckMsg)
    → find_in mid l ≡ false
    → m.mid ≡ mid
    → delete_first true mid msg ip (l ++ m ∷ []) ≡ (l, answer true msg ip m)
unfolding delete_first find_in
delete_first-last mid msg ip [] m h e = ground (arith, e)
delete_first-last mid msg ip (x ∷ l) m h e = ground (arith, delete_first-last mid msg ip l m, e)

find_in-last :
    (mid : ℕ) (l : List WaitAckMsg) (m : WaitAckMsg)
    → m.mid ≡ mid
    → find_in mid (l ++ m ∷ []) ≡ true
unfolding find_in
find_in-last mid [] m e = ground (arith, e)
find_in-last mid (x ∷ l) m e = ground (arith, find_in-last mid l m e)

stream_int-print : (overflow : ℤ) (n : ℕ) → n < 2 ^ 31 → stream_int overflow (print n) ≡ pos n
unfolding stream_int
stream_int-print overflow n h =
    let small : ltb n (2 ^ 31) ≡ true = ground arith in
    rw (stream_int, read_int-print n, small) refl

-- `DeleteMsg` of the last message of the pool, where that is a question to a peer.
deletes_msg-asks :
    (w : World) (k : Kernel) (l : List WaitAckMsg) (m : WaitAckMsg) (text ip : Text)
    → find_in m.mid l ≡ false
    → m.call_back ≡ some after_add_p2p_user_msg
    → deletes_msg w m.mid text ip
        (record k { pool = record k.pool { wait_ack_msg_list = l ++ m ∷ [] } })
      ≡ some (
        record k {
          pool = record k.pool { wait_ack_msg_list = l };
          asked = add_temp_user (record { ip = ip; port = atoi m.peer_port }) k.asked;
        },
        pooled (called after_add_p2p_user_msg true ip m.peer_port (some text))
              ∷ map posted (post w.backend.is_open main_wnd wm_showsendedmsg 0 0)
            ++ [],
      )
unfolding deletes_msg delete_msg performs call_back add_p2p_user_msg_answered asks when skip needs
    says ◌⨾◌ continue Kernel.after answer
deletes_msg-asks w k l m text ip free cb =
    let deleted = delete_first-last m.mid (some text) (some ip) l m free refl in
    rw (deletes_msg, delete_msg, deleted, answer, cb) refl

-- A peer is asked at a port that is an `int`, and answers with the number of the message, which is below 2 ^ 31
-- and was free: the handler returns, the pool holds what it held before, and a request to the address of the answer, with the port of
-- the question, is open.
pub on_normal_ack_msg-add_user_ask_msg :
    (w : World) (d : Datagram w.json) (ip : Text) (port : ℕ) (k : Kernel)
    → k.pool.mid_count < 2 ^ 31
    → port < 2 ^ 31
    → find_msg k.pool.mid_count k.pool ≡ false
    → d.mid ≡ some (print k.pool.mid_count)
    → (asked : Kernel) × (k' : Kernel) × (sent effects : List Effect) × (add_user_ask_msg w ip
          (pos port)
          k
        ≡ some (asked, sent))
      × (on_normal_ack_msg w d asked ≡ some (k', effects))
      × (k'.pool.wait_ack_msg_list ≡ k.pool.wait_ack_msg_list)
      × (k'.users ≡ k.users)
      × (k'.asked ≡ add_temp_user (record { ip = d.ip; port = pos port }) k.asked)
unfolding add_user_ask_msg pool_msg add_msg new_msg on_normal_ack_msg find_msg reads when needs
    to_unsigned print_int
on_normal_ack_msg-add_user_ask_msg w d ip port k small fits free mid =
    let n = k.pool.mid_count in
    let l = k.pool.wait_ack_msg_list in
    let message = letter w add_p2puser_ask ((codes "my_info", my_info w) ∷ []) in
    let m : WaitAckMsg =
      new_msg w.host.platform w.now ip (pos port) message (some after_add_p2p_user_msg) false n in
    let sent =
      add_msg w.host.platform w.now ip (pos port) message (some after_add_p2p_user_msg) false
        k.pool in
    let asked : Kernel = record k { pool = sent.1 } in
    let number : to_unsigned (stream_int w.int_overflow (print n)) ≡ n =
      rw (stream_int-print w.int_overflow n small) (omega arith) in
    let there : find_in n (l ++ m ∷ []) ≡ true = find_in-last n l m refl in
    (
      asked,
      record k {
        pool = record sent.1 { wait_ack_msg_list = l };
        asked = add_temp_user (record { ip = d.ip; port = atoi m.peer_port }) k.asked;
      },
      map pooled sent.2,
      pooled (called after_add_p2p_user_msg true d.ip m.peer_port (some (w.json.write d.content)))
            ∷ map posted (post w.backend.is_open main_wnd wm_showsendedmsg 0 0)
          ++ [],
      refl,
      rw (on_normal_ack_msg, mid, number, there)
          (deletes_msg-asks w asked l m (w.json.write d.content) d.ip free refl),
      refl,
      refl,
      rw (print_int, atoi-print port fits) refl,
    )
