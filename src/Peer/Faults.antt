-- ===== src/Peer/Faults.antt =====
-- Datagrams after which the program does not go on.
use v6chat.Base.{ℕ, ◌≡◌, refl, true, false, none, some, ◌⊎◌, inl, inr}
use v6chat.Numbers.{ℤ, pos, int_eq}
use v6chat.Peer.Dispatch.{udp_table, handler_of, dispatch, with_mid, listener_call_back}
use v6chat.Peer.Kernel.{
  World, Kernel, skip, fails, when, needs, either, given, continue, ◌⨾◌, add_p2puser_ask,
  normal_ack,
}
use v6chat.Peer.Listener.{on_add_user_ask_msg, on_normal_ack_msg}
use v6chat.Peer.Sender.{normal_msg_ack, acknowledges}
use v6chat.Text.{Text, codes}

-- A datagram without a number whose content asks for friendship or acknowledges a message ends the
-- program, from whatever address it comes and whatever the lists hold: its handler makes a string of a null pointer.
pub listener_call_back-unnumbered :
    (w : World) (rec ip inner : Text) (port : ℤ) (k : Kernel) (box content : w.json.Value)
    (type : ℕ)
    → (type ≡ add_p2puser_ask) ⊎ (type ≡ normal_ack)
    → w.json.parse rec ≡ some box
    → w.json.is_null (w.json.member (codes "content") box) ≡ false
    → w.json.as_c_string (w.json.member (codes "content") box) ≡ some inner
    → w.json.parse inner ≡ some content
    → w.json.is_null (w.json.member (codes "type") content) ≡ false
    → w.json.as_int (w.json.member (codes "type") content) ≡ some (pos type)
    → w.json.is_null (w.json.member (codes "mid") box) ≡ true
    → listener_call_back w (some rec) ip port k ≡ none
unfolding listener_call_back dispatch handler_of udp_table with_mid on_add_user_ask_msg
    on_normal_ack_msg normal_msg_ack acknowledges given when needs either fails skip ◌⨾◌ continue
    int_eq
listener_call_back-unnumbered w rec ip inner port k box content type which p c t q h o n =
    elim which [
      | inl ask ↦ rw (listener_call_back, p, c, t, q, dispatch, h, o, ask, n) refl
      | inr ack ↦ rw (listener_call_back, p, c, t, q, dispatch, h, o, ack, n) refl
    ]
