-- ===== src/User/Keeping.antt =====
-- The message that keeps a peer online: when it is in the pool, and when it stays behind.
use v6chat.Ack.Order.{Between, Between-le, IsOrdered, find_msg-add_msg}
use v6chat.Ack.Pool.{WaitAckMsgSender, WaitAckMsg, add_msg, delete_first, find_msg, new_msg}
use v6chat.Base.{
  ℕ, suc, Bool-cases, inl, inr, ◌≡◌, refl, Bool, true, ltb, not, ◌||◌, Option, none, List, [], ◌∷◌,
  ◌++◌, arith, ◌==◌, if◌then◌else◌,
}
use v6chat.Numbers.{sub_u32}
use v6chat.Text.{Text}
use v6chat.User.Info.{UserState, user_offline, user_online, Kind, p2p, server, UserInfo}
use v6chat.User.Presence.{Host, live_time, keep_online_msg, set_state, check_online}

-- The number of the message that keeps a peer online, and the pool: 0 stands for no message.
unfoldable pub kept : Kind → UserState → WaitAckMsgSender → Bool
kept (server serverid serveruid t) state pool = true
kept (p2p ack_msgid) user_offline pool = ack_msgid == 0
kept (p2p ack_msgid) user_online pool = ack_msgid == 0 || find_msg ack_msgid pool

abbrev pub IsKept : UserInfo → WaitAckMsgSender → Type 0
IsKept u pool = kept u.kind u.state pool ≡ true

set_state-IsKept_at :
    (host : Host) (now : ℕ) (state : UserState) (u : UserInfo) (pool : WaitAckMsgSender) (k : Kind)
    → u.kind ≡ k
    → IsOrdered pool
    → IsKept u pool
    → let (v, pool', events) = set_state host now state u pool in IsKept v pool'
unfolding set_state kept keep_online_msg
set_state-IsKept_at host now state u pool (server s r t) e b h = rw e refl
set_state-IsKept_at host now user_offline u pool (p2p ack) e b h = rw e (ground arith)
set_state-IsKept_at host now user_online u pool (p2p ack) e b h = ground (
  arith,
  find_msg-add_msg host.platform now u.ip u.udp_port host.keep_online none true pool pool.mid_count
      b,
)

delete_first-snoc :
    (h : Bool) (msg ip : Option Text) (lo hi : ℕ) (ms : List WaitAckMsg) (m : WaitAckMsg)
    → Between lo ms hi
    → m.mid ≡ hi
    → (delete_first h hi msg ip (ms ++ m ∷ [])).0 ≡ ms
unfolding delete_first
delete_first-snoc h msg ip lo hi [] m b e = ground arith
delete_first-snoc h msg ip lo hi (x ∷ ms) m b e =
    ground (
      arith,
      delete_first-snoc h msg ip (suc x.mid) hi ms m b.1 e,
      Between-le (suc x.mid) hi ms b.1,
    )

-- In a pool with ordered numbers `SetState`, for either state and either kind of user, keeps this: a peer
-- that is offline holds the number 0, and a peer that is online holds 0 or the number of a message that
-- is in the pool.
pub set_state-IsKept :
    (host : Host) (now : ℕ) (state : UserState) (u : UserInfo) (pool : WaitAckMsgSender)
    → IsOrdered pool
    → IsKept u pool
    → let (v, pool', events) = set_state host now state u pool in IsKept v pool'
set_state-IsKept host now state u pool b h =
    set_state-IsKept_at host now state u pool u.kind refl b h

-- The messages that wait after a peer came online and went offline again.
unfoldable pub cycle :
    Host → (now later : ℕ) → UserInfo → WaitAckMsgSender → UserInfo × List WaitAckMsg
unfolding set_state
cycle host now later u pool =
    let (v, pool', events) = set_state host now user_online u pool in
    let (w, pool'', more) = set_state host later user_offline v pool' in
    (w, pool''.wait_ack_msg_list)

-- A peer without a message comes online and goes offline again. The pool holds the messages that it held
-- before, unless the number of the new message was 0: 0 stands for no message, so the one with that
-- number stays in the pool, although the peer is offline.
pub cycle-left :
    (host : Host) (now later : ℕ) (u : UserInfo) (pool : WaitAckMsgSender)
    → IsOrdered pool
    → u.kind ≡ p2p 0
    → let added = (keep_online_msg host now u pool).1 in
      (cycle host now later u pool).1
      ≡ (if pool.mid_count == 0 then added.wait_ack_msg_list else pool.wait_ack_msg_list)
unfolding cycle set_state keep_online_msg add_msg new_msg
cycle-left host now later u pool b e =
    let m = new_msg host.platform now u.ip u.udp_port host.keep_online none true pool.mid_count in
    let gone = delete_first-snoc true none none 0 pool.mid_count pool.wait_ack_msg_list m b refl in
    elim (Bool-cases (pool.mid_count == 0)) [
      | inl zeroth ↦ rw e (ground (arith, zeroth))
      | inr fresh ↦ rw e (ground (arith, fresh, gone))
    ]

-- `CheckOnline` answers for a peer that is online with `false` exactly if its last sign of life is more than
-- 35 seconds old; then, and only then, the peer goes offline and forgets the number of its message.
pub check_online-late :
    (host : Host) (now ack : ℕ) (u : UserInfo) (pool : WaitAckMsgSender)
    → u.kind ≡ p2p ack
    → u.state ≡ user_online
    → let (online, (v, pool', events)) = check_online host now u pool in
      let late = ltb live_time (sub_u32 now u.last_active_time) in
      (online ≡ not late)
      × (v.state ≡ (if late then user_offline else user_online))
      × (v.kind ≡ p2p (if late then 0 else ack))
unfolding check_online set_state
check_online-late host now ack u pool e s = rw (e, s) (ground arith)
