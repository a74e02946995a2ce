-- ===== src/User/Presence.antt =====
-- kernel/User/P2PUserInfo.cpp, ServerUserInfo.cpp: whether a user is online, and the message that keeps
-- a peer online. The clock is an argument; it stands still during one operation.
use v6chat.Ack.Pool.{Platform, WaitAckMsgSender, Event, add_msg, delete_msg}
use v6chat.Base.{ℕ, ◌*◌, Bool, true, false, none, List, [], ◌==◌, ltb, if◌then◌else◌}
use v6chat.Numbers.{sub_u32}
use v6chat.Text.{Text}
use v6chat.User.Info.{UserState, user_offline, user_online, p2p, server, UserInfo}

-- LIVE_TIME of kernel/V6ChatDef.h.
abbrev pub live_time : ℕ
live_time = 35 * 1000

-- The libraries under the pool, and JsonCpp's text of the message of `KeepOnlineMsg`.
pub record Host : Type 0 where
  pub platform : Platform
  pub keep_online : Text

-- A user, the pool, and what an operation did outside.
abbrev pub Step : Type 0
Step = UserInfo × WaitAckMsgSender × List Event

-- `KeepOnlineMsg` of the sender that `SetState` makes.
unfoldable pub keep_online_msg :
    Host → ℕ → UserInfo → WaitAckMsgSender → ℕ × WaitAckMsgSender × List Event
unfolding add_msg
keep_online_msg host now u pool =
    add_msg host.platform now u.ip u.udp_port host.keep_online none true pool

-- The peer is online and keeps the number of its message.
kept_online : ℕ → UserInfo → ℕ × WaitAckMsgSender × List Event → Step
kept_online now u (mid, pool, events) =
    (record u { state = user_online; kind = p2p mid; last_active_time = now }, pool, events)

-- `SetState` of P2PUserInfo; a user of a server has the one of UserInfo.
unfoldable pub set_state : Host → (now : ℕ) → UserState → UserInfo → WaitAckMsgSender → Step
unfolding keep_online_msg kept_online delete_msg
set_state host now state u pool = elim u.kind [
  | server serverid serveruid t ↦ (record u { state = state }, pool, [])
  | p2p ack_msgid ↦ elim state [
    | user_online ↦
        if ack_msgid == 0
        then kept_online now u (keep_online_msg host now u pool)
        else (record u { state = user_online; last_active_time = now }, pool, [])
    | user_offline ↦
        let u' = record u { state = user_offline; kind = p2p 0; last_active_time = 0 } in
        if ack_msgid == 0
        then (u', pool, [])
        else let (pool', events) = delete_msg true ack_msgid none none pool in (u', pool', events)
  ]
]

-- `CheckOnline`
unfoldable pub check_online : Host → (now : ℕ) → UserInfo → WaitAckMsgSender → Bool × Step
unfolding set_state
check_online host now u pool = elim u.kind [
  | server serverid serveruid t ↦ (true, (u, pool, []))
  | p2p ack_msgid ↦ elim u.state [
    | user_offline ↦ (false, (u, pool, []))
    | user_online ↦
        if ltb live_time (sub_u32 now u.last_active_time)
        then (false, set_state host now user_offline u pool)
        else (true, (u, pool, []))
  ]
]

-- `UpdateProfile`: whether it asks the server for the profile.
unfoldable pub update_profile : (now : ℕ) → UserInfo → UserInfo × Bool
update_profile now u = elim u.kind [
  | p2p ack_msgid ↦ (u, false)
  | server serverid serveruid t ↦
      if ltb live_time (sub_u32 now t)
      then (record u { kind = server serverid serveruid now }, true)
      else (u, false)
]
