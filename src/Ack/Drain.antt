-- ===== src/Ack/Drain.antt =====
-- Passes one after the other, as the loop of the sender's thread makes them.
use v6chat.Ack.Pool.{
  WaitAckMsg, WaitAckMsgSender, Platform, CallBack, Event, send_waitackmsg_loop_time, max_try_times,
  traverse, traverse_all_msg, add_msg,
}
use v6chat.Ack.Sweep.{
  IsWaiting, Pass, traverse-Pass, traverse-sends, total, watched, sends, failures, weight, eternals,
  eternals-traverse_lem, sends-append, failures-append,
}
use v6chat.Base.{
  ℕ, ◌+◌, ◌*◌, ◌≤◌, ◌<◌, ◌≡◌, refl, false, Option, List, [], ◌∷◌, ◌++◌, arith, All, length,
}
use v6chat.Text.{Text}
use v6chat.Numbers.{ℤ, u32_mod}

-- TraverseAllMsg at the given times.
unfoldable pub sweeps : Platform → List ℕ → List WaitAckMsg → List WaitAckMsg × List Event
sweeps p [] ms = (ms, [])
sweeps p (now ∷ times) ms =
    let (rest, events) = traverse p now false ms in
    let (last, more) = sweeps p times rest in (last, events ++ more)

-- Each time is more than three rounds of the loop after the one before, and the clock does not wrap.
abbrev pub IsSpaced : ℕ → List ℕ → Type 0
IsSpaced start [] = Unit {0}
IsSpaced start (now ∷ times) =
    (start + 3 * send_waitackmsg_loop_time < now) × (now < u32_mod) × IsSpaced now times

-- What passes over a pool of finite messages bring about.
pub record Drained (ms : List WaitAckMsg) (r : List WaitAckMsg × List Event) : Type 0 where
  pub gone : r.0 ≡ []
  pub sent : sends r.1 ≡ total ms
  pub reported : failures r.1 ≡ watched ms

after-Pass :
    (p : Platform) (now : ℕ) (times : List ℕ) (ms : List WaitAckMsg)
    → Pass now ms (traverse p now false ms)
    → Drained (traverse p now false ms).0 (sweeps p times (traverse p now false ms).0)
    → Drained ms (sweeps p (now ∷ times) ms)
unfolding sweeps
after-Pass p now times ms pass later =
    let events = (traverse p now false ms).1 in
    let more = (sweeps p times (traverse p now false ms).0).1 in
    record {
      gone = later.gone;
      sent = omega (arith, sends-append events more, later.sent, pass.sent);
      reported = omega (arith, failures-append events more, later.reported, pass.reported);
    }

sweeps-Drained :
    (p : Platform) (start : ℕ) (times : List ℕ) (ms : List WaitAckMsg)
    → IsSpaced start times
    → All (IsWaiting start) ms
    → total ms ≤ length times
    → Drained ms (sweeps p times ms)
unfolding total sweeps sends failures watched
sweeps-Drained p start [] [] sp w h = record { gone = refl; sent = refl; reported = refl }
sweeps-Drained p start [] (m ∷ ms) sp w h = absurd (omega (arith, w.0.0))
sweeps-Drained p start (now ∷ times) [] sp w h =
    let pass = traverse-Pass p now start sp.0 sp.1 false [] w in
    after-Pass p now times [] pass
      (sweeps-Drained p now times _ sp.2 pass.waiting (omega (arith, pass.sent)))
sweeps-Drained p start (now ∷ times) (m ∷ ms) sp w h =
    let pass = traverse-Pass p now start sp.0 sp.1 false (m ∷ ms) w in
    let some_sent = traverse-sends p now start sp.0 sp.1 m ms w.0 in
    after-Pass p now times (m ∷ ms) pass
      (sweeps-Drained p now times _ sp.2 pass.waiting (omega (arith, pass.sent, some_sent)))

-- Every pass keeps every message that is sent for ever, unchanged and in its place among them.
pub eternals-traverse_all_msg :
    (p : Platform) (now : ℕ) (s : WaitAckMsgSender)
    → eternals (traverse_all_msg p now s).0.wait_ack_msg_list ≡ eternals s.wait_ack_msg_list
unfolding traverse_all_msg
eternals-traverse_all_msg p now s = eternals-traverse_lem p now false s.wait_ack_msg_list

-- Let each message of a pool have a finite number of tries left and have been sent at `start` or before,
-- and let passes follow one another by more than three rounds of the loop before the clock wraps. Then as
-- many passes as there are sendings left (for each message one more than its tries) empty the pool, make
-- exactly that many sendings, and report a failure exactly once for each message with a callback.
pub sweeps_drain :
    (p : Platform) (start : ℕ) (times : List ℕ) (ms : List WaitAckMsg)
    → IsSpaced start times
    → All (IsWaiting start) ms
    → total ms ≤ length times
    → (let r = sweeps p times ms in
        (r.0 ≡ []) × (sends r.1 ≡ total ms) × (failures r.1 ≡ watched ms))
sweeps_drain p start times ms sp w h =
    let d = sweeps-Drained p start times ms sp w h in (d.gone, d.sent, d.reported)

-- A message added to an empty pool for a finite time is sent once more than MAX_TRY_TIMES: by `AddMsg`,
-- and by each of the three passes after which it is gone.
pub add_msg-sends :
    (p : Platform) (now t₁ t₂ t₃ n : ℕ) (ip : Text) (port : ℤ) (message : Text)
    (cb : Option CallBack)
    → IsSpaced now (t₁ ∷ t₂ ∷ t₃ ∷ [])
    → (let (mid, s, first) =
          add_msg p now ip port message cb false
            (record { wait_ack_msg_list = []; mid_count = n }) in
        let (rest, later) = sweeps p (t₁ ∷ t₂ ∷ t₃ ∷ []) s.wait_ack_msg_list in
        (rest ≡ []) × (sends (first ++ later) ≡ max_try_times + 1))
unfolding add_msg total weight sends
add_msg-sends p now t₁ t₂ t₃ n ip port message cb sp =
    let d =
      sweeps-Drained p now (t₁ ∷ t₂ ∷ t₃ ∷ []) _ sp ((omega arith, omega arith), tt)
        (omega arith) in
    (d.gone, omega (arith, d.sent))
