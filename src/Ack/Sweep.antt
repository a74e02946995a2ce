-- ===== src/Ack/Sweep.antt =====
-- One pass of TraverseAllMsg: what it keeps, and what it counts down.
use v6chat.Ack.Pool.{
  WaitAckMsg, Platform, Event, send, called, eternal_try_times, send_waitackmsg_loop_time, traverse,
  retried, is_due, is_lost, resend, give_up,
}
use v6chat.Base.{
  ℕ, zero, suc, ◌+◌, ◌*◌, ◌≤◌, ◌<◌, ◌≡◌, refl, Bool, true, false, none, some, List, [], ◌∷◌, ◌++◌,
  arith, if◌then◌else◌, All,
}
use v6chat.Numbers.{ℤ, pos, negsuc, int_eq, decrement, u32_mod}

-- The messages that are sent for ever, in their order.
unfoldable pub eternals : List WaitAckMsg → List WaitAckMsg
eternals [] = []
eternals (m ∷ ms) =
    if int_eq eternal_try_times m.left_try_times then m ∷ eternals ms else eternals ms

decrement_eternal :
    (z : ℤ)
    → int_eq (pos 0) z ≡ false
    → int_eq eternal_try_times z ≡ false
    → int_eq eternal_try_times (decrement z) ≡ false
unfolding int_eq decrement
decrement_eternal (pos zero) h n = cc
decrement_eternal (pos (suc k)) h n = refl
decrement_eternal (negsuc zero) h n = cc
decrement_eternal (negsuc (suc k)) h n = ground arith

lost_finite : (z : ℤ) → int_eq (pos 0) z ≡ true → int_eq eternal_try_times z ≡ false
unfolding int_eq
lost_finite (pos n) h = refl
lost_finite (negsuc n) h = cc

pub eternals-traverse_lem :
    (p : Platform) (now : ℕ) (passed : Bool) (ms : List WaitAckMsg)
    → eternals (traverse p now passed ms).0 ≡ eternals ms
unfolding traverse eternals
eternals-traverse_lem p now true [] = refl
eternals-traverse_lem p now false [] = refl
eternals-traverse_lem p now true (m ∷ ms) = ground (arith, eternals-traverse_lem p now false ms)
eternals-traverse_lem p now false (m ∷ ms) = ground (
  arith,
  eternals-traverse_lem p now (is_lost now m) ms,
  decrement_eternal m.left_try_times,
  lost_finite m.left_try_times,
)

-- How often a message is still sent before it is given up: once more than its tries.
unfoldable pub weight : ℤ → ℕ
weight (pos n) = suc n
weight (negsuc n) = 0

unfoldable pub total : List WaitAckMsg → ℕ
total [] = 0
total (m ∷ ms) = weight m.left_try_times + total ms

-- The messages that someone wants to hear of.
unfoldable pub watched : List WaitAckMsg → ℕ
watched [] = 0
watched (m ∷ ms) = elim m.call_back [ none ↦ watched ms | some cb ↦ suc (watched ms) ]

unfoldable pub sends : List Event → ℕ
sends [] = 0
sends (send v ip port t ∷ es) = suc (sends es)
sends (called cb h ip port t ∷ es) = sends es

-- The callbacks that report a failure.
unfoldable pub failures : List Event → ℕ
failures [] = 0
failures (send v ip port t ∷ es) = failures es
failures (called cb true ip port t ∷ es) = failures es
failures (called cb false ip port t ∷ es) = suc (failures es)

-- A message with a last try, sent at `start` or before.
abbrev pub IsWaiting : ℕ → WaitAckMsg → Type 0
IsWaiting start m = (1 ≤ weight m.left_try_times) × (m.last_send_time ≤ start)

due :
    (now start : ℕ) (m : WaitAckMsg)
    → start + 3 * send_waitackmsg_loop_time < now
    → now < u32_mod
    → m.last_send_time ≤ start
    → is_due now m ≡ true
unfolding is_due
due now start m h k l = ground arith

lost_weight : (z : ℤ) → int_eq (pos 0) z ≡ true → weight z ≡ 1
unfolding int_eq weight
lost_weight (pos zero) h = refl
lost_weight (pos (suc n)) h = ground arith
lost_weight (negsuc n) h = cc

kept_weight :
    (z : ℤ)
    → 1 ≤ weight z
    → int_eq (pos 0) z ≡ false
    → (weight (decrement z) + 1 ≡ weight z)
      × (1 ≤ weight (decrement z))
      × (int_eq eternal_try_times z ≡ false)
unfolding int_eq weight decrement
kept_weight (pos zero) w h = absurd (cc)
kept_weight (pos (suc n)) w h = (omega arith, omega arith, refl)
kept_weight (negsuc n) w h = absurd (omega arith)

pub sends-append : (es fs : List Event) → sends (es ++ fs) ≡ sends es + sends fs
unfolding sends
sends-append [] fs = omega arith
sends-append (send v ip port t ∷ es) fs = omega (arith, sends-append es fs)
sends-append (called cb h ip port t ∷ es) fs = sends-append es fs

pub failures-append : (es fs : List Event) → failures (es ++ fs) ≡ failures es + failures fs
unfolding failures
failures-append [] fs = omega arith
failures-append (send v ip port t ∷ es) fs = failures-append es fs
failures-append (called cb true ip port t ∷ es) fs = failures-append es fs
failures-append (called cb false ip port t ∷ es) fs = omega (arith, failures-append es fs)

-- What one visit of a message that stands in the pool for the last time brings about.
pub record Pass (now : ℕ) (ms : List WaitAckMsg) (r : List WaitAckMsg × List Event) : Type 0 where
  pub sent : sends r.1 + total r.0 ≡ total ms
  pub reported : failures r.1 + watched r.0 ≡ watched ms
  pub waiting : All (IsWaiting now) r.0

module _ (p : Platform) (now start : ℕ) (late : start + 3 * send_waitackmsg_loop_time < now)
    (small : now < u32_mod) where
  visit-Pass :
      (m : WaitAckMsg) (ms : List WaitAckMsg)
      → IsWaiting start m
      → Pass now ms (traverse p now (is_lost now m) ms)
      → Pass now (m ∷ ms) (traverse p now false (m ∷ ms))
  unfolding traverse total watched sends failures resend give_up retried is_lost
  visit-Pass m ms w rest =
      let hit = due now start m late small w.1 in
      record {
        sent =
            ground
              (arith, hit, rest.sent, lost_weight m.left_try_times, kept_weight m.left_try_times);
        reported = ground (arith, hit, rest.reported);
        waiting =
            ground (
              arith,
              hit,
              rest.waiting,
              lost_weight m.left_try_times,
              kept_weight m.left_try_times,
            );
      }

  pub traverse-Pass :
      (passed : Bool) (ms : List WaitAckMsg)
      → All (IsWaiting start) ms
      → Pass now ms (traverse p now passed ms)
  unfolding traverse total watched sends failures
  traverse-Pass passed [] w = record { sent = refl; reported = refl; waiting = tt }
  traverse-Pass true (m ∷ ms) w =
      let rest = traverse-Pass false ms w.1 in
      record {
        sent = omega (arith, rest.sent);
        reported = ground (arith, rest.reported);
        waiting = ((w.0.0, omega arith), rest.waiting);
      }
  traverse-Pass false (m ∷ ms) w = visit-Pass m ms w.0 (traverse-Pass (is_lost now m) ms w.1)

  -- A pass over a pool that is not empty sends something.
  pub traverse-sends :
      (m : WaitAckMsg) (ms : List WaitAckMsg)
      → IsWaiting start m
      → 1 ≤ sends (traverse p now false (m ∷ ms)).1
  unfolding traverse sends resend
  traverse-sends m ms w = let hit = due now start m late small w.1 in ground (arith, hit)
