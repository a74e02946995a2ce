-- ===== src/Ack/Order.antt =====
-- The numbers of the messages: distinct, in the order of the pool, and what a deletion removes.
use v6chat.Ack.Pool
use v6chat.Ack.Pool.{
  WaitAckMsg, WaitAckMsgSender, Platform, CallBack, Event, find_in, find_msg, add_msg, delete_first,
  delete_msg, traverse, traverse_all_msg, retried, is_due, is_lost,
}
use v6chat.Base.{
  ℕ, suc, ◌+◌, ◌≤◌, ◌<◌, ◌≡◌, refl, Bool, true, false, Option, List, [], ◌∷◌, ◌++◌, arith, ◌==◌,
  if◌then◌else◌, length,
}
use v6chat.Numbers.{ℤ, u32_mod, next_u32}
use v6chat.Text.{Text}

-- The numbers increase along the list, from `lo` on, and all lie below `hi`.
abbrev pub Between : ℕ → List WaitAckMsg → ℕ → Type 0
Between lo [] hi = lo ≤ hi
Between lo (m ∷ ms) hi = (lo ≤ m.mid) × Between (suc m.mid) ms hi

Between-mono : (k lo hi : ℕ) (ms : List WaitAckMsg) → k ≤ lo → Between lo ms hi → Between k ms hi
Between-mono k lo hi [] h b = omega arith
Between-mono k lo hi (m ∷ ms) h b = (omega arith, b.1)

Between-snoc :
    (lo hi : ℕ) (ms : List WaitAckMsg) (m : WaitAckMsg)
    → Between lo ms hi
    → m.mid ≡ hi
    → Between lo (ms ++ m ∷ []) (hi + 1)
Between-snoc lo hi [] m b e = (omega arith, omega arith)
Between-snoc lo hi (x ∷ ms) m b e = (b.0, Between-snoc (suc x.mid) hi ms m b.1 e)

pub Between-le : (lo hi : ℕ) (ms : List WaitAckMsg) → Between lo ms hi → lo ≤ hi
Between-le lo hi [] b = b
Between-le lo hi (m ∷ ms) b = omega (arith, Between-le (suc m.mid) hi ms b.1)

delete_first-Between :
    (h : Bool) (mid : ℕ) (msg ip : Option Text) (lo hi : ℕ) (ms : List WaitAckMsg)
    → Between lo ms hi
    → Between lo (delete_first h mid msg ip ms).0 hi
unfolding delete_first
delete_first-Between h mid msg ip lo hi [] b = b
delete_first-Between h mid msg ip lo hi (m ∷ ms) b =
    ground (
      arith,
      delete_first-Between h mid msg ip (suc m.mid) hi ms,
      Between-mono lo (suc m.mid) hi ms,
    )

retried-mid : (now : ℕ) (m : WaitAckMsg) → (retried now m).mid ≡ m.mid
unfolding retried
retried-mid now m = ground arith

traverse-Between :
    (p : Platform) (now : ℕ) (passed : Bool) (lo hi : ℕ) (ms : List WaitAckMsg)
    → Between lo ms hi
    → Between lo (traverse p now passed ms).0 hi
unfolding traverse
traverse-Between p now passed lo hi [] b = b
traverse-Between p now true lo hi (m ∷ ms) b =
    (b.0, traverse-Between p now false (suc m.mid) hi ms b.1)
traverse-Between p now false lo hi (m ∷ ms) b =
    let rest = traverse p now (is_lost now m) ms in
    let ih = traverse-Between p now (is_lost now m) (suc m.mid) hi ms b.1 in
    ground (arith, ih, retried-mid now m, Between-mono lo (suc m.mid) hi rest.0)

pub data Call : Type 0 where
  add :
      (now : ℕ) (ip : Text) (port : ℤ) (message : Text) → Option CallBack → (forever : Bool) → Call
  delete : (has_send : Bool) (mid : ℕ) (msg ip : Option Text) → Call
  sweep : (now : ℕ) → Call

-- The pool after a call of one of the operations that change it.
unfoldable pub after : Platform → WaitAckMsgSender → Call → WaitAckMsgSender
after p s (add now ip port message cb forever) = (add_msg p now ip port message cb forever s).1
after p s (delete h mid msg ip) = (delete_msg h mid msg ip s).0
after p s (sweep now) = (traverse_all_msg p now s).0

unfoldable pub run : Platform → WaitAckMsgSender → List Call → WaitAckMsgSender
unfolding after
run p s [] = s
run p s (c ∷ cs) = run p (after p s c) cs

-- The numbers of the messages increase along the pool and lie below the next number.
abbrev pub IsOrdered : WaitAckMsgSender → Type 0
IsOrdered s = Between 0 s.wait_ack_msg_list s.mid_count

after-IsOrdered :
    (p : Platform) (s : WaitAckMsgSender) (c : Call)
    → s.mid_count + 1 < u32_mod
    → IsOrdered s
    → IsOrdered (after p s c) × ((after p s c).mid_count ≤ s.mid_count + 1)
unfolding after add_msg delete_msg traverse_all_msg
after-IsOrdered p s (add now ip port message cb forever) h b =
    let same : next_u32 s.mid_count ≡ s.mid_count + 1 = omega arith in
    (rw same (Between-snoc 0 s.mid_count s.wait_ack_msg_list _ b refl), omega arith)
after-IsOrdered p s (delete g mid msg ip) h b =
    (delete_first-Between g mid msg ip 0 s.mid_count s.wait_ack_msg_list b, omega arith)
after-IsOrdered p s (sweep now) h b =
    (traverse-Between p now false 0 s.mid_count s.wait_ack_msg_list b, omega arith)

run_keeps :
    (p : Platform) (s : WaitAckMsgSender) (cs : List Call)
    → s.mid_count + length cs < u32_mod
    → IsOrdered s
    → IsOrdered (run p s cs)
unfolding run
run_keeps p s [] h b = b
run_keeps p s (c ∷ cs) h b =
    let (kept, bound) = after-IsOrdered p s c (omega arith) b in
    run_keeps p (after p s c) cs (omega arith) kept

-- After fewer than 2 ^ 32 calls on a fresh pool, whatever they are, no two messages of the pool have one
-- number: the numbers increase along the pool and lie below the next number.
pub run-IsOrdered :
    (p : Platform) (cs : List Call) → length cs < u32_mod → IsOrdered (run p Pool.new cs)
unfolding Pool.new
run-IsOrdered p cs h = run_keeps p _ cs (omega arith) (omega arith)

find_in_below :
    (lo hi q : ℕ) (ms : List WaitAckMsg) → Between lo ms hi → q < lo → find_in q ms ≡ false
unfolding find_in
find_in_below lo hi q [] b h = refl
find_in_below lo hi q (m ∷ ms) b h = ground (arith, find_in_below (suc m.mid) hi q ms)

find_in_above :
    (lo hi q : ℕ) (ms : List WaitAckMsg) → Between lo ms hi → hi ≤ q → find_in q ms ≡ false
unfolding find_in
find_in_above lo hi q [] b h = refl
find_in_above lo hi q (m ∷ ms) b h =
    ground (arith, find_in_above (suc m.mid) hi q ms, Between-le (suc m.mid) hi ms)

find_in-delete_first :
    (h : Bool) (mid : ℕ) (msg ip : Option Text) (q lo hi : ℕ) (ms : List WaitAckMsg)
    → Between lo ms hi
    → find_in q (delete_first h mid msg ip ms).0 ≡ (if q == mid then false else find_in q ms)
unfolding delete_first find_in
find_in-delete_first h mid msg ip q lo hi [] b = ground arith
find_in-delete_first h mid msg ip q lo hi (m ∷ ms) b = ground (
  arith,
  find_in-delete_first h mid msg ip q (suc m.mid) hi ms,
  find_in_below (suc m.mid) hi q ms,
)

find_in-snoc :
    (q : ℕ) (ms : List WaitAckMsg) (m : WaitAckMsg)
    → find_in q (ms ++ m ∷ []) ≡ (if q == m.mid then true else find_in q ms)
unfolding find_in
find_in-snoc q [] m = ground arith
find_in-snoc q (x ∷ ms) m = ground (arith, find_in-snoc q ms m)

-- In a pool with ordered numbers a deletion removes the message of that number, and no other message.
pub find_msg-delete_msg :
    (s : WaitAckMsgSender) (h : Bool) (mid q : ℕ) (msg ip : Option Text)
    → IsOrdered s
    → find_msg q (delete_msg h mid msg ip s).0 ≡ (if q == mid then false else find_msg q s)
unfolding find_msg delete_msg
find_msg-delete_msg s h mid q msg ip b =
    find_in-delete_first h mid msg ip q 0 s.mid_count s.wait_ack_msg_list b

-- A message that is added is in the pool under the number that is returned; of the other numbers the
-- pool holds those that it held. In a pool with ordered numbers that number was not in use.
pub find_msg-add_msg :
    (p : Platform) (now : ℕ) (ip : Text) (port : ℤ) (message : Text) (cb : Option CallBack)
    (forever : Bool) (s : WaitAckMsgSender) (q : ℕ)
    → IsOrdered s
    → let (mid, t, events) = add_msg p now ip port message cb forever s in
      (find_msg mid s ≡ false) × (find_msg q t ≡ (if q == mid then true else find_msg q s))
unfolding find_msg add_msg
find_msg-add_msg p now ip port message cb forever s q b = (
  find_in_above 0 s.mid_count s.mid_count s.wait_ack_msg_list b (omega arith),
  find_in-snoc q s.wait_ack_msg_list _,
)
