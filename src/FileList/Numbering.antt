-- ===== src/FileList/Numbering.antt =====
-- Numbers of files: a fresh one for each file, in both lists.
use v6chat.Base.{
  ℕ, suc, ◌+◌, ◌≤◌, ◌<◌, ◌≡◌, refl, Bool, true, none, some, List, [], ◌∷◌, arith, ◌==◌, inl, inr,
  Bool-cases, if◌then◌else◌,
}
use v6chat.FileList.Received
use v6chat.FileList.Received.{RecvFileList, RecvFilePkg, change_state, is_transfer}
use v6chat.Numbers.{ℤ, pos, negsuc}
use v6chat.OrderedMap.{
  OrderedMap, contains, From, lookup, put, erase, lookup-put, lookup-erase, put-From, erase-From,
}
use v6chat.Text.{Text}

-- Every key lies below `n`.
abbrev pub KeysBelow {ℓ} : {V : Type ℓ} → ℕ → OrderedMap V → Type 0
KeysBelow n m = (k : ℕ) → contains k m ≡ true → k < n

-- The numbers start at 1, are distinct, and the next one is above all that are in use.
pub record IsNumbered (s : RecvFileList) : Type 0 where
  pub ordered : From 1 s.files
  pub below : KeysBelow s.files_count s.files
  pub positive : 1 ≤ s.files_count

change_state-From :
    (uid : ℤ) (fid : Text) (b : Bool) (n : ℕ) (m : OrderedMap RecvFilePkg)
    → From n m
    → From n (change_state uid fid b m).1
unfolding change_state
change_state-From uid fid b n [] f = tt
change_state-From uid fid b n ((j, fp) ∷ m) f =
    ground (arith, change_state-From uid fid b (suc j) m)

-- A change of state keeps the keys.
change_state-contains :
    (uid : ℤ) (fid : Text) (b : Bool) (m : OrderedMap RecvFilePkg) (k : ℕ)
    → contains k (change_state uid fid b m).1 ≡ contains k m
unfolding change_state lookup
change_state-contains uid fid b [] k = refl
change_state-contains uid fid b ((j, w) ∷ m) k = ground (arith, change_state-contains uid fid b m k)

put-IsNumbered :
    (fp : RecvFilePkg) (s : RecvFileList)
    → IsNumbered s
    → IsNumbered
        (record s { files = put s.files_count fp s.files; files_count = s.files_count + 1 })
put-IsNumbered fp s v = record {
  ordered = put-From 1 s.files_count fp s.files v.positive v.ordered;
  below = λ k h. ground (arith, v.below k, lookup-put k s.files_count fp s.files);
  positive = omega arith;
}

erase-IsNumbered :
    (n : ℕ) (s : RecvFileList) → IsNumbered s → IsNumbered (record s { files = erase n s.files })
erase-IsNumbered n s v = record {
  ordered = erase-From 1 n s.files v.ordered;
  below = λ k h. ground (arith, v.below k, lookup-erase k n s.files);
  positive = v.positive;
}

pub data Call : Type 0 where
  add_name : Bool → ℕ → Text → Call
  add_item : ℕ → Text → Text → Bool → Call
  delete : ℤ → Call
  change : ℤ → Text → Bool → Call

-- The state after a call of one of the operations that change it.
unfoldable pub after : RecvFileList → Call → RecvFileList
after s (add_name b u name) = (Received.add_file_name b u name s).1
after s (add_item u fid name b) = (Received.add_file_item u fid name b s).1
after s (delete n) = Received.delete_file_item n s
after s (change u fid b) = (Received.change_file_state u fid b s).1

pub after-IsNumbered : (s : RecvFileList) (c : Call) → IsNumbered s → IsNumbered (after s c)
unfolding after Received.add_file_name Received.add_file_item Received.delete_file_item
    Received.change_file_state
after-IsNumbered s (add_name b u name) v = put-IsNumbered _ s v
after-IsNumbered s (add_item u fid name b) v = put-IsNumbered _ s v
after-IsNumbered s (delete (negsuc n)) v = v
after-IsNumbered s (delete (pos n)) v = elim (Bool-cases (contains n s.files)) [
  | inl e ↦ rw e (erase-IsNumbered n s v)
  | inr e ↦ rw e v
]
after-IsNumbered s (change u fid b) v = record {
  ordered = change_state-From u fid b 1 s.files v.ordered;
  below = λ k h. v.below k (rw (change_state-contains u fid b s.files k) at h);
  positive = v.positive;
}

unfoldable pub run : RecvFileList → List Call → RecvFileList
run s [] = s
run s (c ∷ cs) = run (after s c) cs

run_keeps : (s : RecvFileList) (cs : List Call) → IsNumbered s → IsNumbered (run s cs)
unfolding run
run_keeps s [] v = v
run_keeps s (c ∷ cs) v = run_keeps (after s c) cs (after-IsNumbered s c v)

new-IsNumbered : IsNumbered Received.new
unfolding Received.new lookup
new-IsNumbered = record { ordered = tt; below = λ k h. cc; positive = omega arith }

-- After any calls on a fresh list the numbers in use are distinct, increase along the list from 1 on,
-- and lie below the next number to be given out.
pub run-IsNumbered : (cs : List Call) → IsNumbered (run Received.new cs)
run-IsNumbered cs = run_keeps Received.new cs new-IsNumbered

-- In a list whose numbers lie below the next one, the number that a new file gets was free; afterwards
-- it names the file, and every other number names what it named before.
pub add_file_item-fresh :
    (s : RecvFileList) (uid : ℕ) (fid name : Text) (b : Bool) (q : ℕ)
    → IsNumbered s
    → let (n, t) = Received.add_file_item uid fid name b s in
      (Received.get_file_path (pos n) s ≡ none)
      × (Received.get_file_path (pos q) t
          ≡ (if q == n then some name else Received.get_file_path (pos q) s))
unfolding Received.add_file_item Received.get_file_path
add_file_item-fresh s uid fid name b q v = ground (
  arith,
  v.below s.files_count,
  lookup-put q s.files_count (record { download = b; uid = uid; fid = fid; pathname = name })
      s.files,
)

-- After a deletion the number names nothing, and every other number names what it named before.
pub get_file_path-delete_file_item :
    (s : RecvFileList) (n q : ℕ)
    → Received.get_file_path (pos q) (Received.delete_file_item (pos n) s)
      ≡ (if q == n then none else Received.get_file_path (pos q) s)
unfolding Received.delete_file_item Received.get_file_path
get_file_path-delete_file_item s n q = ground (arith, lookup-erase q n s.files)
