-- ===== src/Handles/Counting.antt =====
-- kernel/Handle.h: `Handle<T>`, over a store of counts. A pointer of the program is a number, and a count is
-- known by the number of its allocation.
use v6chat.Base.{ℕ, ◌+◌, ◌-◌, ◌%◌, Option, none, some, List, [], ◌∷◌, ◌==◌, if◌then◌else◌, ◌>>=◌}
use v6chat.Numbers.{u32_mod}

pub record Handle : Type 0 where
  pub p : Option ℕ
  pub count : ℕ

-- handles: the handles that live, under the names of their variables; an inner scope may hide a name.
-- counts: what a count holds; `none` where it is not allocated, or freed. fresh: the number of the next
-- allocation. deleted: the handles that ran `delete p; delete count;`, the last one first.
pub record Store : Type 0 where
  pub handles : List (ℕ × Handle)
  pub counts : ℕ → Option ℕ
  pub fresh : ℕ
  pub deleted : List Handle

unfoldable pub find_handle : ℕ → List (ℕ × Handle) → Option Handle
find_handle name [] = none
find_handle name ((k, h) ∷ hs) = if k == name then some h else find_handle name hs

unfoldable pub replace_handle : ℕ → Handle → List (ℕ × Handle) → List (ℕ × Handle)
replace_handle name r [] = []
replace_handle name r ((k, h) ∷ hs) =
    if k == name then (k, r) ∷ hs else (k, h) ∷ replace_handle name r hs

unfoldable pub remove_handle : ℕ → List (ℕ × Handle) → List (ℕ × Handle)
remove_handle name [] = []
remove_handle name ((k, h) ∷ hs) = if k == name then hs else (k, h) ∷ remove_handle name hs

-- `*count = v`, and the freeing of a count.
unfoldable pub set_count : ℕ → Option ℕ → (ℕ → Option ℕ) → ℕ → Option ℕ
set_count c v counts d = if d == c then v else counts d

-- `++*count`. `none`: the count is not allocated.
unfoldable pub incr_count : ℕ → Store → Option Store
unfolding set_count
incr_count c s = do
  n ← s.counts c
  some (record s { counts = set_count c (some ((n + 1) % u32_mod)) s.counts })

-- `decr_count`. `none`: the count is not allocated.
unfoldable pub decr_count : Handle → Store → Option Store
unfolding set_count
decr_count h s = do
  n ← s.counts h.count
  let left = (n + (u32_mod - 1)) % u32_mod
  some (
      if left == 0
      then record s { counts = set_count h.count none s.counts; deleted = h ∷ s.deleted }
      else record s { counts = set_count h.count (some left) s.counts })

-- `Handle(T *pinfo)`
unfoldable pub construct : (name : ℕ) → (pinfo : Option ℕ) → Store → Store
unfolding set_count
construct name pinfo s = record {
  handles = (name, record { p = pinfo; count = s.fresh }) ∷ s.handles;
  counts = set_count s.fresh (some 1) s.counts;
  fresh = s.fresh + 1;
  deleted = s.deleted;
}

-- `Handle(const Handle &i)`
unfoldable pub copy : (name : ℕ) → Handle → Store → Option Store
unfolding incr_count
copy name i s = do
  s' ← incr_count i.count s
  some (record s' { handles = (name, record { p = i.p; count = i.count }) ∷ s'.handles })

-- `~Handle()`, behind which the variable is gone.
unfoldable pub destroy : (name : ℕ) → Handle → Store → Option Store
unfolding decr_count remove_handle
destroy name h s = do
  s' ← decr_count h s
  some (record s' { handles = remove_handle name s'.handles })

-- `operator=`, of a handle that `name` holds.
unfoldable pub assign : (name : ℕ) → (this rhs : Handle) → Store → Option Store
unfolding incr_count decr_count replace_handle
assign name this rhs s = do
  s1 ← incr_count rhs.count s
  s2 ← decr_count this s1
  some (record s2 {
    handles = replace_handle name (record { p = rhs.p; count = rhs.count }) s2.handles;
  })

-- `operator->` and `operator*`. `none`: the exception of an unbound handle.
unfoldable pub dereference : Handle → Option ℕ
dereference h = h.p

-- What a program does with variables that are handles.
pub data Operation : Type 0 where
  constructed : (name : ℕ) → (pinfo : Option ℕ) → Operation
  copied : (name from : ℕ) → Operation
  assigned : (name from : ℕ) → Operation
  destroyed : (name : ℕ) → Operation

-- Without a variable of a name there is no such operation.
unfoldable pub after : Operation → Store → Option Store
unfolding find_handle construct copy assign destroy
after (constructed name pinfo) s = some (construct name pinfo s)
after (copied name from) s = elim (find_handle from s.handles) [
  | none ↦ some s
  | some i ↦ copy name i s
]
after (assigned name from) s = elim (find_handle from s.handles) [
  | none ↦ some s
  | some rhs ↦ elim (find_handle name s.handles) [
    | none ↦ some s
    | some this ↦ assign name this rhs s
  ]
]
after (destroyed name) s = elim (find_handle name s.handles) [
  | none ↦ some s
  | some h ↦ destroy name h s
]

unfoldable pub run : List Operation → Store → Option Store
unfolding after
run [] s = some s
run (op ∷ ops) s = do s' ← after op s; run ops s'

unfoldable pub no_handles : Store
no_handles = record { handles = []; counts = λ c. none; fresh = 0; deleted = [] }
