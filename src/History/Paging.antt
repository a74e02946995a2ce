-- ===== src/History/Paging.antt =====
-- kernel/V6Chat3App.cpp: `GetChatHistory`.
use v6chat.Base.{
  ℕ, ◌+◌, ◌-◌, Bool, true, false, Option, none, some, List, [], ◌∷◌, map, leb, if◌then◌else◌, ◌>>=◌,
}
use v6chat.Database.Chats.{get_chat_items}
use v6chat.Database.Connection.{Sqlite, Ledger}
use v6chat.Numbers.{ℤ, pos, negsuc, minus_one, int_eq}
use v6chat.Text.Decimal.{print_int, atoi}
use v6chat.Text.{Text}
use v6chat.User.Loading.{Row, bytes, words}
use v6chat.User.UserList.{Backend}

pub record ChatHistoryItem : Type 0 where
  pub name : Text
  pub content : Text
  pub time : Text

-- What `GetChatHistory` hands out.
pub record HistoryPage : Type 0 where
  pub items : List ChatHistoryItem
  pub begin_mid : ℤ
  pub end_mid : ℤ

-- A column that is NULL leaves the text empty.
unfoldable pub item_of : Backend → Row → ChatHistoryItem
unfolding words bytes
item_of b row = record { name = words b (row 1); content = words b (row 2); time = bytes (row 3) }

-- `a - b` and `a < 0` on int.
abbrev sub_ℕ : ℕ → ℕ → ℤ
sub_ℕ a b = if leb b a then pos (a - b) else negsuc (b - a - 1)

infixl 65 ◌-ℤ◌
unfoldable pub ◌-ℤ◌ : ℤ → ℤ → ℤ
pos a -ℤ pos b = sub_ℕ a b
pos a -ℤ negsuc b = pos (a + b + 1)
negsuc a -ℤ pos b = negsuc (a + b)
negsuc a -ℤ negsuc b = sub_ℕ b a

unfoldable pub is_negative : ℤ → Bool
is_negative (pos n) = false
is_negative (negsuc n) = true

-- `bMid` and `num`: the offset and the number of rows that are asked for.
unfoldable pub page : (dest : Bool) (mid num : ℤ) → ℤ × ℤ
unfolding ◌-ℤ◌ is_negative int_eq
page true mid num = (mid, num)
page false mid num =
    if int_eq mid (pos 0)
    then (minus_one, num)
    else if is_negative (mid -ℤ num)
    then (pos 0, mid)
    else (mid -ℤ num, num)

-- `atoi` of the first column. `none`: it is NULL.
unfoldable pub number_of : Row → Option ℤ
number_of row = row 0 >>= λ t. some (atoi t)

-- `atoi` of the first column of the last row.
unfoldable pub last_number : Row → List Row → Option ℤ
unfolding number_of
last_number row [] = number_of row
last_number row (row' ∷ rows) = last_number row' rows

-- The loop that pushes the items on a stack, whose top is the head of the list.
unfoldable pub push_all : Backend → List Row → List ChatHistoryItem → List ChatHistoryItem
push_all b [] items = items
push_all b (row ∷ rows) items = push_all b rows (item_of b row ∷ items)

-- What the rows of the answer give: the items, `beginMid` and `endMid`, which stay where there is no row.
unfoldable pub history : Backend → List Row → (mid begin_mid end_mid : ℤ) → Option HistoryPage
unfolding last_number number_of push_all int_eq
history b [] mid begin_mid end_mid =
    some (record { items = []; begin_mid = begin_mid; end_mid = end_mid })
history b (row ∷ rows) mid begin_mid end_mid = do
  first ← number_of row
  last ← last_number row rows
  some (
      if int_eq mid (pos 0)
      then record { items = push_all b (row ∷ rows) []; begin_mid = last; end_mid = first }
      else record { items = map (item_of b) (row ∷ rows); begin_mid = first; end_mid = last })

-- What follows the answer of get_chatItems.
unfoldable pub answered :
    Backend
    → (mid begin_mid end_mid : ℤ) → Option (List Row)
    → Ledger
    → Option (Bool × HistoryPage × Ledger)
unfolding history
answered b mid begin_mid end_mid none l =
    some (false, record { items = []; begin_mid = begin_mid; end_mid = end_mid }, l)
answered b mid begin_mid end_mid (some rows) l =
    history b rows mid begin_mid end_mid >>= λ h. some (true, h, l)

-- `GetChatHistory`: whether it succeeds, the history, and what is held of the database. `none`: it crashes on
-- a number that is NULL.
unfoldable pub get_chat_history :
    Backend
    → Sqlite
    → (uid : ℤ) → (dest : Bool) → (mid num begin_mid end_mid : ℤ) → Ledger
    → Option (Bool × HistoryPage × Ledger)
unfolding page answered
get_chat_history b db uid dest mid num begin_mid end_mid l =
    let (offset, count) = page dest mid num in
    let (answer, l') = get_chat_items db (print_int uid) (print_int offset) (print_int count) l in
    answered b mid begin_mid end_mid answer l'
