-- ===== src/Bridge/Listing.antt =====
-- What Lua reads in the tables and results of the bridge.
use v6chat.Base.{
  ℕ, zero, suc, ◌+◌, ◌≤◌, ◌<◌, ◌≡◌, refl, ap, ◌∙◌, Bool, true, false, none, some, List, [], ◌∷◌,
  map, arith, length, ◌==◌, if◌then◌else◌,
}
use v6chat.Bridge.Chats.{take_chats, get_chat_contents, chat_row}
use v6chat.Bridge.Readers.{Shell, file_exist, user_rows, get_user_list, table_answer}
use v6chat.Bridge.Stack.{
  Value, nil, number, string, table, Fields, empty, field, Stack, Arguments, Row, Answer, set_table,
  push_table, push_rows, set_fields, results, reversed,
}
use v6chat.Numbers.{pos, to_unsigned}
use v6chat.OrderedMap.{lookup, put, lookup-put}
use v6chat.Text.{Text}
use v6chat.User.Chat.{get_chat_content}
use v6chat.User.Info.{ChatMsg, UserInfo}
use v6chat.User.Queue.{get_at}
use v6chat.User.UserList.{UserList}

-- The table of a row, and the table of a list of rows from the index `i` on.
unfoldable pub with_fields : Row → Fields → Fields
with_fields [] fs = fs
with_fields ((name, v) ∷ row) fs = with_fields row (field (string name) v fs)

unfoldable pub listed : ℕ → List Row → Fields → Fields
unfolding with_fields
listed i [] fs = fs
listed i (row ∷ rows) fs =
    listed (i + 1) rows (field (number (pos i)) (table (with_fields row empty)) fs)

set_fields-with_fields :
    (row : Row) (fs : Fields) (s : Stack)
    → set_fields row (table fs ∷ s) ≡ some (table (with_fields row fs) ∷ s)
unfolding set_fields set_table with_fields
set_fields-with_fields [] fs s = refl
set_fields-with_fields ((name, v) ∷ row) fs s =
    set_fields-with_fields row (field (string name) v fs) s

push_rows-listed :
    (i : ℕ) (rows : List Row) (fs : Fields) (s : Stack)
    → push_rows i rows (table fs ∷ s) ≡ some (table (listed i rows fs) ∷ s)
unfolding push_rows set_table listed
push_rows-listed i [] fs s = refl
push_rows-listed i (row ∷ rows) fs s =
    rw (set_fields-with_fields row empty (number (pos i) ∷ table fs ∷ s))
      (push_rows-listed (i + 1) rows (field (number (pos i)) (table (with_fields row empty)) fs) s)

-- `t[i]` of Lua, for a number.
unfoldable pub at_number : ℕ → Fields → Value
at_number i empty = nil
at_number i (field (number (pos k)) v fs) = if k == i then v else at_number i fs
at_number i (field key v fs) = at_number i fs

-- What stands under an index of a list of rows that starts with 1.
unfoldable pub row_at : ℕ → List Row → Value
row_at i [] = nil
row_at zero (row ∷ rows) = table (with_fields row empty)
row_at (suc i) (row ∷ rows) = row_at i rows

at_number-listed_before :
    (rows : List Row) (i k : ℕ) (fs : Fields)
    → k < i
    → at_number k (listed i rows fs) ≡ at_number k fs
unfolding listed at_number
at_number-listed_before [] i k fs h = refl
at_number-listed_before (row ∷ rows) i k fs h =
    let other : (i == k) ≡ false = ground arith in
    at_number-listed_before rows (i + 1) k
      (field (number (pos i)) (table (with_fields row empty)) fs) (omega arith)
    ∙ rw other refl

field_skipped :
    (i n : ℕ) (v : Value) (fs : Fields)
    → i + 1 ≤ n
    → at_number n (field (number (pos i)) v fs) ≡ at_number n fs
unfolding at_number
field_skipped i n v fs h = let other : (i == n) ≡ false = ground arith in rw other refl

at_number-listed :
    (rows : List Row) (i k : ℕ) (fs : Fields)
    → ((n : ℕ) → i ≤ n → at_number n fs ≡ nil)
    → at_number (i + k) (listed i rows fs) ≡ row_at k rows
unfolding listed row_at
at_number-listed [] i zero fs free = free (i + zero) (omega arith)
at_number-listed [] i (suc k) fs free = free (i + suc k) (omega arith)
at_number-listed (row ∷ rows) i zero fs free =
    let here : i + zero ≡ i = omega arith in
    let same : (i == i) ≡ true = ground arith in
    rw here (
      at_number-listed_before rows (i + 1) i
        (field (number (pos i)) (table (with_fields row empty)) fs) (omega arith)
      ∙ unfold at_number in (rw same refl))
at_number-listed (row ∷ rows) i (suc k) fs free =
    let there : i + suc k ≡ (i + 1) + k = omega arith in
    rw there (
      at_number-listed rows (i + 1) k (field (number (pos i)) (table (with_fields row empty)) fs)
        (λ n h. field_skipped i n (table (with_fields row empty)) fs h ∙ free n (omega arith)))

table_answer-results :
    (rows : List Row) → results (table_answer rows) ≡ some (table (listed 1 rows empty) ∷ [])
unfolding table_answer push_table results reversed
table_answer-results rows = rw (push_rows-listed 1 rows empty []) refl

-- `GetUserList` returns one table. Under an index from 1 on it holds the table of fields of the user who stands
-- there in the order of the numbers, and nothing under an index past the last user.
pub get_user_list-at :
    (w : Shell) (l : UserList) (k : ℕ)
    → (fs : Fields) × (results (get_user_list true w l) ≡ some (table fs ∷ []))
      × (at_number (1 + k) fs ≡ row_at k (user_rows w l.users))
unfolding get_user_list at_number
get_user_list-at w l k = (
  listed 1 (user_rows w l.users) empty,
  table_answer-results (user_rows w l.users),
  at_number-listed (user_rows w l.users) 1 k empty (λ n h. refl),
)

-- Whether the file exists or not, and whatever the argument is, `FileExist` returns nil.
pub file_exist-nil :
    (app : Bool) (exists : Text → Bool) (w : Shell) (a : Arguments)
    → results (file_exist app exists w a) ≡ some (nil ∷ [])
unfolding file_exist results reversed
file_exist-nil true exists w a = refl
file_exist-nil false exists w a = refl

nothing_at :
    (uid : ℕ) (l : UserList) (u : UserInfo)
    → l.has_init ≡ true
    → lookup uid l.users ≡ some u
    → u.unread_chat_content ≡ []
    → get_chat_content uid l ≡ (none, l)
unfolding get_chat_content
nothing_at uid l u ready at e = rw (get_chat_content, at, e) (ground arith)

emptied : (u : UserInfo) → u.unread_chat_content ≡ [] → u ≡ record u { unread_chat_content = [] }
emptied u e = ground arith

take_chats_all :
    (ms : List ChatMsg) (rounds uid : ℕ) (l : UserList) (u : UserInfo)
    → l.has_init ≡ true
    → lookup uid l.users ≡ some u
    → u.unread_chat_content ≡ ms
    → length ms < rounds
    → (l' : UserList) × (take_chats rounds uid l ≡ some (ms, l'))
      × (lookup uid l'.users ≡ some (record u { unread_chat_content = [] }))
unfolding take_chats
take_chats_all ms zero uid l u ready at e h = absurd (omega arith)
take_chats_all [] (suc rounds) uid l u ready at e h =
    (l, rw (nothing_at uid l u ready at e) refl, at ∙ ap some (emptied u e))
take_chats_all (m ∷ ms) (suc rounds) uid l u ready at e h =
    let u' : UserInfo = record u { unread_chat_content = ms } in
    let l1 : UserList = record l { users = put uid u' l.users } in
    let found : lookup uid l1.users ≡ some u' = rw (lookup-put uid uid u' l.users) (ground arith) in
    let (l', t, none_left) = take_chats_all ms rounds uid l1 u' ready found refl (omega arith) in
    (l', rw (get_at uid l u m ms ready at e, t) refl, none_left)

-- Let the list be ready and hold the user, and let there be one round more than texts wait for it. Then the loop
-- of `GetChatContent` ends; Lua gets one table, with the time, the text and the type of every waiting text in
-- the order in which they came, and afterwards none waits and the user is else as before.
pub get_chat_contents-all :
    (w : Shell) (rounds k : ℕ) (a : Arguments) (l : UserList) (u : UserInfo)
    → l.has_init ≡ true
    → lookup (to_unsigned (a.to_integer 2)) l.users ≡ some u
    → length u.unread_chat_content < rounds
    → (answer : Answer) × (l' : UserList) × (fs : Fields) × (get_chat_contents true w rounds a l
        ≡ some (answer, l'))
      × (results answer ≡ some (table fs ∷ []))
      × (at_number (1 + k) fs ≡ row_at k (map (chat_row w) u.unread_chat_content))
      × (lookup (to_unsigned (a.to_integer 2)) l'.users
          ≡ some (record u { unread_chat_content = [] }))
unfolding get_chat_contents at_number
get_chat_contents-all w rounds k a l u ready at h =
    let uid : ℕ = to_unsigned (a.to_integer 2) in
    let rows : List Row = map (chat_row w) u.unread_chat_content in
    let (l', t, left) = take_chats_all u.unread_chat_content rounds uid l u ready at refl h in
    (
      table_answer rows,
      l',
      listed 1 rows empty,
      rw t refl,
      table_answer-results rows,
      at_number-listed rows 1 k empty (λ n h'. refl),
      left,
    )
