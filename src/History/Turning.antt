-- ===== src/History/Turning.antt =====
-- The newest page of a chat's history.
use mathlib.Core.List.{reverse}
use v6chat.Base.{
  ◌^◌, ℕ, ◌+◌, ◌-◌, ◌<◌, ◌≡◌, refl, ap, ◌∙◌, Bool, true, false, some, List, map, arith, length,
  drop, length-drop,
}
use v6chat.Database.Chats.{get_chat_items, chat_items_sql}
use v6chat.Database.Connection.{Sqlite, Ledger}
use v6chat.Database.Connection
use v6chat.History.Pages.{
  NumberedFrom, Answers, NumberedFrom-drop, first_of, last_of, first_of_rows, last_of_rows,
  first_of-reverse, last_of-reverse, push_all-reverse, history-first_of,
}
use v6chat.History.Paging.{
  ChatHistoryItem, HistoryPage, item_of, page, history, answered, get_chat_history,
}
use v6chat.Numbers.{ℤ, pos, minus_one, int_eq}
use v6chat.Text.Decimal.{print, print_int}
use v6chat.Text.{Text}
use v6chat.User.Loading.{Row}
use v6chat.User.UserList.{Backend}

get_chat_items-answer :
    (db : Sqlite) (uid id num : Text) (rows : List Row) (l : Ledger)
    → db.opens ≡ true
    → db.get_table (chat_items_sql uid id num) ≡ some rows
    → (get_chat_items db uid id num l).0 ≡ some rows
unfolding get_chat_items Connection.get_table
get_chat_items-answer db uid id num rows l o a = rw (o, a) refl

get_chat_history-rows :
    (b : Backend) (db : Sqlite) (uid : ℤ) (dest : Bool) (mid num begin_mid end_mid offset count : ℤ)
    (l : Ledger) (rows : List Row) (h : HistoryPage)
    → page dest mid num ≡ (offset, count)
    → db.opens ≡ true
    → db.get_table (chat_items_sql (print_int uid) (print_int offset) (print_int count)) ≡ some rows
    → history b rows mid begin_mid end_mid ≡ some h
    → get_chat_history b db uid dest mid num begin_mid end_mid l
      ≡ some (true, h, (get_chat_items db (print_int uid) (print_int offset) (print_int count) l).1)
unfolding get_chat_history
get_chat_history-rows b db uid dest mid num begin_mid end_mid offset count l rows h p o a e =
    rw (get_chat_history, p)
      (ap
          (λ x.
            answered b mid begin_mid end_mid x
              (get_chat_items db (print_int uid) (print_int offset) (print_int count) l).1)
          (get_chat_items-answer db (print_int uid) (print_int offset) (print_int count) rows l o a)
        ∙ rw (answered, e) refl)

module _ (b : Backend) (db : Sqlite) (uid : ℤ) (rows : List Row) (numbered : NumberedFrom 1 rows)
    (few : length rows < 2 ^ 31) (answers : Answers db uid rows) where
  newest_first :
      (num : ℕ)
      → 0 < num
      → 0 < length rows
      → first_of (drop (length rows - num) rows) ≡ some (pos (length rows - num + 1))
  newest_first num pn some_row =
      let o : ℕ = length rows - num in
      first_of_rows (1 + o) (drop o rows) (NumberedFrom-drop o 1 rows numbered)
        (omega (arith, length-drop o rows)) (omega (arith, length-drop o rows))
      ∙ ap (λ (k : ℕ). some (pos k)) (omega arith)

  newest_last :
      (num : ℕ)
      → 0 < num
      → 0 < length rows
      → last_of (drop (length rows - num) rows) ≡ some (pos (length rows))
  newest_last num pn some_row =
      let o : ℕ = length rows - num in
      last_of_rows (1 + o) (drop o rows) (NumberedFrom-drop o 1 rows numbered)
        (omega (arith, length-drop o rows)) (omega (arith, length-drop o rows))
      ∙ ap (λ (k : ℕ). some (pos k)) (omega (arith, length-drop o rows))

  -- Let the rows of a user's chat be numbered from 1 on without a gap, with numbers below 2 ^ 31, and let the
  -- database open and answer `order by id desc limit` as it documents. `GetChatHistory` from 0 backwards, for a page
  -- of any size above 0, then succeeds and gives as many of the last rows as the page takes, or all, the oldest of
  -- them first, with the numbers of the first and of the last of them.
  pub get_chat_history-newest :
      (num : ℕ) (begin_mid end_mid : ℤ) (l : Ledger)
      → 0 < num
      → 0 < length rows
      → (l' : Ledger) × (get_chat_history b db uid false (pos 0) (pos num) begin_mid end_mid l
          ≡ some (
            true,
            record {
              items = map (item_of b) (drop (length rows - num) rows);
              begin_mid = pos (length rows - num + 1);
              end_mid = pos (length rows);
            },
            l',
          ))
  unfolding print_int print page int_eq
  get_chat_history-newest num begin_mid end_mid l pn some_row = (
    _,
    get_chat_history-rows b db uid false (pos 0) (pos num) begin_mid end_mid minus_one (pos num) l
        (reverse (drop (length rows - num) rows)) _ refl answers.opens_is (answers.newest num)
        (history-first_of b (reverse (drop (length rows - num) rows)) (pos 0) begin_mid end_mid
            (pos (length rows)) (pos (length rows - num + 1))
            (first_of-reverse (drop (length rows - num) rows) ∙ newest_last num pn some_row)
            (last_of-reverse (drop (length rows - num) rows) ∙ newest_first num pn some_row)
          ∙ ap
              (λ (t : List ChatHistoryItem). some (record {
                items = t;
                begin_mid = pos (length rows - num + 1);
                end_mid = pos (length rows);
              }))
              (push_all-reverse b (drop (length rows - num) rows))),
  )
