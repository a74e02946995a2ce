-- ===== src/History/Pages.antt =====
-- What the pages of a chat's history show.
use mathlib.Core.List.{reverse, reverse-cons}
use v6chat.Base.{
  ◌^◌, ◌≤◌, ℕ, zero, suc, ◌+◌, ◌-◌, ◌<◌, ◌≡◌, refl, sym, ap, ◌∙◌, true, Option, none, some, List,
  [], ◌∷◌, ◌++◌, map, arith, length, drop, if◌then◌else◌,
}
use v6chat.Database.Chats.{chat_items_sql}
use v6chat.Database.Connection.{Sqlite}
use v6chat.History.Paging.{ChatHistoryItem, item_of, number_of, last_number, push_all, history}
use v6chat.Numbers.{ℤ, pos, minus_one, int_eq}
use v6chat.Text.Decimal.{print, print_int, atoi-print}
use v6chat.User.Loading.{Row}
use v6chat.User.UserList.{Backend}

-- The rows of a chat's table hold the numbers from `k` on, one after the other.
abbrev pub NumberedFrom : ℕ → List Row → Type 0
NumberedFrom k [] = Unit
NumberedFrom k (row ∷ rows) = (row 0 ≡ some (print k)) × NumberedFrom (k + 1) rows

-- What SQLite answers on that table to `order by id desc limit count`. Without `order by` it leaves the order open,
-- so nothing is said of `limit offset, count`.
pub record Answers (db : Sqlite) (uid : ℤ) (rows : List Row) : Type 0 where
  pub opens_is : db.opens ≡ true
  pub newest :
      (n : ℕ)
      → db.get_table (chat_items_sql (print_int uid) (print_int minus_one) (print n))
        ≡ some (reverse (drop (length rows - n) rows))

pub NumberedFrom-drop :
    (o k : ℕ) (rows : List Row) → NumberedFrom k rows → NumberedFrom (k + o) (drop o rows)
NumberedFrom-drop zero k rows h = let e : k + 0 ≡ k = omega arith in rw e h
NumberedFrom-drop (suc o) k [] h = tt
NumberedFrom-drop (suc o) k (row ∷ rows) h =
    let e : k + suc o ≡ k + 1 + o = omega arith in rw e (NumberedFrom-drop o (k + 1) rows h.1)

-- The numbers of the first and of the last row.
abbrev pub first_of : List Row → Option ℤ
first_of [] = none
first_of (row ∷ rows) = number_of row

abbrev pub last_of : List Row → Option ℤ
last_of [] = none
last_of (row ∷ rows) = last_number row rows

number_of_row :
    (k : ℕ) (row : Row) → k < 2 ^ 31 → row 0 ≡ some (print k) → number_of row ≡ some (pos k)
unfolding number_of
number_of_row k row fits e = rw (e, atoi-print k fits) refl

last_number_rows :
    (k : ℕ) (row : Row) (rows : List Row)
    → NumberedFrom k (row ∷ rows)
    → k + length rows < 2 ^ 31
    → last_number row rows ≡ some (pos (k + length rows))
unfolding last_number
last_number_rows k row [] h fits =
    number_of_row k row (omega arith) h.0 ∙ ap (λ (n : ℕ). some (pos n)) (omega arith)
last_number_rows k row (row' ∷ rows) h fits =
    last_number_rows (k + 1) row' rows h.1 (omega arith)
    ∙ ap (λ (n : ℕ). some (pos n)) (omega arith)

pub first_of_rows :
    (k : ℕ) (rows : List Row)
    → NumberedFrom k rows
    → 0 < length rows
    → k + length rows ≤ 2 ^ 31
    → first_of rows ≡ some (pos k)
first_of_rows k [] h p fits = absurd (omega arith)
first_of_rows k (row ∷ rows) h p fits = number_of_row k row (omega arith) h.0

pub last_of_rows :
    (k : ℕ) (rows : List Row)
    → NumberedFrom k rows
    → 0 < length rows
    → k + length rows ≤ 2 ^ 31
    → last_of rows ≡ some (pos (k + length rows - 1))
last_of_rows k [] h p fits = absurd (omega arith)
last_of_rows k (row ∷ rows) h p fits =
    last_number_rows k row rows h (omega arith) ∙ ap (λ (n : ℕ). some (pos n)) (omega arith)

first_of-append :
    (xs : List Row) (y : Row) (ys : List Row)
    → first_of ((xs ++ y ∷ []) ++ ys) ≡ first_of (xs ++ y ∷ [])
first_of-append [] y ys = refl
first_of-append (x ∷ xs) y ys = refl

last_number-append :
    (row : Row) (rows : List Row) (y : Row) → last_number row (rows ++ y ∷ []) ≡ number_of y
unfolding last_number
last_number-append row [] y = refl
last_number-append row (row' ∷ rows) y = last_number-append row' rows y

last_of-append : (xs : List Row) (y : Row) → last_of (xs ++ y ∷ []) ≡ number_of y
unfolding last_number
last_of-append [] y = refl
last_of-append (x ∷ xs) y = last_number-append x xs y

pub last_of-reverse : (rows : List Row) → last_of (reverse rows) ≡ first_of rows
last_of-reverse [] = refl
last_of-reverse (x ∷ xs) = rw (reverse-cons x xs) (last_of-append (reverse xs) x)

pub first_of-reverse : (rows : List Row) → first_of (reverse rows) ≡ last_of rows
unfolding last_number
first_of-reverse [] = refl
first_of-reverse (x ∷ []) = refl
first_of-reverse (x ∷ y ∷ ys) =
    rw (reverse-cons x (y ∷ ys), reverse-cons y ys)
      (first_of-append (reverse ys) y (x ∷ [])
        ∙ ap first_of (sym (reverse-cons y ys))
        ∙ first_of-reverse (y ∷ ys))

push_all-append :
    (b : Backend) (xs ys : List Row) (items : List ChatHistoryItem)
    → push_all b (xs ++ ys) items ≡ push_all b ys (push_all b xs items)
unfolding push_all
push_all-append b [] ys items = refl
push_all-append b (x ∷ xs) ys items = push_all-append b xs ys (item_of b x ∷ items)

-- The stack turns the order of the newest rows round.
pub push_all-reverse :
    (b : Backend) (rows : List Row) → push_all b (reverse rows) [] ≡ map (item_of b) rows
unfolding push_all
push_all-reverse b [] = refl
push_all-reverse b (x ∷ xs) =
    ap (λ (r : List Row). push_all b r []) (reverse-cons x xs)
    ∙ push_all-append b (reverse xs) (x ∷ []) []
    ∙ ap (λ (t : List ChatHistoryItem). item_of b x ∷ t) (push_all-reverse b xs)

pub history-first_of :
    (b : Backend) (rows : List Row) (mid begin_mid end_mid first last : ℤ)
    → first_of rows ≡ some first
    → last_of rows ≡ some last
    → history b rows mid begin_mid end_mid
      ≡ some (
          if int_eq mid (pos 0)
          then record { items = push_all b rows []; begin_mid = last; end_mid = first }
          else record { items = map (item_of b) rows; begin_mid = first; end_mid = last })
unfolding history
history-first_of b [] mid begin_mid end_mid first last f e = cc
history-first_of b (row ∷ rows) mid begin_mid end_mid first last f e = rw (f, e) refl
