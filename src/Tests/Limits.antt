-- ===== src/Tests/Limits.antt =====
-- A database with one table of a chat, which answers the statements of `get_chatItems` by reading them.
use mathlib.Core.List.{reverse}
use v6chat.Base.{
  ℕ, zero, suc, ◌+◌, ◌-◌, ◌*◌, ◌/◌, ◌%◌, ◌<◌, ◌≡◌, refl, sym, ap, ◌∙◌, append-nil, true, Option,
  none, some, List, [], ◌∷◌, ◌++◌, arith, ltb, ◌==◌, if◌then◌else◌, length, take, drop, Bool-cases,
  inl, inr,
}
use v6chat.Database.Chats.{chat_items_sql}
use v6chat.Database.Connection.{Sqlite}
use v6chat.History.Pages.{Answers}
use v6chat.Numbers.{pos, minus_one}
use v6chat.Text.Concat.{v6strcat, strcat_loop}
use v6chat.Text.Decimal.{digits_before, print, print_int, is_digit, atoi, read_int, nearest_int}
use v6chat.Text.{Text, codes}
use v6chat.User.Loading.{Row}

-- The number at the start of a text, and what follows it.
unfoldable read_number : ℕ → Text → ℕ × Text
unfolding is_digit
read_number acc [] = (acc, [])
read_number acc (c ∷ cs) =
    let later = read_number (acc * 10 + (c - b'0')) cs in
    if is_digit c then later else (acc, c ∷ cs)

read_number_digit :
    (acc d : ℕ) (rest : Text)
    → d < 10
    → read_number acc ((b'0' + d) ∷ rest) ≡ read_number (acc * 10 + d) rest
unfolding read_number
read_number_digit acc d rest h =
    let e : b'0' + d - b'0' ≡ d = omega arith in
    let yes : is_digit (b'0' + d) ≡ true = unfold is_digit in (ground arith) in rw (yes, e) refl

regrouped : (acc k n : ℕ) → (acc * k + n / 10) * 10 + n % 10 ≡ acc * (k * 10) + n
regrouped acc k n = omega arith

read_number-digits_before :
    (fuel n : ℕ) (rest : Text)
    → n < fuel
    → (k : ℕ) × ((acc : ℕ)
        → read_number acc (digits_before fuel n rest) ≡ read_number (acc * k + n) rest)
unfolding digits_before
read_number-digits_before zero n rest h = absurd (omega arith)
read_number-digits_before (suc fuel) n rest h = elim (Bool-cases (ltb n 10)) [
  | inl small ↦ (10, λ acc. rw small (read_number_digit acc n rest (ground arith)))
  | inr large ↦
      let (k, ih) =
        read_number-digits_before fuel (n / 10) ((b'0' + n % 10) ∷ rest) (ground arith) in
      (
        k * 10,
        λ acc. rw large (
            ih acc
            ∙ read_number_digit (acc * k + n / 10) (n % 10) rest (omega arith)
            ∙ ap (λ v. read_number v rest) (regrouped acc k n)),
      )
]

digits_before-append :
    (fuel n : ℕ) (rest ys : Text)
    → digits_before fuel n rest ++ ys ≡ digits_before fuel n (rest ++ ys)
unfolding digits_before
digits_before-append zero n rest ys = refl
digits_before-append (suc fuel) n rest ys = elim (Bool-cases (ltb n 10)) [
  | inl small ↦ rw small refl
  | inr large ↦ rw large (digits_before-append fuel (n / 10) ((b'0' + n % 10) ∷ rest) ys)
]

read_number-print : (n : ℕ) (ys : Text) → read_number 0 (print n ++ ys) ≡ read_number n ys
unfolding print
read_number-print n ys =
    let (k, h) = read_number-digits_before (suc n) n ys (omega arith) in
    rw (digits_before-append (suc n) n [] ys) (h 0 ∙ ap (λ (m : ℕ). read_number m ys) (omega arith))

read_number_whole : (n : ℕ) → read_number 0 (print n) ≡ (n, [])
unfolding read_number
read_number_whole n =
    ap (λ (t : Text). read_number 0 t) (sym (append-nil (print n))) ∙ read_number-print n []

-- What follows the name of the table.
unfoldable selected : List Row → Text → Option (List Row)
unfolding read_number
selected rows [] = none
selected rows (c ∷ cs) =
    if c == b'l'
    then (let (o, t) = read_number 0 (drop 5 cs) in
        some (take ((read_number 0 (drop 1 t)).0) (drop o rows)))
    else some (reverse (drop (length rows - (read_number 0 (drop 22 cs)).0) rows))

unfoldable pub reading : List Row → Sqlite
unfolding selected
reading rows = record {
  opens = true;
  exec = λ sql. true;
  last_row = pos 0;
  get_table = λ sql. selected rows (drop 26 sql);
  first_cell = λ sql. none;
}

selected-last :
    (rows : List Row) (n : ℕ)
    → selected rows (codes "order by id desc limit " ++ print n)
      ≡ some (reverse (drop (length rows - n) rows))
unfolding selected read_number
selected-last rows n = rw (read_number_whole n) refl

reading-newest_items :
    (rows : List Row) (n : ℕ)
    → (reading rows).get_table (chat_items_sql (print_int (pos 1)) (print_int minus_one) (print n))
      ≡ some (reverse (drop (length rows - n) rows))
unfolding reading chat_items_sql v6strcat strcat_loop print_int print digits_before atoi read_int
    nearest_int
reading-newest_items rows n = selected-last rows n

pub reading-Answers : (rows : List Row) → Answers (reading rows) (pos 1) rows
unfolding reading
reading-Answers rows = record { opens_is = refl; newest = reading-newest_items rows }
