-- ===== src/Tests/Histories.antt =====
-- A chat of three texts, and its newest page of two.
use v6chat.Base.{
  zero, suc, ◌+◌, ◌≡◌, refl, true, false, ◌-◌, some, List, [], ◌∷◌, map, arith, length, drop,
}
use v6chat.Database.Connection.{Ledger}
use v6chat.History.Pages.{NumberedFrom}
use v6chat.History.Paging.{item_of, get_chat_history}
use v6chat.History.Turning.{get_chat_history-newest}
use v6chat.Numbers.{pos}
use v6chat.Tests.Databases.{nothing_held}
use v6chat.Tests.Limits.{reading, reading-Answers}
use v6chat.Tests.Users.{backend}
use v6chat.Text.Decimal.{print, digits_before}
use v6chat.Text.{Text, codes}
use v6chat.User.Loading.{Row}

abbrev said : Text → Text → Row
said number text zero = some number
said number text (suc zero) = some (codes "bob")
said number text (suc (suc zero)) = some text
said number text (suc (suc (suc n))) = some (codes "12:00")

abbrev rows : List Row
rows =
    said (codes "1") (codes "hi")
    ∷ said (codes "2") (codes "there")
    ∷ said (codes "3") (codes "bye")
    ∷ []

rows-NumberedFrom : NumberedFrom 1 rows
unfolding print digits_before
rows-NumberedFrom = (refl, (refl, (refl, tt)))

get_chat_history-newest_example :
    (l' : Ledger) × (get_chat_history backend
        (reading rows)
        (pos 1)
        false
        (pos 0)
        (pos 2)
        (pos 0)
        (pos 0)
        nothing_held
      ≡ some (
        true,
        record {
          items = map (item_of backend) (drop (length rows - 2) rows);
          begin_mid = pos (length rows - 2 + 1);
          end_mid = pos (length rows);
        },
        l',
      ))
get_chat_history-newest_example =
    get_chat_history-newest backend (reading rows) (pos 1) rows rows-NumberedFrom (omega arith)
      (reading-Answers rows) 2 (pos 0) (pos 0) nothing_held (omega arith) (omega arith)
