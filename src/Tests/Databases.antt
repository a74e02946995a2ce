-- ===== src/Tests/Databases.antt =====
-- The database: calls on a connection that opens and on one that does not, and a chat of three texts.
use v6chat.Base.{◌+◌, ◌≡◌, sym, ap, arith, Bool, true, false, none, some, List, [], ◌∷◌}
use v6chat.Database.Connection.{Sqlite, Ledger}
use v6chat.Database.Calls.{
  IsFilled, Call, get_peer, get_my_by_name, insert_chat, delete_peer, get_chats, get_peers,
  after_all, left_by_all,
}
use v6chat.Database.Held.{after_all-held}
use v6chat.Numbers.{pos}
use v6chat.Text.{codes}

abbrev opening : Sqlite
opening = record {
  opens = true;
  exec = λ sql. true;
  last_row = pos 3;
  get_table = λ sql. none;
  first_cell = λ sql. some (some (codes "12:00"));
}

-- Every row has `1` in all its columns.
abbrev reading : Sqlite
reading = record opening { get_table = λ sql. some ((λ c. some (codes "1")) ∷ []) }

reading-IsFilled : (c : Call) → IsFilled (reading, c)
reading-IsFilled c sql row rows e n h =
    let same : (λ n. some (codes "1")) ≡ row = cc in (codes "1", sym (ap (λ r. r n) same))

opening-IsFilled : (opens : Bool) (c : Call) → IsFilled (record opening { opens = opens }, c)
opening-IsFilled opens c sql row rows e = absurd (ground arith)

abbrev pub nothing_held : Ledger
nothing_held = record { connections = 0; texts = 0; sent = [] }

abbrev calls : List (Sqlite × Call)
calls =
    (opening, insert_chat (codes "1") (some (codes "bob")) (some (codes "hi")))
    ∷ (opening, delete_peer (codes "1"))
    ∷ (record opening { opens = false }, delete_peer (codes "2"))
    ∷ (opening, get_chats (codes "1") (codes "0") (codes "20"))
    ∷ (opening, get_peers)
    ∷ (reading, get_peer (codes "1"))
    ∷ (reading, get_my_by_name (codes "eve"))
    ∷ []

after_all-held_example :
    (l' : Ledger) × (after_all calls nothing_held ≡ some l')
    × (l'.connections ≡ nothing_held.connections)
    × (l'.texts ≡ nothing_held.texts + left_by_all calls)
after_all-held_example = after_all-held calls nothing_held (
  opening-IsFilled true (insert_chat (codes "1") (some (codes "bob")) (some (codes "hi"))),
  (
    opening-IsFilled true (delete_peer (codes "1")),
    (
      opening-IsFilled false (delete_peer (codes "2")),
      (
        opening-IsFilled true (get_chats (codes "1") (codes "0") (codes "20")),
        (
          opening-IsFilled true get_peers,
          (
            reading-IsFilled (get_peer (codes "1")),
            (reading-IsFilled (get_my_by_name (codes "eve")), tt),
          ),
        ),
      ),
    ),
  ),
)
