-- ===== src/Database/Profiles.antt =====
-- db_interface/db_interface.cpp: the functions on the tables `my_profile` and `peers_profile`, with what
-- they hold and what they hand to SQLite.
use v6chat.Base.{Bool, true, false, Option, none, some, List, [], ◌∷◌, ◌++◌, if◌then◌else◌}
use v6chat.Database.Connection.{
  Sqlite, Session, ◌>>=◌, ◌>>◌, with_db, close, allocate, release, exec, get_table, check_rc,
  check_table, reads_row,
}
use v6chat.Database.PeerRow.{PeerRow, read_peer}
use v6chat.Database.Statements.{PeerProfile, insert_peer_sql, update_peer_sql}
use v6chat.Numbers.{ℤ, pos, int_eq}
use v6chat.Text.Concat.{v6strcat}
use v6chat.Text.Decimal.{atoi}
use v6chat.Text.{Text, codes}
use v6chat.User.Loading.{Row}

-- A statement that v6strcat builds, is run, and is freed.
abbrev pub built : Sqlite → Text → Session Bool
built db sql = do allocate; done ← exec db (some sql); release; λ l. (done, l)

-- `get_peersProfile`
unfoldable pub get_peers_profile : Sqlite → Session (Option (List Row))
unfolding get_table
get_peers_profile db = with_db db none (do
  answer ← get_table db (codes "select * from peers_profile")
  check_table answer none (λ rows. close (some rows)))

-- `clear_peersProfile`
unfoldable pub clear_peers_profile : Sqlite → Session Bool
unfolding exec
clear_peers_profile db =
    with_db db false (do
      done ← exec db (some (codes "delete from peers_profile"))
      check_rc done false (close true))

-- `get_peerProfileById`. Outer `none`: it crashes on a column that is NULL; inner `none`: it returns false.
unfoldable pub get_peer_profile_by_id : Sqlite → Text → Session (Option (Option PeerRow))
unfolding reads_row
get_peer_profile_by_id db uid =
    reads_row db
      (v6strcat (
        some (codes "select * from peers_profile where uid='") ∷ some uid ∷ some (codes "';") ∷ []))
      read_peer

-- `insert_peerProfile`: the number of the new row.
unfoldable pub insert_peer_profile : Sqlite → PeerProfile → Session ℤ
unfolding exec
insert_peer_profile db p =
    with_db db (pos 0)
      (do done ← built db (insert_peer_sql p); check_rc done (pos 0) (close db.last_row))

-- The loop of `insert_peersProfile`; an insertion that fails is passed over.
unfoldable pub insert_each : Sqlite → List PeerProfile → Session (Unit {0})
unfolding exec
insert_each db [] = λ l. (tt, l)
insert_each db (p ∷ ps) = do built db (insert_peer_sql p); insert_each db ps

-- `insert_peersProfile`; the profiles are those behind the head of the list.
unfoldable pub insert_peers_profile : Sqlite → List PeerProfile → Session Bool
unfolding exec insert_each
insert_peers_profile db ps = with_db db false (do
  begun ← exec db (some (codes "begin transaction"))
  check_rc begun false (do
    insert_each db ps
    ended ← exec db (some (codes "commit transaction"))
    check_rc ended false (close true)))

-- `last_insert_peerProfileUid`: 0 where the table has no numbers yet.
unfoldable pub last_insert_peer_profile_uid : Sqlite → Session ℤ
last_insert_peer_profile_uid db = with_db db (pos 0) (do
  cell ← λ l. (
    db.first_cell (codes "select seq from sqlite_sequence where name='peers_profile'"),
    record l {
      sent = l.sent ++ codes "select seq from sqlite_sequence where name='peers_profile'" ∷ [];
    },
  )
  close (elim cell [ none ↦ pos 0 | some none ↦ pos 0 | some (some t) ↦ atoi t ]))

-- `update_peerProfile`: the introduction with its quotes doubled is a second text.
unfoldable pub update_peer_profile : Sqlite → Text → PeerProfile → Session ℤ
unfolding exec
update_peer_profile db uid p = with_db db (pos 0) (do
  elim p.introduction [ none ↦ λ l. (tt, l) | some t ↦ allocate ]
  done ← built db (update_peer_sql uid p)
  elim p.introduction [ none ↦ λ l. (tt, l) | some t ↦ release ]
  check_rc done (pos 0) (close (if int_eq (atoi uid) (pos 0) then db.last_row else atoi uid)))

-- `delete_peerProfile`: nothing frees the text of the statement.
unfoldable pub delete_peer_profile : Sqlite → Text → Session Bool
unfolding exec
delete_peer_profile db uid = with_db db false (do
  allocate
  done ←
      exec db
        (some (v6strcat (some (codes "delete from peers_profile where uid = ") ∷ some uid ∷ [])))
  check_rc done false (close true))
