-- ===== src/Database/Held.antt =====
-- What db_interface holds after any calls: connections to SQLite and texts of statements.
use v6chat.Base.{
  ◌+◌, ◌≡◌, refl, true, All, Option, some, List, [], ◌∷◌, arith, if◌then◌else◌, ◌⊎◌, ◌∙◌,
}
use v6chat.Database.Chats.{
  insert_chat_item, insert_chat_sql, probe_sql, create_sql, inserted_time, get_chat_items,
}
use v6chat.Database.Connection.{Sqlite, Ledger, exec}
use v6chat.Database.Mine.{
  update_my_profile, read_named, read_numbered, get_my_profile_by_id, get_my_profile_by_name,
}
use v6chat.Database.PeerRow.{read_peer}
use v6chat.Database.Profiles.{
  get_peers_profile, clear_peers_profile, get_peer_profile_by_id, insert_peer_profile, insert_each,
  insert_peers_profile, last_insert_peer_profile_uid, update_peer_profile, delete_peer_profile,
}
use v6chat.Database.Servers.{
  ServerColumns, get_servers_information, clear_servers_information, insert_server_information,
  update_server_information, insert_my_profile,
}
use v6chat.Database.Statements.{PeerProfile}
use v6chat.Numbers.{pos, int_eq}
use v6chat.Text.Decimal.{atoi}
use v6chat.Text.{Text, codes}
use v6chat.Database.Filled.{read_peer-some, read_named-some, read_numbered-some, reads_row-held}
use v6chat.Database.Calls.{
  Call, after, left_by, after_all, left_by_all, IsFilled, get_peers, clear_peers, get_peer,
  insert_peer, insert_peers, last_uid, update_peer, delete_peer, get_servers, clear_servers,
  insert_server, update_server, insert_my, insert_chat, get_chats, update_my, get_my_by_id,
  get_my_by_name,
}

insert_each-held :
    (db : Sqlite) (ps : List PeerProfile) (l : Ledger)
    → ((insert_each db ps l).1.connections ≡ l.connections)
      × ((insert_each db ps l).1.texts ≡ l.texts)
unfolding insert_each
insert_each-held db [] l = (refl, refl)
insert_each-held db (p ∷ ps) l =
    ground (arith, insert_each-held db ps (insert_each db (p ∷ []) l).1)

no_text :
    (db : Sqlite) (l l' : Ledger)
    → l'.texts ≡ l.texts
    → l'.texts ≡ l.texts + (if db.opens then 0 else 0)
no_text db l l' e = ground arith

kept :
    (m : Ledger) (db : Sqlite) (c : Call) (l : Ledger)
    → (m.connections ≡ l.connections) × (m.texts ≡ l.texts + (if db.opens then left_by c else 0))
    → (l' : Ledger) × (some m ≡ some l')
      × (l'.connections ≡ l.connections)
      × (l'.texts ≡ l.texts + (if db.opens then left_by c else 0))
kept m db c l (p, q) = (m, refl, p, q)

after-held :
    (db : Sqlite) (c : Call) (l : Ledger)
    → IsFilled (db, c)
    → (l' : Ledger) × (after db c l ≡ some l')
      × (l'.connections ≡ l.connections)
      × (l'.texts ≡ l.texts + (if db.opens then left_by c else 0))
unfolding after left_by get_peers_profile clear_peers_profile get_peer_profile_by_id
    insert_peer_profile insert_peers_profile last_insert_peer_profile_uid update_peer_profile
    delete_peer_profile get_servers_information clear_servers_information insert_server_information
    update_server_information insert_my_profile insert_chat_item get_chat_items update_my_profile
    get_my_profile_by_id get_my_profile_by_name
after-held db get_peers l h = kept (get_peers_profile db l).1 db get_peers l (ground arith)
after-held db clear_peers l h = kept (clear_peers_profile db l).1 db clear_peers l (ground arith)
after-held db (get_peer uid) l h =
    let (l', e, c, t) =
      reads_row-held db _ read_peer l (λ row rows e. read_peer-some row (h _ row rows e)) in
    (l', e, c, no_text db l l' t)
after-held db (insert_peer p) l h =
    kept (insert_peer_profile db p l).1 db (insert_peer p) l (ground arith)
after-held db (insert_peers ps) l h =
    let begun : Ledger =
      (exec db (some (codes "begin transaction"))
        (record l { connections = l.connections + 1 })).1 in
    kept (insert_peers_profile db ps l).1 db (insert_peers ps) l
      (ground (arith, insert_each-held db ps begun))
after-held db last_uid l h = kept (last_insert_peer_profile_uid db l).1 db last_uid l (ground arith)
after-held db (update_peer uid p) l h =
    kept (update_peer_profile db uid p l).1 db (update_peer uid p) l (ground arith)
after-held db (delete_peer uid) l h =
    kept (delete_peer_profile db uid l).1 db (delete_peer uid) l (ground arith)
after-held db get_servers l h =
    kept (get_servers_information db l).1 db get_servers l (ground arith)
after-held db clear_servers l h =
    kept (clear_servers_information db l).1 db clear_servers l (ground arith)
after-held db (insert_server p) l h =
    kept (insert_server_information db p l).1 db (insert_server p) l (ground arith)
after-held db (update_server sid p) l h =
    kept (update_server_information db sid p l).1 db (update_server sid p) l (ground arith)
after-held db (insert_my p) l h =
    kept (insert_my_profile db p l).1 db (insert_my p) l (ground arith)
after-held db (insert_chat uid name item) l h =
    kept (insert_chat_item db uid name item l).1 db (insert_chat uid name item) l (ground arith)
after-held db (get_chats uid id num) l h =
    kept (get_chat_items db uid id num l).1 db (get_chats uid id num) l (ground arith)
after-held db (update_my id p) l h =
    kept (update_my_profile db id p l).1 db (update_my id p) l (ground arith)
after-held db (get_my_by_id id) l h =
    let (l', e, c, t) =
      reads_row-held db _ read_named l (λ row rows e. read_named-some row (h _ row rows e)) in
    (l', e, c, no_text db l l' t)
after-held db (get_my_by_name name) l h =
    let (l', e, c, t) =
      reads_row-held db _ read_numbered l (λ row rows e. read_numbered-some row (h _ row rows e)) in
    (l', e, c, no_text db l l' t)

-- Let no row that SQLite hands out first have a NULL in a column that the call reads. Then any calls of
-- db_interface, whatever SQLite answers in each of them, return, close every connection that they open, and free
-- every text but these, where the database opens: one for each call of `delete_peerProfile` and of
-- `get_chatItems`, and one for each call of `update_serverInformation` with the number 0.
pub after_all-held :
    (calls : List (Sqlite × Call)) (l : Ledger)
    → All IsFilled calls
    → (l' : Ledger) × (after_all calls l ≡ some l')
      × (l'.connections ≡ l.connections)
      × (l'.texts ≡ l.texts + left_by_all calls)
unfolding after_all left_by_all
after_all-held [] l h = (l, refl, refl, omega arith)
after_all-held ((db, c) ∷ calls) l h =
    let (l1, e1, c1, t1) = after-held db c l h.0 in
    let (l2, e2, c2, t2) = after_all-held calls l1 h.1 in
    (l2, rw (after_all, e1) e2, c2 ∙ c1, omega arith)

-- Where the database opens, `update_serverInformation` with a number that reads as 0 hands SQLite no
-- statement, whatever the server, and returns the number of the last row of the connection.
pub update_server_information-zero :
    (db : Sqlite) (sid : Text) (p : ServerColumns) (l : Ledger)
    → db.opens ≡ true
    → atoi sid ≡ pos 0
    → ((update_server_information db sid p l).1.sent ≡ l.sent)
      × ((update_server_information db sid p l).0 ≡ db.last_row)
unfolding update_server_information int_eq
update_server_information-zero db sid p l o z = rw (o, z) (refl, refl)

-- Where `insert_chatItem` returns a number other than 0, the database opened, the table of the chat was
-- there or was created, and the insertion succeeded.
pub insert_chat_item-stored :
    (db : Sqlite) (uid : Text) (name item : Option Text) (l : Ledger)
    → ¬ ((insert_chat_item db uid name item l).0.0 ≡ pos 0)
    → (db.opens ≡ true)
      × (db.exec (insert_chat_sql uid name item) ≡ true)
      × ((db.exec (probe_sql uid) ≡ true) ⊎ (db.exec (create_sql uid) ≡ true))
unfolding insert_chat_item inserted_time
insert_chat_item-stored db uid name item l h = ground arith
