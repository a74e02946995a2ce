-- ===== src/Database/Filled.antt =====
-- db_interface/db_interface.cpp: the functions that read one row, at rows without a NULL.
use v6chat.Base.{
  ℕ, ◌+◌, ◌<◌, ◌≡◌, refl, Bool-cases, Option-cases, inl, inr, Option, some, List, [], ◌∷◌, ◌++◌,
  ◌-◌, arith,
}
use v6chat.Database.Connection.{returned, Sqlite, Ledger, close, get_table, reads_first, reads_row}
use v6chat.Database.Mine.{read_named, read_numbered}
use v6chat.Database.PeerRow.{PeerRow, read_peer}
use v6chat.User.Loading.{Row, to_u16}
use v6chat.Numbers.{to_unsigned}
use v6chat.Own.Row.{MyRow, read_columns}
use v6chat.Text.Decimal.{atoi}
use v6chat.Text.{Text}

-- The first `n` columns of a row are not NULL.
abbrev pub Filled : ℕ → Row → Type 0
Filled n row = (c : ℕ) → c < n → (t : Text) × (row c ≡ some t)

pub read_peer-some : (row : Row) → Filled 12 row → (p : PeerRow) × (read_peer row ≡ some p)
unfolding read_peer
read_peer-some row h =
    let (t1, e1) = h 1 (omega arith) in
    let (t2, e2) = h 2 (omega arith) in
    let (t3, e3) = h 3 (omega arith) in
    let (t4, e4) = h 4 (omega arith) in
    let (t5, e5) = h 5 (omega arith) in
    let (t6, e6) = h 6 (omega arith) in
    let (t7, e7) = h 7 (omega arith) in
    let (t8, e8) = h 8 (omega arith) in
    let (t9, e9) = h 9 (omega arith) in
    let (t10, e10) = h 10 (omega arith) in
    let (t11, e11) = h 11 (omega arith) in
    (
      record {
        nick_name = t1;
        group_name = t2;
        sex = atoi t3;
        age = atoi t4;
        introduction = t5;
        head_image_path = t6;
        server_id = atoi t7;
        server_uid = t8;
        last_ip = t9;
        tcp_port = atoi t10;
        udp_port = atoi t11;
      },
      rw (read_peer, e1, e2, e3, e4, e5, e6, e7, e8, e9, e10, e11) refl,
    )

read_columns-some : (row : Row) → Filled 8 row → (m : MyRow) × (read_columns row ≡ some m)
unfolding read_columns
read_columns-some row h =
    let (t2, e2) = h 2 (omega arith) in
    let (t3, e3) = h 3 (omega arith) in
    let (t4, e4) = h 4 (omega arith) in
    let (t5, e5) = h 5 (omega arith) in
    let (t6, e6) = h 6 (omega arith) in
    let (t7, e7) = h 7 (omega arith) in
    (
      record {
        sex = to_u16 (atoi t2);
        age = to_unsigned (atoi t3);
        introduction = t4;
        head_image_path = t5;
        v4_port = atoi t6;
        v6_port = atoi t7;
      },
      rw (read_columns, e2, e3, e4, e5, e6, e7) refl,
    )

pub read_named-some :
    (row : Row) → Filled 8 row → (found : Text × MyRow) × (read_named row ≡ some found)
unfolding read_named
read_named-some row h =
    let (name, e) = h 1 (omega arith) in
    let (m, f) = read_columns-some row h in ((name, m), rw (read_named, e, f) refl)

pub read_numbered-some :
    (row : Row) → Filled 8 row → (found : ℕ × MyRow) × (read_numbered row ≡ some found)
unfolding read_numbered
read_numbered-some row h =
    let (id, e) = h 0 (omega arith) in
    let (m, f) = read_columns-some row h in
    ((to_unsigned (atoi id), m), rw (read_numbered, e, f) refl)

reads_first-some :
    {A : Type 0} (f : Row → Option A) (row : Row) (rows : List Row) (a : A) (l : Ledger)
    → f row ≡ some a
    → reads_first f (row ∷ rows) l ≡ close (some (some a)) l
unfolding reads_first
reads_first-some f row rows a l e = rw (reads_first, e) refl

-- A function that reads one row, at a row that it can read.
pub reads_row-held :
    {A : Type 0} (db : Sqlite) (sql : Text) (f : Row → Option A) (l : Ledger)
    → ((row : Row) (rows : List Row)
        → db.get_table sql ≡ some (row ∷ rows)
        → (a : A) × (f row ≡ some a))
    → (l' : Ledger) × (returned (reads_row db sql f l) ≡ some l')
      × (l'.connections ≡ l.connections)
      × (l'.texts ≡ l.texts)
unfolding returned reads_row reads_first get_table
reads_row-held db sql f l readable =
    let done : Ledger = record l {
      connections = l.connections + 1 - 1;
      texts = l.texts + 1 - 1;
      sent = l.sent ++ sql ∷ [];
    } in
    elim (Bool-cases db.opens) [
      | inr shut ↦ (l, rw shut refl, refl, refl)
      | inl opens ↦ elim (Option-cases (db.get_table sql)) [
        | inl failed ↦ (done, rw (opens, failed) refl, omega arith, omega arith)
        | inr ([], e) ↦ (done, rw (opens, e) refl, omega arith, omega arith)
        | inr (row ∷ rows, e) ↦
            let (a, read) = readable row rows e in
            (
              done,
              rw (opens, e, reads_first-some f row rows a _ read) refl,
              omega arith,
              omega arith,
            )
      ]
    ]
