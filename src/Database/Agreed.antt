-- ===== src/Database/Agreed.antt =====
-- db_interface/db_interface.cpp: the answers of the three functions on `my_profile` are those that the own profile
-- takes from them (Own/Row).
use v6chat.Base.{◌≡◌, refl, arith, [], ◌∷◌, Bool-cases, Option-cases, inl, inr}
use v6chat.Database.Connection.{Sqlite, Ledger, get_table, exec, reads_first, reads_row}
use v6chat.Database.Mine
use v6chat.Database.Mine.{read_named, read_numbered}
use v6chat.Own.Row
use v6chat.Own.Row.{MyColumns, first_row, read_columns, by_id_sql, by_name_sql}
use v6chat.Text.{Text}

-- What the own profile sees of SQLite.
abbrev pub seen : Sqlite → Row.Sqlite
seen db = record {
  opens = db.opens;
  exec = db.exec;
  last_row = db.last_row;
  get_table = db.get_table;
}

pub update_my_profile-answer :
    (db : Sqlite) (id : Text) (p : MyColumns) (l : Ledger)
    → (Mine.update_my_profile db id p l).0 ≡ Row.update_my_profile (seen db) id p
unfolding Mine.update_my_profile Row.update_my_profile exec
update_my_profile-answer db id p l = ground arith

pub get_my_profile_by_id-answer :
    (db : Sqlite) (id : Text) (l : Ledger)
    → (Mine.get_my_profile_by_id db id l).0 ≡ Row.get_my_profile_by_id (seen db) id
unfolding Mine.get_my_profile_by_id Row.get_my_profile_by_id first_row reads_row reads_first
    get_table read_named
get_my_profile_by_id-answer db id l = elim (Bool-cases db.opens) [
  | inr shut ↦ rw shut refl
  | inl opens ↦ elim (Option-cases (db.get_table (by_id_sql id))) [
    | inl failed ↦ rw (Row.get_my_profile_by_id, first_row, opens, failed) refl
    | inr ([], e) ↦ rw (Row.get_my_profile_by_id, first_row, opens, e) refl
    | inr (row ∷ rows, e) ↦ elim (Option-cases (row 1)) [
      | inl null ↦ rw (Row.get_my_profile_by_id, first_row, opens, e, reads_first, null) refl
      | inr (t, at) ↦ elim (Option-cases (read_columns row)) [
        | inl null ↦ rw (Row.get_my_profile_by_id, first_row, opens, e, reads_first, at, null) refl
        | inr (found, read) ↦
            rw (Row.get_my_profile_by_id, first_row, opens, e, reads_first, at, read) refl
      ]
    ]
  ]
]

pub get_my_profile_by_name-answer :
    (db : Sqlite) (name : Text) (l : Ledger)
    → (Mine.get_my_profile_by_name db name l).0 ≡ Row.get_my_profile_by_name (seen db) name
unfolding Mine.get_my_profile_by_name Row.get_my_profile_by_name first_row reads_row reads_first
    get_table read_numbered
get_my_profile_by_name-answer db name l = elim (Bool-cases db.opens) [
  | inr shut ↦ rw shut refl
  | inl opens ↦ elim (Option-cases (db.get_table (by_name_sql name))) [
    | inl failed ↦ rw (Row.get_my_profile_by_name, first_row, opens, failed) refl
    | inr ([], e) ↦ rw (Row.get_my_profile_by_name, first_row, opens, e) refl
    | inr (row ∷ rows, e) ↦ elim (Option-cases (row 0)) [
      | inl null ↦ rw (Row.get_my_profile_by_name, first_row, opens, e, reads_first, null) refl
      | inr (t, at) ↦ elim (Option-cases (read_columns row)) [
        | inl null ↦
            rw (Row.get_my_profile_by_name, first_row, opens, e, reads_first, at, null) refl
        | inr (found, read) ↦
            rw (Row.get_my_profile_by_name, first_row, opens, e, reads_first, at, read) refl
      ]
    ]
  ]
]
