-- ===== src/Own/Numbered.antt =====
-- The number of the own profile's row, from `Init` over the changes of a session to `Store`.
use v6chat.Base.{
  ℕ, ◌^◌, ◌<◌, ◌≡◌, refl, sym, ap, ◌∙◌, Bool, true, false, Option, none, some, List, [], ◌∷◌, arith,
  ◌==◌,
}
use v6chat.Numbers.{pos, int_eq, to_unsigned, to_unsigned-pos}
use v6chat.Own.Info.{
  MyInfo, MyChange, set_name, set_sex, set_age, set_introduction, set_ipv4, set_ipv6,
  set_ipv4_tcp_port, set_ipv6_tcp_port, changed, init, read_id, own_columns, store,
}
use v6chat.Own.Row.{
  Sqlite, MyRow, insert_my_base, my_columns, update_my_sql, update_my_profile, get_my_profile_by_id,
}
use v6chat.Text.Concat.{v6strcat}
use v6chat.Text.Decimal.{print, atoi, atoi-print}
use v6chat.Text.{Text}
use v6chat.User.UserList.{Backend}

-- The changes of a session, the first one first.
unfoldable pub changed_all : List MyChange → MyInfo → MyInfo
changed_all [] m = m
changed_all (c ∷ cs) m = changed_all cs (changed c m)

changed-db_id : (c : MyChange) (m : MyInfo) → (changed c m).db_id ≡ m.db_id
unfolding changed
changed-db_id (set_name t) m = refl
changed-db_id (set_sex n) m = refl
changed-db_id (set_age n) m = refl
changed-db_id (set_introduction t) m = refl
changed-db_id (set_ipv4 t) m = refl
changed-db_id (set_ipv6 t) m = refl
changed-db_id (set_ipv4_tcp_port z) m = refl
changed-db_id (set_ipv6_tcp_port z) m = refl

changed_all-db_id : (cs : List MyChange) (m : MyInfo) → (changed_all cs m).db_id ≡ m.db_id
unfolding changed_all
changed_all-db_id [] m = refl
changed_all-db_id (c ∷ cs) m = changed_all-db_id cs (changed c m) ∙ changed-db_id c m

stored_number : Option (Bool × MyInfo) → ℕ
stored_number none = 0
stored_number (some (found, m)) = m.db_id

init-stored_at :
    (b : Backend) (db : Sqlite) (ini : Option Text) (m : MyInfo)
    (x : Option (Option (Text × MyRow)))
    → get_my_profile_by_id db (read_id ini) ≡ x
    → stored_number (init b db ini m) ≡ 0
unfolding init stored_number
init-stored_at b db ini m none e = rw e refl
init-stored_at b db ini m (some none) e = rw e refl
init-stored_at b db ini m (some (some (name, found))) e = rw e refl

init-db_id :
    (b : Backend) (db : Sqlite) (ini : Option Text) (m m' : MyInfo) (found : Bool)
    → init b db ini m ≡ some (found, m')
    → m'.db_id ≡ 0
unfolding stored_number
init-db_id b db ini m m' found e =
    sym (ap stored_number e)
    ∙ init-stored_at b db ini m (get_my_profile_by_id db (read_id ini)) refl

update_my_profile-zero :
    (db : Sqlite) (id : Text) (b : Backend) (m : MyInfo)
    → atoi id ≡ pos 0
    → db.opens ≡ true
    → ((sql : Text) → db.exec sql ≡ true)
    → update_my_profile db id (own_columns b m) ≡ db.last_row
unfolding update_my_profile int_eq
update_my_profile-zero db id b m e o x = rw (o, x (update_my_sql id (own_columns b m)), e) refl

update_my_profile-pos :
    (db : Sqlite) (id : Text) (b : Backend) (m : MyInfo) (n : ℕ)
    → atoi id ≡ pos n
    → 0 < n
    → db.opens ≡ true
    → ((sql : Text) → db.exec sql ≡ true)
    → update_my_profile db id (own_columns b m) ≡ pos n
unfolding update_my_profile int_eq
update_my_profile-pos db id b m n e h o x =
    let some_row : (n == 0) ≡ false = ground arith in
    rw (o, x (update_my_sql id (own_columns b m)), e, some_row) refl

-- Let the profile have the number of a row, and let the database take the statement. After any changes
-- `Store` leaves the profile as it is, with its number, and writes that number to app.ini.
pub store-changed_all :
    (b : Backend) (db : Sqlite) (m : MyInfo) (cs : List MyChange)
    → 0 < m.db_id
    → m.db_id < 2 ^ 31
    → db.opens ≡ true
    → ((sql : Text) → db.exec sql ≡ true)
    → store b db (changed_all cs m) ≡ (changed_all cs m, print m.db_id)
unfolding store
store-changed_all b db m cs p h o x =
    rw
      (
        update_my_profile-pos db (print (changed_all cs m).db_id) b (changed_all cs m)
            (changed_all cs m).db_id
            (atoi-print (changed_all cs m).db_id (rw (changed_all-db_id cs m) h))
            (rw (changed_all-db_id cs m) p) o x,
        to_unsigned-pos (changed_all cs m).db_id (rw (changed_all-db_id cs m) (omega arith)),
        changed_all-db_id cs m,
      )
      refl

-- Let `Init` by the number in app.ini return, with a row or without one, and let the database take the
-- statement. After any changes `Store` sends the statement that inserts a row, never the one that replaces
-- the row that was read, and the profile takes the number of the row that is new.
pub store-init :
    (b : Backend) (db db' : Sqlite) (ini : Option Text) (m m' : MyInfo) (found : Bool)
    (cs : List MyChange)
    → init b db ini m ≡ some (found, m')
    → db'.opens ≡ true
    → ((sql : Text) → db'.exec sql ≡ true)
    → (update_my_sql (print (changed_all cs m').db_id) (own_columns b (changed_all cs m'))
        ≡ v6strcat (insert_my_base ∷ my_columns (own_columns b (changed_all cs m'))))
      × (store b db' (changed_all cs m') ≡ (
        record (changed_all cs m') { db_id = to_unsigned db'.last_row },
        print (to_unsigned db'.last_row),
      ))
unfolding store update_my_sql int_eq
store-init b db db' ini m m' found cs e o x =
    let none_read : atoi (print (changed_all cs m').db_id) ≡ pos 0 =
      ap (λ (n : ℕ). atoi (print n)) (changed_all-db_id cs m' ∙ init-db_id b db ini m m' found e)
      ∙ atoi-print 0 (omega arith) in
    (
      rw none_read refl,
      rw
          (update_my_profile-zero db' (print (changed_all cs m').db_id) b (changed_all cs m')
            none_read o x)
          refl,
    )
