-- ===== src/Own/Row.antt =====
-- db_interface/db_interface.cpp: `update_myProfile`, `get_myProfileById` and `get_myProfileByName` on the
-- table `my_profile`. SQLite is a parameter.
use v6chat.Base.{ℕ, Bool, Option, none, some, List, [], ◌∷◌, if◌then◌else◌, ◌>>=◌}
use v6chat.Database.Statements.{sep}
use v6chat.Numbers.{ℤ, pos, int_eq, to_unsigned}
use v6chat.Text.Concat.{v6strcat}
use v6chat.Text.Decimal.{atoi}
use v6chat.Text.{Text, codes}
use v6chat.User.Loading.{Row, to_u16}

-- What SQLite does during one call.
--   opens: `open_db`. exec: whether `sqlite3_exec` returns SQLITE_OK.
--   last_row: `sqlite3_last_insert_rowid` behind it, as an int.
--   get_table: the rows that `sqlite3_get_table` hands out; `none` where it does not return SQLITE_OK.
pub record Sqlite : Type 0 where
  pub opens : Bool
  pub exec : Text → Bool
  pub last_row : ℤ
  pub get_table : Text → Option (List Row)

-- The arguments of `update_myProfile` behind the number; `none` is NULL.
pub record MyColumns : Type 0 where
  pub nick_name : Option Text
  pub sex : Option Text
  pub age : Option Text
  pub introduction : Option Text
  pub head_image_path : Option Text
  pub v4_port : Option Text
  pub v6_port : Option Text

unfoldable pub insert_my_base : Option Text
insert_my_base = some (
    codes
      "insert into my_profile(nick_name,sex,age,introduction,head_image_path,v4_port,v6_port) values('")

unfoldable pub replace_my_base : Option Text
replace_my_base = some (
    codes
      "insert or replace into my_profile(id,nick_name,sex,age,introduction,head_image_path,v4_port,v6_port) values('")

abbrev pub my_columns : MyColumns → List (Option Text)
my_columns p =
    p.nick_name
    ∷ sep
    ∷ p.sex
    ∷ sep
    ∷ p.age
    ∷ sep
    ∷ p.introduction
    ∷ sep
    ∷ p.head_image_path
    ∷ sep
    ∷ p.v4_port
    ∷ sep
    ∷ p.v6_port
    ∷ some (codes "')")
    ∷ []

-- The statement of `update_myProfile`.
unfoldable pub update_my_sql : Text → MyColumns → Text
update_my_sql id p =
    if int_eq (atoi id) (pos 0)
    then v6strcat (insert_my_base ∷ my_columns p)
    else v6strcat (replace_my_base ∷ some id ∷ sep ∷ my_columns p)

-- `update_myProfile`: the number of the row, and 0 where the database fails.
unfoldable pub update_my_profile : Sqlite → Text → MyColumns → ℤ
unfolding update_my_sql
update_my_profile db id p =
    if db.opens
    then (if db.exec (update_my_sql id p)
        then (if int_eq (atoi id) (pos 0) then db.last_row else atoi id)
        else pos 0)
    else pos 0

-- What the two functions hand out of a row.
pub record MyRow : Type 0 where
  pub sex : ℕ
  pub age : ℕ
  pub introduction : Text
  pub head_image_path : Text
  pub v4_port : ℤ
  pub v6_port : ℤ

-- The columns that both read. `none`: a column is NULL, and `atoi` or `strlen` reads through it.
unfoldable pub read_columns : Row → Option MyRow
read_columns row = do
  sex ← row 2
  age ← row 3
  introduction ← row 4
  path ← row 5
  v4 ← row 6
  v6 ← row 7
  some (record {
    sex = to_u16 (atoi sex);
    age = to_unsigned (atoi age);
    introduction = introduction;
    head_image_path = path;
    v4_port = atoi v4;
    v6_port = atoi v6;
  })

-- The first row that answers a query; inner `none`: there is none, or the database fails.
unfoldable pub first_row : Sqlite → Text → Option Row
first_row db sql =
    if db.opens
    then elim (db.get_table sql) [ none ↦ none | some [] ↦ none | some (row ∷ rows) ↦ some row ]
    else none

unfoldable pub by_id_sql : Text → Text
by_id_sql id =
    v6strcat (some (codes "select * from my_profile where id='") ∷ some id ∷ some (codes "';") ∷ [])

unfoldable pub by_name_sql : Text → Text
by_name_sql name =
    v6strcat (
      some (codes "select * from my_profile where nick_name='")
      ∷ some name
      ∷ some (codes "';")
      ∷ [])

-- `get_myProfileById`: the name and the other columns. Outer `none`: it crashes on a column that is
-- NULL; inner `none`: it returns false.
unfoldable pub get_my_profile_by_id : Sqlite → Text → Option (Option (Text × MyRow))
unfolding first_row read_columns by_id_sql
get_my_profile_by_id db id = elim (first_row db (by_id_sql id)) [
  | none ↦ some none
  | some row ↦ do name ← row 1; found ← read_columns row; some (some (name, found))
]

-- `get_myProfileByName`: the number and the other columns, in the same way.
unfoldable pub get_my_profile_by_name : Sqlite → Text → Option (Option (ℕ × MyRow))
unfolding first_row read_columns by_name_sql
get_my_profile_by_name db name = elim (first_row db (by_name_sql name)) [
  | none ↦ some none
  | some row ↦ do id ← row 0; found ← read_columns row; some (some (to_unsigned (atoi id), found))
]
