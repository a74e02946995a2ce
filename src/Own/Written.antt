-- ===== src/Own/Written.antt =====
-- The row that SQL writes for the statement with which `Store` hands the own profile over.
use mathlib.Core.Path.{subst}
use v6chat.Base.{
  ℕ, ◌^◌, ◌<◌, ◌≡◌, refl, sym, ap, ◌∙◌, false, Option, none, some, List, [], ◌∷◌, ◌++◌, map, arith,
  ◌==◌, if◌then◌else◌, All, Bool-cases, inl, inr,
}
use v6chat.Database.Statements.{sep}
use v6chat.Database.Values.{
  behind, behind-append, read_values, values, text_of, Plain, joined_first, read_values-joined,
  cell_at, row_of, print-has_quote,
}
use v6chat.Numbers.{pos, int_eq}
use v6chat.Own.Info.{MyInfo, own_columns}
use v6chat.Own.Row.{MyColumns, insert_my_base, replace_my_base, my_columns, update_my_sql}
use v6chat.Text.Concat.{v6strcat}
use v6chat.Text.Decimal.{print, print_int, atoi-print}
use v6chat.Text.Quote.{has_quote}
use v6chat.Text.Replace.{joined, v6strcat-joined}
use v6chat.Text.{Text}
use v6chat.User.Loading.{Row}
use v6chat.User.UserList.{Backend}

-- The columns of a profile in the order of the statement, behind the first.
abbrev pub behind_name : MyColumns → List (Option Text)
behind_name p = p.sex ∷ p.age ∷ p.introduction ∷ p.head_image_path ∷ p.v4_port ∷ p.v6_port ∷ []

-- The row that SQL writes for the statement of `update_myProfile`: an insertion, which SQLite numbers with `id`,
-- or a replacement, which has the number itself.
unfoldable pub written_my_row : ℕ → Text → Option Row
unfolding behind read_values row_of cell_at
written_my_row id sql = elim (behind (text_of insert_my_base) sql) [
  | some rest ↦ elim (read_values 7 rest) [ none ↦ none | some cells ↦ some (row_of id cells) ]
  | none ↦ elim (behind (text_of replace_my_base) sql) [
    | none ↦ none
    | some rest ↦ elim (read_values 8 rest) [ none ↦ none | some cells ↦ some (cell_at cells) ]
  ]
]

-- The number of that row.
abbrev pub row_number : (id : ℕ) → MyInfo → ℕ
row_number id m = if m.db_id == 0 then id else m.db_id

-- The texts of a profile have no quote as they go into the statement.
pub record Unquoted (b : Backend) (m : MyInfo) : Type 0 where
  pub name : has_quote (b.to_utf8 m.name) ≡ false
  pub introduction : has_quote (b.to_utf8 m.introduction) ≡ false

inserted_sql :
    (p : MyColumns)
    → v6strcat (insert_my_base ∷ my_columns p)
      ≡ text_of insert_my_base ++ joined (values p.nick_name (behind_name p))
unfolding values
inserted_sql p =
    v6strcat-joined (insert_my_base ∷ values p.nick_name (behind_name p))
    ∙ joined_first insert_my_base (values p.nick_name (behind_name p))

replaced_sql :
    (id : Text) (p : MyColumns)
    → v6strcat (replace_my_base ∷ some id ∷ sep ∷ my_columns p)
      ≡ text_of replace_my_base ++ joined (values (some id) (p.nick_name ∷ behind_name p))
unfolding values
replaced_sql id p =
    v6strcat-joined (replace_my_base ∷ values (some id) (p.nick_name ∷ behind_name p))
    ∙ joined_first replace_my_base (values (some id) (p.nick_name ∷ behind_name p))

-- The row of a profile as a list of its columns.
unfoldable pub my_cells : Backend → MyInfo → (tcp4 tcp6 : ℕ) → List (Option Text)
my_cells b m tcp4 tcp6 =
    some (b.to_utf8 m.name)
    ∷ some (print m.sex)
    ∷ some (print m.age)
    ∷ some (b.to_utf8 m.introduction)
    ∷ none
    ∷ some (print tcp4)
    ∷ some (print tcp6)
    ∷ []

my_cells-Plain :
    (b : Backend) (m : MyInfo) (tcp4 tcp6 : ℕ) → Unquoted b m → All Plain (my_cells b m tcp4 tcp6)
unfolding my_cells text_of has_quote
my_cells-Plain b m tcp4 tcp6 q = (
  q.name,
  (
    print-has_quote m.sex,
    (
      print-has_quote m.age,
      (q.introduction, (refl, (print-has_quote tcp4, (print-has_quote tcp6, tt)))),
    ),
  ),
)

own_columns-my_cells :
    (b : Backend) (m : MyInfo) (tcp4 tcp6 : ℕ)
    → m.v4_tcp_port ≡ pos tcp4
    → m.v6_tcp_port ≡ pos tcp6
    → (own_columns b m).nick_name ∷ behind_name (own_columns b m) ≡ my_cells b m tcp4 tcp6
unfolding own_columns my_cells print_int
own_columns-my_cells b m tcp4 tcp6 e f = rw (e, f) refl

-- No insertion begins like a replacement.
replaced_no_insertion :
    (t : Text) → behind (text_of insert_my_base) (text_of replace_my_base ++ t) ≡ none
unfolding behind text_of insert_my_base replace_my_base
replaced_no_insertion t = refl

inserted-row :
    (id : ℕ) (p : MyColumns)
    → All Plain (p.nick_name ∷ behind_name p)
    → written_my_row id (v6strcat (insert_my_base ∷ my_columns p))
      ≡ some (row_of id (map text_of (p.nick_name ∷ behind_name p)))
unfolding written_my_row
inserted-row id p q =
    rw
      (
        written_my_row,
        inserted_sql p,
        behind-append (text_of insert_my_base) (joined (values p.nick_name (behind_name p))),
        read_values-joined 7 p.nick_name (behind_name p) q.0 q.1 (omega arith),
      )
      refl

replaced-row :
    (id n : ℕ) (p : MyColumns)
    → All Plain (p.nick_name ∷ behind_name p)
    → written_my_row id (v6strcat (replace_my_base ∷ some (print n) ∷ sep ∷ my_columns p))
      ≡ some (row_of n (map text_of (p.nick_name ∷ behind_name p)))
unfolding written_my_row row_of text_of
replaced-row id n p q =
    let rest : Text = joined (values (some (print n)) (p.nick_name ∷ behind_name p)) in
    ap (written_my_row id) (replaced_sql (print n) p)
    ∙ rw
        (
          written_my_row,
          replaced_no_insertion rest,
          behind-append (text_of replace_my_base) rest,
          read_values-joined 8 (some (print n)) (p.nick_name ∷ behind_name p) (print-has_quote n) q
              (omega arith),
        )
        refl

pub written_my_row-update_my_sql :
    (b : Backend) (m : MyInfo) (id tcp4 tcp6 : ℕ)
    → Unquoted b m
    → m.v4_tcp_port ≡ pos tcp4
    → m.v6_tcp_port ≡ pos tcp6
    → m.db_id < 2 ^ 31
    → written_my_row id (update_my_sql (print m.db_id) (own_columns b m))
      ≡ some (row_of (row_number id m) (map text_of (my_cells b m tcp4 tcp6)))
unfolding update_my_sql int_eq
written_my_row-update_my_sql b m id tcp4 tcp6 q e f h =
    let cells = own_columns-my_cells b m tcp4 tcp6 e f in
    let plain : All Plain ((own_columns b m).nick_name ∷ behind_name (own_columns b m)) =
      subst (All Plain) (sym cells) (my_cells-Plain b m tcp4 tcp6 q) in
    elim (Bool-cases (m.db_id == 0)) [
      | inl new ↦
          rw (update_my_sql, atoi-print m.db_id h, new)
            (inserted-row id (own_columns b m) plain
              ∙ ap (λ (cs : List (Option Text)). some (row_of id (map text_of cs))) cells)
      | inr old ↦
          rw (update_my_sql, atoi-print m.db_id h, old)
            (replaced-row id m.db_id (own_columns b m) plain
              ∙ ap (λ (cs : List (Option Text)). some (row_of m.db_id (map text_of cs))) cells)
    ]
