-- ===== src/Bridge/Stack.antt =====
-- The stack of Lua, as far as LuaV6Chat3App.cpp uses it: values that are pushed, and tables that are filled by
-- `lua_settable(luaState, -3)`. The interpreter is a parameter.
use v6chat.Base.{ℕ, ◌+◌, Bool, Option, none, some, List, [], ◌∷◌, take, length, ◌>>=◌}
use v6chat.Numbers.{ℤ, pos}
use v6chat.Text.{Text}

-- table: its assignments, the last one first. bitmap: an object that XLUE_PushBitmap pushes.
mutual
  pub data Value : Type 0 where
    nil : Value
    number : ℤ → Value
    string : Text → Value
    boolean : Bool → Value
    bitmap : Value
    table : Fields → Value

  pub data Fields : Type 0 where
    empty : Fields
    field : Value → Value → Fields → Fields

-- The values that were pushed, the top first.
abbrev pub Stack : Type 0
Stack = List Value

-- The arguments of a call behind the object, by `lua_tolstring` (`none` is NULL), `lua_tointeger` or
-- `lua_tonumber`, and `lua_toboolean`.
pub record Arguments : Type 0 where
  pub to_string : ℕ → Option Text
  pub to_integer : ℕ → ℤ
  pub to_boolean : ℕ → Bool

-- `lua_settable(luaState, -3)`. `none`: there is no table below the key and the value.
unfoldable pub set_table : Stack → Option Stack
set_table (v ∷ k ∷ table fs ∷ below) = some (table (field k v fs) ∷ below)
set_table _ = none

-- A field of a table: name, value, `lua_settable`.
abbrev pub Row : Type 0
Row = List (Text × Value)

unfoldable pub set_fields : Row → Stack → Option Stack
unfolding set_table
set_fields [] s = some s
set_fields ((name, v) ∷ row) s = set_table (v ∷ string name ∷ s) >>= λ s'. set_fields row s'

-- The loop that fills a table with a table for each row, from the index `i` on.
unfoldable pub push_rows : ℕ → List Row → Stack → Option Stack
unfolding set_fields set_table
push_rows i [] s = some s
push_rows i (row ∷ rows) s = do
  s' ← set_fields row (table empty ∷ number (pos i) ∷ s)
  s'' ← set_table s'
  push_rows (i + 1) rows s''

-- `lua_newtable`, and the loop.
unfoldable pub push_table : List Row → Stack → Option Stack
unfolding push_rows
push_table rows s = push_rows 1 rows (table empty ∷ s)

-- What a function leaves: its results are as many values from the top as it returns.
abbrev pub Answer : Type 0
Answer = Option (ℕ × Stack)

-- A function that pushes a number of values, the first one first, and returns that number.
unfoldable pub pushes : List Value → Stack → Stack
pushes [] s = s
pushes (v ∷ vs) s = pushes vs (v ∷ s)

unfoldable pub reversed : Stack → List Value → List Value
reversed [] vs = vs
reversed (v ∷ s) vs = reversed s (v ∷ vs)

-- What Lua takes as the results.
unfoldable pub results : Answer → Option (List Value)
unfolding reversed
results none = none
results (some (n, s)) = some (reversed (take n s) [])

unfoldable pub answers : List Value → Answer
unfolding pushes
answers vs = some (length vs, pushes vs [])
