-- ===== src/Text/Concat.antt =====
-- db_interface/c_util/v6string.c: the string functions that the SQL statements are built with. A C
-- string is the list of its characters before the NUL; `none` is the pointer NULL.
use v6chat.Base.{
  ℕ, zero, suc, ◌+◌, Bool, true, false, ◌&&◌, Option, none, some, List, [], ◌∷◌, ◌++◌, ◌==◌,
  if◌then◌else◌, length, take, drop,
}
use v6chat.Text.{Text}

-- The loop of `v6strcat` over its arguments; NULL is skipped.
unfoldable pub strcat_loop : Text → List (Option Text) → Text
strcat_loop rv [] = rv
strcat_loop rv (none ∷ args) = strcat_loop rv args
strcat_loop rv (some enc ∷ args) = strcat_loop (rv ++ enc) args

unfoldable pub v6strcat : List (Option Text) → Text
unfolding strcat_loop
v6strcat args = strcat_loop [] args

-- `strstr(s, needle)`, as the length of what stands before the first occurrence.
unfoldable pub starts_with : Text → Text → Bool
starts_with [] s = true
starts_with (c ∷ cs) [] = false
starts_with (c ∷ cs) (d ∷ ds) = c == d && starts_with cs ds

abbrev one_more : Option ℕ → Option ℕ
one_more none = none
one_more (some n) = some (suc n)

unfoldable pub strstr : Text → Text → Option ℕ
unfolding starts_with
strstr [] needle = if starts_with needle [] then some 0 else none
strstr (c ∷ cs) needle = if starts_with needle (c ∷ cs) then some 0 else one_more (strstr cs needle)

-- The buffer of `replacestr`: its size after the last `realloc`, and the bytes written, which are
-- `replacedlen` many.
pub record Buffer : Type 0 where
  pub capacity : ℕ
  pub written : Text

-- What follows the loop: the rest of the text with its NUL.
unfoldable pub finish : Buffer → Text → Buffer
finish b left = record {
  capacity = length b.written + (length left + 1);
  written = b.written ++ left;
}

-- One round: `n` characters stand before the next occurrence.
unfoldable pub replace_round : Buffer → Text → ℕ → Text → Buffer
replace_round b cur n dstr = record {
  capacity = length b.written + n + length dstr;
  written = b.written ++ take n cur ++ dstr;
}

-- The loop of `replacestr` from `curstr` on. `none` is a loop that is still running.
unfoldable pub replace_loop : ℕ → Buffer → Text → Text → Text → Option Buffer
unfolding strstr finish replace_round
replace_loop zero b cur sstr dstr = none
replace_loop (suc fuel) b [] sstr dstr = some (finish b [])
replace_loop (suc fuel) b (c ∷ cs) sstr dstr = elim (strstr (c ∷ cs) sstr) [
  | none ↦ some (finish b (c ∷ cs))
  | some n ↦
      replace_loop fuel (replace_round b (c ∷ cs) n dstr) (drop (n + length sstr) (c ∷ cs)) sstr
        dstr
]

-- Three pointers that may be NULL. The outer `none` is a call that does not return within `fuel`
-- rounds, the inner one is the result NULL.
unfoldable pub replacestr : ℕ → Option Text → Option Text → Option Text → Option (Option Buffer)
replacestr fuel none sstr dstr = some none
replacestr fuel (some str) none dstr = some none
replacestr fuel (some str) (some sstr) none = some none
replacestr fuel (some str) (some sstr) (some dstr) =
    elim (replace_loop fuel (record { capacity = 1; written = [] }) str sstr dstr) [
      | none ↦ none
      | some b ↦ some (some b)
    ]
