-- ===== src/Peer/Texts.antt =====
-- kernel/Listener/ClientMsgListener.cpp: the marks `<n>` of a chat text, and `regex_replace` for a pattern
-- without special characters, which such a mark is.
use v6chat.Base.{ℕ, zero, suc, ◌-◌, [], ◌∷◌, ◌++◌, if◌then◌else◌, length}
use v6chat.Numbers.{ℤ}
use v6chat.Text.Concat.{starts_with}
use v6chat.Text.Decimal.{print_int}
use v6chat.Text.{Text}

-- `<n>`
unfoldable pub mark : ℤ → Text
mark n = b'<' ∷ print_int n ++ b'>' ∷ []

-- Every occurrence of the pattern, from left to right; `passed` characters belong to the last one.
unfoldable pub replace_from : (passed : ℕ) (pattern new text : Text) → Text
replace_from passed pattern new [] = []
replace_from (suc n) pattern new (c ∷ cs) = replace_from n pattern new cs
replace_from zero pattern new (c ∷ cs) =
    let found = new ++ replace_from (length pattern - 1) pattern new cs in
    let missed = c ∷ replace_from zero pattern new cs in
    if starts_with pattern (c ∷ cs) then found else missed

-- `regex_replace`
unfoldable pub regex_replace : (text pattern new : Text) → Text
unfolding replace_from
regex_replace text pattern new = replace_from 0 pattern new text

-- `<old>` becomes `<new>`.
unfoldable pub renumber : (text : Text) (old new : ℤ) → Text
unfolding mark regex_replace
renumber text old new = regex_replace text (mark old) (mark new)
