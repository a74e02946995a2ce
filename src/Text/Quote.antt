-- ===== src/Text/Quote.antt =====
-- db_interface.cpp puts texts between single quotes into SQL statements; `update_peerProfile` doubles
-- the quotes of the introduction first. SQL's own reading of a literal is given here as the
-- independent description: a doubled quote is a quote, a single one ends the literal.
use v6chat.Base.{
  ℕ, ◌≡◌, refl, Bool, true, false, ◌||◌, Option, none, some, [], ◌∷◌, ◌++◌, arith, ◌==◌,
  if◌then◌else◌, ap, sym, inl, inr, Bool-cases, ==_iff,
}
use v6chat.Text.Replace.{substitute}
use v6chat.Text.{Text}

abbrev pub quote : ℕ
quote = 39

unfoldable pub has_quote : Text → Bool
has_quote [] = false
has_quote (c ∷ cs) = c == quote || has_quote cs

-- The characters of a literal after its opening quote, and what follows its closing quote.
add_char : ℕ → Option (Text × Text) → Option (Text × Text)
add_char c none = none
add_char c (some (s, rest)) = some (c ∷ s, rest)

-- `pending`: the character before was a quote inside the literal.
unfoldable pub read_literal : (pending : Bool) → Text → Option (Text × Text)
unfolding add_char
read_literal true [] = some ([], [])
read_literal false [] = none
read_literal true (c ∷ cs) =
    if c == quote then add_char quote (read_literal false cs) else some ([], c ∷ cs)
read_literal false (c ∷ cs) =
    let quoted = read_literal true cs in
    let plain = add_char c (read_literal false cs) in if c == quote then quoted else plain

pub read_literal-substitute :
    (s rest : Text)
    → read_literal false (substitute quote (quote ∷ quote ∷ []) s ++ quote ∷ b',' ∷ rest)
      ≡ some (s, b',' ∷ rest)
unfolding read_literal substitute
read_literal-substitute [] rest = refl
read_literal-substitute (c ∷ s) rest = elim (Bool-cases (c == quote)) [
  | inl e ↦
      rw (e, read_literal-substitute s rest)
        (ap (λ v. some (v ∷ s, b',' ∷ rest)) (sym ((==_iff c quote).0 e)))
  | inr e ↦ rw (e, e, read_literal-substitute s rest)
]

-- A quote that is not doubled ends the literal.
pub read_literal_cut :
    (s : Text) (c : ℕ) (rest : Text)
    → has_quote s ≡ false
    → (c == quote) ≡ false
    → read_literal false (s ++ quote ∷ c ∷ rest) ≡ some (s, c ∷ rest)
unfolding read_literal has_quote
read_literal_cut [] c rest h n = rw n
read_literal_cut (x ∷ s) c rest h n =
    let plain : (x == quote) ≡ false = ground arith in
    rw (plain, read_literal_cut s c rest (ground arith) n)
