-- ===== src/Database/Values.antt =====
-- What SQL reads in the values of a statement: `'first','second',…,'last')`, behind the quote of the first.
use v6chat.Base.{
  ℕ, zero, suc, ◌<◌, ◌≡◌, refl, true, false, Option, none, some, List, [], ◌∷◌, ◌++◌, map, arith,
  ltb, ◌==◌, if◌then◌else◌, length, All, Bool-cases, inl, inr, ◌%◌, ◌/◌, ◌+◌,
}
use v6chat.Database.Statements.{sep}
use v6chat.Text.Decimal.{digits_before, print}
use v6chat.Text.Quote.{quote, has_quote, read_literal, read_literal_cut}
use v6chat.Text.Replace.{joined}
use v6chat.Text.{Text, codes}
use v6chat.User.Loading.{Row}

-- What follows a prefix.
unfoldable pub behind : Text → Text → Option Text
behind [] t = some t
behind (c ∷ cs) [] = none
behind (c ∷ cs) (d ∷ ds) = let rest = behind cs ds in if c == d then rest else none

pub behind-append : (s t : Text) → behind s (s ++ t) ≡ some t
unfolding behind
behind-append [] t = refl
behind-append (c ∷ s) t = let same : (c == c) ≡ true = ground arith in rw same (behind-append s t)

-- The values, at most as many as given: literals with a comma between them, and `)` behind the last.
unfoldable pub read_values : ℕ → Text → Option (List Text)
unfolding read_literal behind
read_values zero t = none
read_values (suc n) t = elim (read_literal false t) [
  | none ↦ none
  | some (s, rest) ↦ elim (behind (codes ",'") rest) [
    | some more ↦ elim (read_values n more) [ none ↦ none | some ss ↦ some (s ∷ ss) ]
    | none ↦ elim (behind (codes ")") rest) [
      | some [] ↦ some (s ∷ [])
      | some (c ∷ cs) ↦ none
      | none ↦ none
    ]
  ]
]

-- The arguments of v6strcat for values; NULL adds nothing.
unfoldable pub values : Option Text → List (Option Text) → List (Option Text)
values c [] = c ∷ some (codes "')") ∷ []
values c (d ∷ cs) = c ∷ sep ∷ values d cs

unfoldable pub text_of : Option Text → Text
text_of none = []
text_of (some t) = t

-- A column without a quote.
abbrev pub Plain : Option Text → Type 0
Plain c = has_quote (text_of c) ≡ false

pub joined_first :
    (c : Option Text) (cs : List (Option Text)) → joined (c ∷ cs) ≡ text_of c ++ joined cs
unfolding joined text_of
joined_first none cs = refl
joined_first (some t) cs = refl

pub read_values-joined :
    (n : ℕ) (c : Option Text) (cs : List (Option Text))
    → Plain c
    → All Plain cs
    → length cs < n
    → read_values n (joined (values c cs)) ≡ some (map text_of (c ∷ cs))
unfolding read_values values joined behind
read_values-joined zero c cs p ps h = absurd (omega arith)
read_values-joined (suc n) c [] p ps h =
    rw
      (
        read_values,
        joined_first c (some (codes "')") ∷ []),
        read_literal_cut (text_of c) b')' [] p refl,
      )
      refl
read_values-joined (suc n) c (d ∷ cs) p ps h =
    rw
      (
        read_values,
        joined_first c (sep ∷ values d cs),
        read_literal_cut (text_of c) b',' (quote ∷ joined (values d cs)) p refl,
        read_values-joined n d cs ps.0 ps.1 (omega arith),
      )
      refl

-- The row of a table: its number, and the other columns.
unfoldable pub cell_at : List Text → ℕ → Option Text
cell_at [] n = none
cell_at (t ∷ ts) zero = some t
cell_at (t ∷ ts) (suc n) = cell_at ts n

unfoldable pub row_of : ℕ → List Text → Row
unfolding cell_at
row_of id cells = cell_at (print id ∷ cells)

-- Numbers have no quotes.
digits_before-has_quote :
    (fuel n : ℕ) (rest : Text)
    → has_quote rest ≡ false
    → has_quote (digits_before fuel n rest) ≡ false
unfolding digits_before has_quote
digits_before-has_quote zero n rest h = h
digits_before-has_quote (suc fuel) n rest h = elim (Bool-cases (ltb n 10)) [
  | inl small ↦ rw small (ground (arith, h))
  | inr large ↦
      rw large (digits_before-has_quote fuel (n / 10) ((b'0' + n % 10) ∷ rest) (ground (arith, h)))
]

pub print-has_quote : (n : ℕ) → has_quote (print n) ≡ false
unfolding print has_quote
print-has_quote n = digits_before-has_quote (suc n) n [] refl
