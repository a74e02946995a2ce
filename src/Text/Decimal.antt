-- ===== src/Text/Decimal.antt =====
-- `stringstream << n`, `stringstream >> n` and `atoi` of the standard library, on decimal texts.
use v6chat.Base.{
  ℕ, zero, suc, ◌+◌, ◌-◌, ◌*◌, ◌/◌, ◌%◌, ◌^◌, ◌<◌, ◌≡◌, Bool, true, ◌&&◌, [], ◌∷◌, arith, ltb, leb,
  ◌==◌, if◌then◌else◌, ◌∙◌, ap, Bool-cases, inl, inr,
}
use v6chat.Numbers.{ℤ, pos, negsuc, u32_mod}
use v6chat.Text.{Text}

-- The digits of `n` before `rest`. Each round divides by ten, so `suc n` rounds are enough.
unfoldable pub digits_before : ℕ → ℕ → Text → Text
digits_before zero n rest = rest
digits_before (suc fuel) n rest =
    let more = digits_before fuel (n / 10) ((b'0' + n % 10) ∷ rest) in
    if ltb n 10 then (b'0' + n) ∷ rest else more

unfoldable pub print : ℕ → Text
unfolding digits_before
print n = digits_before (suc n) n []

unfoldable pub print_int : ℤ → Text
unfolding print
print_int (pos n) = print n
print_int (negsuc n) = b'-' ∷ print (n + 1)

unfoldable pub is_digit : ℕ → Bool
is_digit c = leb b'0' c && leb c b'9'

-- The digits at the start of a text; the first other character ends them.
unfoldable pub read_digits : ℕ → Text → ℕ
unfolding is_digit
read_digits acc [] = acc
read_digits acc (c ∷ cs) =
    let rest = read_digits (acc * 10 + (c - b'0')) cs in if is_digit c then rest else acc

negated : ℕ → ℤ
negated zero = pos 0
negated (suc n) = negsuc n

-- The number that a text without leading white space begins with, whatever its size.
unfoldable pub read_int : Text → ℤ
unfolding read_digits negated
read_int [] = pos 0
read_int (c ∷ cs) = if c == b'-' then negated (read_digits 0 cs) else pos (read_digits 0 (c ∷ cs))

-- The nearest `int` of 32 bits.
unfoldable pub nearest_int : ℤ → ℤ
nearest_int (pos n) = if ltb n (2 ^ 31) then pos n else pos (2 ^ 31 - 1)
nearest_int (negsuc n) = if ltb n (2 ^ 31) then negsuc n else negsuc (2 ^ 31 - 1)

-- `atoi`: an `int`; the library of Windows documents INT_MAX and INT_MIN for a number that is none.
unfoldable pub atoi : Text → ℤ
unfolding read_int nearest_int
atoi t = nearest_int (read_int t)

regroup : (acc k n : ℕ) → (acc * k + n / 10) * 10 + n % 10 ≡ acc * (k * 10) + n
regroup acc k n = omega arith

read_digits_digit :
    (acc d : ℕ) (rest : Text)
    → d < 10
    → read_digits acc ((b'0' + d) ∷ rest) ≡ read_digits (acc * 10 + d) rest
unfolding read_digits
read_digits_digit acc d rest h = let e : b'0' + d - b'0' ≡ d = omega arith in rw (is_digit_yes, e)
  where
    is_digit_yes : is_digit (b'0' + d) ≡ true
    is_digit_yes = ground arith

-- Reading the digits of `n` from `acc` on shifts `acc` past them.
read_digits-digits_before :
    (fuel n : ℕ) (rest : Text)
    → n < fuel
    → (k : ℕ) × ((acc : ℕ)
        → read_digits acc (digits_before fuel n rest) ≡ read_digits (acc * k + n) rest)
unfolding digits_before
read_digits-digits_before zero n rest h = absurd (omega arith)
read_digits-digits_before (suc fuel) n rest h = elim (Bool-cases (ltb n 10)) [
  | inl small ↦ (10, λ acc. rw small (read_digits_digit acc n rest (ground arith)))
  | inr large ↦
      let (k, ih) =
        read_digits-digits_before fuel (n / 10) ((b'0' + n % 10) ∷ rest) (ground arith) in
      (
        k * 10,
        λ acc. rw large (
            ih acc
            ∙ read_digits_digit (acc * k + n / 10) (n % 10) rest (omega arith)
            ∙ ap (λ v. read_digits v rest) (regroup acc k n)),
      )
]

-- The digits begin with a digit.
digits_before_head :
    (fuel n : ℕ) (rest : Text)
    → n < fuel
    → (d : ℕ) × (tail : Text) × (digits_before fuel n rest ≡ (b'0' + d) ∷ tail)
unfolding digits_before
digits_before_head zero n rest h = absurd (omega arith)
digits_before_head (suc fuel) n rest h = elim (Bool-cases (ltb n 10)) [
  | inl small ↦ (n, rest, rw small)
  | inr large ↦
      let (d, tail, e) = digits_before_head fuel (n / 10) ((b'0' + n % 10) ∷ rest) (ground arith) in
      (d, tail, rw large e)
]

read_int-digits :
    (n : ℕ) (t : Text) (d : ℕ) (tail : Text)
    → t ≡ (b'0' + d) ∷ tail
    → read_digits 0 t ≡ n
    → read_int t ≡ pos n
unfolding read_int
read_int-digits n t d tail e h = let h' = rw e at h in rw e (ground arith)

read_digits_end : (k n : ℕ) → read_digits (0 * k + n) [] ≡ n
unfolding read_digits
read_digits_end k n = omega arith

-- A number printed into a string stream is read back.
pub read_int-print : (n : ℕ) → read_int (print n) ≡ pos n
unfolding print
read_int-print n =
    let (d, tail, e) = digits_before_head (suc n) n [] (omega arith) in
    let (k, h) = read_digits-digits_before (suc n) n [] (omega arith) in
    read_int-digits n _ d tail e (h 0 ∙ read_digits_end k n)

-- An `int` printed into a string stream is read back by `atoi`.
pub atoi-print : (n : ℕ) → n < 2 ^ 31 → atoi (print n) ≡ pos n
unfolding atoi nearest_int
atoi-print n h =
    let small : ltb n (2 ^ 31) ≡ true = ground arith in
    rw (read_int-print n) (ground (arith, small))

-- `stream >> n` for an `unsigned long` and for an `int`, on a text without leading white space. `overflow`:
-- what the library leaves in `n` for a number that it cannot hold.
unfoldable pub stream_unsigned : (overflow : ℕ) → Text → ℕ
unfolding read_int
stream_unsigned overflow t = elim (read_int t) [
  | pos n ↦ if ltb n u32_mod then n else overflow
  | negsuc n ↦ if ltb n (u32_mod - 1) then u32_mod - 1 - n else overflow
]

unfoldable pub stream_int : (overflow : ℤ) → Text → ℤ
unfolding read_int
stream_int overflow t = elim (read_int t) [
  | pos n ↦ if ltb n (2 ^ 31) then pos n else overflow
  | negsuc n ↦ if ltb n (2 ^ 31) then negsuc n else overflow
]
