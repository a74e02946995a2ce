-- ===== src/Peer/Marks.antt =====
-- What renumbering the marks of a text does to it.
use v6chat.Base.{
  ℕ, zero, suc, ◌+◌, ◌-◌, ◌%◌, ◌/◌, ◌<◌, ◌≡◌, refl, sym, ◌∙◌, ap, Bool, true, false, not, ◌&&◌,
  List, [], ◌∷◌, ◌++◌, ◌==◌, ==_iff, map, length, append_assoc, arith, Bool-cases, inl, inr,
  if◌then◌else◌,
}
use v6chat.Numbers.{pos}
use v6chat.Peer.Texts.{mark, replace_from, regex_replace, renumber}
use v6chat.Text.Concat.{starts_with}
use v6chat.Text.Decimal.{print, print_int, digits_before, read_int-print, read_int}
use v6chat.Text.{Text, text_eq, text_eq_iff}

-- The character is not in the text.
unfoldable pub lacks : ℕ → Text → Bool
lacks c [] = true
lacks c (x ∷ xs) = not (x == c) && lacks c xs

digits_before-lacks :
    (c fuel n : ℕ) (rest : Text) → b'9' < c → lacks c (digits_before fuel n rest) ≡ lacks c rest
unfolding digits_before lacks
digits_before-lacks c zero n rest h = refl
digits_before-lacks c (suc fuel) n rest h =
    ground (arith, digits_before-lacks c fuel (n / 10) ((b'0' + n % 10) ∷ rest))

print-lacks : (c n : ℕ) → b'9' < c → lacks c (print n) ≡ true
unfolding print lacks
print-lacks c n h = digits_before-lacks c (suc n) n [] h

-- Two texts without `>`, each with `>` behind it.
starts_with-closed :
    (a b rest : Text)
    → lacks b'>' a ≡ true
    → lacks b'>' b ≡ true
    → starts_with (a ++ b'>' ∷ []) (b ++ b'>' ∷ rest) ≡ text_eq a b
unfolding starts_with lacks text_eq
starts_with-closed [] [] rest h g = ground arith
starts_with-closed [] (y ∷ b) rest h g = ground arith
starts_with-closed (x ∷ a) [] rest h g = ground arith
starts_with-closed (x ∷ a) (y ∷ b) rest h g = ground (arith, starts_with-closed a b rest)

text_eq-print : (i n : ℕ) → text_eq (print i) (print n) ≡ (i == n)
text_eq-print i n = elim (Bool-cases (text_eq (print i) (print n))) [
  | inl same ↦
      let e : print i ≡ print n = (text_eq_iff (print i) (print n)).0 same in
      let same_number : pos i ≡ pos n = sym (read_int-print i) ∙ ap read_int e ∙ read_int-print n in
      rw same (ground (arith, same_number))
  | inr other ↦ elim (Bool-cases (i == n)) [
    | inl equal ↦
        let e : i ≡ n = (==_iff i n).0 equal in
        absurd (cc (other, (text_eq_iff (print i) (print n)).1 (ap print e)))
    | inr unequal ↦ rw (other, unequal) refl
  ]
]

-- Characters of the last occurrence are passed over.
replace_from-passed :
    (pattern new passed rest : Text)
    → replace_from (length passed) pattern new (passed ++ rest) ≡ replace_from 0 pattern new rest
unfolding replace_from
replace_from-passed pattern new [] rest = refl
replace_from-passed pattern new (c ∷ cs) rest = replace_from-passed pattern new cs rest

-- A text without `<` is left as it is.
replace_from-plain :
    (tail new plain rest : Text)
    → lacks b'<' plain ≡ true
    → replace_from 0 (b'<' ∷ tail) new (plain ++ rest)
      ≡ plain ++ replace_from 0 (b'<' ∷ tail) new rest
unfolding replace_from lacks starts_with
replace_from-plain tail new [] rest h = refl
replace_from-plain tail new (c ∷ cs) rest h = ground (arith, replace_from-plain tail new cs rest)

replace_from-text :
    (i : ℕ) (new t rest : Text)
    → lacks b'<' t ≡ true
    → replace_from 0 (mark (pos i)) new (t ++ rest) ≡ t ++ replace_from 0 (mark (pos i)) new rest
unfolding mark
replace_from-text i new t rest h = replace_from-plain _ new t rest h

-- A text in pieces: one without `<`, or the mark of a file.
pub data Piece : Type 0 where
  plain : Text → Piece
  file : ℕ → Piece

unfoldable pub is_piece : Piece → Bool
unfolding lacks
is_piece (plain t) = lacks b'<' t
is_piece (file n) = true

unfoldable pub are_pieces : List Piece → Bool
unfolding is_piece
are_pieces [] = true
are_pieces (p ∷ ps) = is_piece p && are_pieces ps

unfoldable pub render : List Piece → Text
render [] = []
render (plain t ∷ ps) = t ++ render ps
render (file n ∷ ps) = mark (pos n) ++ render ps

-- File `i` becomes file `j`.
unfoldable pub renamed : ℕ → ℕ → Piece → Piece
renamed i j (plain t) = plain t
renamed i j (file n) = file (if n == i then j else n)

mark_tail : ℕ → Text
mark_tail n = print n ++ b'>' ∷ []

tail-rest : (n : ℕ) (rest : Text) → mark_tail n ++ rest ≡ print n ++ b'>' ∷ rest
unfolding mark_tail
tail-rest n rest = append_assoc (print n) (b'>' ∷ []) rest

lacks-append : (c : ℕ) (a b : Text) → lacks c (a ++ b) ≡ (lacks c a && lacks c b)
unfolding lacks
lacks-append c [] b = refl
lacks-append c (x ∷ a) b = ground (arith, lacks-append c a b)

lacks-mark_tail : (n : ℕ) → lacks b'<' (mark_tail n) ≡ true
unfolding mark_tail lacks
lacks-mark_tail n =
    rw (lacks-append b'<' (print n) (b'>' ∷ []), print-lacks b'<' n (omega arith)) refl

-- A mark is found at its own number only.
found-mark : (i n : ℕ) (rest : Text) → starts_with (mark_tail i) (mark_tail n ++ rest) ≡ (i == n)
unfolding mark_tail
found-mark i n rest = rw (tail-rest n rest) (
    starts_with-closed (print i) (print n) rest (print-lacks b'>' i (omega arith))
      (print-lacks b'>' n (omega arith))
    ∙ text_eq-print i n)

replace_from-found :
    (ti tn new rest : Text)
    → starts_with ti (tn ++ rest) ≡ true
    → ti ≡ tn
    → replace_from 0 (b'<' ∷ ti) new (b'<' ∷ tn ++ rest)
      ≡ new ++ replace_from 0 (b'<' ∷ ti) new rest
unfolding replace_from starts_with
replace_from-found ti tn new rest h e =
    let skipped : replace_from (length ti) (b'<' ∷ ti) new (tn ++ rest)
        ≡ replace_from 0 (b'<' ∷ ti) new rest =
      ap (λ t. replace_from (length ti) (b'<' ∷ ti) new (t ++ rest)) (sym e)
      ∙ replace_from-passed (b'<' ∷ ti) new ti rest in
    let one_less : suc (length ti) - 1 ≡ length ti = omega arith in
    rw (replace_from, starts_with, h, one_less) (ap (λ t. new ++ t) skipped)

replace_from-missed :
    (ti tn new rest : Text)
    → starts_with ti (tn ++ rest) ≡ false
    → lacks b'<' tn ≡ true
    → replace_from 0 (b'<' ∷ ti) new (b'<' ∷ tn ++ rest)
      ≡ b'<' ∷ tn ++ replace_from 0 (b'<' ∷ ti) new rest
unfolding replace_from starts_with
replace_from-missed ti tn new rest h l =
    rw (replace_from, starts_with, h) (ap (λ t. b'<' ∷ t) (replace_from-plain ti new tn rest l))

renumber-mark :
    (i n : ℕ) (new rest : Text)
    → replace_from 0 (mark (pos i)) new (mark (pos n) ++ rest)
      ≡ (if n == i then new else mark (pos n)) ++ replace_from 0 (mark (pos i)) new rest
unfolding mark print_int mark_tail
renumber-mark i n new rest = elim (Bool-cases (n == i)) [
  | inl same ↦
      let e : n ≡ i = (==_iff n i).0 same in
      rw same (
        replace_from-found (mark_tail i) (mark_tail n) new rest
          (found-mark i n rest ∙ (==_iff i n).1 (sym e)) (ap mark_tail (sym e)))
  | inr other ↦
      let differ : (i == n) ≡ false = ground (arith, other) in
      rw other (
        replace_from-missed (mark_tail i) (mark_tail n) new rest (found-mark i n rest ∙ differ)
          (lacks-mark_tail n))
]

chosen-mark :
    (b : Bool) (j n : ℕ)
    → (if b then mark (pos j) else mark (pos n)) ≡ mark (pos (if b then j else n))
chosen-mark true j n = refl
chosen-mark false j n = refl

replace_from-render :
    (i j : ℕ) (ps : List Piece)
    → are_pieces ps ≡ true
    → replace_from 0 (mark (pos i)) (mark (pos j)) (render ps) ≡ render (map (renamed i j) ps)
unfolding render renamed are_pieces is_piece replace_from
replace_from-render i j [] h = refl
replace_from-render i j (plain t ∷ ps) h =
    let ih = replace_from-render i j ps (ground (arith, h)) in
    replace_from-text i (mark (pos j)) t (render ps) (ground (arith, h)) ∙ ap (λ r. t ++ r) ih
replace_from-render i j (file n ∷ ps) h =
    let ih = replace_from-render i j ps h in
    renumber-mark i n (mark (pos j)) (render ps) ∙ rw (chosen-mark (n == i) j n, ih) refl

-- Renumbering a text that is made of marks `<n>` and of pieces without `<` gives the same pieces, with the
-- mark of file `j` for each mark of file `i`, and nothing else changed.
pub renumber-render :
    (i j : ℕ) (ps : List Piece)
    → are_pieces ps ≡ true
    → renumber (render ps) (pos i) (pos j) ≡ render (map (renamed i j) ps)
unfolding renumber regex_replace
renumber-render i j ps h = replace_from-render i j ps h

renamed-pieces : (i j : ℕ) (ps : List Piece) → are_pieces (map (renamed i j) ps) ≡ are_pieces ps
unfolding renamed are_pieces is_piece
renamed-pieces i j [] = refl
renamed-pieces i j (plain t ∷ ps) = ap (λ b. lacks b'<' t && b) (renamed-pieces i j ps)
renamed-pieces i j (file n ∷ ps) = renamed-pieces i j ps

-- Files `i` and `j` both become file `n`.
unfoldable pub merged : (i j n : ℕ) → Piece → Piece
merged i j n (plain t) = plain t
merged i j n (file m) = file (if m == i then n else if m == j then n else m)

renamed_twice :
    (i j n : ℕ) (ps : List Piece) → map (renamed j n) (map (renamed i j) ps) ≡ map (merged i j n) ps
unfolding renamed merged
renamed_twice i j n [] = refl
renamed_twice i j n (plain t ∷ ps) = ap (λ r. plain t ∷ r) (renamed_twice i j n ps)
renamed_twice i j n (file m ∷ ps) =
    let same : (if (if m == i then j else m) == j then n else if m == i then j else m)
        ≡ (if m == i then n else if m == j then n else m) =
      ground arith in
    ground (arith, same, renamed_twice i j n ps)

-- Renumbering one file after the other is not renumbering them at once: where file `i` becomes `j` and then
-- file `j` becomes `n`, the marks of both become the mark of `n`.
pub renumber_twice-merged :
    (i j n : ℕ) (ps : List Piece)
    → are_pieces ps ≡ true
    → renumber (renumber (render ps) (pos i) (pos j)) (pos j) (pos n)
      ≡ render (map (merged i j n) ps)
renumber_twice-merged i j n ps h =
    ap (λ t. renumber t (pos j) (pos n)) (renumber-render i j ps h)
    ∙ renumber-render j n (map (renamed i j) ps) (renamed-pieces i j ps ∙ h)
    ∙ ap render (renamed_twice i j n ps)
