-- ===== src/Text/Replace.antt =====
-- What `v6strcat` and `replacestr` compute, when `replacestr` returns, and that its buffer is large
-- enough.
use v6chat.Base.{
  ℕ, zero, suc, ◌+◌, ◌≤◌, ◌<◌, ◌≡◌, refl, true, Option, none, some, List, [], ◌∷◌, ◌++◌, arith,
  ◌==◌, if◌then◌else◌, length, take, drop, append_assoc, append-nil, inl, inr, Option-cases, sym,
  ◌∙◌, length-drop, length-append,
}
use native.Mathlib.Numerals.{add-one}
use v6chat.Text.Concat.{
  v6strcat, strcat_loop, starts_with, strstr, Buffer, replace_loop, replace_round, finish,
  replacestr,
}
use v6chat.Text.{Text}

-- The arguments that are not NULL, one after the other.
unfoldable pub joined : List (Option Text) → Text
joined [] = []
joined (none ∷ args) = joined args
joined (some s ∷ args) = s ++ joined args

strcat_loop-joined :
    (rv : Text) (args : List (Option Text)) → strcat_loop rv args ≡ rv ++ joined args
unfolding strcat_loop joined
strcat_loop-joined rv [] = sym (append-nil rv)
strcat_loop-joined rv (none ∷ args) = strcat_loop-joined rv args
strcat_loop-joined rv (some s ∷ args) =
    strcat_loop-joined (rv ++ s) args ∙ append_assoc rv s (joined args)

-- `v6strcat` gives its arguments one after the other, without those that are NULL.
pub v6strcat-joined : (args : List (Option Text)) → v6strcat args ≡ joined args
unfolding v6strcat
v6strcat-joined args = strcat_loop-joined [] args

-- Every `q` replaced by `d`, one character at a time.
unfoldable pub substitute : ℕ → Text → Text → Text
substitute q d [] = []
substitute q d (c ∷ cs) = if c == q then d ++ substitute q d cs else c ∷ substitute q d cs

strstr-none : (q : ℕ) (d cs : Text) → strstr cs (q ∷ []) ≡ none → substitute q d cs ≡ cs
unfolding strstr substitute
strstr-none q d [] h = refl
strstr-none q d (c ∷ cs) h = ground (arith, strstr-none q d cs)

strstr-some :
    (q : ℕ) (d cs : Text) (n : ℕ)
    → strstr cs (q ∷ []) ≡ some n
    → substitute q d cs ≡ take n cs ++ d ++ substitute q d (drop (suc n) cs)
unfolding strstr substitute
strstr-some q d [] n h = cc
strstr-some q d (c ∷ cs) zero h = ground arith
strstr-some q d (c ∷ cs) (suc n) h = ground (arith, strstr-some q d cs n)

starts_with-length : (s cs : Text) → starts_with s cs ≡ true → length s ≤ length cs
unfolding starts_with
starts_with-length [] cs h = omega arith
starts_with-length (x ∷ s) [] h = absurd (cc)
starts_with-length (x ∷ s) (c ∷ cs) h = ground (arith, starts_with-length s cs)

strstr_bound : (cs s : Text) (n : ℕ) → strstr cs s ≡ some n → n + length s ≤ length cs
unfolding strstr
strstr_bound [] s n h = ground (arith, starts_with-length s [])
strstr_bound (c ∷ cs) s zero h = ground (arith, starts_with-length s (c ∷ cs))
strstr_bound (c ∷ cs) s (suc n) h = ground (arith, strstr_bound cs s n)

drop_shorter :
    (n k : ℕ) (cs : Text) → n + k ≤ length cs → 0 < k → length (drop (n + k) cs) < length cs
drop_shorter n k cs h p = omega (arith, length-drop (n + k) cs)

-- With a nonempty search text and more rounds than characters the loop ends, and what it writes fills
-- its last buffer up to the NUL.
replace_loop_ends :
    (fuel : ℕ) (b : Buffer) (cur sstr dstr : Text)
    → length cur < fuel
    → 0 < length sstr
    → (r : Buffer) × (replace_loop fuel b cur sstr dstr ≡ some r)
      × (r.capacity ≡ length r.written + 1)
unfolding replace_loop finish
replace_loop_ends zero b cur sstr dstr h p = absurd (omega arith)
replace_loop_ends (suc fuel) b [] sstr dstr h p =
    (finish b [], refl, omega (arith, length-append b.written []))
replace_loop_ends (suc fuel) b (c ∷ cs) sstr dstr h p = elim (Option-cases (strstr (c ∷ cs) sstr)) [
  | inl e ↦
      (finish b (c ∷ cs), rw (e, replace_loop), omega (arith, length-append b.written (c ∷ cs)))
  | inr (n, e) ↦
      let shorter = drop_shorter n (length sstr) (c ∷ cs) (strstr_bound (c ∷ cs) sstr n e) p in
      rw (e, replace_loop)
        (replace_loop_ends fuel (replace_round b (c ∷ cs) n dstr) (drop (n + length sstr) (c ∷ cs))
          sstr dstr (omega arith) p)
]

-- An empty search text is found at once and never passed.
replace_loop_stays :
    (fuel : ℕ) (b : Buffer) (c : ℕ) (cs dstr : Text) → replace_loop fuel b (c ∷ cs) [] dstr ≡ none
unfolding replace_loop strstr starts_with
replace_loop_stays zero b c cs dstr = refl
replace_loop_stays (suc fuel) b c cs dstr = replace_loop_stays fuel _ c cs dstr

replace_loop_substitutes :
    (fuel : ℕ) (b : Buffer) (cur : Text) (q : ℕ) (d : Text) (r : Buffer)
    → replace_loop fuel b cur (q ∷ []) d ≡ some r
    → r.written ≡ b.written ++ substitute q d cur
unfolding replace_loop finish replace_round substitute
replace_loop_substitutes zero b cur q d r h = cc
replace_loop_substitutes (suc fuel) b [] q d r h = ground arith
replace_loop_substitutes (suc fuel) b (c ∷ cs) q d r h =
    elim (Option-cases (strstr (c ∷ cs) (q ∷ []))) [
      | inl e ↦
          let h' = rw (e, replace_loop) at h in rw (strstr-none q d (c ∷ cs) e) (ground (arith, h'))
      | inr (n, e) ↦
          let h' = rw (e, replace_loop) at h in
          let rest = drop (n + 1) (c ∷ cs) in
          replace_loop_substitutes fuel (replace_round b (c ∷ cs) n d) rest q d r h'
          ∙ rw (strstr-some q d (c ∷ cs) n e, add-one n) (simp append_assoc)
    ]

abbrev start : Buffer
start = record { capacity = 1; written = [] }

-- With a nonempty search text `replacestr` returns within one round more than the text has characters,
-- and the buffer that it returns has room for exactly the text and its NUL.
pub replacestr_returns :
    (str sstr dstr : Text)
    → 0 < length sstr
    → (r : Buffer) × (replacestr (length str + 1) (some str) (some sstr) (some dstr)
        ≡ some (some r))
      × (r.capacity ≡ length r.written + 1)
unfolding replacestr
replacestr_returns str sstr dstr p =
    let (r, e, c) = replace_loop_ends (length str + 1) start str sstr dstr (omega arith) p in
    (r, rw (e, replacestr), c)

-- With an empty search text and a nonempty text `replacestr` never returns.
pub replacestr_endless :
    (fuel c : ℕ) (cs dstr : Text) → replacestr fuel (some (c ∷ cs)) (some []) (some dstr) ≡ none
unfolding replacestr
replacestr_endless fuel c cs dstr = rw (replace_loop_stays fuel start c cs dstr, replacestr)

-- With a search text of one character `replacestr` returns the text in which every occurrence of the
-- character is replaced, and nothing else is changed.
pub replacestr-substitute :
    (str : Text) (q : ℕ) (dstr : Text)
    → (r : Buffer) × (replacestr (length str + 1) (some str) (some (q ∷ [])) (some dstr)
        ≡ some (some r))
      × (r.written ≡ substitute q dstr str)
unfolding replacestr
replacestr-substitute str q dstr =
    let (r, e, c) =
      replace_loop_ends (length str + 1) start str (q ∷ []) dstr (omega arith) (omega arith) in
    (r, rw (e, replacestr), replace_loop_substitutes (length str + 1) start str q dstr r e)
