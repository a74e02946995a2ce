-- ===== src/Database/Literals.antt =====
-- How SQL reads the texts that stand in the statements.
use v6chat.Base.{
  ℕ, ◌≡◌, ◌⊎◌, refl, sym, ap, ◌∙◌, true, false, Option, none, some, List, [], ◌∷◌, ◌++◌, ◌==◌,
  append_assoc, Bool-cases, inl, inr,
}
use v6chat.Database.Statements.{
  PeerProfile, insert_base, replace_base, columns_before, columns_after, columns_last,
  insert_peer_sql, new_introduction, sep, update_peer_sql, before_introduction,
}
use v6chat.Numbers.{pos, int_eq}
use v6chat.Text.Concat.{v6strcat}
use v6chat.Text.Decimal.{atoi}
use v6chat.Text.Quote.{quote, read_literal, has_quote, read_literal_cut, read_literal-substitute}
use v6chat.Text.Replace.{joined, v6strcat-joined, substitute, replacestr-substitute}
use v6chat.Text.{Text}

joined-append : (xs ys : List (Option Text)) → joined (xs ++ ys) ≡ joined xs ++ joined ys
unfolding joined
joined-append [] ys = refl
joined-append (none ∷ xs) ys = joined-append xs ys
joined-append (some s ∷ xs) ys =
    rw (joined-append xs ys) (sym (append_assoc s (joined xs) (joined ys)))

v6strcat-append : (xs ys : List (Option Text)) → v6strcat (xs ++ ys) ≡ v6strcat xs ++ joined ys
v6strcat-append xs ys =
    v6strcat-joined (xs ++ ys)
    ∙ joined-append xs ys
    ∙ ap (λ t. t ++ joined ys) (sym (v6strcat-joined xs))

new_introduction-substitute :
    (s : Text) → new_introduction (some s) ≡ some (substitute quote (quote ∷ quote ∷ []) s)
unfolding new_introduction
new_introduction-substitute s =
    let (r, e, w) = replacestr-substitute s quote (quote ∷ quote ∷ []) in
    rw (e, new_introduction) (ap some w)

joined_introduction :
    (s : Text) (o : Option Text) (cs : List (Option Text))
    → o ≡ some s
    → joined (new_introduction o ∷ sep ∷ cs)
      ≡ substitute quote (quote ∷ quote ∷ []) s ++ quote ∷ b',' ∷ quote ∷ joined cs
unfolding joined
joined_introduction s o cs e = rw (e, new_introduction-substitute s)

-- The columns behind the nickname.
abbrev columns_behind : PeerProfile → List (Option Text)
columns_behind p =
    sep ∷ p.group_name ∷ sep ∷ p.sex ∷ sep ∷ p.age ∷ sep ∷ p.introduction ∷ columns_after p

joined_name :
    (p : PeerProfile) (s : Text) (c : ℕ) (t : Text)
    → p.nick_name ≡ some (s ++ quote ∷ c ∷ t)
    → joined (p.nick_name ∷ columns_behind p) ≡ s ++ (quote ∷ c ∷ (t ++ joined (columns_behind p)))
unfolding joined
joined_name p s c t e = rw e (append_assoc s (quote ∷ c ∷ t) (joined (columns_behind p)))

-- In the statement of `update_peerProfile`, SQL reads what stands behind the columns before the
-- introduction as a literal that is the introduction, whatever quotes it holds.
pub update_peer_sql-introduction :
    (uid s : Text) (p : PeerProfile)
    → p.introduction ≡ some s
    → (after rest : Text) × (update_peer_sql uid p ≡ before_introduction uid p ++ after)
      × (read_literal false after ≡ some (s, rest))
unfolding update_peer_sql before_introduction
update_peer_sql-introduction uid s p e = (
  substitute quote (quote ∷ quote ∷ []) s ++ quote ∷ b',' ∷ quote ∷ joined (columns_last p),
  b',' ∷ quote ∷ joined (columns_last p),
  split (Bool-cases (int_eq (atoi uid) (pos 0))),
  read_literal-substitute s (quote ∷ joined (columns_last p)),
)
  where
    tail : Text
    tail = substitute quote (quote ∷ quote ∷ []) s ++ quote ∷ b',' ∷ quote ∷ joined (columns_last p)

    split :
        (int_eq (atoi uid) (pos 0) ≡ true) ⊎ (int_eq (atoi uid) (pos 0) ≡ false)
        → update_peer_sql uid p ≡ before_introduction uid p ++ tail
    split (inl t) = rw t (
        v6strcat-append (insert_base ∷ columns_before p)
          (new_introduction p.introduction ∷ columns_after p)
        ∙ ap (λ x. v6strcat (insert_base ∷ columns_before p) ++ x)
            (joined_introduction s p.introduction (columns_last p) e))
    split (inr t) = rw t (
        v6strcat-append (replace_base ∷ some uid ∷ sep ∷ columns_before p)
          (new_introduction p.introduction ∷ columns_after p)
        ∙ ap (λ x. v6strcat (replace_base ∷ some uid ∷ sep ∷ columns_before p) ++ x)
            (joined_introduction s p.introduction (columns_last p) e))

-- In the statement of `insert_peerProfile`, SQL reads a nickname with a quote in it that stands before
-- another character than a quote only up to that quote: what follows is no part of the literal.
pub insert_peer_sql-nick_name :
    (p : PeerProfile) (s : Text) (c : ℕ) (t : Text)
    → p.nick_name ≡ some (s ++ quote ∷ c ∷ t)
    → has_quote s ≡ false
    → (c == quote) ≡ false
    → (after rest : Text) × (insert_peer_sql p ≡ v6strcat (insert_base ∷ []) ++ after)
      × (read_literal false after ≡ some (s, c ∷ rest))
unfolding insert_peer_sql
insert_peer_sql-nick_name p s c t e plain other =
    let rest = t ++ joined (columns_behind p) in
    (
      s ++ quote ∷ c ∷ rest,
      rest,
      v6strcat-append (insert_base ∷ []) (columns_before p ++ p.introduction ∷ columns_after p)
          ∙ ap (λ x. v6strcat (insert_base ∷ []) ++ x) (joined_name p s c t e),
      read_literal_cut s c rest plain other,
    )
