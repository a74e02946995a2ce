-- ===== src/OrderedMap.antt =====
-- `std::map` with an unsigned or int key: an association list in increasing order of its keys, which
-- is the order in which the sources' loops walk it.
use v6chat.Base.{
  ℕ, suc, ◌≤◌, ◌<◌, ◌≡◌, refl, Bool, true, false, Option, none, some, List, [], ◌∷◌, arith, ltb,
  ◌==◌, if◌then◌else◌, Bool-cases, inl, inr,
}

abbrev pub OrderedMap {ℓ} : Type ℓ → Type ℓ
OrderedMap V = List (ℕ × V)

abbrev pub is_some {ℓ} : {A : Type ℓ} → Option A → Bool
is_some none = false
is_some (some a) = true

module _ {ℓ} {V : Type ℓ} where
  -- `m.find(k)`, and `m[k]` where the key is present.
  unfoldable pub lookup : ℕ → OrderedMap V → Option V
  lookup k [] = none
  lookup k ((j, v) ∷ m) = if k == j then some v else lookup k m

  -- `m.count(k)`
  abbrev pub contains : ℕ → OrderedMap V → Bool
  contains k m = is_some (lookup k m)

  -- `m[k] = v`
  unfoldable pub put : ℕ → V → OrderedMap V → OrderedMap V
  put k v [] = (k, v) ∷ []
  put k v ((j, w) ∷ m) =
      if k == j then (k, v) ∷ m else if ltb k j then (k, v) ∷ (j, w) ∷ m else (j, w) ∷ put k v m

  -- `m.insert(make_pair(k, v))`: an entry that is there stays.
  unfoldable pub insert : ℕ → V → OrderedMap V → OrderedMap V
  insert k v m = if contains k m then m else put k v m

  -- `m.erase(k)`
  unfoldable pub erase : ℕ → OrderedMap V → OrderedMap V
  erase k [] = []
  erase k ((j, v) ∷ m) = if k == j then erase k m else (j, v) ∷ erase k m

  pub lookup-put :
      (q k : ℕ) (v : V) (m : OrderedMap V)
      → lookup q (put k v m) ≡ (if q == k then some v else lookup q m)
  unfolding lookup put
  lookup-put q k v [] = refl
  lookup-put q k v ((j, w) ∷ m) = ground (arith, lookup-put q k v m)

  pub lookup-insert :
      (q k : ℕ) (v : V) (m : OrderedMap V)
      → lookup q (insert k v m)
        ≡ (if contains k m then lookup q m else if q == k then some v else lookup q m)
  unfolding insert
  lookup-insert q k v m = ground (arith, lookup-put q k v m)

  pub lookup-erase :
      (q k : ℕ) (m : OrderedMap V) → lookup q (erase k m) ≡ (if q == k then none else lookup q m)
  unfolding lookup erase
  lookup-erase q k [] = ground arith
  lookup-erase q k ((j, w) ∷ m) = ground (arith, lookup-erase q k m)

  -- The keys increase along the list and none is below `n`.
  abbrev pub From : ℕ → OrderedMap V → Type 0
  From n [] = Unit {0}
  From n ((j, v) ∷ m) = (n ≤ j) × From (suc j) m

  pub From-mono : (k n : ℕ) (m : OrderedMap V) → k ≤ n → From n m → From k m
  From-mono k n [] h f = tt
  From-mono k n ((j, v) ∷ m) h f = (omega arith, f.1)

  pub put-From : (n k : ℕ) (v : V) (m : OrderedMap V) → n ≤ k → From n m → From n (put k v m)
  unfolding put
  put-From n k v [] h f = (h, tt)
  put-From n k v ((j, w) ∷ m) h f = ground (arith, put-From (suc j) k v m)

  pub erase-From : (n k : ℕ) (m : OrderedMap V) → From n m → From n (erase k m)
  unfolding erase
  erase-From n k [] f = tt
  erase-From n k ((j, w) ∷ m) f =
      ground (arith, erase-From (suc j) k m, From-mono n (suc j) (erase k m))

  -- No key below the first.
  pub lookup_below : (n q : ℕ) (m : OrderedMap V) → From n m → q < n → lookup q m ≡ none
  unfolding lookup
  lookup_below n q [] f h = refl
  lookup_below n q ((j, w) ∷ m) f h = ground (arith, lookup_below (suc j) q m)

  -- `find_if` over the entries, in the order of their keys.
  unfoldable pub find_if : (V → Bool) → OrderedMap V → Option (ℕ × V)
  find_if p [] = none
  find_if p ((j, v) ∷ m) = if p v then some (j, v) else find_if p m

  pub find_if_bound :
      (p : V → Bool) (n : ℕ) (m : OrderedMap V) (k : ℕ) (v : V)
      → From n m
      → find_if p m ≡ some (k, v)
      → n ≤ k
  unfolding find_if
  find_if_bound p n [] k v f e = cc
  find_if_bound p n ((j, w) ∷ m) k v f e = ground (arith, find_if_bound p (suc j) m k v)

  -- What is found stands in the map under its key and passes the test.
  pub find_if-lookup :
      (p : V → Bool) (n : ℕ) (m : OrderedMap V) (k : ℕ) (v : V)
      → From n m
      → find_if p m ≡ some (k, v)
      → (lookup k m ≡ some v) × (p v ≡ true)
  unfolding find_if lookup
  find_if-lookup p n [] k v f e = cc
  find_if-lookup p n ((j, w) ∷ m) k v f e =
      ground (arith, find_if-lookup p (suc j) m k v, find_if_bound p (suc j) m k v)

  -- Where nothing is found, no entry passes.
  pub find_if-none :
      (p : V → Bool) (m : OrderedMap V) (k : ℕ) (v : V)
      → find_if p m ≡ none
      → lookup k m ≡ some v
      → p v ≡ false
  unfolding find_if lookup
  find_if-none p [] k v e h = cc
  find_if-none p ((j, w) ∷ m) k v e h = ground (arith, find_if-none p m k v)

  -- The entry found is the one with the least key.
  pub find_if_least :
      (p : V → Bool) (n : ℕ) (m : OrderedMap V) (k : ℕ) (v : V)
      → From n m
      → lookup k m ≡ some v
      → p v ≡ true
      → (j : ℕ) × (w : V) × (find_if p m ≡ some (j, w)) × (j ≤ k)
  unfolding find_if lookup
  find_if_least p n [] k v f h t = absurd (cc)
  find_if_least p n ((j, w) ∷ m) k v f h t = elim (Bool-cases (p w)) [
    | inl hit ↦ (j, w, rw hit, ground (arith, lookup_below (suc j) k m))
    | inr miss ↦ rw miss (find_if_least p (suc j) m k v f.1 (ground arith) t)
  ]
