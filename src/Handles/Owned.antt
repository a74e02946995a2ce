-- ===== src/Handles/Owned.antt =====
-- Which object a handle holds, and which is deleted.
use mathlib.Core.Path.{subst}
use v6chat.Base.{
  ℕ, ◌+◌, ◌≤◌, ◌≡◌, sym, ◌∙◌, Option, none, some, List, [], ◌∷◌, arith, ◌==◌, if◌then◌else◌,
  Bool-cases, Option-cases, inl, inr, All, ◌⊎◌,
}
use v6chat.Handles.Counting.{
  Handle, Store, find_handle, replace_handle, remove_handle, incr_count, decr_count, construct,
  copy, assign, destroy, Operation, constructed, copied, assigned, destroyed,
}

-- The object that the program hands to the constructor which takes the count `c`, where `fresh` is the next.
unfoldable pub given : List Operation → (fresh c : ℕ) → Option ℕ
given [] fresh c = none
given (constructed name pinfo ∷ ops) fresh c =
    let rest = given ops (fresh + 1) c in if c == fresh then pinfo else rest
given (copied name from ∷ ops) fresh c = given ops fresh c
given (assigned name from ∷ ops) fresh c = given ops fresh c
given (destroyed name ∷ ops) fresh c = given ops fresh c

abbrev pub Owns : (ℕ → Option ℕ) → Handle → Type 0
Owns o h = h.p ≡ o h.count

-- Every handle that lives, and every one that deleted its object, holds the object of its count.
abbrev pub Owned : (ℕ → Option ℕ) → Store → Type 0
Owned o s = All (λ (e : ℕ × Handle). Owns o e.1) s.handles × All (Owns o) s.deleted

pub find_handle-Owns :
    (o : ℕ → Option ℕ) (name : ℕ) (h : Handle) (hs : List (ℕ × Handle))
    → All (λ (e : ℕ × Handle). Owns o e.1) hs
    → find_handle name hs ≡ some h
    → Owns o h
unfolding find_handle
find_handle-Owns o name h [] a e = absurd (cc)
find_handle-Owns o name h ((k, g) ∷ hs) a e = elim (Bool-cases (k == name)) [
  | inl here ↦ let same : g ≡ h = ground arith in let p = a.0 in rw (sym same) p
  | inr other ↦ find_handle-Owns o name h hs a.1 (ground arith)
]

remove_handle-Owns :
    (o : ℕ → Option ℕ) (name : ℕ) (hs : List (ℕ × Handle))
    → All (λ (e : ℕ × Handle). Owns o e.1) hs
    → All (λ (e : ℕ × Handle). Owns o e.1) (remove_handle name hs)
unfolding remove_handle
remove_handle-Owns o name [] a = tt
remove_handle-Owns o name ((k, g) ∷ hs) a = elim (Bool-cases (k == name)) [
  | inl here ↦ rw here a.1
  | inr other ↦ rw other (a.0, remove_handle-Owns o name hs a.1)
]

replace_handle-Owns :
    (o : ℕ → Option ℕ) (name : ℕ) (r : Handle) (hs : List (ℕ × Handle))
    → Owns o r
    → All (λ (e : ℕ × Handle). Owns o e.1) hs
    → All (λ (e : ℕ × Handle). Owns o e.1) (replace_handle name r hs)
unfolding replace_handle
replace_handle-Owns o name r [] q a = tt
replace_handle-Owns o name r ((k, g) ∷ hs) q a = elim (Bool-cases (k == name)) [
  | inl here ↦ rw here (q, a.1)
  | inr other ↦ rw other (a.0, replace_handle-Owns o name r hs q a.1)
]

-- The objects of the counts to come are those of the constructors to come.
abbrev pub ToCome : (ℕ → Option ℕ) → List Operation → Store → Type 0
ToCome o ops s = (c : ℕ) → s.fresh ≤ c → o c ≡ given ops s.fresh c

-- A step that leaves the handles and the next count, and deletes nothing or one object by a handle that owns it.
incr_count-same :
    (c : ℕ) (s s' : Store)
    → incr_count c s ≡ some s'
    → (s'.handles ≡ s.handles) × (s'.deleted ≡ s.deleted) × (s'.fresh ≡ s.fresh)
unfolding incr_count
incr_count-same c s s' e = ground arith

decr_count-same :
    (h : Handle) (s s' : Store)
    → decr_count h s ≡ some s'
    → (s'.handles ≡ s.handles)
      × (s'.fresh ≡ s.fresh)
      × ((s'.deleted ≡ s.deleted) ⊎ (s'.deleted ≡ h ∷ s.deleted))
unfolding decr_count
decr_count-same h s s' e = ground arith

deleted-Owns :
    (o : ℕ → Option ℕ) (h : Handle) (ds ds' : List Handle)
    → Owns o h
    → All (Owns o) ds
    → (ds' ≡ ds) ⊎ (ds' ≡ h ∷ ds)
    → All (Owns o) ds'
deleted-Owns o h ds ds' q a (inl e) = subst (All (Owns o)) (sym e) a
deleted-Owns o h ds ds' q a (inr e) = subst (All (Owns o)) (sym e) (q, a)

LiveOwns : (ℕ → Option ℕ) → List (ℕ × Handle) → Type 0
LiveOwns o hs = All (λ (e : ℕ × Handle). Owns o e.1) hs

-- What a step leaves: owned handles, and the objects to come.
abbrev pub Left : (ℕ → Option ℕ) → List Operation → Store → Type 0
Left o ops s = Owned o s × ToCome o ops s

pub copy-Owned :
    (o : ℕ → Option ℕ) (ops : List Operation) (name : ℕ) (i : Handle) (s s' : Store)
    → copy name i s ≡ some s'
    → Owns o i
    → Left o ops s
    → Left o ops s'
unfolding copy
copy-Owned o ops name i s s' e q (a, come) = elim (Option-cases (incr_count i.count s)) [
  | inl crash ↦ absurd (ground arith)
  | inr (s1, done) ↦
      let (hs, ds, f) = incr_count-same i.count s s1 done in
      let out : record s1 { handles = (name, i) ∷ s1.handles } ≡ s' = ground arith in
      let live : LiveOwns o s1.handles = unfold LiveOwns in (subst (LiveOwns o) (sym hs) a.0) in
      subst (Left o ops) out (
        (unfold LiveOwns in ((q, live), subst (All (Owns o)) (sym ds) a.1)),
        subst (λ (n : ℕ). (c : ℕ) → n ≤ c → o c ≡ given ops n c) (sym f) come,
      )
]

pub destroy-Owned :
    (o : ℕ → Option ℕ) (ops : List Operation) (name : ℕ) (h : Handle) (s s' : Store)
    → destroy name h s ≡ some s'
    → Owns o h
    → Left o ops s
    → Left o ops s'
unfolding destroy
destroy-Owned o ops name h s s' e q (a, come) = elim (Option-cases (decr_count h s)) [
  | inl crash ↦ absurd (ground arith)
  | inr (s1, done) ↦
      let (hs, f, ds) = decr_count-same h s s1 done in
      let out : record s1 { handles = remove_handle name s1.handles } ≡ s' = ground arith in
      let live : LiveOwns o s1.handles = unfold LiveOwns in (subst (LiveOwns o) (sym hs) a.0) in
      subst (Left o ops) out (
        (unfold LiveOwns in
            (
              remove_handle-Owns o name s1.handles live,
              deleted-Owns o h s.deleted s1.deleted q a.1 ds,
            )),
        subst (λ (n : ℕ). (c : ℕ) → n ≤ c → o c ≡ given ops n c) (sym f) come,
      )
]

pub assign-Owned :
    (o : ℕ → Option ℕ) (ops : List Operation) (name : ℕ) (this rhs : Handle) (s s' : Store)
    → assign name this rhs s ≡ some s'
    → Owns o this
    → Owns o rhs
    → Left o ops s
    → Left o ops s'
unfolding assign
assign-Owned o ops name this rhs s s' e q r (a, come) =
    elim (Option-cases (incr_count rhs.count s)) [
      | inl crash ↦ absurd (ground arith)
      | inr (s1, done) ↦ elim (Option-cases (decr_count this s1)) [
        | inl crash ↦ absurd (ground arith)
        | inr (s2, done2) ↦
            let (hs, ds, f) = incr_count-same rhs.count s s1 done in
            let (hs2, f2, ds2) = decr_count-same this s1 s2 done2 in
            let out : record s2 { handles = replace_handle name rhs s2.handles } ≡ s' =
              ground arith in
            let live : LiveOwns o s2.handles =
              unfold LiveOwns in (subst (LiveOwns o) (sym (hs2 ∙ hs)) a.0) in
            subst (Left o ops) out (
              (unfold LiveOwns in
                  (
                    replace_handle-Owns o name rhs s2.handles r live,
                    deleted-Owns o this s1.deleted s2.deleted q (subst (All (Owns o)) (sym ds) a.1)
                        ds2,
                  )),
              subst (λ (n : ℕ). (c : ℕ) → n ≤ c → o c ≡ given ops n c) (sym (f2 ∙ f)) come,
            )
      ]
    ]

pub construct-Owned :
    (o : ℕ → Option ℕ) (ops : List Operation) (name : ℕ) (pinfo : Option ℕ) (s : Store)
    → Left o (constructed name pinfo ∷ ops) s
    → Left o ops (construct name pinfo s)
unfolding construct given
construct-Owned o ops name pinfo s (a, come) =
    (((ground (arith, come s.fresh), a.0), a.1), λ c far. ground (arith, come c))
