-- ===== src/Handles/Freed.antt =====
-- What every use of handles keeps: a count is the number of handles that share it, and what no handle holds any
-- more was deleted once.
use v6chat.Base.{
  ℕ, ◌+◌, ◌-◌, ◌%◌, ◌≤◌, ◌<◌, ◌≡◌, refl, sym, ap, ◌∙◌, ◌&&◌, Option, none, some, List, [], ◌∷◌,
  arith, ltb, ◌==◌, ==_iff, if◌then◌else◌, length, Bool-cases, Option-cases, inl, inr,
}
use v6chat.Handles.Counting.{
  Handle, Store, find_handle, replace_handle, remove_handle, set_count, incr_count, decr_count,
  construct, copy, assign, destroy, Operation, constructed, copied, assigned, destroyed, after, run,
  no_handles,
}
use v6chat.Numbers.{u32_mod}

abbrev pub hit : ℕ → ℕ → ℕ
hit c d = if d == c then 1 else 0

-- The handles that share a count, and how often it was freed.
unfoldable pub uses : ℕ → List (ℕ × Handle) → ℕ
uses c [] = 0
uses c ((k, h) ∷ hs) = hit c h.count + uses c hs

unfoldable pub times_deleted : ℕ → List Handle → ℕ
times_deleted c [] = 0
times_deleted c (h ∷ hs) = hit c h.count + times_deleted c hs

uses-length : (c : ℕ) (hs : List (ℕ × Handle)) → uses c hs ≤ length hs
unfolding uses
uses-length c [] = omega arith
uses-length c ((k, h) ∷ hs) = ground (arith, uses-length c hs)

uses-remove_handle :
    (name c : ℕ) (h : Handle) (hs : List (ℕ × Handle))
    → find_handle name hs ≡ some h
    → uses c hs ≡ uses c (remove_handle name hs) + hit c h.count
unfolding uses find_handle remove_handle
uses-remove_handle name c h [] e = absurd (cc)
uses-remove_handle name c h ((k, g) ∷ hs) e = elim (Bool-cases (k == name)) [
  | inl here ↦ ground arith
  | inr other ↦ ground (arith, uses-remove_handle name c h hs (ground arith))
]

uses-replace_handle :
    (name c : ℕ) (h r : Handle) (hs : List (ℕ × Handle))
    → find_handle name hs ≡ some h
    → uses c (replace_handle name r hs) + hit c h.count ≡ uses c hs + hit c r.count
unfolding uses find_handle replace_handle
uses-replace_handle name c h r [] e = absurd (cc)
uses-replace_handle name c h r ((k, g) ∷ hs) e = elim (Bool-cases (k == name)) [
  | inl here ↦ ground arith
  | inr other ↦ ground (arith, uses-replace_handle name c h r hs (ground arith))
]

uses-find_handle :
    (name : ℕ) (h : Handle) (hs : List (ℕ × Handle))
    → find_handle name hs ≡ some h
    → 0 < uses h.count hs
uses-find_handle name h hs e = ground (arith, uses-remove_handle name h.count h hs e)

-- Each count holds `u` of its number; 0 is a count that is not allocated.
pub record Counted (u : ℕ → ℕ) (s : Store) : Type 0 where
  pub holds : (c : ℕ) → s.counts c ≡ (if u c == 0 then none else some (u c))
  pub freed : (c : ℕ) → times_deleted c s.deleted ≡ (if (u c == 0) && ltb c s.fresh then 1 else 0)
  pub unused : (c : ℕ) → s.fresh ≤ c → u c ≡ 0

one_more : (n : ℕ) → n + 1 < u32_mod → (n + 1) % u32_mod ≡ n + 1
one_more n h = omega arith

one_less : (n : ℕ) → 0 < n → n < u32_mod → (n + (u32_mod - 1)) % u32_mod ≡ n - 1
one_less n p h = omega arith

incr_count-Counted :
    (u v : ℕ → ℕ) (s : Store) (c : ℕ)
    → Counted u s
    → 0 < u c
    → u c + 1 < u32_mod
    → ((d : ℕ) → v d ≡ u d + hit d c)
    → (s' : Store) × (incr_count c s ≡ some s') × Counted v s' × (s'.handles ≡ s.handles)
unfolding incr_count set_count
incr_count-Counted u v s c k p small more =
    let there : s.counts c ≡ some (u c) = ground (arith, k.holds c) in
    (
      record s { counts = set_count c (some ((u c + 1) % u32_mod)) s.counts },
      rw there refl,
      record {
        holds = λ d. ground (arith, k.holds d, more d, one_more (u c) small, ==_iff d c);
        freed = λ d. ground (arith, k.freed d, more d, ==_iff c d);
        unused = λ d h. ground (arith, k.unused d h, more d, ==_iff c d);
      },
      refl,
    )

decr_count-Counted :
    (u v : ℕ → ℕ) (s : Store) (h : Handle)
    → Counted u s
    → 0 < u h.count
    → u h.count < u32_mod
    → ((d : ℕ) → v d + hit d h.count ≡ u d)
    → (s' : Store) × (decr_count h s ≡ some s') × Counted v s' × (s'.handles ≡ s.handles)
unfolding decr_count set_count times_deleted
decr_count-Counted u v s h k p small less =
    let there : s.counts h.count ≡ some (u h.count) = ground (arith, k.holds h.count) in
    let left : (u h.count + (u32_mod - 1)) % u32_mod ≡ u h.count - 1 =
      one_less (u h.count) p small in
    elim (Bool-cases (u h.count - 1 == 0)) [
      | inl last ↦ (
        record s { counts = set_count h.count none s.counts; deleted = h ∷ s.deleted },
        rw (there, left, last) refl,
        record {
          holds = λ d. ground (arith, k.holds d, less d, ==_iff d h.count);
          freed = λ d. ground (arith, k.freed d, less d, k.unused d, ==_iff h.count d);
          unused = λ d far. ground (arith, k.unused d far, less d);
        },
        refl,
      )
      | inr others ↦ (
        record s { counts = set_count h.count (some (u h.count - 1)) s.counts },
        rw (there, left, others) refl,
        record {
          holds = λ d. ground (arith, k.holds d, less d, ==_iff d h.count);
          freed = λ d. ground (arith, k.freed d, less d, ==_iff h.count d);
          unused = λ d far. ground (arith, k.unused d far, less d);
        },
        refl,
      )
    ]

-- The counts are those of the handles that live.
abbrev pub IsCounted : Store → Type 0
IsCounted s = Counted (λ c. uses c s.handles) s

Counted-handles :
    (u : ℕ → ℕ) (s : Store) (hs : List (ℕ × Handle))
    → Counted u s
    → ((c : ℕ) → uses c hs ≡ u c)
    → IsCounted (record s { handles = hs })
Counted-handles u s hs k same = record {
  holds = λ c. ground (arith, k.holds c, same c);
  freed = λ c. ground (arith, k.freed c, same c);
  unused = λ c far. ground (arith, k.unused c far, same c);
}

uses_below : (s : Store) (c : ℕ) → length s.handles + 1 < u32_mod → uses c s.handles + 1 < u32_mod
uses_below s c small = omega (arith, uses-length c s.handles)

-- An operation returns, keeps the counts, and adds one handle at most.
abbrev Keeps : Option Store → Store → Type 0
Keeps result s =
    (s' : Store) × (result ≡ some s') × IsCounted s' × (length s'.handles ≤ length s.handles + 1)

construct-IsCounted :
    (name : ℕ) (pinfo : Option ℕ) (s : Store)
    → IsCounted s
    → Keeps (some (construct name pinfo s)) s
unfolding construct set_count uses
construct-IsCounted name pinfo s k = (
  construct name pinfo s,
  refl,
  record {
    holds = λ d.
        ground
          (arith, k.holds d, k.unused s.fresh (omega arith), ==_iff d s.fresh, ==_iff s.fresh d);
    freed = λ d. ground (arith, k.freed d, k.unused d, ==_iff s.fresh d);
    unused = λ d far. ground (arith, k.unused d, ==_iff s.fresh d);
  },
  omega arith,
)

copy-IsCounted :
    (name from : ℕ) (i : Handle) (s : Store)
    → IsCounted s
    → length s.handles + 1 < u32_mod
    → find_handle from s.handles ≡ some i
    → Keeps (copy name i s) s
unfolding copy uses
copy-IsCounted name from i s k small e =
    let hs : List (ℕ × Handle) = (name, i) ∷ s.handles in
    let (s', done, k', same) =
      incr_count-Counted (λ c. uses c s.handles) (λ c. uses c hs) s i.count k
        (uses-find_handle from i s.handles e) (uses_below s i.count small) (λ d. omega arith) in
    (
      record s' { handles = (name, i) ∷ s'.handles },
      rw done refl,
      Counted-handles (λ c. uses c hs) s' ((name, i) ∷ s'.handles) k'
          (λ c. ap (λ (t : List (ℕ × Handle)). uses c ((name, i) ∷ t)) same),
      ground (arith, ap length same),
    )

length-remove_handle :
    (name : ℕ) (hs : List (ℕ × Handle)) → length (remove_handle name hs) ≤ length hs
unfolding remove_handle
length-remove_handle name [] = omega arith
length-remove_handle name ((k, h) ∷ hs) = ground (arith, length-remove_handle name hs)

length-replace_handle :
    (name : ℕ) (r : Handle) (hs : List (ℕ × Handle)) → length (replace_handle name r hs) ≡ length hs
unfolding replace_handle
length-replace_handle name r [] = refl
length-replace_handle name r ((k, h) ∷ hs) = ground (arith, length-replace_handle name r hs)

destroy-IsCounted :
    (name : ℕ) (h : Handle) (s : Store)
    → IsCounted s
    → length s.handles + 1 < u32_mod
    → find_handle name s.handles ≡ some h
    → Keeps (destroy name h s) s
unfolding destroy
destroy-IsCounted name h s k small e =
    let hs : List (ℕ × Handle) = remove_handle name s.handles in
    let (s', done, k', same) =
      decr_count-Counted (λ c. uses c s.handles) (λ c. uses c hs) s h k
        (uses-find_handle name h s.handles e) (omega (arith, uses_below s h.count small))
        (λ d. sym (uses-remove_handle name d h s.handles e)) in
    (
      record s' { handles = remove_handle name s'.handles },
      rw done refl,
      Counted-handles (λ c. uses c hs) s' (remove_handle name s'.handles) k'
          (λ c. ap (λ (t : List (ℕ × Handle)). uses c (remove_handle name t)) same),
      omega (arith, length-remove_handle name s'.handles, ap length same),
    )

assign-IsCounted :
    (name from : ℕ) (this rhs : Handle) (s : Store)
    → IsCounted s
    → length s.handles + 1 < u32_mod
    → find_handle from s.handles ≡ some rhs
    → find_handle name s.handles ≡ some this
    → Keeps (assign name this rhs s) s
unfolding assign
assign-IsCounted name from this rhs s k small e e' =
    let hs : List (ℕ × Handle) = replace_handle name rhs s.handles in
    let u : ℕ → ℕ = λ c. uses c s.handles + hit c rhs.count in
    let (s1, done1, k1, same1) =
      incr_count-Counted (λ c. uses c s.handles) u s rhs.count k
        (uses-find_handle from rhs s.handles e) (uses_below s rhs.count small) (λ d. refl) in
    let (s2, done2, k2, same2) =
      decr_count-Counted u (λ c. uses c hs) s1 this k1
        (ground (arith, uses-find_handle name this s.handles e'))
        (ground (arith, uses_below s this.count small))
        (λ d. uses-replace_handle name d this rhs s.handles e') in
    (
      record s2 { handles = replace_handle name rhs s2.handles },
      rw (done1, done2) refl,
      Counted-handles (λ c. uses c hs) s2 (replace_handle name rhs s2.handles) k2
          (λ c. ap (λ (t : List (ℕ × Handle)). uses c (replace_handle name rhs t)) (same2 ∙ same1)),
      omega (arith, length-replace_handle name rhs s2.handles, ap length (same2 ∙ same1)),
    )

stays : (s : Store) → IsCounted s → Keeps (some s) s
stays s k = (s, refl, k, omega arith)

pub after-IsCounted :
    (op : Operation) (s : Store)
    → IsCounted s
    → length s.handles + 1 < u32_mod
    → Keeps (after op s) s
unfolding after
after-IsCounted (constructed name pinfo) s k small = construct-IsCounted name pinfo s k
after-IsCounted (copied name from) s k small = elim (Option-cases (find_handle from s.handles)) [
  | inl missing ↦ rw (after, missing) (stays s k)
  | inr (i, e) ↦ rw (after, e) (copy-IsCounted name from i s k small e)
]
after-IsCounted (assigned name from) s k small = elim (Option-cases (find_handle from s.handles)) [
  | inl missing ↦ rw (after, missing) (stays s k)
  | inr (rhs, e) ↦ elim (Option-cases (find_handle name s.handles)) [
    | inl missing ↦ rw (after, e, missing) (stays s k)
    | inr (this, e') ↦ rw (after, e, e') (assign-IsCounted name from this rhs s k small e e')
  ]
]
after-IsCounted (destroyed name) s k small = elim (Option-cases (find_handle name s.handles)) [
  | inl missing ↦ rw (after, missing) (stays s k)
  | inr (h, e) ↦ rw (after, e) (destroy-IsCounted name h s k small e)
]

pub run-IsCounted :
    (ops : List Operation) (s : Store)
    → IsCounted s
    → length s.handles + length ops < u32_mod
    → (s' : Store) × (run ops s ≡ some s') × IsCounted s'
unfolding run
run-IsCounted [] s k small = (s, refl, k)
run-IsCounted (op ∷ ops) s k small =
    let (s1, done, k1, grown) = after-IsCounted op s k (omega arith) in
    let (s', rest, k') = run-IsCounted ops s1 k1 (omega arith) in (s', rw done rest, k')

pub no_handles-IsCounted : IsCounted no_handles
unfolding no_handles uses times_deleted
no_handles-IsCounted = record {
  holds = λ c. refl;
  freed = λ c. ground arith;
  unused = λ c far. refl;
}
