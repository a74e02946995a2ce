-- ===== src/Handles/Once.antt =====
-- Any run of handles: every object is deleted once, when its last handle goes.
use mathlib.Core.Path.{subst}
use v6chat.Base.{
  ℕ, ◌<◌, ◌≡◌, refl, ◌&&◌, Option, none, some, List, [], ◌∷◌, arith, ltb, ◌==◌, if◌then◌else◌,
  length, Option-cases, inl, inr,
}
use v6chat.Handles.Counting.{
  Store, find_handle, construct, Operation, constructed, copied, assigned, destroyed, after, run,
  no_handles,
}
use v6chat.Handles.Freed.{uses, times_deleted, run-IsCounted, no_handles-IsCounted}
use v6chat.Numbers.{u32_mod}
use v6chat.Handles.Owned.{
  given, Owned, Left, find_handle-Owns, copy-Owned, destroy-Owned, assign-Owned, construct-Owned,
}

-- No variable of that name: nothing happens.
skipped :
    (o : ℕ → Option ℕ) (ops : List Operation) (s s' : Store)
    → some s ≡ some s'
    → Left o ops s
    → Left o ops s'
skipped o ops s s' e l = let same : s ≡ s' = cc in subst (Left o ops) same l

after-Owned :
    (o : ℕ → Option ℕ) (op : Operation) (ops : List Operation) (s s' : Store)
    → after op s ≡ some s'
    → Left o (op ∷ ops) s
    → Left o ops s'
unfolding after given
after-Owned o (constructed name pinfo) ops s s' e l =
    let same : construct name pinfo s ≡ s' = cc in
    subst (Left o ops) same (construct-Owned o ops name pinfo s l)
after-Owned o (copied name from) ops s s' e l = elim (Option-cases (find_handle from s.handles)) [
  | inl missing ↦ skipped o ops s s' (ground arith) l
  | inr (i, at) ↦
      copy-Owned o ops name i s s' (ground arith) (find_handle-Owns o from i s.handles (l.0).0 at) l
]
after-Owned o (assigned name from) ops s s' e l = elim (Option-cases (find_handle from s.handles)) [
  | inl missing ↦ skipped o ops s s' (ground arith) l
  | inr (rhs, at) ↦ elim (Option-cases (find_handle name s.handles)) [
    | inl missing ↦ skipped o ops s s' (ground arith) l
    | inr (this, at') ↦
        assign-Owned o ops name this rhs s s' (ground arith)
          (find_handle-Owns o name this s.handles (l.0).0 at')
          (find_handle-Owns o from rhs s.handles (l.0).0 at) l
  ]
]
after-Owned o (destroyed name) ops s s' e l = elim (Option-cases (find_handle name s.handles)) [
  | inl missing ↦ skipped o ops s s' (ground arith) l
  | inr (h, at) ↦
      destroy-Owned o ops name h s s' (ground arith)
        (find_handle-Owns o name h s.handles (l.0).0 at) l
]

run-Owned :
    (o : ℕ → Option ℕ) (ops : List Operation) (s s' : Store)
    → run ops s ≡ some s'
    → Left o ops s
    → Owned o s'
unfolding run
run-Owned o [] s s' e l = let same : s ≡ s' = cc in subst (Owned o) same l.0
run-Owned o (op ∷ ops) s s' e l = elim (Option-cases (after op s)) [
  | inl crash ↦ absurd (ground arith)
  | inr (s1, done) ↦ run-Owned o ops s1 s' (ground arith) (after-Owned o op ops s s1 done l)
]

-- Whatever fewer than 2 ^ 32 constructions, copies, assignments (of a handle to itself too) and ends of handles
-- a program runs, no count is touched before it is allocated or after it was freed; each count is the number of
-- the live handles that share it; it is freed, with its object, once where none is left, and not before;
-- and every handle, live or the one that deletes, holds the object that was handed to the constructor of its count.
pub run-freed :
    (ops : List Operation)
    → length ops < u32_mod
    → (s : Store) × (run ops no_handles ≡ some s)
      × ((c : ℕ) → s.counts c ≡ (if uses c s.handles == 0 then none else some (uses c s.handles)))
      × ((c : ℕ)
          → times_deleted c s.deleted ≡ (if (uses c s.handles == 0) && ltb c s.fresh then 1 else 0))
      × Owned (given ops 0) s
unfolding no_handles
run-freed ops small =
    let (s, done, k) = run-IsCounted ops no_handles no_handles-IsCounted (omega arith) in
    (
      s,
      done,
      k.holds,
      k.freed,
      run-Owned (given ops 0) ops no_handles s done ((tt, tt), λ c far. refl),
    )
