-- ===== src/Tests/Handled.antt =====
-- Handles: one is copied, assigned to itself, overwritten by another, and goes.
use v6chat.Base.{ℕ, ◌≡◌, ◌&&◌, none, some, List, [], ◌∷◌, arith, ltb, ◌==◌, if◌then◌else◌}
use v6chat.Handles.Counting.{
  Store, Operation, constructed, copied, assigned, destroyed, run, no_handles,
}
use v6chat.Handles.Freed.{uses, times_deleted}
use v6chat.Handles.Once.{run-freed}
use v6chat.Handles.Owned.{given, Owned}

abbrev uses_of_handles : List Operation
uses_of_handles =
    constructed 1 (some 100)
    ∷ copied 2 1
    ∷ assigned 2 2
    ∷ constructed 3 none
    ∷ assigned 1 3
    ∷ destroyed 2
    ∷ []

run-freed_example :
    (s : Store) × (run uses_of_handles no_handles ≡ some s)
    × ((c : ℕ) → s.counts c ≡ (if uses c s.handles == 0 then none else some (uses c s.handles)))
    × ((c : ℕ)
        → times_deleted c s.deleted ≡ (if (uses c s.handles == 0) && ltb c s.fresh then 1 else 0))
    × Owned (given uses_of_handles 0) s
run-freed_example = run-freed uses_of_handles (omega arith)
