-- ===== src/Peer/Keeping.antt =====
-- What procedures keep, from what their parts keep.
use v6chat.Base.{ℕ, Bool, true, false, Option, none, some, List}
use v6chat.Peer.Callbacks.{for_user}
use v6chat.Peer.Kernel
use v6chat.Peer.Kernel.{
  Kernel, Effect, Proc, skip, fails, says, continue, ◌⨾◌, when, reads, needs, either, given,
}
use v6chat.Text.{Text}

-- `P` holds of the lists that are left, if the procedure returned.
abbrev pub Holds : (Kernel → Type 0) → Option (Kernel × List Effect) → Type 0
Holds P none = Unit {0}
Holds P (some (k, effects)) = P k

pub record Keeps (P : Kernel → Type 0) (p : Proc) : Type 0 where
  pub at : (k : Kernel) → P k → Holds P (p k)

after-Holds :
    (P : Kernel → Type 0) (effects : List Effect) (o : Option (Kernel × List Effect))
    → Holds P o
    → Holds P (Kernel.after effects o)
unfolding Kernel.after
after-Holds P effects none h = tt
after-Holds P effects (some (k, more)) h = h

continue-leads :
    (P Q : Kernel → Type 0) (q : Proc) (o : Option (Kernel × List Effect))
    → Holds P o
    → ((k : Kernel) → P k → Holds Q (q k))
    → Holds Q (continue q o)
unfolding continue
continue-leads P Q q none h f = tt
continue-leads P Q q (some (k, effects)) h f = after-Holds Q effects (q k) (f k h)

-- What the first procedure leaves, the second begins with.
pub seq-leads :
    (P Q : Kernel → Type 0) (p q : Proc) (k : Kernel)
    → Holds P (p k)
    → ((k' : Kernel) → P k' → Holds Q (q k'))
    → Holds Q ((p ⨾ q) k)
unfolding ◌⨾◌
seq-leads P Q p q k h f = continue-leads P Q q (p k) h f

module _ {P : Kernel → Type 0} where
  pub seq-Keeps : (p q : Proc) → Keeps P p → Keeps P q → Keeps P (p ⨾ q)
  seq-Keeps p q hp hq = record { at = λ k g. seq-leads P P p q k (hp.at k g) hq.at }

  pub skip-Keeps : Keeps P skip
  unfolding skip
  skip-Keeps = record { at = λ k g. g }

  pub says-Keeps : (effects : List Effect) → Keeps P (says effects)
  unfolding says
  says-Keeps effects = record { at = λ k g. g }

  pub when-Keeps : (b : Bool) (p : Proc) → Keeps P p → Keeps P (when b p)
  unfolding when skip
  when-Keeps true p h = record { at = h.at }
  when-Keeps false p h = record { at = λ k g. g }

  pub reads-Keeps : (f : Kernel → Proc) → ((k : Kernel) → Keeps P (f k)) → Keeps P (reads f)
  unfolding reads
  reads-Keeps f h = record { at = λ k g. (h k).at k g }

  pub needs-Keeps {ℓ} :
      {A : Type ℓ} (o : Option A) (f : A → Proc) → ((a : A) → Keeps P (f a)) → Keeps P (needs o f)
  unfolding needs fails
  needs-Keeps none f h = record { at = λ k g. tt }
  needs-Keeps (some a) f h = record { at = (h a).at }

  pub either-Keeps : (b : Bool) (p q : Proc) → Keeps P p → Keeps P q → Keeps P (either b p q)
  unfolding either
  either-Keeps true p q hp hq = record { at = hp.at }
  either-Keeps false p q hp hq = record { at = hq.at }

  pub given-Keeps {ℓ} :
      {A : Type ℓ} (o : Option A) (p : Proc) (f : A → Proc)
      → Keeps P p
      → ((a : A) → Keeps P (f a))
      → Keeps P (given o p f)
  unfolding given
  given-Keeps none p f hp h = record { at = hp.at }
  given-Keeps (some a) p f hp h = record { at = (h a).at }

  pub for_user-Keeps :
      (ip : Text) (f : ℕ → Proc) → ((uid : ℕ) → Keeps P (f uid)) → Keeps P (for_user ip f)
  unfolding for_user
  for_user-Keeps ip f h = reads-Keeps _ (λ k. when-Keeps _ _ (h _))

-- The rules by which `search` proves what a procedure keeps from its text.
pub ruleset keeps_rules = (
  seq-Keeps, skip-Keeps, says-Keeps, when-Keeps, reads-Keeps, needs-Keeps, either-Keeps,
  given-Keeps, for_user-Keeps,
)
