-- ===== src/State/Rules.antt =====
-- Total correctness of the actions of mux.c: an action returns, so no assertion fails and no bad
-- pointer is read, and what it returns is as stated.
use yamux.Common.{Option, none, some}

-- The outcome is a value, of which `R` holds.
abbrev pub Returns : {A S : Type 0} → (A → S → Type 0) → Option (A × S) → Type 0
Returns R none = ⊥
Returns R (some (a, s)) = R a s

module _ {A B S S' : Type 0} where
  -- What follows a part that returns.
  pub Returns-bind :
      (R : A → S → Type 0) (R' : B → S' → Type 0) (o : Option (A × S)) (f : A → S → Option (B × S'))
      → Returns R o
      → ((a : A) (s : S) → R a s → Returns R' (f a s))
      → Returns R' (elim o [ none ↦ none | some (a, s) ↦ f a s ])
  Returns-bind R R' none f h k = h
  Returns-bind R R' (some (a, s)) f h k = k a s h

module _ {A S : Type 0} where
  pub Returns-map :
      (R R' : A → S → Type 0) (o : Option (A × S))
      → Returns R o
      → ((a : A) (s : S) → R a s → R' a s)
      → Returns R' o
  Returns-map R R' none h k = h
  Returns-map R R' (some (a, s)) h k = k a s h

  -- Two statements of one outcome.
  pub Returns-both :
      (R R' : A → S → Type 0) (o : Option (A × S))
      → Returns R o
      → Returns R' o
      → Returns (λ a s. R a s × R' a s) o
  Returns-both R R' none h k = h
  Returns-both R R' (some (a, s)) h k = (h, k)
