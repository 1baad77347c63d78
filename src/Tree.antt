-- ===== src/Tree.antt =====
-- The red-black trees of tree.h, a vendored file: what the program calls of them, with their
-- documented behaviour. A tree holds pointers to structures; a lookup compares a key with the key
-- of the structure, so an insertion is given both.
use yamux.Common.{ℕ, ◌≡◌, ◌⊎◌, List, [], ◌∷◌, Option, none, some, ◌==◌, if◌then◌else◌}

-- An element of a list of pointers.
abbrev pub IsIn : ℕ → List ℕ → Type 0
IsIn p [] = ⊥
IsIn p (q ∷ rest) = (p ≡ q) ⊎ IsIn p rest

pub record Tree (T : Type 0) : Type 0 where
  -- RB_INIT
  pub init : T
  -- RB_FIND by the key, where `none` is NULL
  pub find : ℕ → T → Option ℕ
  -- RB_INSERT of a key and a pointer: the pointer that was there under this key, or NULL
  pub insert : ℕ → ℕ → T → Option ℕ × T
  -- RB_REMOVE of a key and a pointer that is there under it
  pub remove : ℕ → ℕ → T → T
  -- The pointers in the order in which RB_FOREACH_SAFE visits them.
  pub elements : T → List ℕ
  pub find-init : (k : ℕ) → find k init ≡ none
  -- A key that is there is left alone, and its pointer returned.
  pub insert_old : (k p q : ℕ) (t : T) → find k t ≡ some q → insert k p t ≡ (some q, t)
  pub insert_new : (k p : ℕ) (t : T) → find k t ≡ none → (insert k p t).0 ≡ none
  pub find-insert :
      (j k p : ℕ) (t : T)
      → find k t ≡ none
      → find j (insert k p t).1 ≡ (if j == k then some p else find j t)
  pub find-remove :
      (j k p : ℕ) (t : T)
      → find k t ≡ some p
      → find j (remove k p t) ≡ (if j == k then none else find j t)
  -- Every pointer that is there is visited.
  pub elements-find : (k p : ℕ) (t : T) → find k t ≡ some p → IsIn p (elements t)
