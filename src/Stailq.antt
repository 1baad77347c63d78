-- ===== src/Stailq.antt =====
-- The tail queues of queue.h, a vendored file: what bio.c calls of them, with their documented
-- behaviour. `elements` is the order in which STAILQ_FOREACH visits a queue.
use yamux.Common.{◌≡◌, refl, Option, List, [], ◌∷◌, ◌++◌, head?, tail}

pub record Stailq (A Q : Type 0) : Type 0 where
  -- STAILQ_INIT
  pub init : Q
  -- STAILQ_FIRST, where `none` is NULL; STAILQ_EMPTY tests it for NULL
  pub first : Q → Option A
  -- STAILQ_INSERT_TAIL
  pub insert_tail : A → Q → Q
  -- STAILQ_REMOVE_HEAD
  pub remove_head : Q → Q
  -- STAILQ_FOREACH
  pub elements : Q → List A
  pub elements-init : elements init ≡ []
  pub first_lem : (q : Q) → first q ≡ head? (elements q)
  pub elements-insert_tail : (a : A) (q : Q) → elements (insert_tail a q) ≡ elements q ++ a ∷ []
  pub elements-remove_head : (q : Q) → elements (remove_head q) ≡ tail (elements q)

-- Plain lists are such queues.
abbrev pub list_stailq : {A : Type 0} → Stailq A (List A)
list_stailq = record {
  init = [];
  first = head?;
  insert_tail = λ a q. q ++ a ∷ [];
  remove_head = tail;
  elements = λ q. q;
  elements-init = refl;
  first_lem = λ q. refl;
  elements-insert_tail = λ a q. refl;
  elements-remove_head = λ q. refl;
}
