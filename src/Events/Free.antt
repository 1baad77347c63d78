-- ===== src/Events/Free.antt =====
-- event_loop_free (event-epoll.c) leaves no event in memory.
use yamux.Common.{
  ℕ, ◌≡◌, ◌⊎◌, none, List, [], ◌∷◌, arith, inl, inr, ◌==◌, if◌then◌else◌, Option-cases, ℕ_discrete,
}
use yamux.Tree.{Tree, IsIn}
use yamux.State.Rules.{Returns, Returns-bind, Returns-map}
use yamux.Events.{Epoll, Loop, free_all, event_loop_free}
use yamux.Events.Table.{IsTable}

module _ {V T : Type 0} ⦃ep : Epoll V⦄ ⦃tr : Tree T⦄ where
  -- The pointers are freed, and what was free stays so.
  record Frees (ps : List ℕ) (s t : Loop V T) : Type 0 where
    gone : (p : ℕ) → IsIn p ps ⊎ (s.heap p ≡ none) → t.heap p ≡ none

  free_all-Frees : (ps : List ℕ) (s : Loop V T) → Returns (λ _ t. Frees ps s t) (free_all ps s)
  unfolding free_all
  free_all-Frees [] s = record { gone = λ p h. elim h [ inl i ↦ absurd i | inr e ↦ e ] }
  free_all-Frees (q ∷ rest) s =
      let u : Loop V T = record s { heap = λ r. if r == q then none else s.heap r } in
      Returns-map (λ _ t. Frees rest u t) (λ _ t. Frees (q ∷ rest) s t) (free_all rest u)
        (free_all-Frees rest u)
        λ _ t f. record {
          gone = λ p h. elim (ℕ_discrete p q) [
            | yes here ↦ f.gone p (inr (ground (arith, here)))
            | no other ↦ elim h [
              | inl (inl here) ↦ absurd (other here)
              | inl (inr later) ↦ f.gone p (inl later)
              | inr free ↦ f.gone p (inr (ground (arith, other, free)))
            ]
          ];
        }

  -- In a table of events where the tree leads to events under their own descriptors, every event
  -- in memory is in it and no address is used twice: event_loop_free returns and leaves no event
  -- in memory.
  pub event_loop_free_lem :
      (s : Loop V T) → IsTable s → Returns (λ _ t. (p : ℕ) → t.heap p ≡ none) (event_loop_free s)
  unfolding event_loop_free
  event_loop_free_lem s v =
      Returns-bind (λ _ t. Frees (tr.elements s.events) s t) (λ _ t. (p : ℕ) → t.heap p ≡ none)
        (free_all (tr.elements s.events) s) _ (free_all-Frees (tr.elements s.events) s)
        λ _ t f p. elim (Option-cases (s.heap p)) [
          | inl free ↦ f.gone p (inr free)
          | inr (e, live) ↦ f.gone p (inl (tr.elements-find e.fd p s.events (v.owned p e live)))
        ]
