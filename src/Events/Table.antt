-- ===== src/Events/Table.antt =====
-- The events of event-epoll.c as a map from descriptors.
use yamux.Common.{
  ℕ, ◌≤◌, ◌≡◌, refl, sym, ◌∙◌, ap, true, false, Option, none, some, arith, inl, inr, ◌==◌,
  if◌then◌else◌, Option-cases, Bool-cases, ℕ_discrete,
}
use yamux.Tree.{Tree}
use yamux.State.Rules.{Returns}
use yamux.Events.{Event, Loop, find_event}

module _ {V T : Type 0} ⦃tr : Tree T⦄ where
  -- The tree leads to events under their own descriptors, every event in memory is in it, and no
  -- address is used twice.
  pub record IsTable (s : Loop V T) : Type 0 where
    pub found :
        (fd p : ℕ) → tr.find fd s.events ≡ some p → (e : Event) × (s.heap p ≡ some e) × (e.fd ≡ fd)
    pub owned : (p : ℕ) (e : Event) → s.heap p ≡ some e → tr.find e.fd s.events ≡ some p
    pub fresh : (p : ℕ) → s.next_address ≤ p → s.heap p ≡ none

  -- The event of a descriptor.
  abbrev pub entry : Loop V T → ℕ → Option Event
  entry s fd = elim (tr.find fd s.events) [ none ↦ none | some p ↦ s.heap p ]

  -- The table as another one, but for one descriptor.
  abbrev pub Sets : ℕ → Option Event → Loop V T → Loop V T → Type 0
  Sets fd event s t = (j : ℕ) → entry t j ≡ (if j == fd then event else entry s j)

  pub find_event_lem :
      (fd : ℕ) (s : Loop V T)
      → IsTable s
      → Returns (λ r t. (r ≡ tr.find fd s.events) × (t ≡ s)) (find_event fd s)
  unfolding find_event
  find_event_lem fd s v = elim (Option-cases (tr.find fd s.events)) [
    | inl e ↦ rw (e, Returns) (sym e, refl)
    | inr (p, e) ↦
        let (event, live, same) = v.found fd p e in
        let own : (event.fd == fd) ≡ true = ground (arith, same) in
        rw (e, Returns, live, own) (sym e, refl)
  ]

  -- An event is changed, and keeps its descriptor.
  abbrev pub stored : ℕ → Event → Loop V T → Loop V T
  stored p event s = record s { heap = λ q. if q == p then some event else s.heap q }

  pub stored-IsTable :
      (p : ℕ) (e event : Event) (s : Loop V T)
      → IsTable s
      → s.heap p ≡ some e
      → event.fd ≡ e.fd
      → IsTable (stored p event s)
  stored-IsTable p e event s v live same = record {
    found = λ fd q h. elim (ℕ_discrete q p) [
      | yes here ↦
          let (x, at_q, own) = v.found fd q h in
          (event, ground (arith, here), ground (arith, here, at_q, own, live, same))
      | no other ↦ let (x, at_q, own) = v.found fd q h in (x, ground (arith, other, at_q), own)
    ];
    owned = λ q x h. elim (ℕ_discrete q p) [
      | yes here ↦
          let one : event ≡ x = ground (arith, here, h) in
          ap (λ k. tr.find k s.events) (sym (ap (λ (z : Event). z.fd) one) ∙ same)
          ∙ v.owned p e live
          ∙ ap some (sym here)
      | no other ↦ v.owned q x (ground (arith, other, h))
    ];
    fresh = λ q le. elim (ℕ_discrete q p) [
      | yes here ↦ absurd (ground (arith, v.fresh q le, here, live))
      | no other ↦ ground (arith, other, v.fresh q le)
    ];
  }

  pub stored-Sets :
      (fd p : ℕ) (event : Event) (s : Loop V T)
      → IsTable s
      → tr.find fd s.events ≡ some p
      → Sets fd (some event) s (stored p event s)
  stored-Sets fd p event s v aim j = elim (ℕ_discrete j fd) [
    | yes here ↦
        let t = stored p event s in
        let at_p : t.heap p ≡ some event = ground arith in
        let self : (j == fd) ≡ true = ground (arith, here) in
        ap (λ k. entry t k) here
        ∙ ap (λ o. elim o as (λ (_ : Option ℕ). Option Event) [ none ↦ none | some q ↦ t.heap q ])
            aim
        ∙ at_p
        ∙ sym (ap (λ c. if c then some event else entry s j) self)
    | no other ↦ elim (Option-cases (tr.find j s.events)) [
      | inl n ↦ rw (entry, n) (ground (arith, other))
      | inr (q, at_j) ↦
          let (x, at_q, own) = v.found j q at_j in
          let (z, at_p, own') = v.found fd p aim in
          let apart : (q == p) ≡ false = elim (Bool-cases (q == p)) [
            | inl one ↦ absurd (other (sym own ∙ ground (arith, one, at_q, at_p, own')))
            | inr two ↦ two
          ] in
          rw (entry, at_j, apart) (ground (arith, other))
    ]
  ]
