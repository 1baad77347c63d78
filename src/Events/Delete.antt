-- ===== src/Events/Delete.antt =====
-- event_delete (event-epoll.c): what it does to the map of events.
use yamux.Common.{
  ℕ, ◌-◌, ◌^◌, ◌%◌, bit_and, ◌≡◌, ◌⊎◌, refl, sym, subst, ◌∙◌, ap, Bool, true, false, not, Option,
  none, some, arith, inl, inr, ◌==◌, if◌then◌else◌, Option-cases, Bool-cases,
}
use yamux.Tree.{Tree}
use yamux.State.Rules.{Returns, Returns-bind, Returns-map}
use yamux.Events.{
  Act, pure, ◌>>◌, write_event, Epoll, ctl_del, ctl_mod, Event, Loop, event_none, find_event,
  cleared, delete_from, event_delete,
}
use yamux.Events.Table.{IsTable, entry, Sets, stored, stored-IsTable, stored-Sets, find_event_lem}
use yamux.Events.Insert.{IsTable-world, Asks, waits_for, mask_of_lem}

-- The flags of the first number that are not among those of the second, in 32 bits.
abbrev pub remaining : ℕ → ℕ → ℕ
remaining old flags = bit_and old (2 ^ 32 - 1 - flags % 2 ^ 32)

-- The event without the flags.
abbrev pub without : ℕ → Event → Event
without flags event = record event { flags = remaining event.flags flags }

module _ {V T : Type 0} ⦃tr : Tree T⦄ where
  -- After RB_REMOVE and event_free.
  abbrev removed : ℕ → ℕ → Loop V T → Loop V T
  removed fd p s = record s {
    events = tr.remove fd p s.events;
    heap = λ q. if q == p then none else s.heap q;
  }

  removed-IsTable :
      (fd p : ℕ) (s : Loop V T)
      → IsTable s
      → tr.find fd s.events ≡ some p
      → IsTable (removed fd p s)
  removed-IsTable fd p s v aim =
      let look = λ (j : ℕ). tr.find-remove j fd p s.events aim in
      record {
        found = λ j q h. elim (Bool-cases (j == fd)) [
          | inl here ↦ absurd (ground (arith, look j, here, h))
          | inr other ↦
              let old : tr.find j s.events ≡ some q = ground (arith, look j, other, h) in
              let (x, at_q, own) = v.found j q old in
              let (z, at_p, own') = v.found fd p aim in
              let apart : (q == p) ≡ false = elim (Bool-cases (q == p)) [
                | inl one ↦ absurd (ground (arith, one, at_q, at_p, own, own', other))
                | inr two ↦ two
              ] in
              (x, ground (arith, apart, at_q), own)
        ];
        owned = λ q x h. elim (Bool-cases (q == p)) [
          | inl one ↦ absurd (ground (arith, one, h))
          | inr two ↦
              let at_q : s.heap q ≡ some x = ground (arith, two, h) in
              let old = v.owned q x at_q in
              let other : (x.fd == fd) ≡ false = elim (Bool-cases (x.fd == fd)) [
                | inl here ↦ absurd (ground (arith, here, old, aim, two))
                | inr apart ↦ apart
              ] in
              ground (arith, look x.fd, other, old)
        ];
        fresh = λ q le. ground (arith, v.fresh q le);
      }

  removed-Sets :
      (fd p : ℕ) (s : Loop V T)
      → IsTable s
      → tr.find fd s.events ≡ some p
      → Sets fd none s (removed fd p s)
  removed-Sets fd p s v aim j =
      let t = removed fd p s in
      let look = tr.find-remove j fd p s.events aim in
      elim (Bool-cases (j == fd)) [
        | inl here ↦
            let gone : tr.find j t.events ≡ none = ground (arith, look, here) in
            rw (entry, gone) (ground (arith, here))
        | inr other ↦ elim (Option-cases (tr.find j s.events)) [
          | inl n ↦
              let gone : tr.find j t.events ≡ none = ground (arith, look, other, n) in
              rw (entry, gone, n) (ground (arith, other))
          | inr (q, at_j) ↦
              let still : tr.find j t.events ≡ some q = ground (arith, look, other, at_j) in
              let (x, at_q, own) = v.found j q at_j in
              let (z, at_p, own') = v.found fd p aim in
              let apart : (q == p) ≡ false = elim (Bool-cases (q == p)) [
                | inl one ↦ absurd (ground (arith, one, at_q, at_p, own, own', other))
                | inr two ↦ two
              ] in
              rw (entry, still, at_j, apart) (ground (arith, other))
        ]
      ]

-- The entry that is left: none if the kernel agreed and no flag is left.
abbrev left_over : ℕ → Event → Bool → Option Event
left_over flags event true =
    if remaining event.flags flags == event_none then none else some (without flags event)
left_over flags event false = some (without flags event)

module _ {V T : Type 0} ⦃ep : Epoll V⦄ ⦃tr : Tree T⦄ where
  -- How the deletion of flags of an event ends: as the kernel answers, when it is asked to delete
  -- the descriptor if no flag is left and to change it otherwise.
  abbrev pub Deletes : ℕ → ℕ → Event → Loop V T → Bool → Loop V T → Type 0
  Deletes fd flags event s ok t =
      let rest = remaining event.flags flags in
      let op = if rest == event_none then ctl_del else ctl_mod in
      IsTable t
      × Sets fd (left_over flags event ok) s t
      × ((p : ℕ) × (tr.find fd s.events ≡ some p) × Asks op fd (waits_for ep rest) p s.world s ok t)

  -- What follows epoll_ctl.
  abbrev finish : ℕ → ℕ → ℕ → Bool → Act V T Bool
  finish key p flags done = if not done then pure false else do
    if flags == event_none
        then (do
          (λ s. some (tt, record s { events = tr.remove key p s.events }))
          write_event p none)
        else pure tt
    pure true

  finish_lem :
      (p fd flags : ℕ) (e : Event) (s u : Loop V T) (done : Bool)
      → IsTable u
      → tr.find fd u.events ≡ some p
      → Sets fd (some (without flags e)) s u
      → Returns
          (λ ok t.
            (ok ≡ done) × (t.world ≡ u.world) × IsTable t × Sets fd (left_over flags e ok) s t)
          (finish fd p (remaining e.flags flags) done u)
  finish_lem p fd flags e s u false v aim sets = (refl, refl, v, sets)
  finish_lem p fd flags e s u true v aim sets =
      elim (Bool-cases (remaining e.flags flags == event_none)) [
        | inr more ↦
            rw (more, Returns)
              (
                refl,
                refl,
                v,
                subst (λ o. Sets fd o s u)
                    (sym (ap (λ c. if c then none else some (without flags e)) more)) sets,
              )
        | inl last ↦
            rw (last, Returns)
              (
                refl,
                refl,
                removed-IsTable fd p u v aim,
                subst (λ o. Sets fd o s (removed fd p u))
                    (sym (ap (λ c. if c then none else some (without flags e)) last))
                    (λ j. removed-Sets fd p u v aim j ∙ ground (arith, sets j)),
              )
      ]

  delete_from_lem :
      (p fd flags : ℕ) (e : Event) (s : Loop V T)
      → IsTable s
      → tr.find fd s.events ≡ some p
      → s.heap p ≡ some e
      → e.fd ≡ fd
      → Returns (Deletes fd flags e s) (delete_from p fd flags s)
  unfolding delete_from cleared
  delete_from_lem p fd flags e s v aim live own =
      let e' = without flags e in
      let t = stored p e' s in
      let rest = remaining e.flags flags in
      let op = if rest == event_none then ctl_del else ctl_mod in
      let (done, w) = ep.epoll_ctl s.epfd op fd (waits_for ep rest) p s.world in
      let u : Loop V T = record t { world = w } in
      let ended =
        finish_lem p fd flags e s u done (IsTable-world t w (stored-IsTable p e e' s v live refl))
          aim (stored-Sets fd p e' s v aim) in
      rw (live, Returns, mask_of_lem ep rest)
        (subst (λ key. Returns (Deletes fd flags e s) (finish key p rest done u)) (sym own)
          (Returns-map _ (Deletes fd flags e s) (finish fd p rest done u) ended
            λ ok z h. (h.2, h.3, (p, aim, (h.0, h.1)))))

  -- In a table of events where the tree leads to events under their own descriptors, every event
  -- in memory is in it and no address is used twice: event_delete reads no bad pointer. For a
  -- descriptor without an event it returns -1 and nothing changes. Otherwise it clears the flags
  -- of the event and returns what epoll_ctl answers, called with EPOLL_CTL_DEL if no flag is left
  -- and else EPOLL_CTL_MOD, the mask of the flags left and the address of the event; the entry is
  -- gone if that succeeds and no flag is left, and otherwise is the event with the flags left;
  -- every other entry stays, and the table stays one.
  pub event_delete-Sets :
      (fd flags : ℕ) (s : Loop V T)
      → IsTable s
      → Returns
          (λ ok t.
            (ok ≡ false) × (entry s fd ≡ none) × (t ≡ s)
            ⊎ ((e : Event) × (entry s fd ≡ some e) × Deletes fd flags e s ok t))
          (event_delete fd flags s)
  unfolding event_delete
  event_delete-Sets fd flags s v =
      let R : Bool → Loop V T → Type 0 = λ ok t.
        (ok ≡ false) × (entry s fd ≡ none) × (t ≡ s)
        ⊎ ((e : Event) × (entry s fd ≡ some e) × Deletes fd flags e s ok t) in
      Returns-bind (λ r t. (r ≡ tr.find fd s.events) × (t ≡ s)) R (find_event fd s) _
        (find_event_lem fd s v)
        λ r t (e, same). elim (Option-cases (tr.find fd s.events)) [
          | inl n ↦ rw (e, same, n, Returns) (inl (refl, rw (entry, n) refl, refl))
          | inr (p, aim) ↦
              let (event, live, own) = v.found fd p aim in
              rw (e, same, aim)
                (Returns-map (Deletes fd flags event s) _ (delete_from p fd flags s)
                  (delete_from_lem p fd flags event s v aim live own)
                  λ ok u (whole, sets, (q, at_q, asks)).
                    inr (event, rw (entry, aim) live, (whole, sets, (q, sym aim ∙ at_q, asks))))
        ]
