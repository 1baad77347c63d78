-- ===== src/Events/Insert.antt =====
-- A new event in the table of event-epoll.c.
use yamux.Common.{
  ℕ, ◌+◌, ◌≡◌, refl, sym, ◌∙◌, ap, Bool, false, Option, none, some, arith, inl, inr, ◌==◌,
  if◌then◌else◌, Option-cases, Bool-cases, ℕ_discrete, bit_or,
}
use yamux.Tree.{Tree}
use yamux.Events.{Epoll, Event, Loop, Op, event_none, event_in, event_out, with_callback, mask_of}
use yamux.Frame.{has_flag}
use yamux.Events.Table.{IsTable, entry, Sets}

-- The event of a descriptor that nothing waits for.
abbrev pub blank : ℕ → Event
blank fd = record {
  fd = fd;
  flags = event_none;
  send_fn = none;
  recv_fn = none;
  send_data = 0;
  recv_data = 0;
}

abbrev pub or_blank : ℕ → Option Event → Event
or_blank fd none = blank fd
or_blank fd (some event) = event

-- The event of a descriptor, blank if there is none, after flags are added to it.
abbrev pub added : ℕ → ℕ → ℕ → ℕ → Option Event → Event
added fd flags fn arg old =
    let event = or_blank fd old in
    record {
      fd = event.fd;
      flags = bit_or event.flags flags;
      send_fn = if has_flag flags event_out then some fn else event.send_fn;
      recv_fn = if has_flag flags event_in then some fn else event.recv_fn;
      send_data = if has_flag flags event_out then arg else event.send_data;
      recv_data = if has_flag flags event_in then arg else event.recv_data;
    }

pub with_callback_lem :
    (flags fn arg : ℕ) (event : Event) (more : ℕ)
    → record (with_callback flags fn arg event) { flags = more } ≡ record {
      fd = event.fd;
      flags = more;
      send_fn = if has_flag flags event_out then some fn else event.send_fn;
      recv_fn = if has_flag flags event_in then some fn else event.recv_fn;
      send_data = if has_flag flags event_out then arg else event.send_data;
      recv_data = if has_flag flags event_in then arg else event.recv_data;
    }
unfolding with_callback
with_callback_lem flags fn arg event more = elim (Bool-cases (has_flag flags event_in)) [
  | inl reads ↦ elim (Bool-cases (has_flag flags event_out)) [
    | inl writes ↦ rw (reads, writes) refl
    | inr silent ↦ rw (reads, silent) refl
  ]
  | inr none_read ↦ elim (Bool-cases (has_flag flags event_out)) [
    | inl writes ↦ rw (none_read, writes) refl
    | inr silent ↦ rw (none_read, silent) refl
  ]
]

-- The mask that the kernel is to wait for.
abbrev pub waits_for : {V : Type 0} → Epoll V → ℕ → ℕ
waits_for ep flags =
    if has_flag flags event_in
    then (if has_flag flags event_out then bit_or ep.epollin ep.epollout else ep.epollin)
    else (if has_flag flags event_out then bit_or 0 ep.epollout else 0)

pub mask_of_lem : {V : Type 0} (ep : Epoll V) (flags : ℕ) → mask_of ep flags ≡ waits_for ep flags
unfolding mask_of
mask_of_lem ep flags = ground arith

module _ {V T : Type 0} ⦃tr : Tree T⦄ where
  -- After event_new and RB_INSERT.
  abbrev inserted : ℕ → Loop V T → Loop V T
  inserted fd s = record s {
    heap = λ q. if q == s.next_address then some (blank fd) else s.heap q;
    next_address = s.next_address + 1;
    events = (tr.insert fd s.next_address s.events).1;
  }

  inserted-IsTable :
      (fd : ℕ) (s : Loop V T) → IsTable s → tr.find fd s.events ≡ none → IsTable (inserted fd s)
  inserted-IsTable fd s v free =
      let p = s.next_address in
      let look = λ (j : ℕ). tr.find-insert j fd p s.events free in
      record {
        found = λ j q h. elim (ℕ_discrete j fd) [
          | yes here ↦
              let there : q ≡ p = ground (arith, look j, here, h) in
              (blank fd, ground (arith, there), sym here)
          | no other ↦
              let old : tr.find j s.events ≡ some q = ground (arith, look j, other, h) in
              let (x, at_q, own) = v.found j q old in
              let apart : (q == p) ≡ false = elim (Bool-cases (q == p)) [
                | inl one ↦ absurd (ground (arith, v.fresh q (ground (arith, one)), at_q))
                | inr two ↦ two
              ] in
              (x, ground (arith, apart, at_q), own)
        ];
        owned = λ q x h. elim (Bool-cases (q == p)) [
          | inl one ↦
              let same : blank fd ≡ x = ground (arith, one, h) in
              ap (λ (z : Event). tr.find z.fd (inserted fd s).events) (sym same)
              ∙ ground (arith, look fd, one)
          | inr two ↦
              let at_q : s.heap q ≡ some x = ground (arith, two, h) in
              let old = v.owned q x at_q in
              let other : (x.fd == fd) ≡ false = elim (Bool-cases (x.fd == fd)) [
                | inl here ↦ absurd (ground (arith, here, old, free))
                | inr apart ↦ apart
              ] in
              ground (arith, look x.fd, other, old)
        ];
        fresh = λ q le. ground (arith, v.fresh q (omega (arith, le)), le);
      }

  inserted-Sets :
      (fd : ℕ) (s : Loop V T)
      → IsTable s
      → tr.find fd s.events ≡ none
      → Sets fd (some (blank fd)) s (inserted fd s)
  inserted-Sets fd s v free j =
      let p = s.next_address in
      let t = inserted fd s in
      let look = tr.find-insert j fd p s.events free in
      elim (ℕ_discrete j fd) [
        | yes here ↦
            let aim : tr.find j t.events ≡ some p = ground (arith, look, here) in
            rw (entry, aim) (ground (arith, here))
        | no other ↦ elim (Option-cases (tr.find j s.events)) [
          | inl n ↦
              let aim : tr.find j t.events ≡ none = ground (arith, look, other, n) in
              rw (entry, aim, n) (ground (arith, other))
          | inr (q, at_j) ↦
              let aim : tr.find j t.events ≡ some q = ground (arith, look, other, at_j) in
              let (x, at_q, own) = v.found j q at_j in
              let apart : (q == p) ≡ false = elim (Bool-cases (q == p)) [
                | inl one ↦ absurd (ground (arith, v.fresh q (ground (arith, one)), at_q))
                | inr two ↦ two
              ] in
              rw (entry, aim, at_j, apart) (ground (arith, other))
        ]
      ]

  -- The descriptor has an event, the one that it had or a blank one.
  pub record Has (fd p : ℕ) (s t : Loop V T) : Type 0 where
    pub table : IsTable t
    pub aim : tr.find fd t.events ≡ some p
    pub here : t.heap p ≡ some (or_blank fd (entry s fd))
    pub own : (or_blank fd (entry s fd)).fd ≡ fd
    pub sets : Sets fd (some (or_blank fd (entry s fd))) s t

  pub IsTable-world : (s : Loop V T) (v : V) → IsTable s → IsTable (record s { world = v })
  IsTable-world s v h = record { found = h.found; owned = h.owned; fresh = h.fresh }

  pub Has-found :
      (fd p : ℕ) (s : Loop V T) → IsTable s → tr.find fd s.events ≡ some p → Has fd p s s
  Has-found fd p s v aim =
      let (e, live, same) = v.found fd p aim in
      let at_fd : entry s fd ≡ some e = rw (entry, aim) live in
      record {
        table = v;
        aim = aim;
        here = rw (at_fd) live;
        own = rw (at_fd) same;
        sets = λ j. elim (ℕ_discrete j fd) [
          | yes here ↦ rw (here, at_fd) (ground arith)
          | no other ↦ ground (arith, other)
        ];
      }

  pub Has-inserted :
      (fd : ℕ) (s : Loop V T) (w : V)
      → IsTable s
      → tr.find fd s.events ≡ none
      → Has fd s.next_address s (inserted fd (record s { world = w }))
  Has-inserted fd s w v free =
      let u = record s { world = w } in
      let t = inserted fd u in
      let at_fd : entry s fd ≡ none = rw (entry, free) refl in
      let look = tr.find-insert fd fd s.next_address s.events free in
      record {
        table = inserted-IsTable fd u (IsTable-world s w v) free;
        aim = ground (arith, look);
        here = rw (at_fd) (ground arith);
        own = rw (at_fd) refl;
        sets = rw (at_fd) (inserted-Sets fd u (IsTable-world s w v) free);
      }

module _ {V T : Type 0} ⦃ep : Epoll V⦄ ⦃tr : Tree T⦄ where
  -- The answer is that of the kernel, when it is asked about the event at p.
  abbrev pub Asks : Op → ℕ → ℕ → ℕ → V → Loop V T → Bool → Loop V T → Type 0
  Asks op fd mask p v s ok t =
      let (answer, v') = ep.epoll_ctl s.epfd op fd mask p v in (ok ≡ answer) × (t.world ≡ v')

  -- Nothing has changed.
  abbrev pub Unchanged : Loop V T → Loop V T → Type 0
  Unchanged s t = IsTable t × ((j : ℕ) → entry t j ≡ entry s j)
