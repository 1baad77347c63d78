-- ===== src/Events/Add.antt =====
-- event_add (event-epoll.c): what it does to the map of events.
use yamux.Common.{ℕ, if◌then◌else◌, ◌==◌, bit_or, ◌≡◌, Bool, false, none, some}
use yamux.Tree.{Tree}
use yamux.Events.{Epoll, Loop, Op, ctl_add, ctl_mod, event_none}
use yamux.Events.Table.{IsTable, entry, Sets}
use yamux.Events.Insert.{or_blank, added, waits_for, Asks, Unchanged}

-- An event that waited for nothing is new to the kernel.
abbrev op_of : ℕ → Op
op_of old = if old == event_none then ctl_add else ctl_mod

module _ {V T : Type 0} ⦃ep : Epoll V⦄ ⦃tr : Tree T⦄ where
  -- The world outside after a new event, if one was needed, was allocated.
  abbrev searched : ℕ → Loop V T → V
  searched fd s = elim (entry s fd) [ none ↦ (ep.malloc s.world).1 | some _ ↦ s.world ]

  -- There was no event and no memory for one.
  abbrev pub Refused : ℕ → Loop V T → Loop V T → Type 0
  Refused fd s t = (entry s fd ≡ none) × ((ep.malloc s.world).0 ≡ false) × Unchanged s t

  -- The entry has the flags and the callbacks added, and the answer is that of the kernel, when it
  -- is asked to add the descriptor, or to change it if the event waited for something already.
  abbrev pub Adds : ℕ → ℕ → ℕ → ℕ → Loop V T → Bool → Loop V T → Type 0
  Adds fd flags fn arg s ok t =
      let old = (or_blank fd (entry s fd)).flags in
      IsTable t
      × Sets fd (some (added fd flags fn arg (entry s fd))) s t
      × ((p : ℕ) × (tr.find fd t.events ≡ some p)
          × Asks (op_of old) fd (waits_for ep (bit_or old flags)) p (searched fd s) s ok t)
