-- ===== src/Tests/EventRuns.antt =====
-- The event loop of event-epoll.c on a concrete table.
use yamux.Common.{ℕ, ◌≡◌, ◌⊎◌, true, false, none, some, [], ◌∷◌, arith, subst, ◌==◌, if◌then◌else◌}
use yamux.State.Rules.{Returns}
use yamux.Events.{Epoll, Event, Loop, event_delete, event_loop_free}
use yamux.Events.Free.{event_loop_free_lem}
use yamux.Events.Table.{IsTable, entry}
use yamux.Events.Delete.{Deletes, event_delete-Sets}
use yamux.Tests.Platform.{test_tree, Entries, budget}

-- The state outside is the number of allocations that still succeed.
instance abbrev test_epoll : Epoll ℕ
test_epoll = record {
  malloc = λ w. budget w;
  epoll_create = λ w. (some 9, w);
  epoll_ctl = λ epfd op fd mask p w. (true, w);
  epoll_wait = λ epfd w. (some [], w);
  close = λ fd w. w;
  epollin = 1;
  epollout = 4;
}

-- An event of the descriptor 5, for reading.
abbrev reading : Event
reading = record {
  fd = 5;
  flags = 1;
  send_fn = none;
  recv_fn = some 100;
  send_data = 0;
  recv_data = 7;
}

abbrev table : Loop ℕ Entries
table = record {
  heap = λ q. if q == 2 then some reading else none;
  next_address = 3;
  events = (5, 2) ∷ [];
  epfd = 9;
  stop = false;
  world = 10;
}

table-IsTable : IsTable table
table-IsTable = record {
  found = λ fd p e. (reading, ground arith, ground arith);
  owned = λ p e h.
      let here : (p == 2) ≡ true = ground arith in
      let one : reading ≡ e = ground (arith, here) in
      subst (λ (x : Event). test_tree.find x.fd table.events ≡ some p) one (ground (arith, here));
  fresh = λ p le. ground arith;
}

event_delete_example :
    Returns
      (λ ok t.
        (ok ≡ false) × (entry table 5 ≡ none) × (t ≡ table)
        ⊎ ((e : Event) × (entry table 5 ≡ some e) × Deletes 5 1 e table ok t))
      (event_delete 5 1 table)
event_delete_example = event_delete-Sets 5 1 table table-IsTable

event_loop_free_example : Returns (λ _ t. (p : ℕ) → t.heap p ≡ none) (event_loop_free table)
event_loop_free_example = event_loop_free_lem table table-IsTable
