-- ===== src/Events.antt =====
-- The event loop: event-epoll.c and event.h, and its platform.
pub mod Table
pub mod Add
pub mod Insert
pub mod Delete
pub mod Free
use yamux.Common.{
  ℕ, zero, suc, ◌-◌, ◌%◌, ◌+◌, Bool, true, false, not, ◌==◌, Option, none, some, List, [], ◌∷◌,
  bit_and, bit_or, if◌then◌else◌,
}
use yamux.Tree.{Tree}
use yamux.Frame.{has_flag}

-- The operations of epoll_ctl.
pub data Op : Type 0 where
  ctl_add ctl_mod ctl_del : Op

-- What the loop calls outside the program. `V` is the state of everything outside it.
pub record Epoll (V : Type 0) : Type 0 where
  pub malloc : V → Bool × V
  -- The descriptor, or `none` for -1.
  pub epoll_create : V → Option ℕ × V
  -- On an epoll descriptor: the operation, the descriptor, the mask and the pointer of the event.
  -- Whether it succeeds.
  pub epoll_ctl : ℕ → Op → ℕ → ℕ → ℕ → V → Bool × V
  -- The pointer and the mask of each event that is ready, or `none` for -1.
  pub epoll_wait : ℕ → V → Option (List (ℕ × ℕ)) × V
  pub close : ℕ → V → V
  pub epollin : ℕ
  pub epollout : ℕ

-- struct event; a callback and its data are known by their addresses, `none` is NULL.
pub record Event : Type 0 where
  pub fd : ℕ
  pub flags : ℕ
  pub send_fn : Option ℕ
  pub recv_fn : Option ℕ
  pub send_data : ℕ
  pub recv_data : ℕ

-- struct event_loop, the heap of events, and the world.
pub record Loop (V T : Type 0) : Type 0 where
  pub heap : ℕ → Option Event
  pub next_address : ℕ
  pub events : T
  pub epfd : ℕ
  pub stop : Bool
  pub world : V

-- EVENT_NONE, EVENT_IN, EVENT_OUT
abbrev pub event_none : ℕ
event_none = 0

abbrev pub event_in : ℕ
event_in = 1

abbrev pub event_out : ℕ
event_out = 2

-- A call that changes the loop; `none` is a pointer that leads nowhere.
abbrev pub Act : Type 0 → Type 0 → Type 0 → Type 0
Act V T A = Loop V T → Option (A × Loop V T)

infixl 5 ◌>>=◌ ◌>>◌
abbrev pub ◌>>=◌ : {V T A B : Type 0} → Act V T A → (A → Act V T B) → Act V T B
(m >>= f) s = elim (m s) [ none ↦ none | some (a, s') ↦ f a s' ]

abbrev pub ◌>>◌ : {V T A B : Type 0} → Act V T A → Act V T B → Act V T B
(m >> k) s = elim (m s) [ none ↦ none | some (_, s') ↦ k s' ]

module _ {V T : Type 0} where
  abbrev pub pure : {A : Type 0} → A → Act V T A
  pure a s = some (a, s)

  abbrev pub call : {A : Type 0} → (V → A × V) → Act V T A
  call f s = let (a, v) = f s.world in some (a, record s { world = v })

  abbrev pub gets : {A : Type 0} → (Loop V T → A) → Act V T A
  gets f s = some (f s, s)

  abbrev pub load : ℕ → Act V T Event
  load p s = elim (s.heap p) [ none ↦ none | some event ↦ some (event, s) ]

  abbrev pub write_event : ℕ → Option Event → Act V T (Unit {0})
  write_event p event s = some (tt, record s { heap = λ q. if q == p then event else s.heap q })

  -- event_new, its `malloc` done: the structure at a new address
  pub event_new : ℕ → Act V T ℕ
  event_new fd s =
      let event : Event = record {
        fd = fd;
        flags = event_none;
        send_fn = none;
        recv_fn = none;
        send_data = 0;
        recv_data = 0;
      } in
      some (
        s.next_address,
        record s {
          heap = λ q. if q == s.next_address then some event else s.heap q;
          next_address = s.next_address + 1;
        },
      )

  pub event_stop : Act V T (Unit {0})
  event_stop s = some (tt, record s { stop = true })

module _ {V T : Type 0} ⦃tr : Tree T⦄ where
  pub find_event : ℕ → Act V T (Option ℕ)
  find_event fd = do
    events ← gets (λ s. s.events)
    elim (tr.find fd events) [
      | none ↦ pure none
      | some p ↦ do event ← load p; pure (if event.fd == fd then some p else none)
    ]

-- The callbacks that event_add sets.
pub with_callback : ℕ → ℕ → ℕ → Event → Event
with_callback flags fn arg event =
    let reads =
      if has_flag flags event_in
      then record event { recv_fn = some fn; recv_data = arg }
      else event in
    if has_flag flags event_out then record reads { send_fn = some fn; send_data = arg } else reads

-- `event->flags &= (~flags)`
pub cleared : ℕ → ℕ → ℕ
cleared old flags = bit_and old (0xffffffff - flags % 0x100000000)

-- The mask for what an event waits for.
pub mask_of : {V : Type 0} → Epoll V → ℕ → ℕ
mask_of ep flags =
    let reads = if has_flag flags event_in then ep.epollin else 0 in
    if has_flag flags event_out then bit_or reads ep.epollout else reads

module _ {V T : Type 0} ⦃ep : Epoll V⦄ ⦃tr : Tree T⦄ where
  -- A new loop, or `none` for NULL.
  pub event_loop_new : V → Option (Loop V T) × V
  event_loop_new v =
      let (memory, v1) = ep.malloc v in
      if not memory
      then (none, v1)
      else let (epfd, v2) = ep.epoll_create v1 in
        elim epfd [
          | none ↦ (none, v2)
          | some fd ↦ (
            some (record {
              heap = λ _. none;
              next_address = 0;
              events = tr.init;
              epfd = fd;
              stop = false;
              world = v2;
            }),
            v2,
          )
        ]

  -- `RB_FOREACH_SAFE(…) { free(event); }`
  pub free_all : List ℕ → Act V T (Unit {0})
  free_all [] = pure tt
  free_all (p ∷ rest) = do write_event p none; free_all rest

  -- What is left of the loop when it is freed.
  pub event_loop_free : Act V T (Unit {0})
  unfolding free_all
  event_loop_free = do
    events ← gets (λ s. s.events)
    free_all (tr.elements events)
    epfd ← gets (λ s. s.epfd)
    call (λ v. (tt, ep.close epfd v))

  -- The event of a descriptor, a new one if there is none; `none` is the failure of event_new.
  pub find_or_new : ℕ → Act V T (Option ℕ)
  unfolding find_event event_new
  find_or_new fd = do
    found ← find_event fd
    elim found [
      | some p ↦ pure (some p)
      | none ↦ do
        memory ← call ep.malloc
        if not memory then pure none else do
          p ← event_new fd
          λ s. some (some p, record s { events = (tr.insert fd p s.events).1 })
    ]

  -- From the lookup of event_add on; flags of 32 bits joined are of 32 bits, so no wrap is written.
  pub add_to : ℕ → ℕ → ℕ → ℕ → ℕ → Act V T Bool
  unfolding mask_of with_callback
  add_to p fd flags fn arg = do
    event ← load p
    let op = if event.flags == event_none then ctl_add else ctl_mod
    let flags' = bit_or event.flags flags
    write_event p (some (record (with_callback flags fn arg event) { flags = flags' }))
    epfd ← gets (λ s. s.epfd)
    call (ep.epoll_ctl epfd op fd (mask_of ep flags') p)

  -- Whether it succeeds: `false` is -1.
  pub event_add : ℕ → ℕ → ℕ → ℕ → Act V T Bool
  unfolding find_or_new add_to
  event_add fd flags fn arg = do
    found ← find_or_new fd
    elim found [ none ↦ pure false | some p ↦ add_to p fd flags fn arg ]

  -- From the lookup of event_delete on.
  pub delete_from : ℕ → ℕ → ℕ → Act V T Bool
  unfolding mask_of cleared
  delete_from p fd flags = do
    event ← load p
    let flags' = cleared event.flags flags
    write_event p (some (record event { flags = flags' }))
    let op = if flags' == event_none then ctl_del else ctl_mod
    epfd ← gets (λ s. s.epfd)
    done ← call (ep.epoll_ctl epfd op fd (mask_of ep flags') p)
    if not done then pure false else do
      if flags' == event_none
          then (do
            (λ s. some (tt, record s { events = tr.remove event.fd p s.events }))
            write_event p none)
          else pure tt
      pure true

  -- Whether it succeeds: `false` is -1.
  pub event_delete : ℕ → ℕ → Act V T Bool
  unfolding find_event delete_from
  event_delete fd flags = do
    found ← find_event fd
    elim found [ none ↦ pure false | some p ↦ delete_from p fd flags ]

-- How a call of event_process ends; `waiting` is a loop that has not ended in its rounds.
pub data LoopEnd : Type 0 where
  stopped failed waiting : LoopEnd

-- `run` is what the call of a callback with a descriptor and its data does.
module _ {V T : Type 0} ⦃ep : Epoll V⦄ (run : ℕ → ℕ → ℕ → Act V T (Unit {0})) where
  -- A callback that is NULL is not called.
  run_callback : Option ℕ → ℕ → ℕ → Act V T (Unit {0})
  run_callback none fd arg = pure tt
  run_callback (some fn) fd arg = run fn fd arg

  -- The structure is read again for the second callback, after the first has run.
  pub handle_event : ℕ → ℕ → Act V T (Unit {0})
  unfolding run_callback
  handle_event p mask = do
    if has_flag mask ep.epollin
        then (do event ← load p; run_callback event.recv_fn event.fd event.recv_data)
        else pure tt
    if has_flag mask ep.epollout
        then (do event ← load p; run_callback event.send_fn event.fd event.send_data)
        else pure tt

  pub handle_all : List (ℕ × ℕ) → Act V T (Unit {0})
  unfolding handle_event
  handle_all [] = pure tt
  handle_all ((p, mask) ∷ rest) = do handle_event p mask; handle_all rest

  -- `while (!loop->stop) { … }` for a number of rounds.
  pub event_process : ℕ → Act V T LoopEnd
  unfolding handle_all
  event_process zero = pure waiting
  event_process (suc fuel) = do
    stop ← gets (λ s. s.stop)
    if stop then pure stopped else do
      epfd ← gets (λ s. s.epfd)
      ready ← call (ep.epoll_wait epfd)
      elim ready [ none ↦ pure failed | some events ↦ do handle_all events; event_process fuel ]
