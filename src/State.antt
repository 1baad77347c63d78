-- ===== src/State.antt =====
-- The structures of mux.h, the memory that holds the streams, and the actions of mux.c on them.
-- A function of mux.c runs as one step on the whole state: the mutexes are not modelled.
pub mod Rules
pub mod Calm
pub mod Signals
use yamux.Common.{ℕ, ◌+◌, ◌==◌, Bool, Option, none, some, List, if◌then◌else◌}
use yamux.Bio.{Bio}

-- STATE_INIT to STATE_RESET
pub data State : Type 0 where
  init syn_sent syn_received established local_close remote_close closed reset : State

-- `struct stream`, without the tree's links, the locks and the pointer to the one session.
pub record Stream (Q : Type 0) : Type 0 where
  pub state : State
  pub id : ℕ
  pub send_padding : ℕ
  pub recv_window : ℕ
  pub send_window : ℕ
  pub recv_buf : Bio Q
  pub readable : Bool
  pub writeable : Bool
  pub fd : ℕ
  pub private_fd : ℕ

-- `struct session`, without the locks.
pub record Session (Q T : Type 0) : Type 0 where
  pub remote_go_away : Bool
  pub local_go_away : Bool
  pub next_id : ℕ
  pub new_frame : Bool
  pub frame_remain : ℕ
  pub recv_buf : Bio Q
  pub send_buf : Bio Q
  pub streams : T
  pub hdr : List ℕ
  pub fd : ℕ
  pub private_fd : ℕ

-- The streams in memory by address, the address that the next one gets, the session, and the
-- state of everything outside the program.
pub record Sys (W Q T : Type 0) : Type 0 where
  pub heap : ℕ → Option (Stream Q)
  pub next_address : ℕ
  pub session : Session Q T
  pub world : W

-- A function that returns 0 or -1.
pub data Code : Type 0 where
  success failure : Code

-- An action; `none` is an assertion that fails or a pointer that does not lead to a stream.
abbrev pub M : Type 0 → Type 0 → Type 0 → Type 0 → Type 0
M W Q T A = Sys W Q T → Option (A × Sys W Q T)

-- The value of an action that has one.
infixl 5 ◌>>=◌ ◌>>◌
abbrev pub ◌>>=◌ : {W Q T A B : Type 0} → M W Q T A → (A → M W Q T B) → M W Q T B
◌>>=◌ m f s = elim (m s) [ none ↦ none | some (a, s') ↦ f a s' ]

abbrev pub ◌>>◌ : {W Q T A B : Type 0} → M W Q T A → M W Q T B → M W Q T B
m >> k = m >>= λ _. k

-- The memory with a stream, or nothing, at an address.
abbrev pub update :
    {Q : Type 0} → (ℕ → Option (Stream Q)) → ℕ → Option (Stream Q) → ℕ → Option (Stream Q)
update heap p x q = if q == p then x else heap q

module _ {W Q T : Type 0} where
  abbrev pub pure : {A : Type 0} → A → M W Q T A
  pure a s = some (a, s)

  abbrev pub abort : {A : Type 0} → M W Q T A
  abort s = none

  -- `assert(…)`
  abbrev pub assert : Bool → M W Q T (Unit {0})
  assert b s = if b then some (tt, s) else none

  -- A call of the C library or of the kernel.
  abbrev pub call : {A : Type 0} → (W → A × W) → M W Q T A
  call f s = let (a, w) = f s.world in some (a, record s { world = w })

  abbrev pub gets : {A : Type 0} → (Sys W Q T → A) → M W Q T A
  gets f s = some (f s, s)

  abbrev pub get_session : M W Q T (Session Q T)
  get_session s = some (s.session, s)

  abbrev pub put_session : Session Q T → M W Q T (Unit {0})
  put_session x s = some (tt, record s { session = x })

  -- `*stream`
  abbrev pub load : ℕ → M W Q T (Stream Q)
  load p s = elim (s.heap p) [ none ↦ none | some x ↦ some (x, s) ]

  abbrev pub store : ℕ → Stream Q → M W Q T (Unit {0})
  store p x s = some (tt, record s { heap = update s.heap p (some x) })

  -- `free(stream)`
  abbrev pub release : ℕ → M W Q T (Unit {0})
  release p s = some (tt, record s { heap = update s.heap p none })

  -- A stream at a new address.
  abbrev pub place : Stream Q → M W Q T ℕ
  place x s =
      let p = s.next_address in
      some (p, record s { heap = update s.heap p (some x); next_address = p + 1 })
