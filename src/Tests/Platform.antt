-- ===== src/Tests/Platform.antt =====
-- A concrete platform: lists for the vendored containers, and a system whose state is the number
-- of allocations that still succeed.
use yamux.Common.{
  ℕ, zero, suc, ◌+◌, ◌*◌, ◌/◌, ◌%◌, ◌≡◌, refl, Bool, true, false, Option, none, some, List, [], ◌∷◌,
  inl, inr, Bool-cases, arith, ◌==◌, if◌then◌else◌, length, replicate, get_or,
}
use yamux.Os.{Os}
use yamux.Stailq.{Stailq, list_stailq}
use yamux.Tree.{Tree, IsIn}
use yamux.Bio.{Buffer, Bio}
use yamux.State.{Stream, Session, Sys}
use yamux.Send.Calm.{WritesWhole}

abbrev pub budget : ℕ → Bool × ℕ
budget zero = (false, 0)
budget (suc n) = (true, n)

-- Every call succeeds, but malloc when the budget is spent.
instance abbrev pub test_os : Os ℕ
test_os = record {
  malloc = λ _ w. budget w;
  uninit = λ n _. replicate n 0;
  socketpair = λ w. (some (3, 4), w);
  set_rcvbuf = λ _ _ w. (false, w);
  set_sndbuf = λ _ _ w. (false, w);
  get_rcvbuf = λ _ w. (some 2304, w);
  write = λ _ bytes w. (some (length bytes), w);
  read = λ _ n w. (some (replicate n 0), w);
  close = λ _ w. w;
  bytes_of_u32 = λ n. n % 256 ∷ n / 256 % 256 ∷ n / 65536 % 256 ∷ n / 16777216 % 256 ∷ [];
  u32_of_bytes =
      λ b. get_or b 0 0 + get_or b 1 0 * 256 + get_or b 2 0 * 65536 + get_or b 3 0 * 16777216;
  fcntl_getfl = λ _ w. (some 2, w);
  o_nonblock = 2048;
  fcntl_setfl = λ _ _ w. (0, w);
  select = λ _ _ w. (some (1, true), w);
}

-- The same with memory that does not end.
abbrev pub roomy_os : Os ℕ
roomy_os = record test_os { malloc = λ _ w. (true, w) }

pub test_os-WritesWhole : WritesWhole test_os
test_os-WritesWhole = record { four = λ fd id w. inr refl }

instance abbrev pub test_stailq : Stailq Buffer (List Buffer)
test_stailq = list_stailq

abbrev pub Entries : Type 0
Entries = List (ℕ × ℕ)

abbrev pub find_entry : ℕ → Entries → Option ℕ
find_entry k [] = none
find_entry k ((j, p) ∷ t) = if k == j then some p else find_entry k t

abbrev pub insert_entry : ℕ → ℕ → Entries → Option ℕ × Entries
insert_entry k p t = elim (find_entry k t) [ none ↦ (none, (k, p) ∷ t) | some q ↦ (some q, t) ]

abbrev pub remove_entry : ℕ → ℕ → Entries → Entries
remove_entry k p [] = []
remove_entry k p ((j, q) ∷ t) =
    let rest = remove_entry k p t in if k == j then rest else (j, q) ∷ rest

pub find_entry-remove_entry :
    (j k p : ℕ) (t : Entries)
    → find_entry j (remove_entry k p t) ≡ (if j == k then none else find_entry j t)
find_entry-remove_entry j k p [] = ground arith
find_entry-remove_entry j k p ((i, q) ∷ t) = ground (arith, find_entry-remove_entry j k p t)

pub insert_entry_old :
    (k p q : ℕ) (t : Entries) → find_entry k t ≡ some q → insert_entry k p t ≡ (some q, t)
insert_entry_old k p q t e = ground arith

pub insert_entry_new :
    (k p : ℕ) (t : Entries) → find_entry k t ≡ none → (insert_entry k p t).0 ≡ none
insert_entry_new k p t e = ground arith

pub find_entry-insert_entry :
    (j k p : ℕ) (t : Entries)
    → find_entry k t ≡ none
    → find_entry j (insert_entry k p t).1 ≡ (if j == k then some p else find_entry j t)
find_entry-insert_entry j k p t e = ground arith

abbrev pub pointers : Entries → List ℕ
pointers [] = []
pointers ((j, p) ∷ t) = p ∷ pointers t

pub pointers-find_entry : (k p : ℕ) (t : Entries) → find_entry k t ≡ some p → IsIn p (pointers t)
pointers-find_entry k p [] e = absurd (ground arith)
pointers-find_entry k p ((j, q) ∷ t) e = elim (Bool-cases (k == j)) [
  | inl here ↦ inl (ground (arith, here, e))
  | inr other ↦ inr (pointers-find_entry k p t (ground (arith, other, e)))
]

instance abbrev pub test_tree : Tree (List (ℕ × ℕ))
test_tree = record {
  init = [];
  find = find_entry;
  insert = insert_entry;
  remove = remove_entry;
  elements = pointers;
  find-init = λ k. refl;
  insert_old = insert_entry_old;
  insert_new = insert_entry_new;
  find-insert = find_entry-insert_entry;
  find-remove = λ j k p t e. find_entry-remove_entry j k p t;
  elements-find = pointers-find_entry;
}

abbrev pub TestSys : Type 0
TestSys = Sys ℕ (List Buffer) (List (ℕ × ℕ))

abbrev pub TestBio : Type 0
TestBio = Bio (List Buffer)

-- A queue of the bytes 1 to 5 in two buffers, the first byte read.
abbrev pub sample_bio : TestBio
sample_bio = record {
  buffers =
      record { len = 3; bytes = 9 ∷ 1 ∷ 2 ∷ [] } ∷ record { len = 3; bytes = 3 ∷ 4 ∷ 5 ∷ [] } ∷ [];
  offset = 1;
  len = 5;
}

abbrev pub empty_queue : TestBio
empty_queue = record { buffers = []; offset = 0; len = 0 }

-- An established stream under the id 1, with the bytes of `sample_bio` received.
abbrev pub sample_stream : Stream (List Buffer)
sample_stream = record {
  state = yamux.State.State.established;
  id = 1;
  send_padding = 2304;
  recv_window = 200000;
  send_window = 1000;
  recv_buf = sample_bio;
  readable = true;
  writeable = true;
  fd = 5;
  private_fd = 6;
}

-- The session of a server between two frames, with that stream at address 7.
abbrev pub sample_session : Session (List Buffer) (List (ℕ × ℕ))
sample_session = record {
  remote_go_away = false;
  local_go_away = false;
  next_id = 2;
  new_frame = true;
  frame_remain = 0;
  recv_buf = empty_queue;
  send_buf = empty_queue;
  streams = (1, 7) ∷ [];
  hdr = replicate 12 0;
  fd = 3;
  private_fd = 4;
}

abbrev pub sample : TestSys
sample = record {
  heap = λ q. if q == 7 then some sample_stream else none;
  next_address = 8;
  session = sample_session;
  world = 1000;
}
