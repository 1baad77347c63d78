-- ===== src/Bio.antt =====
-- The byte queue of bio.c and bio.h: a list of buffers of at most 4096 bytes, an offset into the
-- first one and the number of bytes queued. The buffers are passed by value, since no other part
-- of the program holds one; giving memory back has no effect that the program can see.
pub mod Contents
pub mod Loop
pub mod Rounds
pub mod Read
pub mod Write
pub mod Wrote
pub mod Memory
pub mod Queue
use yamux.Common.{
  ℕ, zero, suc, ◌+◌, ◌-◌, Bool, true, false, Option, none, some, List, [], ◌∷◌, ◌++◌, ltb, ◌==◌,
  if◌then◌else◌, take, drop, length, add64, sub64, int_of, minus_one,
}
use yamux.Os.{Os, buffer_block, bio_block, bytes_block}
use yamux.Stailq.{Stailq}

-- `struct buffer`; `bytes` is what `data` points to.
pub record Buffer : Type 0 where
  pub len : ℕ
  pub bytes : List ℕ

-- `struct bio`
pub record Bio (Q : Type 0) : Type 0 where
  pub buffers : Q
  pub offset : ℕ
  pub len : ℕ

-- The capacity of a buffer.
abbrev pub capacity : ℕ
capacity = 4096

-- `MIN(a, b)`
abbrev pub min_of : ℕ → ℕ → ℕ
min_of a b = if ltb a b then a else b

module _ {W : Type 0} ⦃os : Os W⦄ where
  -- `data` is the source and `len` the count of the memcpy.
  buffer_fill : List ℕ → ℕ → Bool × W → Option Buffer × W
  buffer_fill source len (false, w) = (none, w)
  buffer_fill source len (true, w) = (some (record { len = len; bytes = take len source }), w)

  buffer_alloc : List ℕ → ℕ → Bool × W → Option Buffer × W
  unfolding buffer_fill
  buffer_alloc source len (false, w) = (none, w)
  buffer_alloc source len (true, w) = buffer_fill source len (os.malloc (bytes_block len) w)

  pub buffer_new : List ℕ → ℕ → W → Option Buffer × W
  unfolding buffer_alloc
  buffer_new source len w = buffer_alloc source len (os.malloc buffer_block w)

module _ {Q : Type 0} ⦃sq : Stailq Buffer Q⦄ where
  pub empty_bio : Bio Q
  empty_bio = record { buffers = sq.init; offset = 0; len = 0 }

  -- `bio->buffers` after STAILQ_INSERT_TAIL, with `bio->len += size`.
  pub push_buffer : Buffer → ℕ → Bio Q → Bio Q
  push_buffer buffer size b = record b {
    buffers = sq.insert_tail buffer b.buffers;
    len = add64 b.len size;
  }

  -- `while (!STAILQ_EMPTY(…)) { … STAILQ_REMOVE_HEAD(…) … }` on fuel.
  pub reset_loop : ℕ → Q → Q
  reset_loop zero q = q
  reset_loop (suc fuel) q =
      let rest = reset_loop fuel (sq.remove_head q) in
      elim (sq.first q) [ none ↦ q | some _ ↦ rest ]

  -- One round for each buffer is enough.
  pub bio_reset : Bio Q → Bio Q
  unfolding reset_loop
  bio_reset b = record {
    buffers = reset_loop (length (sq.elements b.buffers)) b.buffers;
    offset = 0;
    len = 0;
  }

  unfoldable pub bio_pending : Bio Q → ℕ
  bio_pending b = int_of b.len

-- The variables of the loop in bio_read: the queue and offset of the `bio`, the count `nread`, and
-- what has been copied to `buf`.
pub record Cursor (Q : Type 0) : Type 0 where
  pub buffers : Q
  pub offset : ℕ
  pub nread : ℕ
  pub out : List ℕ

-- The body of STAILQ_FOREACH over the variables `nread` and `offset`.
pub peek_loop : List Buffer → ℕ → ℕ → ℕ → List ℕ → ℕ × List ℕ
peek_loop [] n nread offset out = (nread, out)
peek_loop (buffer ∷ rest) n nread offset out =
    let left = sub64 buffer.len offset in
    let size = if ltb left (n - nread) then left else n - nread in
    peek_loop rest n (nread + size) 0 (out ++ take size (drop offset buffer.bytes))

module _ {Q : Type 0} ⦃sq : Stailq Buffer Q⦄ where
  -- The body of the loop on the first buffer; `wanted` says whether `buf` is not NULL.
  pub read_step : Bool → ℕ → Buffer → Cursor Q → Cursor Q
  read_step wanted n buffer c =
      let left = sub64 buffer.len c.offset in
      let size = if ltb left (n - c.nread) then left else n - c.nread in
      let copied = take size (drop c.offset buffer.bytes) in
      let out = if wanted then c.out ++ copied else c.out in
      let spent = c.offset + size == buffer.len in
      record {
        buffers = if spent then sq.remove_head c.buffers else c.buffers;
        offset = if spent then 0 else c.offset + size;
        nread = c.nread + size;
        out = out;
      }

  -- `while (!STAILQ_EMPTY(…) && nread < n)` on fuel.
  pub read_loop : ℕ → Bool → ℕ → Cursor Q → Cursor Q
  read_loop zero wanted n c = c
  read_loop (suc fuel) wanted n c = elim (sq.first c.buffers) [
    | none ↦ c
    | some buffer ↦ elim (ltb c.nread n) [
      | true ↦ read_loop fuel wanted n (read_step wanted n buffer c)
      | false ↦ c
    ]
  ]

  -- Each round empties a buffer or ends the loop, so one round for each buffer is enough.
  pub read_cursor : Bool → ℕ → Bio Q → Cursor Q
  unfolding read_step read_loop
  read_cursor wanted n b =
      read_loop (length (sq.elements b.buffers)) wanted n
        (record { buffers = b.buffers; offset = b.offset; nread = 0; out = [] })

  -- The returned `int`, what `buf` holds, and the queue.
  pub bio_read : Bool → ℕ → Bio Q → ℕ × List ℕ × Bio Q
  unfolding read_cursor
  bio_read wanted n b =
      let c = read_cursor wanted n b in
      (
        int_of c.nread,
        c.out,
        record { buffers = c.buffers; offset = c.offset; len = sub64 b.len c.nread },
      )

  pub bio_consume : ℕ → Bio Q → ℕ × Bio Q
  unfolding bio_read
  bio_consume n b = let (r, _, b') = bio_read false n b in (r, b')

  -- The returned `int` and what `buf` holds.
  pub bio_peek : ℕ → Bio Q → ℕ × List ℕ
  unfolding peek_loop
  bio_peek n b =
      let (nread, out) = peek_loop (sq.elements b.buffers) n 0 b.offset [] in (int_of nread, out)

module _ {W Q : Type 0} ⦃os : Os W⦄ ⦃sq : Stailq Buffer Q⦄ where
  -- `while (pos < n)` on fuel: whether every buffer was made, the queue, and the system. Buffers
  -- that were queued before a failure stay.
  pub write_loop : ℕ → List ℕ → ℕ → ℕ → Bio Q → W → Bool × Bio Q × W
  write_loop zero buf pos n b w = (true, b, w)
  write_loop (suc fuel) buf pos n b w = elim (ltb pos n) [
    | false ↦ (true, b, w)
    | true ↦
        let size = min_of capacity (n - pos) in
        let (made, w') = buffer_new (drop pos buf) size w in
        elim made [
          | none ↦ (false, b, w')
          | some buffer ↦ write_loop fuel buf (pos + size) n (push_buffer buffer size b) w'
        ]
  ]

  -- Each round queues a byte at least, so n rounds are enough.
  unfoldable pub bio_write : List ℕ → ℕ → Bio Q → W → ℕ × Bio Q × W
  unfolding write_loop buffer_new push_buffer
  bio_write buf n b w =
      let (done, b', w') = write_loop n buf 0 n b w in
      (if done then int_of n else minus_one, b', w')

  -- `none` is NULL.
  unfoldable pub bio_new : W → Option (Bio Q) × W
  unfolding empty_bio
  bio_new w =
      let (made, w') = os.malloc bio_block w in
      elim made [ false ↦ (none, w') | true ↦ (some empty_bio, w') ]
