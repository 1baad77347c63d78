-- ===== src/Io.antt =====
-- Reading and writing a stream: stream_read and stream_write of mux.c, would_block of misc.c.
pub mod Read
pub mod Finish
pub mod Safe
pub mod Whole
pub mod Memory
pub mod Ample
pub mod Refill
pub mod Torn
pub mod Write
pub mod Written
use yamux.Common.{
  ℕ, ◌==◌, Bool, true, false, none, some, List, [], ◌∷◌, if◌then◌else◌, ltb, not, bit_and, sub32,
  int_lt, int_of,
}
use yamux.Bio.{Buffer, min_of, bio_read, bio_pending}
use yamux.Os.{Os, Direction, to_read, to_write}
use yamux.Stailq.{Stailq}
use yamux.Tree.{Tree}
use yamux.Frame.{type_data, go_away_internal_err, hdr_size, hdr_encode}
use yamux.State.{
  State, Stream, Sys, M, Code, success, failure, ◌>>=◌, ◌>>◌, pure, assert, call, load, store,
}
use yamux.Notify.{stream_readable_waiting, stream_writeable_waiting}
use yamux.Send.{
  session_send_buf_write, session_go_away_for_reason, send_window_update, stream_send_flags,
}

-- How stream_read and stream_write end: with a count (and the bytes read), with -1 and EAGAIN, with
-- another -1, or still waiting in `select` when the other threads have done all that they do.
pub data Io : Type 0 where
  count : ℕ → List ℕ → Io
  again : Io
  failed : Io
  waiting : Io

-- Which way stream_read and stream_write go on after the tests on the stream's state.
pub data Gate : Type 0 where
  stop : Io → Gate
  pass : Gate

module _ {W Q T : Type 0} ⦃os : Os W⦄ where
  -- misc.c: false for a descriptor that does not block, and if fcntl fails
  pub would_block : ℕ → M W Q T Bool
  would_block fd = do
    r ← call (os.fcntl_getfl fd)
    pure (elim r [ none ↦ false | some flags ↦ bit_and flags os.o_nonblock == 0 ])

  -- `select` on one descriptor, and the assertion that it is in the set; whether the count is what
  -- the caller tests for.
  pub await : Direction → (ℕ → Bool) → ℕ → M W Q T Bool
  await direction expected fd = do
    r ← call (os.select direction fd)
    elim r [
      | none ↦ pure false
      | some (n, is_set) ↦ if expected n then (do assert is_set; pure true) else pure false
    ]

-- What the other threads do while this one waits.
abbrev others : {W Q T : Type 0} → (Sys W Q T → Sys W Q T) → M W Q T (Unit {0})
others f s = some (tt, f s)

-- `switch (stream->state)` of stream_read.
read_gate : {Q : Type 0} ⦃sq : Stailq Buffer Q⦄ → Stream Q → Gate
read_gate stream = elim stream.state [
  | State.reset ↦ stop failed
  | State.local_close ↦ if bio_pending stream.recv_buf == 0 then stop (count 0 []) else pass
  | State.remote_close ↦ if bio_pending stream.recv_buf == 0 then stop (count 0 []) else pass
  | State.closed ↦ if bio_pending stream.recv_buf == 0 then stop (count 0 []) else pass
  | _ ↦ pass
]

-- `switch (stream->state)` of stream_write.
write_gate : State → Gate
write_gate State.local_close = stop (count 0 [])
write_gate State.closed = stop (count 0 [])
write_gate State.reset = stop (count 0 [])
write_gate _ = pass

module _ {W Q T : Type 0} ⦃os : Os W⦄ ⦃sq : Stailq Buffer Q⦄ ⦃tr : Tree T⦄ where
  -- From `bio_read` on.
  pub read_ready : ℕ → ℕ → M W Q T Io
  read_ready p size = do
    stream ← load p
    let (r, bytes, recv_buf) = bio_read true size stream.recv_buf
    store p (record stream { recv_buf = recv_buf })
    assert (int_lt 0 r)
    told ← if bio_pending recv_buf == 0 then stream_readable_waiting p else pure success
    elim told [ failure ↦ pure failed | success ↦ do send_window_update p; pure (count r bytes) ]

  -- From `again:` on; `retry` is what happens after the wait.
  pub read_once : ℕ → ℕ → M W Q T Io → M W Q T Io
  unfolding read_gate read_ready would_block
  read_once p size retry = do
    stream ← load p
    elim (read_gate stream) [
      | stop io ↦ pure io
      | pass ↦
          if not (bio_pending stream.recv_buf == 0)
          then read_ready p size
          else do blocks ← would_block stream.fd; if blocks then retry else pure Io.again
    ]

  -- Each entry is what the other threads do in one wait.
  pub stream_read : ℕ → ℕ → List (Sys W Q T → Sys W Q T) → M W Q T Io
  unfolding read_once await
  stream_read p size [] = read_once p size (pure waiting)
  stream_read p size (f ∷ rest) = read_once p size (do
    stream ← load p
    others f
    ready ← await to_read (λ n. n == 1) stream.fd
    if ready then stream_read p size rest else pure failed)

  -- From the second `session_send_buf_write` on.
  abbrev write_body : ℕ → List ℕ → ℕ → M W Q T Io
  write_body p bytes max = do
    sent ← session_send_buf_write bytes max
    elim sent [
      | failure ↦ pure failed
      | success ↦ do
        stream' ← load p
        let left = sub32 stream'.send_window max
        store p (record stream' { send_window = left })
        told ← if left == 0 then stream_writeable_waiting p else pure success
        elim told [
          | success ↦ pure (count (int_of max) [])
          | failure ↦ do
            session_go_away_for_reason go_away_internal_err
            pure (count (int_of max) [])
        ]
    ]

  -- From `stream_send_flags` on, with the window that was read.
  pub write_ready : ℕ → List ℕ → ℕ → ℕ → M W Q T Io
  write_ready p bytes n window = do
    flags ← stream_send_flags p
    stream ← load p
    let max = min_of window n
    sent_hdr ← session_send_buf_write (hdr_encode type_data flags stream.id max) hdr_size
    elim sent_hdr [ failure ↦ pure failed | success ↦ write_body p bytes max ]

  -- The same with what another thread does after the first call that holds `send_lock` and before
  -- the second.
  pub write_ready_between : M W Q T Code → ℕ → List ℕ → ℕ → ℕ → M W Q T Io
  write_ready_between other p bytes n window = do
    flags ← stream_send_flags p
    stream ← load p
    let max = min_of window n
    sent_hdr ← session_send_buf_write (hdr_encode type_data flags stream.id max) hdr_size
    elim sent_hdr [ failure ↦ pure failed | success ↦ do other; write_body p bytes max ]

  -- From `again:` on; `retry` is what happens after the wait.
  pub write_once : ℕ → List ℕ → ℕ → M W Q T Io → M W Q T Io
  unfolding write_gate write_ready would_block
  write_once p bytes n retry = do
    stream ← load p
    elim (write_gate stream.state) [
      | stop io ↦ pure io
      | pass ↦
          if not (stream.send_window == 0)
          then write_ready p bytes n stream.send_window
          else do blocks ← would_block stream.fd; if blocks then retry else pure Io.again
    ]

  -- Each entry is what the other threads do in one wait.
  pub stream_write : ℕ → List ℕ → ℕ → List (Sys W Q T → Sys W Q T) → M W Q T Io
  unfolding write_once await
  stream_write p bytes n [] = write_once p bytes n (pure waiting)
  stream_write p bytes n (f ∷ rest) = write_once p bytes n (do
    stream ← load p
    others f
    ready ← await to_write (λ k. ltb 0 k) stream.fd
    if ready then stream_write p bytes n rest else pure failed)
