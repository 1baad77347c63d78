-- ===== src/Streams.antt =====
-- The streams of a session (mux.c): the tree that finds them by id, their making and freeing.
pub mod Find
pub mod New
pub mod Made
pub mod Setup
pub mod Free
pub mod Order
use yamux.Common.{
  ℕ, ◌==◌, Bool, true, false, Option, none, some, if◌then◌else◌, ltb, u32, minus_one, not,
}
use yamux.Bio.{Bio, Buffer, bio_new}
use yamux.Os.{Os, stream_block}
use yamux.Stailq.{Stailq}
use yamux.Tree.{Tree}
use yamux.State.{
  State, Stream, M, ◌>>=◌, ◌>>◌, pure, abort, assert, call, get_session, put_session, load, release,
  place,
}

-- MAX_STREAM_WINDOW_SIZE
abbrev pub max_stream_window_size : ℕ
max_stream_window_size = 0x40000

-- stream_compare on two ids
pub stream_compare : ℕ → ℕ → ℕ
stream_compare a b = if ltb a b then minus_one else if ltb b a then 1 else 0

-- The fields that stream_new sets; `send_padding` is set by stream_setup_fd.
abbrev pub fresh_stream : {Q : Type 0} → ℕ → State → Bio Q → ℕ → ℕ → Stream Q
fresh_stream id state recv_buf fd private_fd = record {
  state = state;
  id = id;
  send_padding = 0;
  recv_window = max_stream_window_size;
  send_window = max_stream_window_size;
  recv_buf = recv_buf;
  readable = false;
  writeable = true;
  fd = fd;
  private_fd = private_fd;
}

module _ {W Q T : Type 0} ⦃tr : Tree T⦄ where
  unfoldable pub session_insert_stream : ℕ → M W Q T (Unit {0})
  session_insert_stream p = do
    stream ← load p
    session ← get_session
    let (res, streams) = tr.insert stream.id p session.streams
    put_session (record session { streams = streams })
    assert (elim res [ none ↦ true | some _ ↦ false ])

  -- The structure in memory, and in the tree.
  unfoldable pub register : Stream Q → M W Q T (Option ℕ)
  unfolding session_insert_stream
  register ready = do p ← place ready; session_insert_stream p; pure (some p)

  -- `res` is read without a test for NULL.
  pub session_remove_stream : ℕ → M W Q T (Unit {0})
  session_remove_stream p = do
    stream ← load p
    session ← get_session
    elim (tr.find stream.id session.streams) [
      | none ↦ abort
      | some q ↦ do
        res ← load q
        let streams = tr.remove stream.id p session.streams
        if res.id == stream.id then put_session (record session { streams = streams }) else pure tt
    ]

  -- The address, or `none` for NULL.
  pub session_find_stream : ℕ → M W Q T (Option ℕ)
  session_find_stream id = do
    session ← get_session
    elim (tr.find id session.streams) [
      | none ↦ pure none
      | some q ↦ do res ← load q; pure (if res.id == id then some q else none)
    ]

module _ {W Q T : Type 0} ⦃os : Os W⦄ where
  -- The receive and send buffers of one descriptor are set to 256 bytes; whether one call fails.
  unfoldable pub shrink_fd : ℕ → M W Q T Bool
  shrink_fd fd = do
    failed ← call (os.set_rcvbuf fd 256)
    if failed then pure true else call (os.set_sndbuf fd 256)

  -- The stream with its `send_padding`, or `none` for -1.
  unfoldable pub stream_setup_fd : Stream Q → M W Q T (Option (Stream Q))
  unfolding shrink_fd
  stream_setup_fd stream = do
    public_failed ← shrink_fd stream.fd
    private_failed ← if public_failed then pure true else shrink_fd stream.private_fd
    if private_failed then pure none else do
      size ← call (os.get_rcvbuf stream.private_fd)
      pure (elim size [ none ↦ none | some n ↦ some (record stream { send_padding = u32 n }) ])

module _ {W Q T : Type 0} ⦃os : Os W⦄ ⦃sq : Stailq Buffer Q⦄ ⦃tr : Tree T⦄ where
  -- What follows stream_setup_fd: its errors close both descriptors.
  unfoldable pub finish_stream : ℕ → ℕ → Option (Stream Q) → M W Q T (Option ℕ)
  unfolding register
  finish_stream fd private_fd (some ready) = register ready
  finish_stream fd private_fd none = do
    call (λ w. (tt, os.close fd w))
    call (λ w. (tt, os.close private_fd w))
    pure none

  -- `stream_new` from the socketpair on.
  unfoldable pub stream_connect : ℕ → State → Bio Q → Option (ℕ × ℕ) → M W Q T (Option ℕ)
  unfolding stream_setup_fd finish_stream
  stream_connect id state recv_buf none = pure none
  stream_connect id state recv_buf (some (fd, private_fd)) = do
    set_up ← stream_setup_fd (fresh_stream id state recv_buf fd private_fd)
    finish_stream fd private_fd set_up

  -- `stream_new` from the test of `recv_buf` on.
  unfoldable pub fill_stream : ℕ → State → Option (Bio Q) → M W Q T (Option ℕ)
  unfolding stream_connect
  fill_stream id state none = pure none
  fill_stream id state (some b) = do fds ← call os.socketpair; stream_connect id state b fds

  -- The address of the new stream, or `none` for NULL.
  unfoldable pub stream_new : ℕ → State → M W Q T (Option ℕ)
  unfolding fill_stream
  stream_new id state = do
    got ← call (os.malloc stream_block)
    if not got then pure none else do recv_buf ← call bio_new; fill_stream id state recv_buf

  pub stream_free : ℕ → M W Q T (Unit {0})
  unfolding session_remove_stream
  stream_free p = do
    session_remove_stream p
    stream ← load p
    call (λ w. (tt, os.close stream.fd w))
    call (λ w. (tt, os.close stream.private_fd w))
    release p
