-- ===== src/Data.antt =====
-- Data frames: session_handle_data of mux.c.
pub mod Feed
pub mod Rounds
pub mod Inside
pub mod Ends
pub mod Tells
pub mod Content
pub mod Begin
pub mod Handle
pub mod Starts
pub mod Deliver
pub mod Receive
use yamux.Common.{
  ℕ, List, zero, suc, ◌==◌, true, false, Option, none, some, if◌then◌else◌, ltb, ◌||◌, not,
  minus_one, sub32, int_lt,
}
use yamux.Bio.{Bio, Buffer, min_of, bio_peek, bio_write, bio_consume, bio_pending}
use yamux.Os.{Os}
use yamux.Stailq.{Stailq}
use yamux.Tree.{Tree}
use yamux.Frame.{go_away_proto_err, go_away_internal_err, hdr_flags, hdr_stream_id, hdr_length}
use yamux.State.{
  M, Stream, Code, success, failure, ◌>>=◌, ◌>>◌, pure, assert, call, get_session, put_session,
  load, store,
}
use yamux.Streams.{session_find_stream}
use yamux.Notify.{stream_readable_notify}
use yamux.Flags.{stream_process_flags}
use yamux.Incoming.{fail_with, open_if_syn}

module _ {W Q T : Type 0} ⦃os : Os W⦄ ⦃sq : Stailq Buffer Q⦄ ⦃tr : Tree T⦄ where
  -- From the result of stream_readable_notify on.
  after_notify : ℕ → Code → M W Q T (Option ℕ)
  unfolding fail_with
  after_notify r success = pure (some r)
  after_notify r failure = do fail_with go_away_internal_err; pure none

  -- From the result of bio_write on.
  after_write : ℕ → Stream Q → ℕ × Bio Q → M W Q T (Option ℕ)
  unfolding fail_with after_notify
  after_write p stream (r, recv_buf) = do
    store p (record stream { recv_buf = recv_buf })
    if r == minus_one then (do fail_with go_away_internal_err; pure none) else do
      store p (record stream { recv_buf = recv_buf; recv_window = sub32 stream.recv_window r })
      told ← stream_readable_notify p
      after_notify r told

  -- The bytes peeked are appended to what the stream has received.
  feed : ℕ → ℕ × List ℕ → M W Q T (Option ℕ)
  unfolding after_write
  feed p (peeked, bytes) = do
    assert (int_lt 0 peeked)
    stream ← load p
    written ← call (λ w. let (r, b, w') = bio_write bytes peeked stream.recv_buf w in ((r, b), w'))
    after_write p stream written

  -- The bytes of one round of the loop go to the stream; the number of them, or `none` for -1.
  pub deliver : ℕ → ℕ → M W Q T (Option ℕ)
  unfolding feed
  deliver p size = do session ← get_session; feed p (bio_peek size session.recv_buf)

  -- The bytes for a stream that is not there are counted and dropped.
  pub drop_or_deliver : Option ℕ → ℕ → M W Q T (Option ℕ)
  unfolding deliver
  drop_or_deliver none size = pure (some size)
  drop_or_deliver (some p) size = deliver p size

  -- `bio_consume(session->recv_buf, r); session->frame_remain -= r;`
  pub take_from_frame : ℕ → M W Q T (Unit {0})
  take_from_frame r = do
    session ← get_session
    let (_, recv_buf) = bio_consume r session.recv_buf
    put_session
        (record session { recv_buf = recv_buf; frame_remain = sub32 session.frame_remain r })

  -- `while (session->frame_remain) { … }` on fuel.
  pub data_loop : ℕ → Option ℕ → M W Q T Code
  unfolding drop_or_deliver take_from_frame
  data_loop zero found = pure success
  data_loop (suc fuel) found = do
    session ← get_session
    if session.frame_remain == 0 || bio_pending session.recv_buf == 0 then pure success else do
      moved ← drop_or_deliver found (min_of session.frame_remain 4096)
      elim moved [ none ↦ pure failure | some r ↦ do take_from_frame r; data_loop fuel found ]

  -- The loop and the test after it; each round takes a byte of the frame at least.
  pub receive_data : Option ℕ → M W Q T Code
  unfolding data_loop
  receive_data found = do
    session ← get_session
    code ← data_loop session.frame_remain found
    elim code [
      | failure ↦ pure failure
      | success ↦ do
        session' ← get_session
        if session'.frame_remain == 0
            then put_session (record session' { new_frame = true })
            else pure tt
        pure success
    ]

  -- The flags and the window of a new frame; `none` means to return with that code at once.
  pub check_frame : ℕ → M W Q T (Option Code)
  unfolding fail_with
  check_frame p = do
    session ← get_session
    let len = hdr_length session.hdr
    code ← stream_process_flags p (hdr_flags session.hdr)
    elim code [
      | failure ↦ do code' ← fail_with go_away_proto_err; pure (some code')
      | success ↦ if len == 0 then pure (some success) else do
        stream ← load p
        if ltb stream.recv_window len
            then (do code' ← fail_with go_away_proto_err; pure (some code'))
            else pure none
    ]

  pub start_frame : M W Q T (Unit {0})
  start_frame = do
    session ← get_session
    put_session (record session { frame_remain = hdr_length session.hdr; new_frame = false })

  -- `if (session->new_frame) { … }` of session_handle_data.
  pub begin_frame : Option ℕ → M W Q T (Option Code)
  unfolding check_frame start_frame
  begin_frame found = do
    session ← get_session
    if not session.new_frame then pure none else do
      early ← elim found [ none ↦ pure none | some p ↦ check_frame p ]
      elim early [ some code ↦ pure (some code) | none ↦ do start_frame; pure none ]

  pub session_handle_data : M W Q T Code
  unfolding open_if_syn receive_data begin_frame
  session_handle_data = do
    session ← get_session
    opened ← if session.new_frame then open_if_syn else pure success
    elim opened [
      | failure ↦ pure failure
      | success ↦ do
        session' ← get_session
        found ← session_find_stream (hdr_stream_id session'.hdr)
        early ← begin_frame found
        elim early [ some code ↦ pure code | none ↦ receive_data found ]
    ]
