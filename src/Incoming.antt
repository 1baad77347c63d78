-- ===== src/Incoming.antt =====
-- Streams that the peer opens: incoming_stream of mux.c.
pub mod Safe
use yamux.Common.{ℕ, Option, none, some, if◌then◌else◌}
use yamux.Bio.{Buffer}
use yamux.Os.{Os}
use yamux.Stailq.{Stailq}
use yamux.Tree.{Tree}
use yamux.Frame.{
  type_window_update, flag_syn, flag_rst, has_flag, go_away_proto_err, go_away_internal_err,
  hdr_size, hdr_encode, hdr_flags, hdr_stream_id,
}
use yamux.State.{State, M, Code, success, failure, ◌>>=◌, ◌>>◌, pure, assert, get_session}
use yamux.Streams.{session_find_stream, stream_new, stream_free}
use yamux.Send.{session_send_buf_write, session_go_away_for_reason, notify_accept}

module _ {W Q T : Type 0} ⦃os : Os W⦄ ⦃sq : Stailq Buffer Q⦄ ⦃tr : Tree T⦄ where
  -- An error that the peer is told of; the result of telling it is ignored.
  unfoldable pub fail_with : ℕ → M W Q T Code
  fail_with reason = do session_go_away_for_reason reason; pure failure

  -- Reject immediately: the session is going away.
  reject_stream : ℕ → M W Q T Code
  reject_stream id = session_send_buf_write (hdr_encode type_window_update flag_rst id 0) hdr_size

  -- From the result of `notify_accept` on.
  after_told : ℕ → Code → M W Q T Code
  after_told p success = pure success
  after_told p failure = do stream_free p; pure success

  -- From the result of `stream_new` on.
  after_new : ℕ → Option ℕ → M W Q T Code
  unfolding fail_with after_told
  after_new id none = fail_with go_away_internal_err
  after_new id (some p) = do told ← notify_accept id; after_told p told

  accept_stream : ℕ → M W Q T Code
  unfolding after_new
  accept_stream id = do made ← stream_new id State.syn_received; after_new id made

  unfoldable pub incoming_stream : M W Q T Code
  unfolding fail_with reject_stream accept_stream
  incoming_stream = do
    session ← get_session
    assert session.new_frame
    let id = hdr_stream_id session.hdr
    if session.local_go_away then reject_stream id else do
      found ← session_find_stream id
      elim found [ some _ ↦ fail_with go_away_proto_err | none ↦ accept_stream id ]

  -- `if (session->new_frame && (flags & FLAG_SYN)) { if (incoming_stream(session)) … }`
  unfoldable pub open_if_syn : M W Q T Code
  unfolding incoming_stream
  open_if_syn = do
    session ← get_session
    if has_flag (hdr_flags session.hdr) flag_syn then incoming_stream else pure success
