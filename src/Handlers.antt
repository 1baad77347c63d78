-- ===== src/Handlers.antt =====
-- The handlers of the other frame types, and session_handle of mux.c.
pub mod Safe
pub mod Steady
pub mod Dispatch
pub mod Wake
use yamux.Common.{ℕ, ◌==◌, true, none, some, if◌then◌else◌, not, add32}
use yamux.Bio.{Buffer}
use yamux.Os.{Os}
use yamux.Stailq.{Stailq}
use yamux.Tree.{Tree}
use yamux.Frame.{
  type_data, type_window_update, type_ping, type_go_away, flag_syn, flag_ack, has_flag,
  go_away_normal, go_away_proto_err, go_away_internal_err, hdr_size, hdr_encode, hdr_type,
  hdr_flags, hdr_stream_id, hdr_length,
}
use yamux.State.{
  M, Code, success, failure, ◌>>=◌, ◌>>◌, pure, assert, get_session, put_session, load, store,
}
use yamux.Streams.{session_find_stream}
use yamux.Notify.{stream_writeable_notify}
use yamux.Send.{session_send_buf_write}
use yamux.Flags.{stream_process_flags}
use yamux.Incoming.{fail_with, open_if_syn}
use yamux.Data.{session_handle_data}

module _ {W Q T : Type 0} ⦃os : Os W⦄ ⦃sq : Stailq Buffer Q⦄ ⦃tr : Tree T⦄ where
  -- `stream->send_window += len` and the signal.
  widen : ℕ → ℕ → M W Q T Code
  unfolding fail_with
  widen p len = do
    stream ← load p
    store p (record stream { send_window = add32 stream.send_window len })
    told ← stream_writeable_notify p
    elim told [ failure ↦ fail_with go_away_internal_err | success ↦ pure success ]

  update_stream : ℕ → M W Q T Code
  unfolding fail_with widen
  update_stream p = do
    session ← get_session
    code ← stream_process_flags p (hdr_flags session.hdr)
    elim code [
      | failure ↦ fail_with go_away_proto_err
      | success ↦ do
        let len = hdr_length session.hdr
        if len == 0 then pure success else widen p len
    ]

  pub session_handle_window_update : M W Q T Code
  unfolding open_if_syn update_stream
  session_handle_window_update = do
    session ← get_session
    assert session.new_frame
    opened ← open_if_syn
    elim opened [
      | failure ↦ pure failure
      | success ↦ do
        found ← session_find_stream (hdr_stream_id session.hdr)
        elim found [ none ↦ pure success | some p ↦ update_stream p ]
    ]

  pub session_handle_ping : M W Q T Code
  unfolding fail_with
  session_handle_ping = do
    session ← get_session
    assert session.new_frame
    if not (has_flag (hdr_flags session.hdr) flag_syn) then pure success else do
      sent ←
          session_send_buf_write (hdr_encode type_ping flag_ack 0 (hdr_length session.hdr)) hdr_size
      elim sent [ failure ↦ fail_with go_away_internal_err | success ↦ pure success ]

  pub session_handle_go_away : M W Q T Code
  session_handle_go_away = do
    session ← get_session
    assert session.new_frame
    if hdr_length session.hdr == go_away_normal
        then (do put_session (record session { remote_go_away = true }); pure success)
        else pure failure

  pub session_handle : M W Q T Code
  unfolding session_handle_window_update session_handle_ping session_handle_go_away
  session_handle = do
    session ← get_session
    let type = hdr_type session.hdr
    if type == type_data
        then session_handle_data
        else if type == type_window_update
        then session_handle_window_update
        else if type == type_ping
        then session_handle_ping
        else if type == type_go_away
        then session_handle_go_away
        else pure failure
