-- ===== src/Send.antt =====
-- What mux.c sends: the bytes queued in `send_buf`, go-away frames, the flags that a stream's first
-- frame carries, and window updates.
pub mod Calm
pub mod Queue
pub mod Window
pub mod Steady
use yamux.Common.{
  ℕ, ◌/◌, ◌==◌, true, none, some, List, if◌then◌else◌, ltb, ◌&&◌, minus_one, add32, sub32,
}
use yamux.Bio.{Buffer, bio_write, bio_pending}
use yamux.Os.{Os}
use yamux.Stailq.{Stailq}
use yamux.Frame.{
  hdr_encode, hdr_size, type_window_update, type_go_away, flag_syn, flag_ack, go_away_internal_err,
}
use yamux.State.{
  State, M, Code, success, failure, ◌>>=◌, ◌>>◌, pure, assert, call, get_session, put_session, load,
  store,
}
use yamux.Streams.{max_stream_window_size}

-- What a stream's next frame carries, and the state after it.
abbrev pub flags_of : State → ℕ
flags_of State.init = flag_syn
flags_of State.syn_received = flag_ack
flags_of _ = 0

abbrev pub sent_state : State → State
sent_state State.init = State.syn_sent
sent_state State.syn_received = State.established
sent_state state = state

module _ {W Q T : Type 0} where
  unfoldable pub stream_send_flags : ℕ → M W Q T ℕ
  stream_send_flags p = do
    stream ← load p
    store p (record stream { state = sent_state stream.state })
    pure (flags_of stream.state)

module _ {W Q T : Type 0} ⦃os : Os W⦄ ⦃sq : Stailq Buffer Q⦄ where
  unfoldable pub session_send_buf_write : List ℕ → ℕ → M W Q T Code
  session_send_buf_write bytes n = do
    session ← get_session
    (r, send_buf) ←
        call (λ w. let (r, b, w') = bio_write bytes n session.send_buf w in ((r, b), w'))
    put_session (record session { send_buf = send_buf })
    pure (if r == minus_one then failure else success)

  pub session_go_away_for_reason : ℕ → M W Q T Code
  unfolding session_send_buf_write
  session_go_away_for_reason reason = do
    session ← get_session
    put_session (record session { local_go_away = true })
    session_send_buf_write (hdr_encode type_go_away 0 0 reason) hdr_size

  pub notify_accept : ℕ → M W Q T Code
  unfolding session_go_away_for_reason
  notify_accept id = do
    session ← get_session
    r ← call (os.write session.private_fd (os.bytes_of_u32 id))
    elim r [
      | none ↦ do session_go_away_for_reason go_away_internal_err; pure failure
      | some n ↦ do assert (n == 4); pure success
    ]

  -- `delta < (max / 2) && flags == 0` is the test on which no update is sent.
  unfoldable pub send_window_update : ℕ → M W Q T Code
  unfolding stream_send_flags session_send_buf_write
  send_window_update p = do
    flags ← stream_send_flags p
    stream ← load p
    let max : ℕ = max_stream_window_size
    let buf_len = bio_pending stream.recv_buf
    let delta = sub32 (sub32 max buf_len) stream.recv_window
    if ltb delta (max / 2) && flags == 0 then pure success else do
      store p (record stream { recv_window = add32 stream.recv_window delta })
      session_send_buf_write (hdr_encode type_window_update flags stream.id delta) hdr_size
