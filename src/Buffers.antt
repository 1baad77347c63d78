-- ===== src/Buffers.antt =====
-- The transport's side of a session (mux.c): its buffers, session_go_away, and the stubs.
pub mod Input
use yamux.Common.{ℕ, ◌==◌, List, if◌then◌else◌, minus_one, int_of}
use yamux.Bio.{Buffer, bio_peek, bio_write, bio_consume, bio_pending}
use yamux.Os.{Os}
use yamux.Stailq.{Stailq}
use yamux.Tree.{Tree}
use yamux.Frame.{go_away_normal}
use yamux.State.{M, Code, success, ◌>>=◌, ◌>>◌, pure, call, get_session, put_session}
use yamux.Send.{session_go_away_for_reason}

module _ {W Q T : Type 0} ⦃os : Os W⦄ ⦃sq : Stailq Buffer Q⦄ ⦃tr : Tree T⦄ where
  pub session_go_away : M W Q T Code
  session_go_away = session_go_away_for_reason go_away_normal

  -- The `int` that is returned.
  unfoldable pub session_recv_buf_write : List ℕ → ℕ → M W Q T ℕ
  session_recv_buf_write bytes n = do
    session ← get_session
    (r, recv_buf) ←
        call (λ w. let (r, b, w') = bio_write bytes n session.recv_buf w in ((r, b), w'))
    put_session (record session { recv_buf = recv_buf })
    pure (if r == minus_one then minus_one else int_of n)

  pub session_send_buf_pending : M W Q T ℕ
  session_send_buf_pending = do session ← get_session; pure (bio_pending session.send_buf)

  -- The `int` that is returned, and what `buf` holds.
  pub session_send_buf_peek : ℕ → M W Q T (ℕ × List ℕ)
  session_send_buf_peek n = do session ← get_session; pure (bio_peek n session.send_buf)

  pub session_send_buf_consume : ℕ → M W Q T ℕ
  session_send_buf_consume n = do
    session ← get_session
    let (r, send_buf) = bio_consume n session.send_buf
    put_session (record session { send_buf = send_buf })
    pure r

-- These do nothing yet.
module _ {W Q T : Type 0} where
  pub session_close : M W Q T Code
  session_close = pure success

  pub session_ping : M W Q T Code
  session_ping = pure success

  pub stream_close : ℕ → M W Q T (Unit {0})
  stream_close p = pure tt
