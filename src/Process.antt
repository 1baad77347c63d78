-- ===== src/Process.antt =====
-- The loop of session_process of mux.c over the bytes received.
pub mod Total
pub mod Frame
pub mod Credit
pub mod More
pub mod Deliver
use yamux.Common.{ℕ, zero, suc, ◌+◌, ◌*◌, ◌==◌, true, if◌then◌else◌, int_lt}
use yamux.Bio.{Buffer, bio_read, bio_pending}
use yamux.Os.{Os}
use yamux.Stailq.{Stailq}
use yamux.Tree.{Tree}
use yamux.Frame.{version, hdr_size, hdr_version}
use yamux.State.{M, Code, success, failure, ◌>>=◌, ◌>>◌, pure, assert, get_session, put_session}
use yamux.Handlers.{session_handle}

-- What the head of the loop of session_process comes to: a return, or a frame to handle.
pub data Head : Type 0 where
  returns : Code → Head
  goes_on : Head

-- How a call of session_process ends; `stuck` is a loop that has not ended in its rounds.
pub data Outcome : Type 0 where
  returned : Code → Outcome
  stuck : Outcome

module _ {W Q T : Type 0} ⦃os : Os W⦄ ⦃sq : Stailq Buffer Q⦄ ⦃tr : Tree T⦄ where
  -- The header of a new frame is read and its version checked.
  pub read_hdr : M W Q T Head
  read_hdr = do
    session ← get_session
    if int_lt (bio_pending session.recv_buf) hdr_size then pure (returns success) else do
      let (r, hdr, recv_buf) = bio_read true hdr_size session.recv_buf
      put_session (record session { hdr = hdr; recv_buf = recv_buf })
      assert (r == hdr_size)
      pure (if hdr_version hdr == version then goes_on else returns failure)

  -- A round of the loop.
  pub process_step : M W Q T Head
  unfolding read_hdr
  process_step = do
    session ← get_session
    head ← if session.new_frame then read_hdr else pure goes_on
    elim head [
      | returns code ↦ pure (returns code)
      | goes_on ↦ do
        code ← session_handle
        pure (elim code [ failure ↦ returns failure | success ↦ goes_on ])
    ]

  -- `while (bio_pending(session->recv_buf)) { … }` on fuel.
  pub process_loop : ℕ → M W Q T Outcome
  unfolding process_step
  process_loop zero = pure stuck
  process_loop (suc fuel) = do
    session ← get_session
    if bio_pending session.recv_buf == 0 then pure (returned success) else do
      head ← process_step
      elim head [ returns code ↦ pure (returned code) | goes_on ↦ process_loop fuel ]

  -- A round takes a byte at least, or ends a frame and leaves the next to the round after it.
  pub session_process : M W Q T Outcome
  unfolding process_loop
  session_process = do session ← get_session; process_loop (2 * session.recv_buf.len + 2)
