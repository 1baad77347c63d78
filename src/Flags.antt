-- ===== src/Flags.antt =====
-- What the flags of a frame do to a stream: stream_process_flags of mux.c.
pub mod Step
pub mod Process
pub mod Plain
use yamux.Common.{ℕ, Option, none, some, if◌then◌else◌}
use yamux.Os.{Os}
use yamux.Frame.{flag_ack, flag_fin, flag_rst, has_flag}
use yamux.State.{State, M, Code, success, failure, ◌>>=◌, ◌>>◌, pure, load, store}
use yamux.Notify.{stream_notify_waiting}

-- `if (flags & FLAG_ACK)` in stream_process_flags
abbrev pub acked : State → State
acked State.syn_sent = State.established
acked state = state

-- `switch (stream->state)` under `if (flags & FLAG_FIN)`; `none` is the default case.
abbrev pub finished : State → Option State
finished State.syn_sent = some State.remote_close
finished State.syn_received = some State.remote_close
finished State.established = some State.remote_close
finished State.local_close = some State.closed
finished _ = none

module _ {W Q T : Type 0} where
  pub set_state : ℕ → State → M W Q T (Unit {0})
  set_state p state = do stream ← load p; store p (record stream { state = state })

  pub process_ack : ℕ → ℕ → M W Q T (Unit {0})
  unfolding set_state
  process_ack p flags =
      if has_flag flags flag_ack
      then (do stream ← load p; set_state p (acked stream.state))
      else pure tt

module _ {W Q T : Type 0} ⦃os : Os W⦄ where
  pub process_fin : ℕ → ℕ → M W Q T Code
  unfolding set_state
  process_fin p flags =
      if has_flag flags flag_fin
      then (do
        stream ← load p
        elim (finished stream.state) [
          | none ↦ pure failure
          | some state ↦ do set_state p state; stream_notify_waiting p; pure success
        ])
      else pure success

  pub process_rst : ℕ → ℕ → M W Q T Code
  unfolding set_state
  process_rst p flags =
      if has_flag flags flag_rst
      then (do set_state p State.reset; stream_notify_waiting p; pure success)
      else pure success

  -- The RST comes last, and only if the FIN was in order.
  pub then_rst : ℕ → ℕ → Code → M W Q T Code
  unfolding process_rst
  then_rst p flags failure = pure failure
  then_rst p flags success = process_rst p flags

  pub stream_process_flags : ℕ → ℕ → M W Q T Code
  unfolding process_ack process_fin then_rst
  stream_process_flags p flags = do
    process_ack p flags
    code ← process_fin p flags
    then_rst p flags code
