-- ===== src/Notify.antt =====
-- Readiness of a stream's descriptor (mux.c): the two ends of a socket pair are filled and drained
-- so that `fd` is readable while data waits and writeable while the send window is open.
pub mod Signals
use yamux.Common.{
  ℕ, Bool, true, false, Option, none, some, List, [], ◌∷◌, if◌then◌else◌, ltb, not, length,
}
use yamux.Os.{Os, bytes_block}
use yamux.State.{M, Code, success, failure, ◌>>=◌, ◌>>◌, pure, call, gets, load, store}

-- `sizeof(buf)` of the buffers on the stack
abbrev pub stack_size : ℕ
stack_size = 4096

-- The result of `read` or `write` is more than 0.
abbrev pub moved : Option ℕ → Bool
moved none = false
moved (some n) = ltb 0 n

abbrev pub got_bytes : Option (List ℕ) → Bool
got_bytes none = false
got_bytes (some bytes) = ltb 0 (length bytes)

module _ {W Q T : Type 0} ⦃os : Os W⦄ where
  -- `if (send_padding > sizeof(buf)) { ptr = malloc(send_padding); … }`: whether there is room.
  unfoldable pub padding_buffer : ℕ → M W Q T Bool
  padding_buffer size =
      if ltb stack_size size then call (os.malloc (bytes_block size)) else pure true

  unfoldable pub stream_writeable_notify : ℕ → M W Q T Code
  unfolding padding_buffer
  stream_writeable_notify p = do
    stream ← load p
    if stream.writeable then pure success else do
      room ← padding_buffer stream.send_padding
      if not room then pure failure else do
        drained ← call (os.read stream.private_fd stream.send_padding)
        if not (got_bytes drained)
            then pure failure
            else do store p (record stream { writeable = true }); pure success

  unfoldable pub stream_writeable_waiting : ℕ → M W Q T Code
  unfolding padding_buffer
  stream_writeable_waiting p = do
    stream ← load p
    if not stream.writeable then pure success else do
      room ← padding_buffer stream.send_padding
      if not room then pure failure else do
        padding ← gets (λ s. os.uninit stream.send_padding s.world)
        filled ← call (os.write stream.fd padding)
        if not (moved filled)
            then pure failure
            else do store p (record stream { writeable = false }); pure success

  unfoldable pub stream_readable_notify : ℕ → M W Q T Code
  stream_readable_notify p = do
    stream ← load p
    if stream.readable then pure success else do
      sent ← call (os.write stream.private_fd (0 ∷ []))
      if not (moved sent)
          then pure failure
          else do store p (record stream { readable = true }); pure success

  unfoldable pub stream_readable_waiting : ℕ → M W Q T Code
  stream_readable_waiting p = do
    stream ← load p
    if not stream.readable then pure success else do
      event ← call (os.read stream.fd 1)
      if not (got_bytes event)
          then pure failure
          else do store p (record stream { readable = false }); pure success

  -- Both results are ignored.
  unfoldable pub stream_notify_waiting : ℕ → M W Q T (Unit {0})
  unfolding stream_writeable_notify stream_readable_notify
  stream_notify_waiting p = do stream_writeable_notify p; stream_readable_notify p; pure tt
